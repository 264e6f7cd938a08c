-- ===== src/Policy/Paths.antt =====
-- The paths of src/subagents/policy.ts: what lies within what, as written and as resolved, and
-- `assertOwnedPath`, which admits a worker's reads and writes. The separator is "/".
use steak_pi.Prelude.{
  ℕ, zero, suc, ◌+◌, ◌-◌, String, Bool, true, false, not, ◌&&◌, ◌||◌, Option, none, some, List, [],
  ◌∷◌, ltb, ◌==◌, if◌then◌else◌, length, any, str_eq, units,
}
use steak_pi.Policy.{
  Checked, ◌>>=◌, ◌>>◌, guard, Input, Stat, World, Location, nonempty_string, null_byte, traversal,
  outside_cwd, escapes_cwd, unresolved_symlink, not_inspected, no_ancestor, cwd_not_directory,
  cwd_missing, needs_owned_path, not_owned, walk_unfinished, ok, rejected, given, found, absent,
  failed,
}
use Prim.Native.Char.{code}
use Prim.Native.String.{◌++◌ as concat}

-- `value.startsWith(prefix)`.
unfoldable pub starts_with : String → String → Bool
starts_with String.[] s = true
starts_with (String.◌∷◌ c p) String.[] = false
starts_with (String.◌∷◌ c p) (String.◌∷◌ d s) = (code c) == (code d) && starts_with p s

-- `value.endsWith("/")`.
unfoldable pub ends_in_separator : String → Bool
ends_in_separator String.[] = false
ends_in_separator (String.◌∷◌ c s) = (if str_eq s "" then code c == 47 else ends_in_separator s)

-- `value.includes("\0")`.
unfoldable pub has_null : String → Bool
has_null String.[] = false
has_null (String.◌∷◌ c s) = code c == 0 || has_null s

-- The first segment of `value.split(/[\\/]/)` is "..", or a later one is. The first argument is what
-- has been read of the segment.
unfoldable pub has_parent_segment : String → String → Bool
has_parent_segment front String.[] = str_eq front ".."
has_parent_segment front (String.◌∷◌ c s) =
    if code c == 47 || code c == 92
    then str_eq front ".." || has_parent_segment "" s
    else has_parent_segment (concat front (String.◌∷◌ c "")) s

-- `value.slice(n)`.
unfoldable pub slice : ℕ → String → String
slice n String.[] = ""
slice n (String.◌∷◌ c s) =
    let rest = slice (n - units (String.◌∷◌ c "")) s in if n == 0 then String.◌∷◌ c s else rest

module _ (w : World) where
  abbrev pub comparable_path : String → String
  comparable_path value =
      let normalized = if w.is_darwin then w.nfc value else value in
      if w.folds_case then w.lower normalized else normalized

  abbrev pub is_within : String → String → Bool
  is_within parent child =
      let rel = w.relative (comparable_path parent) (comparable_path child) in
      str_eq rel ""
      || (not (starts_with "../" rel) && (not (str_eq rel "..") && not (w.is_absolute rel)))

  abbrev pub assert_no_traversal : String → Checked (Unit {0})
  assert_no_traversal path =
      if has_null path
      then rejected null_byte
      else if has_parent_segment "" path
      then rejected traversal
      else ok tt

  -- What is known at one path of the walk: where it is, or what the walk above it finds.
  abbrev pub walk_step :
      String → List String → Stat → Option String → String → Checked String → Checked String
  walk_step current missing found none parent above = rejected unresolved_symlink
  walk_step current missing found (some real) parent above = ok (w.resolve real missing)
  walk_step current missing failed real parent above = rejected not_inspected
  walk_step current missing absent real parent above =
      if str_eq parent current then rejected no_ancestor else above

  -- The walk of `physicalProjection` from a path to its nearest ancestor that exists.
  unfoldable pub projection_from : ℕ → String → List String → Checked String
  projection_from zero current missing = rejected walk_unfinished
  projection_from (suc fuel) current missing =
      let parent = w.dirname current in
      let name = slice (units parent + (if ends_in_separator parent then 0 else 1)) current in
      let above = projection_from fuel parent (name ∷ missing) in
      walk_step current missing (w.lstat current) (w.realpath current) parent above

  abbrev pub physical_projection : String → Checked String
  physical_projection target = projection_from (units target + 1) target []

  abbrev pub cwd_location : String → Option Bool → Option String → Checked Location
  cwd_location path none real = rejected cwd_missing
  cwd_location path (some false) real = rejected cwd_not_directory
  cwd_location path (some true) none = rejected cwd_missing
  cwd_location path (some true) (some real) = ok (record { lexical = path; physical = real })

  unfoldable pub normalized_cwd : String → Checked Location
  normalized_cwd cwd = do
    name ← nonempty_string (given cwd)
    let path = w.resolve name []
    cwd_location path (w.is_directory path) (w.realpath path)

  unfoldable pub path_under_cwd : Location → Input String → Checked Location
  path_under_cwd cwd input = do
    supplied ← nonempty_string input
    assert_no_traversal supplied
    let lexical = w.resolve cwd.lexical (supplied ∷ [])
    guard (is_within cwd.lexical lexical) outside_cwd
    physical ← physical_projection lexical
    guard (is_within cwd.physical physical) escapes_cwd
    ok (record { lexical = lexical; physical = physical })

  abbrev pub locate_all : Location → List String → Checked (List Location)
  locate_all root [] = ok []
  locate_all root (p ∷ ps) = do
    first ← path_under_cwd root (given p)
    rest ← locate_all root ps
    ok (first ∷ rest)

  -- Within both as written and as resolved.
  abbrev pub is_owner : Location → Location → Bool
  is_owner candidate owner =
      is_within owner.lexical candidate.lexical && is_within owner.physical candidate.physical

  abbrev pub authorize : Location → Location → List String → Checked String
  authorize root candidate owned = do
    guard (ltb 0 (length owned)) needs_owned_path
    owners ← locate_all root owned
    guard (any (is_owner candidate) owners) not_owned
    ok candidate.lexical

  unfoldable pub assert_owned_path : String → String → List String → Bool → Checked String
  assert_owned_path cwd path owned writes = do
    root ← normalized_cwd cwd
    candidate ← path_under_cwd root (given path)
    if writes then authorize root candidate owned else ok candidate.lexical
