-- ===== src/Policy/Tests.antt =====
-- Runs of src/subagents/policy.ts.
use Prim.Native.Char.{Char, code}
use steak_pi.Prelude.{
  ℕ, ◌+◌, ◌≤◌, ◌<◌, String, ◌≡◌, refl, sym, subst, ◌≢◌, ◌⊎◌, inl, inr, Bool, true, false, not,
  Option, none, some, List, [], ◌∷◌, ◌++◌, arith, leb, ◌==◌, if◌then◌else◌, Bool-cases, keep,
  Inside, str_eq, str_eq_iff, str_eq_refl, is_blank, trim, units, decimal,
}
use steak_pi.Coordinator.Registry.{max_tasks}
use steak_pi.Policy.{
  Checked, ◌>>=◌, World, Location, overlaps, walk_unfinished, ok, rejected, undefined, given, found,
  absent,
}
use steak_pi.Policy.Request.{
  SubagentTaskInput, DispatchInput, TaskRecord, RunRecord, Owner, Names, pi, worker,
}
use steak_pi.Policy.Paths.{
  starts_with, ends_in_separator, has_null, has_parent_segment, slice, projection_from,
  physical_projection, normalized_cwd, path_under_cwd, assert_owned_path,
}
use steak_pi.Policy.Ids.{dash_runs, strip_start, strip_end, first_chars, safe_display_id}
use steak_pi.Policy.Dispatch.{own_paths, normalize_task, normalize_tasks, normalize_dispatch}
use steak_pi.Policy.Ownership.{InRange, normalize_dispatch-InRange}
use steak_pi.Policy.Disjoint.{lexicals, some_inj, is_apart, AllPlaced, normalize_dispatch-disjoint}
use steak_pi.Policy.Writes.{stays_below, one_writer}
use steak_pi.Policy.Walk.{physical_projection_finishes}
use Prim.Native.String.{◌++◌ as concat}

-- A directory "/w" of files without directories below it.
abbrev resolved : String → List String → String
resolved base [] = base
resolved base (p ∷ ps) = if starts_with "/" p then p else concat base (concat "/" p)

abbrev flat_world : World
flat_world = record {
  folds_case = false;
  is_darwin = false;
  nfc = λ s. s;
  lower = λ s. s;
  relative = λ p c. if str_eq p c then "" else if str_eq p "/w" then "x" else "..";
  is_absolute = λ s. false;
  resolve = resolved;
  dirname = λ p. "";
  lstat = λ p. found;
  realpath = λ p. some p;
  is_directory = λ p. some true;
  clock = 9;
}

abbrev plain_names : Names
plain_names = record {
  is_retired = λ x. false;
  is_task_class = λ s. true;
  is_account = λ s. true;
  is_claude_model = λ s. false;
  nfkd = λ s. s;
}

abbrev editor : String → String → SubagentTaskInput
editor label path = record {
  label = given label;
  task = given "edit";
  role = undefined;
  may_edit = given true;
  allow_bash = undefined;
  task_class = undefined;
  owned_paths = given (given path ∷ []);
}

abbrev two_editors : String → DispatchInput
two_editors second = record {
  goal = given "goal";
  model = undefined;
  profile = undefined;
  constraints = undefined;
  contract = undefined;
  concurrency = undefined;
  timeout_ms = given 2000;
  max_turns = undefined;
  background = undefined;
  harness = undefined;
  claude_account = undefined;
  tasks = editor "one" "a" ∷ editor "two" second ∷ [];
}

abbrev admitted_task : String → String → String → TaskRecord
admitted_task id label path = record {
  id = id;
  label = label;
  task = "edit";
  role = worker;
  may_edit = true;
  owned_paths = path ∷ [];
  allow_bash = false;
  task_class = none;
}

abbrev admitted_run : RunRecord
admitted_run = record {
  id = "run-x";
  goal = "goal";
  constraints = [];
  contract = none;
  cwd = "/w";
  model = "m";
  harness = pi;
  claude_account = none;
  thinking_level = "high";
  concurrency = 2;
  timeout_ms = 2000;
  max_turns = 64;
  background = false;
  created_at = 5;
  tasks =
      admitted_task "run-x-task-1" "one" "/w/a" ∷ admitted_task "run-x-task-2" "two" "/w/b" ∷ [];
}

abbrev dispatched : String → Checked RunRecord
dispatched second =
    normalize_dispatch flat_world plain_names (two_editors second) "/w" "m" "high" (given 5)
      (given "x")

dispatched_run : dispatched "b" ≡ ok admitted_run
unfolding is_blank units trim has_null has_parent_segment starts_with decimal ◌>>=◌
    normalize_dispatch normalized_cwd safe_display_id dash_runs strip_start strip_end first_chars
    normalize_tasks normalize_task own_paths path_under_cwd projection_from
dispatched_run = refl

overlap_run : dispatched "a" ≡ rejected overlaps
unfolding is_blank units trim has_null has_parent_segment starts_with ◌>>=◌ normalize_dispatch
    normalized_cwd safe_display_id dash_runs strip_start strip_end first_chars normalize_tasks
    normalize_task own_paths path_under_cwd projection_from
overlap_run = refl

normalize_dispatch-InRange_example : InRange admitted_run × (1 ≤ 2) × (2 ≤ max_tasks)
normalize_dispatch-InRange_example =
    normalize_dispatch-InRange flat_world plain_names (two_editors "b") "/w" "m" "high" (given 5)
      (given "x") admitted_run dispatched_run

normalize_dispatch-disjoint_example :
    (root : Location) × (owners : List Owner) × ("/w" ≡ root.lexical)
    × (lexicals owners ≡ "/w/a" ∷ "/w/b" ∷ [])
    × (is_apart flat_world owners ≡ true)
    × AllPlaced flat_world root owners
normalize_dispatch-disjoint_example =
    normalize_dispatch-disjoint flat_world plain_names (two_editors "b") "/w" "m" "high" (given 5)
      (given "x") admitted_run dispatched_run

-- The segments of an absolute path, and what `relative` finds between two of them: "below" stands for
-- any path downwards, ".." for any path upwards.
abbrev onto_segment : Char → List String → List String
onto_segment c [] = String.◌∷◌ c "" ∷ []
onto_segment c (s ∷ ss) = String.◌∷◌ c s ∷ ss

segments_from : String → List String
segments_from String.[] = "" ∷ []
segments_from (String.◌∷◌ c s) =
    let later = segments_from s in if code c == 47 then "" ∷ later else onto_segment c later

abbrev path_segments : String → List String
path_segments p = keep (λ s. not (str_eq s "")) (segments_from p)

strip : List String → List String → Option (List String)
strip [] cs = some cs
strip (p ∷ ps) [] = none
strip (p ∷ ps) (c ∷ cs) = let later = strip ps cs in if str_eq p c then later else none

abbrev way_to : Option (List String) → String
way_to none = ".."
way_to (some []) = ""
way_to (some (s ∷ ss)) = "below"

abbrev tree_world : World
tree_world = record flat_world {
  relative = λ p c. way_to (strip (path_segments p) (path_segments c));
  realpath = λ p. some (if str_eq p "/w/a/y" then "/w/a/x" else p);
}

strip-append : (ps rest : List String) → strip ps (ps ++ rest) ≡ some rest
unfolding strip
strip-append [] rest = refl
strip-append (p ∷ ps) rest = rw (str_eq_refl p) (strip-append ps rest)

strip-some : (ps cs rest : List String) → strip ps cs ≡ some rest → cs ≡ ps ++ rest
unfolding strip
strip-some [] cs rest e = some_inj cs rest e
strip-some (p ∷ ps) [] rest e = absurd (cc e)
strip-some (p ∷ ps) (c ∷ cs) rest e = elim (Bool-cases (str_eq p c)) [
  | inl same ↦
      let later =
        strip-some ps cs rest (subst (λ b. (if b then strip ps cs else none) ≡ some rest) same e) in
      let head : p ≡ c = (str_eq_iff p c).0 same in cc (head, later)
  | inr other ↦ absurd (cc (subst (λ b. (if b then strip ps cs else none) ≡ some rest) other e))
]

tree_below :
    (p c : String)
    → stays_below tree_world (tree_world.relative p c) ≡ true
    → (rest : List String) × (path_segments c ≡ path_segments p ++ rest)
unfolding starts_with
tree_below p c e = by_strip (strip (path_segments p) (path_segments c)) refl e
  where
    by_strip :
        (o : Option (List String))
        → strip (path_segments p) (path_segments c) ≡ o
        → stays_below tree_world (way_to o) ≡ true
        → (rest : List String) × (path_segments c ≡ path_segments p ++ rest)
    by_strip (some rest) at h = (rest, strip-some (path_segments p) (path_segments c) rest at)
    by_strip none at h = absurd (cc h)

below_tree :
    (p c : String) (rest : List String)
    → path_segments c ≡ path_segments p ++ rest
    → stays_below tree_world (tree_world.relative p c) ≡ true
unfolding starts_with
below_tree p c rest e =
    subst (λ cs. stays_below tree_world (way_to (strip (path_segments p) cs)) ≡ true) (sym e)
      (subst (λ o. stays_below tree_world (way_to o) ≡ true)
        (sym (strip-append (path_segments p) rest)) (by_rest rest))
  where
    by_rest : (rest : List String) → stays_below tree_world (way_to (some rest)) ≡ true
    by_rest [] = refl
    by_rest (s ∷ ss) = refl

tree_run :
    normalize_dispatch tree_world plain_names
      (two_editors "b")
      "/w"
      "m"
      "high"
      (given 5)
      (given "x")
    ≡ ok admitted_run
unfolding is_blank units trim has_null has_parent_segment starts_with decimal ◌>>=◌
    normalize_dispatch normalized_cwd safe_display_id dash_runs strip_start strip_end first_chars
    normalize_tasks normalize_task own_paths path_under_cwd projection_from segments_from strip
tree_run = refl

-- The first task writes below the directory that it owns.
written : assert_owned_path tree_world "/w" "a/x" ("/w/a" ∷ []) true ≡ ok "/w/a/x"
unfolding is_blank has_null trim has_parent_segment starts_with units ◌>>=◌ assert_owned_path
    normalized_cwd path_under_cwd projection_from segments_from strip
written = refl

reread :
    (base p : String)
    → Inside p ("/w/a" ∷ "/w/b" ∷ [])
    → (trim p ≡ p) × (tree_world.resolve base (p ∷ []) ≡ p)
unfolding trim is_blank starts_with
reread base p (inl e) =
    subst (λ z. (trim z ≡ z) × (tree_world.resolve base (z ∷ []) ≡ z)) (sym e) (refl, refl)
reread base p (inr (inl e)) =
    subst (λ z. (trim z ≡ z) × (tree_world.resolve base (z ∷ []) ≡ z)) (sym e) (refl, refl)
reread base p (inr (inr h)) = elim h [ ]

-- "/w/a/y" is a link to "/w/a/x".
written_link : assert_owned_path tree_world "/w" "a/y" ("/w/a" ∷ []) true ≡ ok "/w/a/y"
unfolding is_blank has_null trim has_parent_segment starts_with units ◌>>=◌ assert_owned_path
    normalized_cwd path_under_cwd projection_from segments_from strip
written_link = refl

one_writer_example : ◌≡◌ {A = ℕ} 0 0
unfolding projection_from units
one_writer_example =
    one_writer tree_world path_segments tree_below below_tree plain_names (two_editors "b") "/w" "m"
      "high" (given 5) (given "x") admitted_run 0 0 (admitted_task "run-x-task-1" "one" "/w/a")
      (admitted_task "run-x-task-1" "one" "/w/a") "a/x" "a/y" "/w/a/x" "/w/a/y" tree_run reread refl
      refl written written_link refl

-- `dirname` of POSIX on paths without doubled separators: what stands before the last "/".
abbrev before_last : Option String → Char → String → Option String
before_last (some t) c s = some (String.◌∷◌ c t)
before_last none c s = if code c == 47 then some "" else none

before_slash : String → Option String
before_slash String.[] = none
before_slash (String.◌∷◌ c s) = before_last (before_slash s) c s

abbrev first_char : String → String
first_char String.[] = String.[]
first_char (String.◌∷◌ c s) = String.◌∷◌ c String.[]

abbrev parent_of : String → Option String → String
parent_of root none = "."
parent_of root (some String.[]) = root
parent_of root (some (String.◌∷◌ c s)) = String.◌∷◌ c s

abbrev posix_world : World
posix_world = record flat_world {
  dirname = λ p. parent_of (first_char p) (before_slash p);
  lstat = λ p. if str_eq p "/w" then found else absent;
}

abbrev width : Char → ℕ
width c = if leb 65536 (code c) then 2 else 1

units_cons : (c : Char) (s : String) → units (String.◌∷◌ c s) ≡ width c + units s
unfolding units
units_cons c s = refl

units_nil : units String.[] ≡ 0
unfolding units
units_nil = refl

units_suc : (c : Char) (s : String) → 0 < units (String.◌∷◌ c s)
unfolding units
units_suc c s = ground arith

inner_shorter :
    (c : Char) (s t : String) (o : Option String)
    → before_last o c s ≡ some t
    → ((u : String) → o ≡ some u → units u < units s)
    → units t < units (String.◌∷◌ c s)
unfolding units
inner_shorter c s t (some u) e again =
    let less = again u refl in
    let same = some_inj (String.◌∷◌ c u) t e in
    subst (λ z. units z < units (String.◌∷◌ c s)) same
      (rw (units_cons c u, units_cons c s) (omega (arith, less)))
inner_shorter c s t none e again = absolute (code c == 47) e
  where
    absolute :
        (slash : Bool)
        → (if slash then some "" else none) ≡ some t
        → units t < units (String.◌∷◌ c s)
    absolute true h =
        subst (λ z. units z < units (String.◌∷◌ c s)) (some_inj "" t h) (units_suc c s)
    absolute false h = absurd (cc h)

before_slash-shorter : (s t : String) → before_slash s ≡ some t → units t < units s
unfolding before_slash units
before_slash-shorter String.[] t e = absurd (cc e)
before_slash-shorter (String.◌∷◌ c s) t e =
    inner_shorter c s t (before_slash s) e (λ u h. before_slash-shorter s u h)

PosixParent : String → String → Type 0
unfolding starts_with
PosixParent parent p = (parent ≡ p) ⊎ ((starts_with "/" parent ≡ true) × (units parent < units p))

parent_of-PosixParent :
    (c : Char) (s : String) (o : Option String)
    → starts_with "/" (String.◌∷◌ c s) ≡ true
    → code c == 47 ≡ true
    → ((u : String) → o ≡ some u → units u < units s)
    → PosixParent (parent_of (String.◌∷◌ c String.[]) (before_last o c s)) (String.◌∷◌ c s)
unfolding PosixParent starts_with
parent_of-PosixParent c s (some u) e slash inner =
    inr (e, rw (units_cons c u, units_cons c s) (omega (arith, inner u refl)))
parent_of-PosixParent c String.[] none e slash inner = rw slash (inl refl)
parent_of-PosixParent c (String.◌∷◌ d s) none e slash inner = rw slash (
    inr (
      e,
      rw (units_cons c String.[], units_cons c (String.◌∷◌ d s))
          (omega (arith, units_suc d s, units_nil)),
    ))

posix_shorter :
    (p : String)
    → starts_with "/" p ≡ true
    → (posix_world.dirname p ≡ p)
      ⊎ ((starts_with "/" (posix_world.dirname p) ≡ true)
          × (units (posix_world.dirname p) < units p))
unfolding starts_with before_slash PosixParent
posix_shorter String.[] e = absurd (cc e)
posix_shorter (String.◌∷◌ c s) e =
    parent_of-PosixParent c s (before_slash s) e (ground arith) (λ u h. before_slash-shorter s u h)

-- The walk goes up to the directory that exists.
walked : physical_projection posix_world "/w/a/b" ≡ ok "/w/a"
unfolding projection_from before_slash slice ends_in_separator units starts_with
walked = refl

physical_projection_finishes_example :
    physical_projection posix_world "/w/a/b" ≢ rejected walk_unfinished
unfolding starts_with
physical_projection_finishes_example =
    physical_projection_finishes posix_world posix_shorter "/w/a/b" refl
