-- ===== src/Policy/Ids.antt =====
-- `safeDisplayId` of src/subagents/policy.ts.
use steak_pi.Prelude.{
  ℕ, zero, suc, String, Bool, true, false, ◌&&◌, ◌||◌, ltb, leb, ◌==◌, if◌then◌else◌, str_eq, units,
}
use steak_pi.Policy.{Checked, ◌>>=◌, ◌>>◌, guard, Input, nonempty_string, no_safe_id, ok}
use Prim.Native.Char.{code}
use Prim.Native.String.{◌++◌ as concat}

-- `source.normalize("NFKD")` is given; what follows keeps letters, digits, ".", "_" and "-".
abbrev pub is_id_char : ℕ → Bool
is_id_char c =
    (leb 65 c && leb c 90)
    || (leb 97 c && leb c 122)
    || (leb 48 c && leb c 57)
    || c == 46
    || c == 95
    || c == 45

abbrev pub is_edge_char : ℕ → Bool
is_edge_char c = c == 46 || c == 95 || c == 45

-- `.replace(/[^A-Za-z0-9._-]+/g, "-")`: a run of other characters becomes one dash.
unfoldable pub dash_runs : Bool → String → String
dash_runs in_run String.[] = ""
dash_runs in_run (String.◌∷◌ c s) =
    let kept = dash_runs false s in
    let skipped = dash_runs true s in
    if is_id_char (code c)
    then String.◌∷◌ c kept
    else if in_run
    then skipped
    else concat "-" skipped

-- `.replace(/^[._-]+|[._-]+$/g, "")`
unfoldable pub strip_start : String → String
strip_start String.[] = ""
strip_start (String.◌∷◌ c s) = if is_edge_char (code c) then strip_start s else String.◌∷◌ c s

unfoldable pub strip_end : String → String
strip_end String.[] = ""
strip_end (String.◌∷◌ c s) =
    let rest = strip_end s in
    if is_edge_char (code c) && str_eq rest "" then "" else String.◌∷◌ c rest

-- `.slice(0, n)`, of characters that are one unit each.
unfoldable pub first_chars : ℕ → String → String
first_chars zero s = ""
first_chars (suc n) String.[] = ""
first_chars (suc n) (String.◌∷◌ c s) = String.◌∷◌ c (first_chars n s)

unfoldable pub safe_display_id : (String → String) → Input String → Checked String
safe_display_id nfkd raw = do
  source ← nonempty_string raw
  let safe = first_chars 64 (strip_end (strip_start (dash_runs false (nfkd source))))
  guard (ltb 0 (units safe)) no_safe_id
  ok safe
