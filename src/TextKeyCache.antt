-- ===== src/TextKeyCache.antt =====
-- extensions/ultracompress/src/text-key-cache.ts: the bounded memory of the keys of texts. The map is the
-- list of its entries in the order of insertion. `compute` is the function that the caller gives with
-- each text, which may depend on the scope.
pub mod Bounds
pub mod Memo
mod Tests
use steak_pi.Prelude.{
  ℕ, ◌+◌, ◌-◌, String, ◌||◌, Option, none, some, List, [], ◌∷◌, ◌++◌, ltb, if◌then◌else◌, length,
  str_eq, units,
}

pub record TextKeyCache : Type 0 where
  pub entries : List (String × String)
  pub chars : ℕ
  pub scope : String
  pub max_chars : ℕ
  pub max_entries : ℕ

unfoldable pub new_cache : ℕ → ℕ → TextKeyCache
new_cache max_chars max_entries = record {
  entries = [];
  chars = 0;
  scope = "";
  max_chars = max_chars;
  max_entries = max_entries;
}

unfoldable pub clear : TextKeyCache → TextKeyCache
clear c = record c { entries = []; chars = 0 }

unfoldable pub set_scope : TextKeyCache → String → TextKeyCache
unfolding clear
set_scope c scope = if str_eq scope c.scope then c else record (clear c) { scope = scope }

abbrev pub KeyAndRest : Type 0
KeyAndRest = String × List (String × String)

abbrev pub put_back : String × String → Option KeyAndRest → Option KeyAndRest
put_back e none = none
put_back e (some (key, rest)) = some (key, e ∷ rest)

-- The key of a text, and the entries without it.
unfoldable pub take_out : String → List (String × String) → Option KeyAndRest
take_out text [] = none
take_out text (e ∷ es) =
    let later = take_out text es in if str_eq e.0 text then some (e.1, es) else put_back e later

-- The loop that drops the oldest entries.
unfoldable pub evict : ℕ → ℕ → List (String × String) → ℕ → List (String × String) × ℕ
evict max_chars max_entries [] chars = ([], chars)
evict max_chars max_entries (e ∷ es) chars =
    let rest = evict max_chars max_entries es (chars - units e.0) in
    if ltb max_chars chars || ltb max_entries (length (e ∷ es)) then rest else (e ∷ es, chars)

-- A key that is known becomes the youngest entry.
abbrev pub reuse : TextKeyCache → String → KeyAndRest → TextKeyCache
reuse c text (known, rest) = record c { entries = rest ++ ((text, known) ∷ []) }

unfoldable pub remember : TextKeyCache → String → String → TextKeyCache
remember c text key =
    let kept =
      evict c.max_chars c.max_entries (c.entries ++ ((text, key) ∷ [])) (c.chars + units text) in
    if ltb c.max_chars (units text) || ltb c.max_entries 1
    then c
    else record c { entries = kept.0; chars = kept.1 }

abbrev pub get_from :
    TextKeyCache → String → (String → String → String) → Option KeyAndRest → TextKeyCache × String
get_from c text compute (some found) = (reuse c text found, found.0)
get_from c text compute none = let key = compute c.scope text in (remember c text key, key)

unfoldable pub get : TextKeyCache → String → (String → String → String) → TextKeyCache × String
get c text compute = get_from c text compute (take_out text c.entries)

pub data Call : Type 0 where
  sets_scope : String → Call
  gets : String → Call
  clears : Call

-- What a call changes, and the key that it gives.
unfoldable pub answer_call :
    (String → String → String) → TextKeyCache → Call → TextKeyCache × Option String
answer_call compute c (sets_scope scope) = (set_scope c scope, none)
answer_call compute c (gets text) = let (c', key) = get c text compute in (c', some key)
answer_call compute c clears = (clear c, none)

-- The cache after the calls, and the answers.
unfoldable pub answer_calls :
    (String → String → String) → TextKeyCache → List Call → TextKeyCache × List (Option String)
answer_calls compute c [] = (c, [])
answer_calls compute c (call ∷ calls) =
    let (c1, first) = answer_call compute c call in
    let (c2, rest) = answer_calls compute c1 calls in (c2, first ∷ rest)
