-- ===== src/TextKeyCache/Memo.antt =====
-- The cache of extensions/ultracompress/src/text-key-cache.ts against the function that it remembers.
use steak_pi.Prelude.{
  ℕ, ◌+◌, ◌-◌, String, ◌≡◌, refl, sym, ap, ◌∙◌, subst, inl, inr, ◌||◌, Option, none, some, List, [],
  ◌∷◌, ◌++◌, ltb, Bool-cases, length, str_eq, str_eq_iff, units,
}
use steak_pi.TextKeyCache.{
  TextKeyCache, new_cache, clear, set_scope, KeyAndRest, take_out, evict, remember, get_from, get,
  Call, answer_call, answer_calls, sets_scope, gets, clears,
}
use steak_pi.TextKeyCache.Bounds.{take_out-cases}

-- What the cache promises: the scope is trues that a call changes, and a key is the one of the scope.
unfoldable pub promised : (String → String → String) → String → List Call → List (Option String)
promised compute scope [] = []
promised compute scope (sets_scope next ∷ calls) = none ∷ promised compute next calls
promised compute scope (gets text ∷ calls) =
    some (compute scope text) ∷ promised compute scope calls
promised compute scope (clears ∷ calls) = none ∷ promised compute scope calls

module _ (compute : String → String → String) where
  -- Every entry is what the function says of its text in this scope.
  unfoldable pub AllTrue : String → List (String × String) → Type 0
  AllTrue scope [] = Unit {0}
  AllTrue scope (e ∷ es) = (e.1 ≡ compute scope e.0) × AllTrue scope es

  true_snoc :
      (scope : String) (es : List (String × String)) (e : String × String)
      → AllTrue scope es
      → e.1 ≡ compute scope e.0
      → AllTrue scope (es ++ (e ∷ []))
  unfolding AllTrue
  true_snoc scope [] e trues this = (this, tt)
  true_snoc scope (d ∷ es) e (one, trues) this = (one, true_snoc scope es e trues this)

  take_out-true :
      (scope text : String) (es : List (String × String)) (x : KeyAndRest)
      → AllTrue scope es
      → take_out text es ≡ some x
      → (x.0 ≡ compute scope text) × AllTrue scope x.1
  unfolding AllTrue take_out
  take_out-true scope text [] x trues e = cc
  take_out-true scope text (d ∷ es) x (one, trues) e = elim (take_out-cases text d es x e) [
    | inl (same, whole) ↦ (
      ap (λ (y : KeyAndRest). y.0) whole ∙ one ∙ ap (compute scope) same,
      subst (AllTrue scope) (sym (ap (λ (y : KeyAndRest). y.1) whole)) trues,
    )
    | inr (rest, found, whole) ↦
        let (key, left) = take_out-true scope text es (x.0, rest) trues found in
        (key, subst (AllTrue scope) (sym (ap (λ (y : KeyAndRest). y.1) whole)) (one, left))
  ]

  evict-true :
      (scope : String) (max_chars max_entries : ℕ) (es : List (String × String)) (chars : ℕ)
      → AllTrue scope es
      → AllTrue scope (evict max_chars max_entries es chars).0
  unfolding evict AllTrue
  evict-true scope max_chars max_entries [] chars trues = trues
  evict-true scope max_chars max_entries (d ∷ es) chars (one, trues) =
      elim (Bool-cases (ltb max_chars chars || ltb max_entries (length (d ∷ es)))) [
        | inl over ↦ rw over (evict-true scope max_chars max_entries es (chars - units d.0) trues)
        | inr fits ↦ rw fits (one, trues)
      ]

  abbrev Remembers : TextKeyCache → String → Type 0
  Remembers c scope = (c.scope ≡ scope) × AllTrue c.scope c.entries

  get-true :
      (c : TextKeyCache) (text : String)
      → AllTrue c.scope c.entries
      → ((get c text compute).1 ≡ compute c.scope text) × Remembers (get c text compute).0 c.scope
  unfolding get remember
  get-true c text trues = from (take_out text c.entries) refl
    where
      from :
          (o : Option KeyAndRest)
          → take_out text c.entries ≡ o
          → ((get_from c text compute o).1 ≡ compute c.scope text)
            × Remembers (get_from c text compute o).0 c.scope
      from (some (known, rest)) found =
          let (key, left) = take_out-true c.scope text c.entries (known, rest) trues found in
          (key, (refl, true_snoc c.scope rest (text, known) left key))
      from none found = elim (Bool-cases (ltb c.max_chars (units text) || ltb c.max_entries 1)) [
        | inl over ↦ (refl, rw over (refl, trues))
        | inr fits ↦ (
          refl,
          rw fits (
            refl,
            evict-true c.scope c.max_chars c.max_entries _ (c.chars + units text)
                (true_snoc c.scope c.entries (text, compute c.scope text) trues refl),
          ),
        )
      ]

  set_scope-true :
      (c : TextKeyCache) (scope : String)
      → AllTrue c.scope c.entries
      → Remembers (set_scope c scope) scope
  unfolding set_scope clear AllTrue
  set_scope-true c scope trues = elim (Bool-cases (str_eq scope c.scope)) [
    | inl same ↦ rw same (sym ((str_eq_iff scope c.scope).0 same), trues)
    | inr other ↦ rw other (refl, tt)
  ]

  answer_calls-true :
      (c : TextKeyCache) (calls : List Call)
      → AllTrue c.scope c.entries
      → (answer_calls compute c calls).1 ≡ promised compute c.scope calls
  unfolding answer_calls answer_call promised clear AllTrue
  answer_calls-true c [] trues = refl
  answer_calls-true c (sets_scope scope ∷ calls) trues =
      let (same, still) = set_scope-true c scope trues in
      ap (λ x. none ∷ x)
        (answer_calls-true (set_scope c scope) calls still
          ∙ ap (λ s. promised compute s calls) same)
  answer_calls-true c (gets text ∷ calls) trues =
      let (key, (same, still)) = get-true c text trues in
      cc (
        ap (λ k. some k ∷ (answer_calls compute (get c text compute).0 calls).1) key,
        ap (λ x. some (compute c.scope text) ∷ x)
            (answer_calls-true (get c text compute).0 calls still
              ∙ ap (λ s. promised compute s calls) same),
      )
  answer_calls-true c (clears ∷ calls) trues =
      ap (λ x. none ∷ x) (answer_calls-true (clear c) calls tt)

  -- Whatever the limits of a new cache are, the answers to any calls are those of the function that is
  -- remembered, in the scope that was last set.
  pub answer_calls-promised :
      (max_chars max_entries : ℕ) (calls : List Call)
      → (answer_calls compute (new_cache max_chars max_entries) calls).1 ≡ promised compute "" calls
  unfolding new_cache AllTrue
  answer_calls-promised max_chars max_entries calls =
      answer_calls-true (new_cache max_chars max_entries) calls tt
