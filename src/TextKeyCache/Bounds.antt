-- ===== src/TextKeyCache/Bounds.antt =====
-- How large the cache of extensions/ultracompress/src/text-key-cache.ts grows.
use steak_pi.Prelude.{
  ℕ, suc, ◌+◌, ◌-◌, ◌≤◌, String, ◌≡◌, refl, sym, ap, ◌∙◌, subst, ◌⊎◌, inl, inr, true, false, ◌||◌,
  Option, none, some, List, [], ◌∷◌, ◌++◌, arith, ltb, if◌then◌else◌, Bool-cases, length, all,
  str_eq, str_eq_iff, units,
}
use steak_pi.TextKeyCache.{
  TextKeyCache, new_cache, clear, set_scope, KeyAndRest, put_back, take_out, evict, remember,
  get_from, get, Call, answer_call, answer_calls, sets_scope, gets, clears,
}

unfoldable pub total : List (String × String) → ℕ
total [] = 0
total (e ∷ es) = units e.0 + total es

total_snoc :
    (es : List (String × String)) (e : String × String)
    → total (es ++ (e ∷ [])) ≡ total es + units e.0
unfolding total
total_snoc [] e = ground arith
total_snoc (d ∷ es) e = let h = total_snoc es e in ground arith

length_snoc :
    (es : List (String × String)) (e : String × String) → length (es ++ (e ∷ [])) ≡ length es + 1
length_snoc [] e = ground arith
length_snoc (d ∷ es) e = let h = length_snoc es e in ground arith

-- An entry that is taken out is one of them, and the others stay.
pub take_out-cases :
    (text : String) (d : String × String) (es : List (String × String)) (x : KeyAndRest)
    → take_out text (d ∷ es) ≡ some x
    → ((d.0 ≡ text) × (x ≡ (d.1, es)))
      ⊎ ((rest : List (String × String)) × (take_out text es ≡ some (x.0, rest))
          × (x ≡ (x.0, d ∷ rest)))
unfolding take_out
take_out-cases text d es x e = elim (Bool-cases (str_eq d.0 text)) [
  | inl same ↦ inl ((str_eq_iff d.0 text).0 same, cc (sym (here same) ∙ e))
  | inr other ↦ inr (later (take_out text es) refl (sym (there other) ∙ e))
]
  where
    here :
        str_eq d.0 text ≡ true
        → (if str_eq d.0 text then some (d.1, es) else put_back d (take_out text es))
          ≡ some (d.1, es)
    here same = rw same refl

    there :
        str_eq d.0 text ≡ false
        → (if str_eq d.0 text then some (d.1, es) else put_back d (take_out text es))
          ≡ put_back d (take_out text es)
    there other = rw other refl

    later :
        (o : Option KeyAndRest)
        → take_out text es ≡ o
        → put_back d o ≡ some x
        → (rest : List (String × String)) × (take_out text es ≡ some (x.0, rest))
          × (x ≡ (x.0, d ∷ rest))
    later none t p = cc p
    later (some (key, rest)) t p =
        let same : (key, d ∷ rest) ≡ x = cc p in
        (
          rest,
          t ∙ ap (λ k. some (k, rest)) (ap (λ (y : KeyAndRest). y.0) same),
          sym same ∙ ap (λ k. (k, d ∷ rest)) (ap (λ (y : KeyAndRest). y.0) same),
        )

take_out-total :
    (text : String) (es : List (String × String)) (x : KeyAndRest)
    → take_out text es ≡ some x
    → (total es ≡ total x.1 + units text) × (length es ≡ length x.1 + 1)
unfolding take_out total
take_out-total text [] x e = cc
take_out-total text (d ∷ es) x e = elim (take_out-cases text d es x e) [
  | inl (same, all) ↦
      let size : units d.0 ≡ units text = ap units same in
      let t : total x.1 ≡ total es = ap (λ (y : KeyAndRest). total y.1) all in
      let l : length x.1 ≡ length es = ap (λ (y : KeyAndRest). length y.1) all in
      (omega arith, omega arith)
  | inr (rest, found, all) ↦
      let (t', l') = take_out-total text es (x.0, rest) found in
      let t : total x.1 ≡ units d.0 + total rest = ap (λ (y : KeyAndRest). total y.1) all in
      let l : length x.1 ≡ suc (length rest) = ap (λ (y : KeyAndRest). length y.1) all in
      (omega arith, omega arith)
]

-- The count of characters is right, and both limits hold.
abbrev pub IsBounded : TextKeyCache → Type 0
IsBounded c =
    (c.chars ≡ total c.entries) × (c.chars ≤ c.max_chars) × (length c.entries ≤ c.max_entries)

abbrev Fits : ℕ → ℕ → List (String × String) × ℕ → Type 0
Fits max_chars max_entries out =
    (out.1 ≡ total out.0) × (out.1 ≤ max_chars) × (length out.0 ≤ max_entries)

evict-Fits :
    (max_chars max_entries : ℕ) (es : List (String × String)) (chars : ℕ)
    → chars ≡ total es
    → Fits max_chars max_entries (evict max_chars max_entries es chars)
unfolding evict total
evict-Fits max_chars max_entries [] chars e = (e, ground arith, ground arith)
evict-Fits max_chars max_entries (d ∷ es) chars e =
    let h = evict-Fits max_chars max_entries es (chars - units d.0) (omega arith) in
    elim (Bool-cases (ltb max_chars chars || ltb max_entries (length (d ∷ es)))) [
      | inl over ↦ rw over h
      | inr fits ↦ rw fits (e, ground arith, ground arith)
    ]

get-IsBounded :
    (c : TextKeyCache) (text : String) (compute : String → String → String)
    → IsBounded c
    → IsBounded (get c text compute).0
unfolding get remember
get-IsBounded c text compute (counted, few, small) = from (take_out text c.entries) refl
  where
    from :
        (o : Option KeyAndRest)
        → take_out text c.entries ≡ o
        → IsBounded (get_from c text compute o).0
    from (some (known, rest)) found =
        let (t, l) = take_out-total text c.entries (known, rest) found in
        (
          counted ∙ t ∙ sym (total_snoc rest (text, known)),
          few,
          rw (length_snoc rest (text, known)) (subst (λ n. n ≤ c.max_entries) l small),
        )
    from none found = elim (Bool-cases (ltb c.max_chars (units text) || ltb c.max_entries 1)) [
      | inl over ↦ rw over (counted, few, small)
      | inr fits ↦ rw fits (
          evict-Fits c.max_chars c.max_entries _ (c.chars + units text) (
            ap (λ n. n + units text) counted
            ∙ sym (total_snoc c.entries (text, compute c.scope text))))
    ]

answer_call-IsBounded :
    (compute : String → String → String) (c : TextKeyCache) (call : Call)
    → IsBounded c
    → IsBounded (answer_call compute c call).0
unfolding answer_call clear total set_scope
answer_call-IsBounded compute c (gets text) h = get-IsBounded c text compute h
answer_call-IsBounded compute c clears h = (refl, omega arith, omega arith)
answer_call-IsBounded compute c (sets_scope scope) h = elim (Bool-cases (str_eq scope c.scope)) [
  | inl same ↦ rw same h
  | inr other ↦ rw other (refl, omega arith, omega arith)
]

answer_calls-IsBounded :
    (compute : String → String → String) (c : TextKeyCache) (calls : List Call)
    → IsBounded c
    → IsBounded (answer_calls compute c calls).0
unfolding answer_calls
answer_calls-IsBounded compute c [] h = h
answer_calls-IsBounded compute c (call ∷ calls) h =
    answer_calls-IsBounded compute (answer_call compute c call).0 calls
      (answer_call-IsBounded compute c call h)

-- After any calls on a new cache the characters that are counted are those of the texts in it, and
-- neither they nor the entries exceed their limit.
pub answer_calls-new_cache-IsBounded :
    (compute : String → String → String) (max_chars max_entries : ℕ) (calls : List Call)
    → IsBounded (answer_calls compute (new_cache max_chars max_entries) calls).0
unfolding new_cache total
answer_calls-new_cache-IsBounded compute max_chars max_entries calls =
    answer_calls-IsBounded compute (new_cache max_chars max_entries) calls
      (refl, omega arith, omega arith)
