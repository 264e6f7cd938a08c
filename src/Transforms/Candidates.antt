-- ===== src/Transforms/Candidates.antt =====
-- The candidates and the target message of extensions/ultracompress/src/transforms.ts.
use steak_pi.Prelude.{
  ℕ, suc, ◌+◌, ◌≤◌, ◌<◌, String, ◌≡◌, refl, sym, ap, ◌∙◌, subst, ◌≢◌, ◌⊎◌, inl, inr, Bool, true,
  false, not, ◌&&◌, ◌||◌, Option, none, some, List, [], ◌∷◌, arith, leb, ◌==◌, Bool-cases, and_both,
  or_false, Option-cases, get_elem?, All, All-append, All-map, Inside, units,
}
use steak_pi.Transforms.{
  Role, AgentLikeMessage, TextBlock, Candidate, text_blocks, is_assistant, is_tool_result, is_named,
  is_retrieval_result, last_index, last_assistant_index, is_after, is_exempt, candidates_of,
  collect_from, collect_candidates, user, assistant, tool_result, other_role,
}

module _ (min_chars : ℕ) (key_fn : String → String) (messages : List AgentLikeMessage) where
  -- A long text of a message that is not exempt, at its place.
  abbrev pub Collected : Option ℕ → Candidate → Type 0
  Collected last c =
      (m : AgentLikeMessage) × (get_elem? messages c.message_index ≡ some m)
      × (is_exempt m c.message_index last ≡ false)
      × Inside (record { index = c.block_index; text = c.text }) (text_blocks m.content)
      × (min_chars ≤ units c.text)

  candidates_of-Collected :
      (last : Option ℕ) (i : ℕ) (m : AgentLikeMessage) (bs : List TextBlock)
      → get_elem? messages i ≡ some m
      → is_exempt m i last ≡ false
      → ((b : TextBlock) → Inside b bs → Inside b (text_blocks m.content))
      → All (Collected last) (candidates_of min_chars key_fn i bs)
  unfolding candidates_of
  candidates_of-Collected last i m [] at fit own = tt
  candidates_of-Collected last i m (b ∷ rest) at fit own =
      let later = candidates_of-Collected last i m rest at fit (λ c h. own c (inr h)) in
      elim (Bool-cases (leb min_chars (units b.text))) [
        | inl e ↦ rw e ((m, at, fit, own b (inl refl), ground arith), later)
        | inr e ↦ rw e later
      ]

  collect_from-Collected :
      (last : Option ℕ) (i : ℕ) (rest : List AgentLikeMessage)
      → ((k : ℕ) → get_elem? messages (i + k) ≡ get_elem? rest k)
      → All (Collected last) (collect_from min_chars key_fn last i rest)
  unfolding collect_from
  collect_from-Collected last i [] tail = tt
  collect_from-Collected last i (m ∷ rest) tail =
      let here : get_elem? messages i ≡ some m =
        subst (λ n. get_elem? messages n ≡ some m) (omega arith) (tail 0) in
      let later =
        collect_from-Collected last (suc i) rest (λ k.
          subst (λ n. get_elem? messages n ≡ get_elem? rest k) (omega arith) (tail (suc k))) in
      elim (Bool-cases (is_exempt m i last)) [
        | inl e ↦ rw e later
        | inr e ↦ rw e (
            All-append (Collected last) (candidates_of min_chars key_fn i (text_blocks m.content)) _
              (candidates_of-Collected last i m (text_blocks m.content) here e (λ b h. h)) later)
      ]

at_first : (i j : ℕ) → some i ≡ some j → j ≡ i + 0
at_first i j e = let same : i ≡ j = cc e in omega arith

last_index-is :
    (p : AgentLikeMessage → Bool) (i : ℕ) (ms : List AgentLikeMessage) (j : ℕ)
    → last_index p i ms ≡ some j
    → (k : ℕ) × (m : AgentLikeMessage) × (j ≡ i + k) × (get_elem? ms k ≡ some m) × (p m ≡ true)
unfolding last_index
last_index-is p i [] j e = cc
last_index-is p i (m ∷ ms) j e = elim (Option-cases (last_index p (suc i) ms)) [
  | inl missing ↦ elim (Bool-cases (p m)) [
    | inl fits ↦
        let here : some i ≡ some j = sym (rw missing (rw fits refl)) ∙ e in
        (0, m, at_first i j here, refl, fits)
    | inr other ↦
        let nowhere : none ≡ some j = sym (rw missing (rw other refl)) ∙ e in absurd (cc nowhere)
  ]
  | inr (j', found) ↦
      let same : some j' ≡ some j = sym (rw found refl) ∙ e in
      let (k, m', at, place, fits) = last_index-is p (suc i) ms j (found ∙ same) in
      (suc k, m', omega arith, place, fits)
]

module _ (min_chars : ℕ) (messages : List AgentLikeMessage) where
  -- A candidate is a long text at its place in a tool result that is no retrieval; if it is what the tools
  -- read or bash gave, then a message of the assistant comes later.
  abbrev pub IsCandidate : Candidate → Type 0
  IsCandidate c =
      (m : AgentLikeMessage) × (get_elem? messages c.message_index ≡ some m)
      × (m.role ≡ tool_result)
      × (m.tool_name ≢ some "ultracompress_recall")
      × (((m.tool_name ≡ some "read") ⊎ (m.tool_name ≡ some "bash"))
          → (j : ℕ) × (a : AgentLikeMessage) × (get_elem? messages j ≡ some a)
            × (a.role ≡ assistant)
            × (c.message_index < j))
      × Inside (record { index = c.block_index; text = c.text }) (text_blocks m.content)
      × (min_chars ≤ units c.text)

  tool_role : (m : AgentLikeMessage) → is_tool_result m ≡ true → m.role ≡ tool_result
  tool_role m e = of m.role e
    where
      of :
          (r : Role)
          → (elim r [ user ↦ false | assistant ↦ false | tool_result ↦ true | other_role ↦ false ])
            ≡ true
          → r ≡ tool_result
      of user e = cc e
      of assistant e = cc e
      of tool_result e = refl
      of other_role e = cc e

  assistant_role : (m : AgentLikeMessage) → is_assistant m ≡ true → m.role ≡ assistant
  assistant_role m e = of m.role e
    where
      of :
          (r : Role)
          → (elim r [ user ↦ false | assistant ↦ true | tool_result ↦ false | other_role ↦ false ])
            ≡ true
          → r ≡ assistant
      of user e = cc e
      of assistant e = refl
      of tool_result e = cc e
      of other_role e = cc e

  -- What a message that is not exempt is.
  not-exempt :
      (m : AgentLikeMessage) (i : ℕ) (last : Option ℕ)
      → is_exempt m i last ≡ false
      → (m.role ≡ tool_result)
        × (m.tool_name ≢ some "ultracompress_recall")
        × (((m.tool_name ≡ some "read") ⊎ (m.tool_name ≡ some "bash")) → is_after i last ≡ false)
  unfolding is_exempt is_retrieval_result
  not-exempt m i last e =
      let read = (is_named m "read" || is_named m "bash") && is_after i last in
      let recall = is_tool_result m && is_named m "ultracompress_recall" in
      let (early, no_read) = or_false (not (is_tool_result m) || recall) read e in
      let (kind, no_recall) = or_false (not (is_tool_result m)) recall early in
      let tool : is_tool_result m ≡ true = ground arith in
      (
        tool_role m tool,
        λ n.
            let named : is_named m "ultracompress_recall" ≡ true = rw n refl in
            absurd (cc (and_both _ _ tool named, no_recall)),
        λ n. and_false (is_named m "read" || is_named m "bash") (is_after i last) (named n) no_read,
      )
    where
      and_false : (a b : Bool) → a ≡ true → a && b ≡ false → b ≡ false
      and_false a b p q = ground arith

      named :
          (m.tool_name ≡ some "read") ⊎ (m.tool_name ≡ some "bash")
          → is_named m "read" || is_named m "bash" ≡ true
      named (inl n) = rw n refl
      named (inr n) = rw n refl

  same_place :
      (i k : ℕ) (m a : AgentLikeMessage)
      → i ≡ k
      → get_elem? messages i ≡ some m
      → get_elem? messages k ≡ some a
      → m ≡ a
  same_place i k m a e p q = cc (e, p, q)

  two_roles : (m a : AgentLikeMessage) → m ≡ a → m.role ≡ tool_result → a.role ≡ assistant → ⊥
  two_roles m a e p q =
      let both : tool_result ≡ assistant = sym p ∙ ap (λ (x : AgentLikeMessage). x.role) e ∙ q in
      cc both

  later_assistant :
      (i : ℕ) (m : AgentLikeMessage) (last : Option ℕ)
      → last_assistant_index messages ≡ last
      → get_elem? messages i ≡ some m
      → m.role ≡ tool_result
      → is_after i last ≡ false
      → (j : ℕ) × (a : AgentLikeMessage) × (get_elem? messages j ≡ some a)
        × (a.role ≡ assistant)
        × (i < j)
  unfolding last_assistant_index
  later_assistant i m none l at role after = cc after
  later_assistant i m (some j) l at role after =
      let (k, a, same, place, fits) = last_index-is is_assistant 0 messages j l in
      let is_a = assistant_role a fits in
      elim (Bool-cases (i == k)) [
        | inl e ↦
            let here : i ≡ k = ground arith in
            absurd (two_roles m a (same_place i k m a here at place) role is_a)
        | inr e ↦ (k, a, place, is_a, ground arith)
      ]

  fits-IsCandidate :
      (key_fn : String → String) (c : Candidate)
      → Collected min_chars key_fn messages (last_assistant_index messages) c
      → IsCandidate c
  fits-IsCandidate key_fn c (m, at, fit, own, long) =
      let (role, recall, fresh) = not-exempt m c.message_index _ fit in
      (
        m,
        at,
        role,
        recall,
        λ tool.
            later_assistant c.message_index m (last_assistant_index messages) refl at role
              (fresh tool),
        own,
        long,
      )

-- Only what may be archived is collected: each candidate is a text at its place in a message, of the
-- wanted length; that message is a tool result, not of the tool ultracompress_recall, and if it is of the
-- tool read or bash, then a message of the assistant comes after it.
pub collect_candidates-IsCandidate :
    (messages : List AgentLikeMessage) (min_chars : ℕ) (key_fn : String → String)
    → All (IsCandidate min_chars messages) (collect_candidates messages min_chars key_fn)
unfolding collect_candidates
collect_candidates-IsCandidate messages min_chars key_fn =
    All-map _ (fits-IsCandidate min_chars messages key_fn) (
      collect_from-Collected min_chars key_fn messages (last_assistant_index messages) 0 messages
        (λ k. ap (get_elem? messages) (omega arith)))
