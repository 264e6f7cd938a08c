-- ===== src/Turn/Chunks.antt =====
-- The chunks in which a response arrives do not matter to `AnthropicCapture` of
-- extensions/claude-code/turn-relay.ts.
use steak_pi.Prelude.{
  ℕ, zero, suc, ◌+◌, ◌≤◌, ◌≡◌, refl, sym, ap, ◌∙◌, fun_ext, Option, none, some, List, [], ◌∷◌, ◌++◌,
  arith, length,
}
use steak_pi.Turn.{Text, Seen, AnthropicCapture, and_then}
use steak_pi.Turn.Frames.{find_frame, find_frame-append, find_frame-shorter}
use steak_pi.Turn.Capture.{
  TextDecoder, Parsers, process, on_frame, consume_frames, take_text, feed, feed_all,
}
use mathlib.Core.List.{append_assoc}

and_then_assoc :
    {A B C : Type 0} (o : Option A) (f : A → Option B) (g : B → Option C)
    → and_then (and_then o f) g ≡ and_then o (λ a. and_then (f a) g)
and_then_assoc none f g = refl
and_then_assoc (some a) f g = refl

length_append : (s t : Text) → length (s ++ t) ≡ length s + length t
length_append [] t = ground arith
length_append (x ∷ s) t = let h = length_append s t in ground arith

and_then-some : {A : Type 0} (o : Option A) → and_then o (λ a. some a) ≡ o
and_then-some none = refl
and_then-some (some a) = refl

-- The bytes of the chunks.
unfoldable pub joined : List ℕ → List (List ℕ) → List ℕ
joined first [] = first
joined first (next ∷ chunks) = first ++ joined next chunks

module _ {J U : Type 0} (parsers : Parsers J U) where
  -- More fuel than the text is long changes nothing.
  consume-fuel :
      (m n : ℕ) (s : Text) (c : Seen J U)
      → length s ≤ m
      → length s ≤ n
      → consume_frames parsers m s c ≡ consume_frames parsers n s c
  unfolding consume_frames find_frame
  consume-fuel zero zero s c a b = refl
  consume-fuel zero (suc n) [] c a b = refl
  consume-fuel zero (suc n) (x ∷ s) c a b = absurd (omega arith)
  consume-fuel (suc m) zero [] c a b = refl
  consume-fuel (suc m) zero (x ∷ s) c a b = absurd (omega arith)
  consume-fuel (suc m) (suc n) s c a b =
      same (find_frame s) refl (λ r c' l k. consume-fuel m n r c' l k)
    where
      same :
          (o : Option (Text × Text))
          → find_frame s ≡ o
          → ((r : Text) (c' : Seen J U)
              → length r ≤ m
              → length r ≤ n
              → consume_frames parsers m r c' ≡ consume_frames parsers n r c')
          → on_frame parsers s c (λ r c'. consume_frames parsers m r c') o
            ≡ on_frame parsers s c (λ r c'. consume_frames parsers n r c') o
      same none e again = refl
      same (some (f, r)) e again =
          let less = find_frame-shorter s f r e in
          ap (and_then (process parsers c f)) (fun_ext λ c'. again r c' (omega arith) (omega arith))

  -- What is left of a text, with more text after it.
  resume : Text → Seen J U × Text → Option (Seen J U × Text)
  resume y x = consume_frames parsers (length (x.1 ++ y)) (x.1 ++ y) x.0

  -- Reading a text with more text after it is reading the text, and then what is left with the rest.
  consume-append :
      (m n : ℕ) (s y : Text) (c : Seen J U)
      → length (s ++ y) ≤ m
      → length s ≤ n
      → consume_frames parsers m (s ++ y) c ≡ and_then (consume_frames parsers n s c) (resume y)
  unfolding consume_frames resume find_frame
  consume-append m zero s y c a b = consume-fuel m (length (s ++ y)) (s ++ y) c a (omega arith)
  consume-append m (suc n) [] y c a b = consume-fuel m (length y) y c a (omega arith)
  consume-append zero (suc n) (x ∷ s) y c a b = absurd (omega arith)
  consume-append (suc m) (suc n) (x ∷ s) y c a b =
      split (find_frame (x ∷ s)) refl (λ r c' l k. consume-append m n r y c' l k)
    where
      split :
          (o : Option (Text × Text))
          → find_frame (x ∷ s) ≡ o
          → ((r : Text) (c' : Seen J U)
              → length (r ++ y) ≤ m
              → length r ≤ n
              → consume_frames parsers m (r ++ y) c'
                ≡ and_then (consume_frames parsers n r c') (resume y))
          → consume_frames parsers (suc m) (x ∷ s ++ y) c
            ≡ and_then
                (on_frame parsers (x ∷ s) c (λ r c'. consume_frames parsers n r c') o)
                (resume y)
      split none e again = consume-fuel (suc m) (length (x ∷ s ++ y)) (x ∷ s ++ y) c a (omega arith)
      split (some (f, r)) e again =
          let less = find_frame-shorter (x ∷ s) f r e in
          let whole = length_append (x ∷ s) y in
          let left = length_append r y in
          ap (on_frame parsers (x ∷ s ++ y) c (λ rest c'. consume_frames parsers m rest c'))
            (find_frame-append (x ∷ s) y f r e)
          ∙ ap (and_then (process parsers c f))
              (fun_ext λ c'. again r c' (omega arith) (omega arith))
          ∙ sym (
              and_then_assoc (process parsers c f) (λ c'. consume_frames parsers n r c') (resume y))

  module _ {D : Type 0} (decoder : TextDecoder D)
      (streams : (d : D) (a b : List ℕ)
        → decoder.decode d (a ++ b) ≡ (
          (decoder.decode (decoder.decode d a).0 b).0,
          (decoder.decode d a).1 ++ (decoder.decode (decoder.decode d a).0 b).1,
        )) where
    abbrev kept : D → Seen J U × Text → Option (AnthropicCapture J U D)
    kept d x = some (record { seen = x.0; pending = x.1; decoder = d })

    -- Two chunks.
    pub feed-append :
        (c : AnthropicCapture J U D) (a b : List ℕ)
        → feed parsers decoder c (a ++ b)
          ≡ and_then (feed parsers decoder c a) (λ c'. feed parsers decoder c' b)
    unfolding feed resume
    feed-append c a b =
        let t1 = (decoder.decode c.decoder a).1 in
        let d1 = (decoder.decode c.decoder a).0 in
        let t2 = (decoder.decode d1 b).1 in
        let d2 = (decoder.decode d1 b).0 in
        let s = c.pending ++ t1 in
        ap (take_text parsers decoder c) (streams c.decoder a b)
        ∙ ap (λ t. and_then (consume_frames parsers (length t) t c.seen) (kept d2))
            (sym (append_assoc c.pending t1 t2))
        ∙ ap (λ o. and_then o (kept d2))
            (consume-append (length (s ++ t2)) (length s) s t2 c.seen (omega arith) (omega arith))
        ∙ and_then_assoc (consume_frames parsers (length s) s c.seen) (resume t2) (kept d2)
        ∙ sym (
            and_then_assoc (consume_frames parsers (length s) s c.seen) (kept d1)
              (λ c'. feed parsers decoder c' b))

    -- If the decoder reads two chunks in a row as it reads them in one, then the capture of a response
    -- depends on its bytes only, not on how they are cut: the same message, arguments, events, completion,
    -- error and unread text, or the same failure to parse.
    pub feed_all-joined :
        (c : AnthropicCapture J U D) (first : List ℕ) (chunks : List (List ℕ))
        → feed_all parsers decoder c (first ∷ chunks) ≡ feed parsers decoder c (joined first chunks)
    unfolding feed_all joined
    feed_all-joined c first [] = and_then-some (feed parsers decoder c first)
    feed_all-joined c first (next ∷ chunks) =
        ap (and_then (feed parsers decoder c first)) (fun_ext λ c'. feed_all-joined c' next chunks)
        ∙ sym (feed-append c first (joined next chunks))
