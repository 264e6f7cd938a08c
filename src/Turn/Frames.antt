-- ===== src/Turn/Frames.antt =====
-- How `consumeFrames` of extensions/claude-code/turn-relay.ts cuts the stream: a frame ends at the first
-- `\r?\n\r?\n`, and its data are the lines that begin with "data:".
use steak_pi.Prelude.{
  ℕ, suc, ◌<◌, ◌≡◌, refl, ap, subst, Option, none, some, [], ◌∷◌, ◌++◌, arith, ◌==◌, if◌then◌else◌,
  length,
}
use steak_pi.Turn.{Text}

-- A line feed at the beginning, and what follows it.
unfoldable pub line_feed : Text → Option Text
line_feed [] = none
line_feed (c ∷ s) = if c == 10 then some s else none

-- `\r?\n` at the beginning.
unfoldable pub newline : Text → Option Text
newline [] = none
newline (c ∷ s) = if c == 10 then some s else if c == 13 then line_feed s else none

abbrev pub newline_after : Option Text → Option Text
newline_after none = none
newline_after (some s) = newline s

-- `\r?\n\r?\n` at the beginning.
unfoldable pub blank_line : Text → Option Text
blank_line s = newline_after (newline s)

abbrev pub add_front : ℕ → Option (Text × Text) → Option (Text × Text)
add_front c none = none
add_front c (some (frame, rest)) = some (c ∷ frame, rest)

abbrev pub cut_here : Option Text → Option (Text × Text) → Option (Text × Text)
cut_here none later = later
cut_here (some rest) later = some ([], rest)

-- The text up to the first blank line, and the text after it.
unfoldable pub find_frame : Text → Option (Text × Text)
find_frame [] = none
find_frame (c ∷ s) = cut_here (blank_line (c ∷ s)) (add_front c (find_frame s))

newline-append : (s r y : Text) → newline s ≡ some r → newline (s ++ y) ≡ some (r ++ y)
unfolding newline line_feed
newline-append [] r y e = cc
newline-append (c ∷ []) r y e = ground arith
newline-append (c ∷ d ∷ s) r y e = ground arith

blank_line-append : (s r y : Text) → blank_line s ≡ some r → blank_line (s ++ y) ≡ some (r ++ y)
unfolding blank_line
blank_line-append s r y e = through (newline s) refl e
  where
    through :
        (o : Option Text)
        → newline s ≡ o
        → newline_after o ≡ some r
        → newline_after (newline (s ++ y)) ≡ some (r ++ y)
    through none n e = cc e
    through (some t) n e = rw (newline-append s t y n) (newline-append t r y e)

-- A text with a blank line in it does not get an earlier one by more text after it.
blank_line-later :
    (c : ℕ) (s y : Text) (x : Text × Text)
    → blank_line (c ∷ s) ≡ none
    → find_frame s ≡ some x
    → blank_line (c ∷ s ++ y) ≡ none
unfolding blank_line newline line_feed find_frame
blank_line-later c [] y x e f = cc f
blank_line-later c (d ∷ []) y x e f = ground arith
blank_line-later c (d ∷ e' ∷ []) y x e f = ground arith
blank_line-later c (d ∷ e' ∷ g ∷ s) y x e f = ground arith

abbrev with_more : Text → Option (Text × Text) → Option (Text × Text)
with_more y none = none
with_more y (some (frame, rest)) = some (frame, rest ++ y)

-- A frame that is complete stays what it is when more text comes.
pub find_frame-append :
    (s y f r : Text) → find_frame s ≡ some (f, r) → find_frame (s ++ y) ≡ some (f, r ++ y)
unfolding find_frame
find_frame-append [] y f r e = cc
find_frame-append (c ∷ s) y f r e =
    split (blank_line (c ∷ s)) refl (find_frame s) refl e (λ g t. find_frame-append s y g t)
  where
    split :
        (b : Option Text)
        → blank_line (c ∷ s) ≡ b
        → (later : Option (Text × Text)) → find_frame s ≡ later
        → cut_here b (add_front c later) ≡ some (f, r)
        → ((g t : Text) → find_frame s ≡ some (g, t) → find_frame (s ++ y) ≡ some (g, t ++ y))
        → cut_here (blank_line (c ∷ s ++ y)) (add_front c (find_frame (s ++ y))) ≡ some (f, r ++ y)
    split (some rest) b later l h again =
        let ends : some ([], rest ++ y) ≡ some (f, r ++ y) = ap (with_more y) h in
        rw (blank_line-append (c ∷ s) rest y b) ends
    split none b none l h again = cc h
    split none b (some (frame, rest)) l h again =
        let ends : some (c ∷ frame, rest ++ y) ≡ some (f, r ++ y) = ap (with_more y) h in
        rw (blank_line-later c s y (frame, rest) b l) (rw (again frame rest l) ends)

abbrev size : Option Text → ℕ
size none = 0
size (some r) = length r

newline-shorter : (s r : Text) → newline s ≡ some r → length r < length s
unfolding newline line_feed
newline-shorter [] r e = cc e
newline-shorter (c ∷ []) r e = let n = ap size e in ground arith
newline-shorter (c ∷ d ∷ s) r e = let n = ap size e in ground arith

blank_line-shorter : (s r : Text) → blank_line s ≡ some r → length r < length s
unfolding blank_line
blank_line-shorter s r e = through (newline s) refl e
  where
    through : (o : Option Text) → newline s ≡ o → newline_after o ≡ some r → length r < length s
    through none n e = cc e
    through (some t) n e =
        let one = newline-shorter s t n in let two = newline-shorter t r e in omega arith

pub find_frame-shorter : (s f r : Text) → find_frame s ≡ some (f, r) → length r < length s
unfolding find_frame
find_frame-shorter [] f r e = cc
find_frame-shorter (c ∷ s) f r e =
    split (blank_line (c ∷ s)) refl (find_frame s) refl e (λ g t. find_frame-shorter s g t)
  where
    split :
        (b : Option Text)
        → blank_line (c ∷ s) ≡ b
        → (later : Option (Text × Text)) → find_frame s ≡ later
        → cut_here b (add_front c later) ≡ some (f, r)
        → ((g t : Text) → find_frame s ≡ some (g, t) → length t < length s)
        → length r < suc (length s)
    split (some rest) b later l h again =
        let same : rest ≡ r = cc h in
        subst (λ t. length t < suc (length s)) same (blank_line-shorter (c ∷ s) rest b)
    split none b none l h again = cc h
    split none b (some (frame, rest)) l h again =
        let same : rest ≡ r = cc h in
        let less = again frame rest l in subst (λ t. length t < suc (length s)) same (omega arith)
