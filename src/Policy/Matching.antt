-- ===== src/Policy/Matching.antt =====
-- About matched patterns and prefixes of paths (app/policy.py).
use bless_forge.Base.{
  ◌≡◌, refl, Bool, true, false, not, ◌&&◌, ◌||◌, List, [], ◌∷◌, none, some, Text, eqb, arith,
}
use bless_forge.Policy.Pattern.{
  Token, lit, wild, matches, strip_prefix, rstrip, segment, slash, newline, some_segment,
}
use bless_forge.Policy.{captured}

-- A pattern that begins with the literal text and has a segment wildcard next.
abbrev pub segment_after : Text → List Token → Bool
segment_after [] [] = false
segment_after [] (lit c ∷ p) = false
segment_after [] (wild ∷ p) = true
segment_after (c ∷ t) [] = false
segment_after (c ∷ t) (wild ∷ p) = false
segment_after (c ∷ t) (lit d ∷ p) = eqb c d && segment_after t p

-- A pattern no match of which begins with the text.
abbrev pub clashes : Text → List Token → Bool
clashes [] p = false
clashes (c ∷ t) [] = not (eqb c newline)
clashes (c ∷ t) (wild ∷ p) = false
clashes (c ∷ t) (lit d ∷ p) = not (eqb c d) || clashes t p

some_segment-segment :
    (f : Text → Bool) (s : Text) → some_segment f s ≡ true → captured (some s) ≡ some (segment s)
unfolding segment
some_segment-segment f [] h = cc
some_segment-segment f (x ∷ s) h = ground arith

pub captured_of_matches :
    (t : Text) (p : List Token) (s : Text)
    → segment_after t p ≡ true
    → matches p s ≡ true
    → (id : Text) × (captured (strip_prefix t s) ≡ some id)
unfolding matches strip_prefix
captured_of_matches [] [] s h m = cc
captured_of_matches [] (lit c ∷ p) s h m = cc
captured_of_matches [] (wild ∷ p) s h m = (segment s, some_segment-segment (matches p) s m)
captured_of_matches (c ∷ t) [] s h m = cc
captured_of_matches (c ∷ t) (wild ∷ p) s h m = cc
captured_of_matches (c ∷ t) (lit d ∷ p) [] h m = cc
captured_of_matches (c ∷ t) (lit d ∷ p) (x ∷ s) h m =
    let (id, e) = captured_of_matches t p s (ground arith) (ground arith) in (id, ground arith)

pub strip_prefix_of_clashes :
    (t : Text) (p : List Token) (s : Text)
    → clashes t p ≡ true
    → matches p s ≡ true
    → strip_prefix t s ≡ none
unfolding matches strip_prefix
strip_prefix_of_clashes [] p s h m = cc
strip_prefix_of_clashes (c ∷ t) [] [] h m = refl
strip_prefix_of_clashes (c ∷ t) [] (x ∷ []) h m = ground arith
strip_prefix_of_clashes (c ∷ t) [] (x ∷ y ∷ s) h m = cc
strip_prefix_of_clashes (c ∷ t) (wild ∷ p) s h m = cc
strip_prefix_of_clashes (c ∷ t) (lit d ∷ p) [] h m = refl
strip_prefix_of_clashes (c ∷ t) (lit d ∷ p) (x ∷ s) h m =
    ground (arith, strip_prefix_of_clashes t p s)

segment-rstrip : (s : Text) → segment (rstrip s) ≡ segment s
unfolding segment rstrip
segment-rstrip [] = refl
segment-rstrip (x ∷ s) = ground (arith, segment-rstrip s)

captured_of_empty : (t : Text) → captured (strip_prefix t []) ≡ none
unfolding strip_prefix segment
captured_of_empty [] = refl
captured_of_empty (c ∷ t) = refl

-- Trailing slashes do not change the captured segment.
pub captured-rstrip :
    (t s : Text) → captured (strip_prefix t (rstrip s)) ≡ captured (strip_prefix t s)
unfolding strip_prefix rstrip
captured-rstrip [] s = rw segment-rstrip
captured-rstrip (c ∷ t) [] = refl
captured-rstrip (c ∷ t) (x ∷ s) = ground (arith, captured-rstrip t s, captured_of_empty t)

-- A text whose last character is there and is not a slash.
abbrev pub ends_clean : Text → Bool
ends_clean [] = false
ends_clean (c ∷ []) = not (eqb c slash)
ends_clean (c ∷ d ∷ t) = ends_clean (d ∷ t)

-- Trailing slashes do not change whether a path has such a prefix.
pub strip_prefix-rstrip :
    (t s rest : Text)
    → ends_clean t ≡ true
    → strip_prefix t s ≡ some rest
    → (rest' : Text) × (strip_prefix t (rstrip s) ≡ some rest')
unfolding strip_prefix rstrip
strip_prefix-rstrip [] s rest h e = cc
strip_prefix-rstrip (c ∷ []) [] rest h e = cc
strip_prefix-rstrip (c ∷ []) (x ∷ s) rest h e = (rstrip s, ground arith)
strip_prefix-rstrip (c ∷ d ∷ t) [] rest h e = cc
strip_prefix-rstrip (c ∷ d ∷ t) (x ∷ s) rest h e =
    let (rest', e') = strip_prefix-rstrip (d ∷ t) s rest h (ground arith) in (rest', ground arith)
