-- ===== src/Base/TextLaws.antt =====
-- Laws of the functions on texts.
use Prim.Native.Nat.{ℕ}
use Prim.Native.Char.{Char, code}
use Prim.Native.String.{String, [], ◌∷◌}
use mathlib.Core.Path.{◌≡◌, refl, ap}
use mathlib.Core.Bool.{true, false, ◌||◌}
use mathlib.Core.Option.{none, some}
use native.Mathlib.Omega.{arith}
use httpsig_rs.Base.Tests.{or-eq-false}
use httpsig_rs.Base.Equality.{◌==◌, nat_eq}
use httpsig_rs.Base.Text.{◌<>◌, split_once, contains_char}

pub <>-nil : (s : String) → s <> [] ≡ s
unfolding ◌<>◌
<>-nil [] = refl
<>-nil (c ∷ s) = ap (λ t. c ∷ t) (<>-nil s)

pub <>_assoc : (s t u : String) → (s <> t) <> u ≡ s <> t <> u
unfolding ◌<>◌
<>_assoc [] t u = refl
<>_assoc (c ∷ s) t u = ap (λ r. c ∷ r) (<>_assoc s t u)

pub contains_char-<> :
    (c : ℕ) (s t : String) → contains_char c (s <> t) ≡ (contains_char c s || contains_char c t)
unfolding ◌<>◌ contains_char
contains_char-<> c [] t = refl
contains_char-<> c (d ∷ s) t = ground (arith, contains_char-<> c s t)

-- A text is cut at the first occurrence of the character.
pub split_once-<> :
    (c : ℕ) (s t : String) (d : Char)
    → (code d == c) ≡ true
    → contains_char c s ≡ false
    → split_once c (s <> (d ∷ t)) ≡ some (s, t)
unfolding ◌<>◌ contains_char split_once
split_once-<> c [] t d e h = rw e
split_once-<> c (x ∷ s) t d e h =
    let (differ, later) = or-eq-false (code x == c) (contains_char c s) h in
    rw (differ, split_once-<> c s t d e later)

pub split_once-none : (c : ℕ) (s : String) → contains_char c s ≡ false → split_once c s ≡ none
unfolding contains_char split_once
split_once-none c [] h = refl
split_once-none c (x ∷ s) h =
    let (differ, later) = or-eq-false (code x == c) (contains_char c s) h in
    rw (differ, split_once-none c s later)

pub <>-cancel_left : (s t u : String) → s <> t ≡ s <> u → t ≡ u
unfolding ◌<>◌
<>-cancel_left [] t u e = e
<>-cancel_left (c ∷ s) t u e = <>-cancel_left s t u (tail_inj e)
  where
    tail_inj : {d : Char} {a b : String} → (d ∷ a) ≡ (d ∷ b) → a ≡ b
    tail_inj k = cc

longer-ne : (s : String) (c : Char) → s <> (c ∷ []) ≡ [] → ⊥
unfolding ◌<>◌
longer-ne [] c e = cc
longer-ne (d ∷ s) c e = cc

-- One character at the end.
pub <>-cancel_right : (s t : String) (c : Char) → s <> (c ∷ []) ≡ t <> (c ∷ []) → s ≡ t
unfolding ◌<>◌
<>-cancel_right [] [] c e = refl
<>-cancel_right [] (d ∷ t) c e = absurd (longer-ne t c (cc))
<>-cancel_right (d ∷ s) [] c e = absurd (longer-ne s c (cc))
<>-cancel_right (d ∷ s) (f ∷ t) c e =
    let same : d ≡ f = cc in let rest = <>-cancel_right s t c (cc) in cc
