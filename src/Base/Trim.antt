-- ===== src/Base/Trim.antt =====
-- Texts that `trim` leaves as they are.
use Prim.Native.Char.{Char, code}
use Prim.Native.String.{String, [], ◌∷◌}
use mathlib.Core.Path.{◌≡◌, refl, ap, ◌∙◌}
use mathlib.Core.Logic.{◌≢◌}
use mathlib.Core.Bool.{false}
use httpsig_rs.Base.Text.{◌<>◌, is_whitespace, trim_start, trim_cons, trim_end, trim}

trim_cons-filled : (c : Char) (s : String) → s ≢ [] → trim_cons c s ≡ c ∷ s
unfolding trim_cons
trim_cons-filled c [] h = absurd (h refl)
trim_cons-filled c (d ∷ s) h = refl

pub <>-filled : (s t : String) → t ≢ [] → s <> t ≢ []
unfolding ◌<>◌
<>-filled [] t h = h
<>-filled (c ∷ s) t h = λ e. cc

-- A text that ends in one that is trimmed at its end is trimmed at its end.
pub trim_end-<> : (s t : String) → t ≢ [] → trim_end t ≡ t → trim_end (s <> t) ≡ s <> t
unfolding ◌<>◌ trim_end
trim_end-<> [] t h e = e
trim_end-<> (c ∷ s) t h e =
    ap (trim_cons c) (trim_end-<> s t h e) ∙ trim_cons-filled c (s <> t) (<>-filled s t h)

pub trim_kept :
    (c : Char) (s : String)
    → is_whitespace (code c) ≡ false
    → trim_end (c ∷ s) ≡ c ∷ s
    → trim (c ∷ s) ≡ c ∷ s
unfolding trim trim_start
trim_kept c s h e = rw h e
