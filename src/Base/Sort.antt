-- ===== src/Base/Sort.antt =====
-- `Vec<String>::sort`, and that it gives one list for every order of the same texts.
use Prim.Native.Char.{code}
use Prim.Native.String.{String, [], ◌∷◌}
use mathlib.Core.Path.{◌≡◌, refl, sym, ◌∙◌}
use mathlib.Core.Bool.{Bool, true, false, ◌&&◌, ◌||◌}
use mathlib.Core.Logic.{inl, inr, ∥∥₁_elim}
use mathlib.Core.List
use mathlib.Core.List.{Perm}
use mathlib.Core.List.Perm
use mathlib.Core.List.Permᴰ
use text.Mathlib.TextEquality.{Char-path, IsScalar-prop}
use native.Mathlib.Omega.{arith}
use httpsig_rs.Base.Tests.{ltb, if◌then◌else◌, Bool-cases}
use httpsig_rs.Base.Equality.{◌==◌, nat_eq}

-- The order of texts, which is that of their UTF-8 encodings.
unfoldable pub text_le : String → String → Bool
text_le [] t = true
text_le (c ∷ s) [] = false
text_le (c ∷ s) (d ∷ t) = ltb (code c) (code d) || (code c == code d && text_le s t)

text_le_total : (s t : String) → text_le s t ≡ false → text_le t s ≡ true
unfolding text_le
text_le_total [] t h = cc
text_le_total (c ∷ s) [] h = refl
text_le_total (c ∷ s) (d ∷ t) h = ground (arith, text_le_total s t)

text_le_antisymm : (s t : String) → text_le s t ≡ true → text_le t s ≡ true → s ≡ t
unfolding text_le
text_le_antisymm [] [] h k = refl
text_le_antisymm [] (d ∷ t) h k = cc
text_le_antisymm (c ∷ s) [] h k = cc
text_le_antisymm (c ∷ s) (d ∷ t) h k =
    cc (Char-path c d (ground arith), text_le_antisymm s t (ground arith) (ground arith))

text_le_trans : (s t u : String) → text_le s t ≡ true → text_le t u ≡ true → text_le s u ≡ true
unfolding text_le
text_le_trans [] t u h k = refl
text_le_trans (c ∷ s) [] u h k = cc
text_le_trans (c ∷ s) (d ∷ t) [] h k = cc
text_le_trans (c ∷ s) (d ∷ t) (e ∷ u) h k = ground (arith, text_le_trans s t u)

-- Insertion in front of the first text that is not smaller.
insert_text : String → List.List String → List.List String
unfolding text_le
insert_text x List.[] = List.◌∷◌ x List.[]
insert_text x (List.◌∷◌ y ys) =
    if text_le x y then List.◌∷◌ x (List.◌∷◌ y ys) else List.◌∷◌ y (insert_text x ys)

unfoldable pub sort : List.List String → List.List String
unfolding insert_text
sort List.[] = List.[]
sort (List.◌∷◌ x xs) = insert_text x (sort xs)

insert_text_comm :
    (x y : String) (l : List.List String)
    → insert_text x (insert_text y l) ≡ insert_text y (insert_text x l)
unfolding insert_text
insert_text_comm x y List.[] = ground (arith, text_le_total x y, text_le_antisymm x y)
insert_text_comm x y (List.◌∷◌ z l) = ground (
  arith,
  insert_text_comm x y l,
  text_le_total x y,
  text_le_antisymm x y,
  text_le_total x z,
  text_le_total y z,
  text_le_trans x y z,
  text_le_trans y x z,
)

sort_permuted : {l r : List.List String} → Permᴰ.Permᴰ l r → sort l ≡ sort r
unfolding sort
sort_permuted (Permᴰ.nil) = refl
sort_permuted (Permᴰ.cons e p) = cc (e, sort_permuted p)
sort_permuted (Permᴰ.swap {a = a} {b = b} {l = l} e f) =
    rw (sym e, sym f) (insert_text_comm a b (sort l))
sort_permuted (Permᴰ.trans p q) = sort_permuted p ∙ sort_permuted q

-- Lists of the same texts, in any order, are sorted to one list.
pub sort-eq_of_perm : (l r : List.List String) → Perm l r → sort l ≡ sort r
sort-eq_of_perm l r p = ∥∥₁_elim p (hlevel (IsScalar-prop)) sort_permuted

-- Sorting keeps the texts.
insert_text-perm : (x : String) (l : List.List String) → Perm (insert_text x l) (List.◌∷◌ x l)
unfolding insert_text
insert_text-perm x List.[] = Perm.rfl
insert_text-perm x (List.◌∷◌ y l) = elim (Bool-cases (text_le x y)) [
  | inl here ↦ rw here Perm.rfl
  | inr later ↦ rw later (Perm.trans (Perm.cons y (insert_text-perm x l)) (Perm.swap x y l))
]

pub sort-perm : (l : List.List String) → Perm (sort l) l
unfolding sort
sort-perm List.[] = Perm.rfl
sort-perm (List.◌∷◌ x l) = Perm.trans (insert_text-perm x (sort l)) (Perm.cons x (sort-perm l))
