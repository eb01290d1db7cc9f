-- ===== src/Component/Param/Hash.antt =====
-- That the hash of parameters agrees with their equality, for component_param.rs.
use Prim.Native.String as Text
use mathlib.Core.Nat.{ℕ as Unary, zero as unary_zero, suc as unary_suc}
use mathlib.Core.List
use mathlib.Core.List.{
  Mem, Perm, mem-cons, mem-cons_self, not-mem-nil, exists_of_mem-map, mem-map_of_mem,
}
use mathlib.Core.List.Perm
use mathlib.Core.Logic.Or
use mathlib.Core.Logic.{∥∥₁_elim}
use mathlib.Core.List.Permᴰ
use httpsig_rs.Base.{
  ◌≡◌, refl, ap, sym, ◌∙◌, subst, ◌↔◌, inl, inr, Bool-cases, ℕ, zero, suc, String, Bool, true,
  false, List, [], ◌∷◌, ◌++◌, map, length, All, All-of_all, all-of_All, contains, set_beq,
  PartialEq, ◌==◌, nat_eq, nat_beq_iff, and-eq-true, <>-cancel_left, <>-cancel_right, ◌<>◌,
  sort-perm, sort-eq_of_perm, code, arith,
}
use httpsig_rs.Util.Unique.{IsSetOf}
use httpsig_rs.Component.Param.{
  HttpMessageComponentParam, HttpMessageComponentParams, param_eq, param_to_string, params_hash,
}

module _ {A : Type 0} ⦃e : PartialEq A⦄ where
  -- The place of an element.
  contains-split :
      (xs : List A) (a : A)
      → contains xs a ≡ true
      → (l : List A) × (r : List A) × (xs ≡ l ++ (a ∷ r))
  contains-split [] a h = cc
  contains-split (x ∷ xs) a h = elim (Bool-cases (x == a)) [
    | inl here ↦ ([], xs, ap (λ y. y ∷ xs) ((PartialEq.eq_test_iff e x a).0 here))
    | inr other ↦
        let (l, r, parts) = contains-split xs a (rw other at h) in
        (x ∷ l, r, ap (λ ys. x ∷ ys) parts)
  ]

  contains-without :
      (l r : List A) (a b : A)
      → (a == b) ≡ false
      → contains (l ++ (a ∷ r)) b ≡ true
      → contains (l ++ r) b ≡ true
  contains-without [] r a b other h = rw other at h
  contains-without (x ∷ l) r a b other h = ground (arith, contains-without l r a b other)

  All-contains-without :
      (l r : List A) (a : A) (xs : List A)
      → All (λ b. (a == b) ≡ false) xs
      → All (λ b. contains (l ++ (a ∷ r)) b ≡ true) xs
      → All (λ b. contains (l ++ r) b ≡ true) xs
  All-contains-without l r a [] d h = tt
  All-contains-without l r a (b ∷ xs) d h =
      (contains-without l r a b d.0 h.0, All-contains-without l r a xs d.1 h.1)

  length-middle : (l r : List A) (a : A) → length (l ++ (a ∷ r)) ≡ suc (length (l ++ r))
  length-middle [] r a = refl
  length-middle (x ∷ l) r a = ap suc (length-middle l r a)

  -- A set of as many elements that are all in a list holds the same elements.
  set-permuted :
      (xs ys : List A)
      → IsSetOf xs
      → All (λ a. contains ys a ≡ true) xs
      → length xs ≡ length ys
      → Permᴰ.Permᴰ xs ys
  set-permuted [] [] d h n = Permᴰ.nil
  set-permuted [] (y ∷ ys) d h n = absurd (omega (arith, n))
  set-permuted (x ∷ xs) ys d h n =
      let (l, r, parts) = contains-split ys x h.0 in
      let inside = subst (λ zs. All (λ a. contains zs a ≡ true) xs) parts h.1 in
      let shorter : length xs ≡ length (l ++ r) =
        omega (arith, n ∙ ap length parts ∙ length-middle l r x) in
      subst (λ zs. Permᴰ.Permᴰ (x ∷ xs) zs) (sym parts)
        (Permᴰ.trans
          (Permᴰ.cons refl
            (set-permuted xs (l ++ r) d.1 (All-contains-without l r x xs d.0 inside) shorter))
          (Permᴰ.symm (Permᴰ.middle x l r)))

-- The texts of two kinds of parameter begin differently.
first_code : String → ℕ
first_code Text.[] = 0
first_code (Text.◌∷◌ c s) = code c

param_to_string-injective :
    (p q : HttpMessageComponentParam) → param_to_string p ≡ param_to_string q → p ≡ q
unfolding param_to_string ◌<>◌ first_code
param_to_string-injective (HttpMessageComponentParam.key a) (HttpMessageComponentParam.key b) e =
    ap HttpMessageComponentParam.key (<>-cancel_right a b _ (<>-cancel_left "key=\"" _ _ e))
param_to_string-injective (HttpMessageComponentParam.name a) (HttpMessageComponentParam.name b) e =
    ap HttpMessageComponentParam.name (<>-cancel_right a b _ (<>-cancel_left "name=\"" _ _ e))
param_to_string-injective HttpMessageComponentParam.sf HttpMessageComponentParam.sf e = refl
param_to_string-injective HttpMessageComponentParam.bs HttpMessageComponentParam.bs e = refl
param_to_string-injective HttpMessageComponentParam.tr HttpMessageComponentParam.tr e = refl
param_to_string-injective HttpMessageComponentParam.req HttpMessageComponentParam.req e = refl
param_to_string-injective p q e = absurd (omega (arith, ap first_code e))

-- The number of elements, which the library counts in unary.
of_unary : Unary → ℕ
of_unary unary_zero = zero
of_unary (unary_suc n) = suc (of_unary n)

length-of_unary : {A : Type 0} (xs : List A) → length xs ≡ of_unary (List.length xs)
unfolding of_unary
length-of_unary [] = refl
length-of_unary (x ∷ xs) = ap suc (length-of_unary xs)

length-map : {A B : Type 0} (f : A → B) (xs : List A) → length (map f xs) ≡ length xs
length-map f [] = refl
length-map f (x ∷ xs) = ap suc (length-map f xs)

length-perm : {A : Type 0} (xs ys : List A) → Perm xs ys → length xs ≡ length ys
length-perm xs ys p = length-of_unary xs ∙ ap of_unary (Perm.length-eq p) ∙ sym (length-of_unary ys)

module _ (ps qs : HttpMessageComponentParams) where
  params_hash_sound : IsSetOf ps → set_beq ps qs ≡ true → params_hash ps ≡ params_hash qs
  unfolding params_hash
  params_hash_sound d h =
      let (size, inside) = and-eq-true (length ps == length qs) _ h in
      sort-eq_of_perm (map param_to_string ps) (map param_to_string qs)
        ∣ Permᴰ.map param_to_string (
          set-permuted ps qs d (All-of_all (contains qs) ps inside)
            ((nat_beq_iff (length ps) (length qs)).0 size)) ∣₁

  texts-perm :
      params_hash ps ≡ params_hash qs → Perm (map param_to_string ps) (map param_to_string qs)
  unfolding params_hash
  texts-perm e =
      Perm.trans (Perm.symm (sort-perm (map param_to_string ps)))
        (subst (λ l. Perm l (map param_to_string qs)) (sym e) (sort-perm (map param_to_string qs)))

contains-true_prop : {b : Bool} → IsProp (b ≡ true)
contains-true_prop = hlevel

contains_of_mem :
    (xs : HttpMessageComponentParams) (a : HttpMessageComponentParam)
    → Mem a xs
    → contains xs a ≡ true
contains_of_mem [] a m = absurd (not-mem-nil m)
contains_of_mem (x ∷ xs) a m =
    Or.elim contains-true_prop (mem-cons.0 m)
      (λ e. rw ((PartialEq.eq_test_iff param_eq x a).1 (sym e)) refl)
      (λ later. ground (arith, contains_of_mem xs a later))

All-of_mem : {A : Type 0} (P : A → Type 0) (xs : List A) → ((a : A) → Mem a xs → P a) → All P xs
All-of_mem P [] h = tt
All-of_mem P (x ∷ xs) h = (h x mem-cons_self, All-of_mem P xs (λ a m. h a (mem-cons.1 (Or.inr m))))

contains_of_text :
    (ps qs : HttpMessageComponentParams) (p : HttpMessageComponentParam)
    → Perm (map param_to_string ps) (map param_to_string qs)
    → Mem p ps
    → contains qs p ≡ true
contains_of_text ps qs p same m =
    ∥∥₁_elim (exists_of_mem-map ((Perm.mem_iff same).0 (mem-map_of_mem param_to_string m)))
      contains-true_prop
      (λ (q, there, e).
        subst (λ r. contains qs r ≡ true) (param_to_string-injective q p e)
          (contains_of_mem qs q there))

-- Two sets of parameters are equal, in whatever order they were put together, exactly if the hasher
-- is fed the same for both.
pub params_hash_iff :
    (ps qs : HttpMessageComponentParams)
    → IsSetOf ps
    → (set_beq ps qs ≡ true) ↔ (params_hash ps ≡ params_hash qs)
params_hash_iff ps qs d = (
  params_hash_sound ps qs d,
  λ e.
      let same = texts-perm ps qs e in
      let size =
        sym (length-map param_to_string ps)
        ∙ length-perm (map param_to_string ps) (map param_to_string qs) same
        ∙ length-map param_to_string qs in
      rw
        (
          (nat_beq_iff (length ps) (length qs)).1 size,
          all-of_All (contains qs) ps
              (All-of_mem (λ p. contains qs p ≡ true) ps (λ p m. contains_of_text ps qs p same m)),
        )
        refl,
)
