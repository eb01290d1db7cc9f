-- ===== src/Component/Id/Equality.antt =====
-- Equality of component ids, for component_id.rs.
use httpsig_rs.Base.{
  ◌≡◌, refl, true, List, [], ◌∷◌, All, all-of_All, contains, set_beq, length, nat_eq, nat_beq_iff,
  PartialEq, and-eq-true, ap, ◌↔◌, arith,
}
use httpsig_rs.Component.Name.Laws.{name_beq_iff}
use httpsig_rs.Util.Unique.{IsSetOf}
use httpsig_rs.Component.Name.{name_beq}
use httpsig_rs.Component.Param.{param_eq}
use httpsig_rs.Component.Param.Hash.{params_hash_iff}
use httpsig_rs.Component.Id.{HttpMessageComponentId, id_beq, id_hash}

module _ {A : Type 0} ⦃e : PartialEq A⦄ where
  contains-cons : (xs : List A) (x a : A) → contains xs a ≡ true → contains (x ∷ xs) a ≡ true
  contains-cons xs x a h = ground arith

  All-contains-tail :
      (s xs : List A)
      → All (λ a. contains s a ≡ true) xs
      → (x : A) → All (λ a. contains (x ∷ s) a ≡ true) xs
  All-contains-tail s [] h x = tt
  All-contains-tail s (y ∷ xs) h x = (contains-cons s x y h.0, All-contains-tail s xs h.1 x)

  All-contains_self : (xs : List A) → All (λ a. contains xs a ≡ true) xs
  All-contains_self [] = tt
  All-contains_self (x ∷ xs) = (
    rw ((PartialEq.eq_test_iff e x x).1 refl) refl,
    All-contains-tail xs xs (All-contains_self xs) x,
  )

  pub set_beq_refl : (xs : List A) → set_beq xs xs ≡ true
  set_beq_refl xs =
      rw ((nat_beq_iff (length xs) (length xs)).1 refl)
        (all-of_All (contains xs) xs (All-contains_self xs))

-- An id equals itself.
pub id_beq_refl : (id : HttpMessageComponentId) → id_beq id id ≡ true
unfolding id_beq
id_beq_refl id = rw ((name_beq_iff id.name id.name).1 refl) (set_beq_refl id.params)

-- Two ids, of which one has no parameter twice, are equal exactly if the hasher is fed the same for
-- both, in whatever order their parameters stand: equal ids are found in a hash set.
pub id_hash_iff :
    (a b : HttpMessageComponentId)
    → IsSetOf a.params
    → (id_beq a b ≡ true) ↔ (id_hash a ≡ id_hash b)
unfolding id_beq id_hash
id_hash_iff a b d = (
  λ h.
      let (named, same) = and-eq-true (name_beq a.name b.name) _ h in
      cc ((name_beq_iff a.name b.name).0 named, (params_hash_iff a.params b.params d).0 same),
  λ e.
      rw
        (
          (name_beq_iff a.name b.name).1 (ap (λ x. x.0) e),
          (params_hash_iff a.params b.params d).1 (ap (λ x. x.1) e),
        )
        refl,
)
