-- ===== src/Util/Unique.antt =====
-- When the elements of a list are unique, for httpsig/src/util.rs.
use httpsig_rs.Base.{
  ◌++◌, inl, inr, Bool-cases, PartialEq, ◌==◌, contains, insert_elem, collect_set, ◌≡◌, refl, ◌↔◌,
  Bool, true, false, not, List, [], ◌∷◌, any, All, arith, and-eq-true,
}
use httpsig_rs.Util.{unique_from, has_unique_elements}

module _ {ℓ} {A : Type ℓ} (eq : A → A → Bool) where
  -- No element equals one that stands before it.
  abbrev pub Distinct : List A → Type 0
  Distinct [] = Unit
  Distinct (x ∷ xs) = All (λ y. eq y x ≡ false) xs × Distinct xs

  -- No element equals one of those seen.
  abbrev Fresh : List A → List A → Type 0
  Fresh seen xs = All (λ y. any (eq y) seen ≡ false) xs

  Fresh-cons :
      (x : A) (seen xs : List A)
      → Fresh (x ∷ seen) xs
      → All (λ y. eq y x ≡ false) xs × Fresh seen xs
  Fresh-cons x seen [] h = (tt, tt)
  Fresh-cons x seen (y ∷ ys) h =
      let (p, q) = Fresh-cons x seen ys h.1 in ((ground arith, p), (ground arith, q))

  cons-Fresh :
      (x : A) (seen xs : List A)
      → All (λ y. eq y x ≡ false) xs
      → Fresh seen xs
      → Fresh (x ∷ seen) xs
  cons-Fresh x seen [] h k = tt
  cons-Fresh x seen (y ∷ ys) h k = (ground arith, cons-Fresh x seen ys h.1 k.1)

  Fresh-nil : (xs : List A) → Fresh [] xs
  Fresh-nil [] = tt
  Fresh-nil (x ∷ xs) = (refl, Fresh-nil xs)

  unique_from_sound :
      (seen xs : List A) → unique_from eq seen xs ≡ true → Fresh seen xs × Distinct xs
  unfolding unique_from
  unique_from_sound seen [] h = (tt, tt)
  unique_from_sound seen (x ∷ xs) h =
      let (new, later) = and-eq-true (not (any (eq x) seen)) _ h in
      let (fresh, distinct) = unique_from_sound (x ∷ seen) xs later in
      let (apart, old) = Fresh-cons x seen xs fresh in ((ground arith, old), (apart, distinct))

  unique_from_complete :
      (seen xs : List A) → Fresh seen xs → Distinct xs → unique_from eq seen xs ≡ true
  unfolding unique_from
  unique_from_complete seen [] h d = refl
  unique_from_complete seen (x ∷ xs) h d =
      rw (h.0, unique_from_complete (x ∷ seen) xs (cons-Fresh x seen xs d.0 h.1) d.1)

  -- The test holds exactly for the lists in which no element equals an earlier one.
  pub has_unique_elements_iff : (xs : List A) → (has_unique_elements eq xs ≡ true) ↔ Distinct xs
  unfolding has_unique_elements
  has_unique_elements_iff xs =
      (λ h. (unique_from_sound [] xs h).1, λ d. unique_from_complete [] xs (Fresh-nil xs) d)

  -- A new last element.
  pub Distinct-concat :
      (xs : List A) (a : A) → All (λ x. eq a x ≡ false) xs → Distinct xs → Distinct (xs ++ (a ∷ []))
  Distinct-concat [] a h d = (tt, tt)
  Distinct-concat (x ∷ xs) a h d = (All-concat xs a d.0 h.0, Distinct-concat xs a h.1 d.1)
    where
      All-concat :
          (ys : List A) (b : A)
          → All (λ y. eq y x ≡ false) ys
          → eq b x ≡ false
          → All (λ y. eq y x ≡ false) (ys ++ (b ∷ []))
      All-concat [] b k e = (e, tt)
      All-concat (y ∷ ys) b k e = (k.0, All-concat ys b k.1 e)

-- What is collected into a set has no element twice.
module _ {ℓ} {A : Type ℓ} ⦃e : PartialEq A⦄ where
  abbrev pub IsSetOf : List A → Type 0
  IsSetOf = Distinct (λ later earlier. earlier == later)

  All-of_contains : (xs : List A) (a : A) → contains xs a ≡ false → All (λ x. (x == a) ≡ false) xs
  All-of_contains [] a h = tt
  All-of_contains (x ∷ xs) a h = (ground arith, All-of_contains xs a (ground arith))

  pub insert_elem-IsSetOf : (xs : List A) (a : A) → IsSetOf xs → IsSetOf (insert_elem xs a)
  insert_elem-IsSetOf xs a d = elim (Bool-cases (contains xs a)) [
    | inl old ↦ rw old d
    | inr new ↦ rw new (Distinct-concat _ xs a (All-of_contains xs a new) d)
  ]

  pub collect_set-IsSetOf : (acc xs : List A) → IsSetOf acc → IsSetOf (collect_set acc xs)
  collect_set-IsSetOf acc [] d = d
  collect_set-IsSetOf acc (x ∷ xs) d =
      collect_set-IsSetOf (insert_elem acc x) xs (insert_elem-IsSetOf acc x d)
