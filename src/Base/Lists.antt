-- ===== src/Base/Lists.antt =====
-- Iterator adaptors and the containers: `Vec`, and maps and sets in insertion order.
use Prim.Native.Nat.{ℕ, suc}
use Prim.Native.String.{String}
use mathlib.Core.Path.{◌≡◌, refl}
use native.Mathlib.Omega.{arith}
use mathlib.Core.Bool.{Bool, true, false, ◌&&◌, ◌||◌}
use mathlib.Core.Option.{Option, none, some}
use mathlib.Core.List.{List, [], ◌∷◌, ◌++◌}
use httpsig_rs.Base.Tests.{if◌then◌else◌}
use httpsig_rs.Base.Equality.{PartialEq, ◌==◌, nat_eq, string_eq, contains}

module _ {ℓ} {A : Type ℓ} where
  abbrev pub length : List A → ℕ
  length [] = 0
  length (x ∷ xs) = suc (length xs)

  abbrev pub is_empty : List A → Bool
  is_empty [] = true
  is_empty (x ∷ xs) = false

  abbrev pub first : List A → Option A
  first [] = none
  first (x ∷ xs) = some x

  abbrev pub all : (A → Bool) → List A → Bool
  all p [] = true
  all p (x ∷ xs) = p x && all p xs

  abbrev pub any : (A → Bool) → List A → Bool
  any p [] = false
  any p (x ∷ xs) = p x || any p xs

  abbrev pub filter : (A → Bool) → List A → List A
  filter p [] = []
  filter p (x ∷ xs) = let rest = filter p xs in if p x then x ∷ rest else rest

  -- `Vec::pop`: the last element.
  abbrev pub last : List A → Option A
  last [] = none
  last (x ∷ []) = some x
  last (x ∷ y ∷ xs) = last (y ∷ xs)

module _ {ℓ κ} {A : Type ℓ} (P : A → Type κ) where
  abbrev pub All : List A → Type κ
  All [] = Unit
  All (x ∷ xs) = P x × All xs

module _ {ℓ κ} {A : Type ℓ} {B : Type κ} where
  abbrev pub find_map : (A → Option B) → List A → Option B
  find_map f [] = none
  find_map f (x ∷ xs) = let rest = find_map f xs in elim (f x) [ none ↦ rest | some b ↦ some b ]

  abbrev pub filter_map : (A → Option B) → List A → List B
  filter_map f [] = []
  filter_map f (x ∷ xs) =
      let rest = filter_map f xs in elim (f x) [ none ↦ rest | some b ↦ b ∷ rest ]

  -- `IndexMap::keys`, `IndexMap::values`: a map is the list of its entries in insertion order.
  abbrev pub keys : List (A × B) → List A
  keys [] = []
  keys ((k, v) ∷ m) = k ∷ keys m

  abbrev pub values : List (A × B) → List B
  values [] = []
  values ((k, v) ∷ m) = v ∷ values m

-- `IndexMap::get`.
abbrev pub lookup {ℓ} : {V : Type ℓ} → String → List (String × V) → Option V
lookup k [] = none
lookup k ((j, v) ∷ m) = if j == k then some v else lookup k m

-- `IndexMap::insert`: a present key keeps its place and takes the new value.
abbrev pub insert_entry {ℓ} : {V : Type ℓ} → String → V → List (String × V) → List (String × V)
insert_entry k v [] = (k, v) ∷ []
insert_entry k v ((j, w) ∷ m) = if j == k then (j, v) ∷ m else (j, w) ∷ insert_entry k v m

-- Collecting pairs into an `IndexMap`.
abbrev pub collect_map {ℓ} :
    {V : Type ℓ} → List (String × V) → List (String × V) → List (String × V)
collect_map acc [] = acc
collect_map acc ((k, v) ∷ rest) = collect_map (insert_entry k v acc) rest

-- `IndexSet::insert`: a present element is left where it is.
abbrev pub insert_elem {ℓ} : {A : Type ℓ} ⦃e : PartialEq A⦄ → List A → A → List A
insert_elem s a = if contains s a then s else s ++ (a ∷ [])

-- Collecting elements into an `IndexSet`.
abbrev pub collect_set {ℓ} : {A : Type ℓ} ⦃e : PartialEq A⦄ → List A → List A → List A
collect_set acc [] = acc
collect_set acc (a ∷ rest) = collect_set (insert_elem acc a) rest

-- `PartialEq` of `IndexSet`: as many elements, and each of the one in the other, in any order.
abbrev pub set_beq {ℓ} : {A : Type ℓ} ⦃e : PartialEq A⦄ → List A → List A → Bool
set_beq s t = length s == length t && all (contains t) s

-- Facts about these functions.
module _ {ℓ} {A : Type ℓ} where
  pub All-of_any : (p : A → Bool) (xs : List A) → any p xs ≡ false → All (λ x. p x ≡ false) xs
  All-of_any p [] h = tt
  All-of_any p (x ∷ xs) h = (ground arith, All-of_any p xs (ground arith))

  pub any-of_All : (p : A → Bool) (xs : List A) → All (λ x. p x ≡ false) xs → any p xs ≡ false
  any-of_All p [] h = refl
  any-of_All p (x ∷ xs) h = rw (h.0) (any-of_All p xs h.1)

  pub All-of_all : (p : A → Bool) (xs : List A) → all p xs ≡ true → All (λ x. p x ≡ true) xs
  All-of_all p [] h = tt
  All-of_all p (x ∷ xs) h = (ground arith, All-of_all p xs (ground arith))

  pub all-of_All : (p : A → Bool) (xs : List A) → All (λ x. p x ≡ true) xs → all p xs ≡ true
  all-of_All p [] h = refl
  all-of_All p (x ∷ xs) h = rw (h.0) (all-of_All p xs h.1)

module _ {ℓ κ ν} {A : Type ℓ} {P : A → Type κ} {Q : A → Type ν} where
  pub All-map : (f : (x : A) → P x → Q x) (xs : List A) → All P xs → All Q xs
  All-map f [] h = tt
  All-map f (x ∷ xs) h = (f x h.0, All-map f xs h.1)

module _ {ℓ κ ν μ} {A : Type ℓ} {P : A → Type κ} {Q : A → Type ν} {R : A → Type μ} where
  pub All-zip : (f : (x : A) → P x → Q x → R x) (xs : List A) → All P xs → All Q xs → All R xs
  All-zip f [] h k = tt
  All-zip f (x ∷ xs) h k = (f x h.0 k.0, All-zip f xs h.1 k.1)
