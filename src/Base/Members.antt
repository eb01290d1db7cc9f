-- ===== src/Base/Members.antt =====
-- Elements with a property: what filters, maps and sets keep of a list.
use Prim.Native.String.{String}
use mathlib.Core.Path.{◌≡◌, refl}
use mathlib.Core.Logic.{◌⊎◌, inl, inr}
use mathlib.Core.Bool.{Bool, true}
use mathlib.Core.Option.{Option, some}
use mathlib.Core.List.{List, [], ◌∷◌, ◌++◌}
use httpsig_rs.Base.Tests.{Bool-cases}
use httpsig_rs.Base.Equality.{PartialEq, ◌==◌, string_eq, contains}
use httpsig_rs.Base.Lists.{filter, first, insert_entry, collect_map, insert_elem, collect_set}
use httpsig_rs.Base.Results.{
  Outcome, ok, err, panic, map_ok, map_ok-eq-ok, filter_ok, NoPanic, >>=-eq-ok, traverse,
  ok-injective,
}
use mathlib.Core.Path.{subst, sym, ◌∙◌, ap}

module _ {A : Type 0} (P : A → Type 0) where
  -- Some element has the property.
  abbrev pub Any : List A → Type 0
  Any [] = ⊥
  Any (x ∷ xs) = P x ⊎ Any xs

module _ {A B E : Type 0} (P : A → Type 0) (Q : B → Type 0) where
  -- An element of a list of successes comes from an element of the list.
  pub Any-traverse :
      (f : A → Outcome E B) (g : (x : A) (y : B) → f x ≡ ok y → Q y → P x) (xs : List A)
      (ys : List B)
      → traverse f xs ≡ ok ys
      → Any Q ys
      → Any P xs
  Any-traverse f g [] ys e q = absurd (subst (Any Q) (sym (ok-injective e)) q)
  Any-traverse f g (x ∷ xs) ys e q =
      let (y, e', h) = >>=-eq-ok (f x) _ e in
      let (rest, e'', k) = map_ok-eq-ok (λ zs. y ∷ zs) (traverse f xs) h in
      elim (subst (Any Q) (sym k) q) [
        | inl here ↦ inl (g x y e' here)
        | inr later ↦ inr (Any-traverse f g xs rest e'' later)
      ]

module _ {A B E F : Type 0} (P : A → Type 0) (Q : B → Type 0) where
  pub Any-filter_ok :
      (f : A → Outcome E B) (g : (x : A) (y : B) → f x ≡ ok y → Q y → P x) (xs : List A)
      (ys : List B)
      → filter_ok {F = F} f xs ≡ ok ys
      → Any Q ys
      → Any P xs
  Any-filter_ok f g [] ys e q = absurd (subst (Any Q) (sym (ok-injective e)) q)
  Any-filter_ok f g (x ∷ xs) ys e q = step (f x) refl e (Any-filter_ok f g xs)
    where
      step :
          (m : Outcome E B)
          → f x ≡ m
          → elim m [
            | ok b ↦ map_ok (λ bs. b ∷ bs) (filter_ok {F = F} f xs)
            | err _ ↦ filter_ok f xs
            | panic t ↦ panic t
          ]
            ≡ ok ys
          → ((zs : List B) → filter_ok {F = F} f xs ≡ ok zs → Any Q zs → Any P xs)
          → P x ⊎ Any P xs
      step (ok y) fx h later =
          let (rest, e'', k) = map_ok-eq-ok (λ zs. y ∷ zs) (filter_ok f xs) h in
          elim (subst (Any Q) (sym k) q) [
            | inl here ↦ inl (g x y fx here)
            | inr there ↦ inr (later rest e'' there)
          ]
      step (err _) fx h later = inr (later ys h q)
      step (panic _) fx h later = cc

module _ {A : Type 0} (P : A → Type 0) where
  pub Any-filter :
      (Q : A → Type 0) (p : A → Bool) (g : (x : A) → p x ≡ true → Q x → P x) (xs : List A)
      → Any Q (filter p xs)
      → Any P xs
  Any-filter Q p g [] q = absurd q
  Any-filter Q p g (x ∷ xs) q = elim (Bool-cases (p x)) [
    | inl passed ↦ elim (rw passed at q) [
      | inl here ↦ inl (g x passed here)
      | inr later ↦ inr (Any-filter Q p g xs later)
    ]
    | inr failed ↦ inr (Any-filter Q p g xs (rw failed at q))
  ]

  Any-concat : (xs : List A) (a : A) → Any P (xs ++ (a ∷ [])) → Any P xs ⊎ P a
  Any-concat [] a (inl h) = inr h
  Any-concat [] a (inr h) = absurd h
  Any-concat (x ∷ xs) a (inl h) = inl (inl h)
  Any-concat (x ∷ xs) a (inr h) = elim (Any-concat xs a h) [
    | inl old ↦ inl (inr old)
    | inr new ↦ inr new
  ]

  pub Any-collect_set :
      ⦃e : PartialEq A⦄ (acc xs : List A) → Any P (collect_set acc xs) → Any P acc ⊎ Any P xs
  Any-collect_set acc [] h = inl h
  Any-collect_set acc (x ∷ xs) h = elim (Any-collect_set (insert_elem acc x) xs h) [
    | inr later ↦ inr (inr later)
    | inl early ↦ elim (Bool-cases (contains acc x)) [
      | inl old ↦ inl (rw old at early)
      | inr new ↦ elim (Any-concat acc x (rw new at early)) [ inl a ↦ inl a | inr b ↦ inr (inl b) ]
    ]
  ]

  pub Any-first : (xs : List A) (a : A) → first xs ≡ some a → P a → Any P xs
  Any-first [] a h p = cc
  Any-first (x ∷ xs) a h p = inl (subst P (option_inj (sym h)) p)
    where
      option_inj : {b c : A} → ◌≡◌ {A = Option A} (some b) (some c) → b ≡ c
      option_inj k = cc

module _ {V : Type 0} (P : String × V → Type 0) where
  Any-insert_entry :
      (k : String) (v : V) (m : List (String × V)) → Any P (insert_entry k v m) → P (k, v) ⊎ Any P m
  Any-insert_entry k v [] (inl h) = inl h
  Any-insert_entry k v [] (inr h) = absurd h
  Any-insert_entry k v ((j, w) ∷ m) h = elim (Bool-cases (j == k)) [
    | inl same ↦ elim (rw same at h) [
      | inl here ↦ inl (subst (λ i. P (i, v)) ((PartialEq.eq_test_iff string_eq j k).0 same) here)
      | inr later ↦ inr (inr later)
    ]
    | inr other ↦ elim (rw other at h) [
      | inl here ↦ inr (inl here)
      | inr later ↦ elim (Any-insert_entry k v m later) [
        | inl new ↦ inl new
        | inr old ↦ inr (inr old)
      ]
    ]
  ]

  -- An entry of a map is one of the pairs that it was collected from.
  pub Any-collect_map :
      (acc xs : List (String × V)) → Any P (collect_map acc xs) → Any P acc ⊎ Any P xs
  Any-collect_map acc [] h = inl h
  Any-collect_map acc ((k, v) ∷ xs) h = elim (Any-collect_map (insert_entry k v acc) xs h) [
    | inr later ↦ inr (inr later)
    | inl early ↦ elim (Any-insert_entry k v acc early) [
      | inl new ↦ inr (inl new)
      | inr old ↦ inl old
    ]
  ]

pub Outcome-cases :
    {E B : Type 0} (m : Outcome E B)
    → ((b : B) × (m ≡ ok b)) ⊎ ((e : E) × (m ≡ err e)) ⊎ ((t : String) × (m ≡ panic t))
Outcome-cases (ok b) = inl (b, refl)
Outcome-cases (err e) = inr (inl (e, refl))
Outcome-cases (panic t) = inr (inr (t, refl))

-- One step of collecting the successes.
module _ {A B E F : Type 0} (f : A → Outcome E B) (x : A) (xs : List A) where
  pub filter_ok-ok :
      (b : B) → f x ≡ ok b → filter_ok {F = F} f (x ∷ xs) ≡ map_ok (λ bs. b ∷ bs) (filter_ok f xs)
  filter_ok-ok b e = rw (filter_ok, e)

  pub filter_ok-err : (e : E) → f x ≡ err e → filter_ok {F = F} f (x ∷ xs) ≡ filter_ok f xs
  filter_ok-err e h = rw (filter_ok, h)

  pub filter_ok-total :
      (bs : List B)
      → NoPanic (f x)
      → filter_ok {F = F} f xs ≡ ok bs
      → (cs : List B) × (filter_ok {F = F} f (x ∷ xs) ≡ ok cs)
  filter_ok-total bs h e = elim (Outcome-cases (f x)) [
    | inl (b, k) ↦ (b ∷ bs, filter_ok-ok b k ∙ ap (map_ok (λ cs. b ∷ cs)) e)
    | inr (inl (d, k)) ↦ (bs, filter_ok-err d k ∙ e)
    | inr (inr (t, k)) ↦ absurd (h t k)
  ]
