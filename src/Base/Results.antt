-- ===== src/Base/Results.antt =====
-- What a Rust function does: it returns `Ok` or `Err`, or it panics.
use mathlib.Core.Path.{◌≡◌, refl, subst}
use mathlib.Core.Logic.{◌≢◌}
use mathlib.Core.Bool.{Bool, true, false}
use mathlib.Core.Option.{Option, none, some}
use mathlib.Core.List.{List, [], ◌∷◌}
use Prim.Native.String.{String}

pub data Outcome {ℓ} (E A : Type ℓ) : Type ℓ where
  ok : A → Outcome E A
  err : E → Outcome E A
  panic : String → Outcome E A

infixl 5 ◌>>=◌ ◌>>◌
abbrev pub ◌>>=◌ {ℓ} : {E A B : Type ℓ} → Outcome E A → (A → Outcome E B) → Outcome E B
ok a >>= f = f a
err e >>= f = err e
panic m >>= f = panic m

abbrev pub ◌>>◌ : {E B : Type 0} → Outcome E (Unit {0}) → Outcome E B → Outcome E B
m >> k = m >>= λ _. k

-- `if !test { return Err(e) }`
abbrev pub ensure : {E : Type 0} → Bool → E → Outcome E (Unit {0})
ensure true e = ok tt
ensure false e = err e

-- `Option::unwrap`
abbrev pub unwrap : {E A : Type 0} → Option A → Outcome E A
unwrap none = panic "called `Option::unwrap()` on a `None` value"
unwrap (some a) = ok a

-- `v[0]`
abbrev pub index_zero : {E A : Type 0} → List A → Outcome E A
index_zero [] = panic "index out of bounds: the len is 0 but the index is 0"
index_zero (x ∷ xs) = ok x

-- `Option::is_some`
abbrev pub is_some : {A : Type 0} → Option A → Bool
is_some none = false
is_some (some a) = true

-- `Option::ok_or`
abbrev pub ok_or {ℓ} : {E A : Type ℓ} → Option A → E → Outcome E A
ok_or none e = err e
ok_or (some a) e = ok a

module _ {ℓ} {E F A : Type ℓ} where
  abbrev pub map_err : (E → F) → Outcome E A → Outcome F A
  map_err f (ok a) = ok a
  map_err f (err e) = err (f e)
  map_err f (panic m) = panic m

module _ {ℓ} {E A B : Type ℓ} where
  abbrev pub map_ok : (A → B) → Outcome E A → Outcome E B
  map_ok f (ok a) = ok (f a)
  map_ok f (err e) = err e
  map_ok f (panic m) = panic m

-- `.map(f).collect::<Result<Vec<_>, _>>()`: the first error ends it.
abbrev pub traverse {ℓ} : {E A B : Type ℓ} → (A → Outcome E B) → List A → Outcome E (List B)
traverse f [] = ok []
traverse f (x ∷ xs) = f x >>= λ y. map_ok (λ ys. y ∷ ys) (traverse f xs)

-- `.filter_map(|x| f(x).ok())`: errors are dropped, and a panic is not.
module _ {ℓ} {E F A B : Type ℓ} where
  abbrev pub filter_ok : (A → Outcome E B) → List A → Outcome F (List B)
  filter_ok f [] = ok []
  filter_ok f (x ∷ xs) =
      let rest = filter_ok f xs in
      elim (f x) [ ok b ↦ map_ok (λ bs. b ∷ bs) rest | err e ↦ rest | panic m ↦ panic m ]

-- `join_all(…).await`: results and errors in order, while a panic of one task is one of all.
abbrev pub join_all : {E F A : Type 0} → List (Outcome E A) → Outcome F (List (Outcome E A))
join_all [] = ok []
join_all (ok a ∷ rest) = map_ok (λ rs. ok a ∷ rs) (join_all rest)
join_all (err e ∷ rest) = map_ok (λ rs. err e ∷ rs) (join_all rest)
join_all (panic m ∷ rest) = panic m

abbrev pub NoPanic {ℓ} : {E A : Type ℓ} → Outcome E A → Type ℓ
NoPanic m = (text : String) → m ≢ panic text

pub ok-injective {ℓ} : {E A : Type ℓ} {a b : A} → ◌≡◌ {A = Outcome E A} (ok a) (ok b) → a ≡ b
ok-injective h = cc

pub >>=-eq-ok {ℓ} :
    {E A B : Type ℓ} (run : Outcome E A) (next : A → Outcome E B) {r : B}
    → (run >>= next) ≡ ok r
    → (value : A) × (run ≡ ok value) × (next value ≡ ok r)
>>=-eq-ok (panic text) next h = cc
>>=-eq-ok (err error) next h = cc
>>=-eq-ok (ok value) next h = (value, refl, h)

pub >>=-NoPanic {ℓ} :
    {E A B : Type ℓ} (m : Outcome E A) (f : A → Outcome E B)
    → NoPanic m
    → ((a : A) → NoPanic (f a))
    → NoPanic (m >>= f)
>>=-NoPanic (ok a) f h k = k a
>>=-NoPanic (err e) f h k = λ t p. cc
>>=-NoPanic (panic m) f h k = λ t p. absurd (h m refl)

module _ {ℓ} {E A B : Type ℓ} where
  pub map_ok-NoPanic : (f : A → B) (m : Outcome E A) → NoPanic m → NoPanic (map_ok f m)
  map_ok-NoPanic f (ok a) h = λ t p. cc
  map_ok-NoPanic f (err e) h = λ t p. cc
  map_ok-NoPanic f (panic m) h = λ t p. absurd (h m refl)

  pub map_ok-eq-ok :
      (f : A → B) (m : Outcome E A) {b : B} → map_ok f m ≡ ok b → (a : A) × (m ≡ ok a) × (f a ≡ b)
  map_ok-eq-ok f (ok a) h = (a, refl, cc)
  map_ok-eq-ok f (err e) h = cc
  map_ok-eq-ok f (panic m) h = cc

module _ {ℓ} {E A B : Type ℓ} (f : A → Outcome E B) where
  pub traverse-NoPanic : (xs : List A) → ((a : A) → NoPanic (f a)) → NoPanic (traverse f xs)
  traverse-NoPanic [] h = λ t p. cc
  traverse-NoPanic (x ∷ xs) h =
      >>=-NoPanic (f x) _ (h x) (λ y. map_ok-NoPanic _ (traverse f xs) (traverse-NoPanic xs h))

module _ {E A B : Type 0} (f : A → Outcome E B) where
  -- One result for each element, in order.
  abbrev pub Traversed : List A → List B → Type 0
  Traversed [] [] = Unit
  Traversed (x ∷ xs) (y ∷ ys) = (f x ≡ ok y) × Traversed xs ys
  Traversed [] (y ∷ ys) = ⊥
  Traversed (x ∷ xs) [] = ⊥

  pub traverse-eq-ok : (xs : List A) (ys : List B) → traverse f xs ≡ ok ys → Traversed xs ys
  traverse-eq-ok [] [] h = tt
  traverse-eq-ok [] (y ∷ ys) h = cc
  traverse-eq-ok (x ∷ xs) ys h =
      let (y, e, h') = >>=-eq-ok (f x) _ h in
      let (ys', e', p) = map_ok-eq-ok _ (traverse f xs) h' in
      subst (Traversed (x ∷ xs)) p (e, traverse-eq-ok xs ys' e')

pub ok_or-NoPanic : {E A : Type 0} (o : Option A) (e : E) → NoPanic (ok_or o e)
ok_or-NoPanic none e = λ t p. cc
ok_or-NoPanic (some a) e = λ t p. cc

pub map_err-NoPanic :
    {E F A : Type 0} (f : E → F) (m : Outcome E A) → NoPanic m → NoPanic (map_err f m)
map_err-NoPanic f (ok a) h = λ t p. cc
map_err-NoPanic f (err e) h = λ t p. cc
map_err-NoPanic f (panic m) h = λ t p. absurd (h m refl)

pub ensure-NoPanic : {E : Type 0} (b : Bool) (e : E) → NoPanic (ensure b e)
ensure-NoPanic true e = λ t p. cc
ensure-NoPanic false e = λ t p. cc

-- A test that a success has passed.
pub ensure-eq-ok :
    {E B : Type 0} (b : Bool) (e : E) (m : Outcome E B) {r : B}
    → (ensure b e >> m) ≡ ok r
    → (b ≡ true) × (m ≡ ok r)
ensure-eq-ok true e m h = (refl, h)
ensure-eq-ok false e m h = cc

pub map_err-eq-ok :
    {E F A : Type 0} (f : E → F) (m : Outcome E A) {a : A} → map_err f m ≡ ok a → m ≡ ok a
map_err-eq-ok f (ok b) h = cc
map_err-eq-ok f (err e) h = cc
map_err-eq-ok f (panic m) h = cc

-- The same, where the second part may count on what the first has given.
pub >>=-NoPanic_from :
    {E A B : Type 0} (m : Outcome E A) (f : A → Outcome E B)
    → NoPanic m
    → ((a : A) → m ≡ ok a → NoPanic (f a))
    → NoPanic (m >>= f)
>>=-NoPanic_from (ok a) f h k = k a refl
>>=-NoPanic_from (err e) f h k = λ t p. cc
>>=-NoPanic_from (panic m) f h k = λ t p. absurd (h m refl)
