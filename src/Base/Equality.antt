-- ===== src/Base/Equality.antt =====
-- Rust's `PartialEq`, for types whose `==` decides equality.
use Prim.Native.Nat.{ℕ}
use Prim.Native.String.{String}
use mathlib.Core.Path.{◌≡◌}
use mathlib.Core.Logic.{◌↔◌}
use mathlib.Core.Bool.{Bool, true, false, ◌||◌}
use mathlib.Core.Option.{Option, none, some}
use mathlib.Core.List.{List, [], ◌∷◌}
use text.Mathlib.Text.{◌==◌ as str_beq}
use text.Mathlib.TextEquality.{eq_iff}
use httpsig_rs.Base.Tests.{nat_beq, nat_beq_iff}

pub record PartialEq {ℓ} (A : Type ℓ) : Type ℓ where
  pub eq_test : A → A → Bool
  pub eq_test_iff : (a b : A) → (eq_test a b ≡ true) ↔ (a ≡ b)

instance abbrev pub string_eq : PartialEq String
string_eq = record { eq_test = str_beq; eq_test_iff = eq_iff }

instance abbrev pub nat_eq : PartialEq ℕ
nat_eq = record { eq_test = nat_beq; eq_test_iff = nat_beq_iff }

-- Rust's `==`.
infix 50 ◌==◌
abbrev pub ◌==◌ {ℓ} : {A : Type ℓ} ⦃eq : PartialEq A⦄ (left right : A) → Bool
◌==◌ ⦃eq⦄ left right = eq.eq_test left right

abbrev pub option_beq {ℓ} : {A : Type ℓ} ⦃e : PartialEq A⦄ → Option A → Option A → Bool
option_beq none none = true
option_beq (some a) (some b) = a == b
option_beq _ _ = false

-- `Vec::contains`, `IndexSet::contains`.
abbrev pub contains {ℓ} : {A : Type ℓ} ⦃e : PartialEq A⦄ → List A → A → Bool
contains [] a = false
contains (x ∷ xs) a = x == a || contains xs a
