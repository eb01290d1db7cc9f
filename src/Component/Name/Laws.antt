-- ===== src/Component/Name/Laws.antt =====
-- The names of derived components as texts, for component_name.rs.
use httpsig_rs.Base.{
  ok-injective, Bool-cases, inl, inr, ◌==◌, string_eq, if◌then◌else◌, ◌≡◌, ◌≢◌, ◌↔◌, refl, ap, ◌∙◌,
  String, true, arith, eq_iff, starts_with_char, Outcome, ok, panic, ◌<>◌, nat_beq_iff,
}
use httpsig_rs.Error.{HttpSigError}
use httpsig_rs.Sfv.{Sfv, BareItem}
use httpsig_rs.Component.Name.{
  HttpMessageComponentName, DerivedComponentName, derived_as_ref, derived_from_str, name_try_from,
  discriminant, derived_beq, name_beq,
}

derived_from_str-derived_as_ref :
    (d : DerivedComponentName) → derived_from_str {E = HttpSigError} (derived_as_ref d) ≡ ok d
unfolding derived_from_str derived_as_ref
derived_from_str-derived_as_ref DerivedComponentName.method = refl
derived_from_str-derived_as_ref _ = refl

-- One test of the chain, in a conversion that succeeds and in one that fails.
test_sound :
    (s : String) (d tested : DerivedComponentName)
    {rest : Outcome HttpSigError DerivedComponentName}
    → (rest ≡ ok d → s ≡ derived_as_ref d)
    → (if s == derived_as_ref tested then ok tested else rest) ≡ ok d
    → s ≡ derived_as_ref d
test_sound s d tested later h = elim (Bool-cases (s == derived_as_ref tested)) [
  | inl same ↦ (eq_iff _ _).0 same ∙ ap derived_as_ref (ok-injective (rw same at h))
  | inr other ↦ later (rw other at h)
]

test_fails :
    (s : String) (tested : DerivedComponentName)
    {rest r : Outcome HttpSigError DerivedComponentName}
    → s ≢ derived_as_ref tested
    → rest ≡ r
    → (if s == derived_as_ref tested then ok tested else rest) ≡ r
test_fails s tested h e = elim (Bool-cases (s == derived_as_ref tested)) [
  | inl same ↦ absurd (h ((eq_iff _ _).0 same))
  | inr other ↦ rw other e
]

derived_from_str_sound :
    (s : String) (d : DerivedComponentName)
    → derived_from_str {E = HttpSigError} s ≡ ok d
    → s ≡ derived_as_ref d
unfolding derived_from_str derived_as_ref
derived_from_str_sound s d = test_sound s d DerivedComponentName.method (
    test_sound s d DerivedComponentName.target_uri (
      test_sound s d DerivedComponentName.authority (
        test_sound s d DerivedComponentName.scheme (
          test_sound s d DerivedComponentName.request_target (
            test_sound s d DerivedComponentName.path (
              test_sound s d DerivedComponentName.query (
                test_sound s d DerivedComponentName.query_param (
                  test_sound s d DerivedComponentName.status
                    (test_sound s d DerivedComponentName.signature_params (λ h. cc))))))))))

-- A text is read as a name exactly if it is the text of that name.
pub derived_from_str_iff :
    (s : String) (d : DerivedComponentName)
    → (derived_from_str {E = HttpSigError} s ≡ ok d) ↔ (s ≡ derived_as_ref d)
derived_from_str_iff s d =
    (derived_from_str_sound s d, λ e. rw e (derived_from_str-derived_as_ref d))

derived_from_str-panic :
    (s : String)
    → ((d : DerivedComponentName) → s ≢ derived_as_ref d)
    → derived_from_str {E = HttpSigError} s ≡ panic ("Invalid derived component: " <> s)
unfolding derived_from_str derived_as_ref
derived_from_str-panic s h =
    test_fails s DerivedComponentName.method (h DerivedComponentName.method) (
      test_fails s DerivedComponentName.target_uri (h DerivedComponentName.target_uri) (
        test_fails s DerivedComponentName.authority (h DerivedComponentName.authority) (
          test_fails s DerivedComponentName.scheme (h DerivedComponentName.scheme) (
            test_fails s DerivedComponentName.request_target (h DerivedComponentName.request_target)
              (test_fails s DerivedComponentName.path (h DerivedComponentName.path) (
                test_fails s DerivedComponentName.query (h DerivedComponentName.query) (
                  test_fails s DerivedComponentName.query_param (h DerivedComponentName.query_param)
                    (test_fails s DerivedComponentName.status (h DerivedComponentName.status) (
                      test_fails s DerivedComponentName.signature_params
                        (h DerivedComponentName.signature_params) refl)))))))))

-- A name that begins with `@` and is none of the ten stops the program: the conversion panics.
pub name_try_from-panic :
    (sfv : Sfv) (s : String)
    → starts_with_char b'@' s ≡ true
    → ((d : DerivedComponentName) → s ≢ derived_as_ref d)
    → name_try_from sfv (BareItem.string s) ≡ panic ("Invalid derived component: " <> s)
unfolding name_try_from
name_try_from-panic sfv s at h = rw (at, derived_from_str-panic s h)

-- The name that a printed name reads back to.
pub name_try_from-text :
    (sfv : Sfv) (d : DerivedComponentName)
    → name_try_from sfv (BareItem.string (derived_as_ref d))
      ≡ ok (HttpMessageComponentName.derived d)
unfolding name_try_from derived_as_ref
name_try_from-text sfv DerivedComponentName.method = refl
name_try_from-text sfv _ = refl

discriminant-injective : (a b : DerivedComponentName) → discriminant a ≡ discriminant b → a ≡ b
unfolding discriminant
discriminant-injective a b h = ground arith

pub derived_beq_iff : (a b : DerivedComponentName) → (derived_beq a b ≡ true) ↔ (a ≡ b)
unfolding derived_beq
derived_beq_iff a b = (
  λ h. discriminant-injective a b ((nat_beq_iff _ _).0 h),
  λ e. (nat_beq_iff _ _).1 (ap discriminant e),
)

pub name_beq_iff : (a b : HttpMessageComponentName) → (name_beq a b ≡ true) ↔ (a ≡ b)
unfolding name_beq
name_beq_iff (HttpMessageComponentName.http_field a) (HttpMessageComponentName.http_field b) =
    ground (arith, eq_iff a b)
name_beq_iff (HttpMessageComponentName.derived a) (HttpMessageComponentName.derived b) =
    ground (arith, derived_beq_iff a b)
name_beq_iff (HttpMessageComponentName.http_field a) (HttpMessageComponentName.derived b) =
    ground arith
name_beq_iff (HttpMessageComponentName.derived a) (HttpMessageComponentName.http_field b) =
    ground arith
