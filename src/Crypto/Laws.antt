-- ===== src/Crypto/Laws.antt =====
-- Algorithm names as texts, for httpsig/src/crypto/mod.rs.
use httpsig_rs.Base.{
  ◌≡◌, ◌≢◌, ◌↔◌, refl, ap, ◌∙◌, true, String, Outcome, ok, err, ok-injective, Bool-cases, inl, inr,
  ◌==◌, string_eq, eq_iff, if◌then◌else◌, arith, nat_beq_iff,
}
use httpsig_rs.Error.{HttpSigError}
use httpsig_rs.Crypto.{AlgorithmName, alg_as_str, alg_from_str, discriminant, alg_beq}

test_sound :
    (s : String) (a tested : AlgorithmName) {rest : Outcome HttpSigError AlgorithmName}
    → (rest ≡ ok a → s ≡ alg_as_str a)
    → (if s == alg_as_str tested then ok tested else rest) ≡ ok a
    → s ≡ alg_as_str a
test_sound s a tested later h = elim (Bool-cases (s == alg_as_str tested)) [
  | inl same ↦ (eq_iff _ _).0 same ∙ ap alg_as_str (ok-injective (rw same at h))
  | inr other ↦ later (rw other at h)
]

test_fails :
    (s : String) (tested : AlgorithmName) {rest r : Outcome HttpSigError AlgorithmName}
    → s ≢ alg_as_str tested
    → rest ≡ r
    → (if s == alg_as_str tested then ok tested else rest) ≡ r
test_fails s tested h e = elim (Bool-cases (s == alg_as_str tested)) [
  | inl same ↦ absurd (h ((eq_iff _ _).0 same))
  | inr other ↦ rw other e
]

alg_from_str-alg_as_str : (a : AlgorithmName) → alg_from_str (alg_as_str a) ≡ ok a
unfolding alg_from_str alg_as_str
alg_from_str-alg_as_str AlgorithmName.hmac_sha256 = refl
alg_from_str-alg_as_str _ = refl

alg_from_str_sound : (s : String) (a : AlgorithmName) → alg_from_str s ≡ ok a → s ≡ alg_as_str a
unfolding alg_from_str alg_as_str
alg_from_str_sound s a = test_sound s a AlgorithmName.hmac_sha256 (
    test_sound s a AlgorithmName.ecdsa_p256_sha256 (
      test_sound s a AlgorithmName.ecdsa_p384_sha384 (
        test_sound s a AlgorithmName.ed25519 (
          test_sound s a AlgorithmName.rsa_v1_5_sha256
            (test_sound s a AlgorithmName.rsa_pss_sha512 (λ h. cc))))))

pub alg_from_str_fails :
    (s : String)
    → ((a : AlgorithmName) → s ≢ alg_as_str a)
    → alg_from_str s ≡ err (HttpSigError.invalid_algorithm_name s)
unfolding alg_from_str alg_as_str
alg_from_str_fails s h = test_fails s AlgorithmName.hmac_sha256 (h AlgorithmName.hmac_sha256) (
    test_fails s AlgorithmName.ecdsa_p256_sha256 (h AlgorithmName.ecdsa_p256_sha256) (
      test_fails s AlgorithmName.ecdsa_p384_sha384 (h AlgorithmName.ecdsa_p384_sha384) (
        test_fails s AlgorithmName.ed25519 (h AlgorithmName.ed25519) (
          test_fails s AlgorithmName.rsa_v1_5_sha256 (h AlgorithmName.rsa_v1_5_sha256)
            (test_fails s AlgorithmName.rsa_pss_sha512 (h AlgorithmName.rsa_pss_sha512) refl)))))

-- `from_str` accepts exactly the text of a name, and returns that name.
pub alg_from_str_iff :
    (s : String) (a : AlgorithmName) → (alg_from_str s ≡ ok a) ↔ (s ≡ alg_as_str a)
alg_from_str_iff s a = (alg_from_str_sound s a, λ e. rw e (alg_from_str-alg_as_str a))

discriminant-injective : (a b : AlgorithmName) → discriminant a ≡ discriminant b → a ≡ b
unfolding discriminant
discriminant-injective a b h = ground arith

pub alg_beq_iff : (a b : AlgorithmName) → (alg_beq a b ≡ true) ↔ (a ≡ b)
unfolding alg_beq
alg_beq_iff a b = (
  λ h. discriminant-injective a b ((nat_beq_iff _ _).0 h),
  λ e. (nat_beq_iff _ _).1 (ap discriminant e),
)
