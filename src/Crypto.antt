-- ===== src/Crypto.antt =====
-- httpsig/src/crypto/mod.rs
pub mod Laws
pub mod Symmetric
pub mod Asymmetric
use httpsig_rs.Base.{
  ℕ, String, Bool, List, Outcome, ok, err, ◌==◌, nat_eq, string_eq, if◌then◌else◌,
}
use httpsig_rs.Error.{HttpSigError}

-- The two RSA algorithms stand under the feature `rsa-signature`.
pub data AlgorithmName : Type 0 where
  hmac_sha256 ecdsa_p256_sha256 ecdsa_p384_sha384 ed25519 rsa_v1_5_sha256 rsa_pss_sha512 :
      AlgorithmName

unfoldable pub alg_as_str : AlgorithmName → String
alg_as_str AlgorithmName.hmac_sha256 = "hmac-sha256"
alg_as_str AlgorithmName.ecdsa_p256_sha256 = "ecdsa-p256-sha256"
alg_as_str AlgorithmName.ecdsa_p384_sha384 = "ecdsa-p384-sha384"
alg_as_str AlgorithmName.ed25519 = "ed25519"
alg_as_str AlgorithmName.rsa_v1_5_sha256 = "rsa-v1_5-sha256"
alg_as_str AlgorithmName.rsa_pss_sha512 = "rsa-pss-sha512"

discriminant : AlgorithmName → ℕ
discriminant AlgorithmName.hmac_sha256 = 0
discriminant AlgorithmName.ecdsa_p256_sha256 = 1
discriminant AlgorithmName.ecdsa_p384_sha384 = 2
discriminant AlgorithmName.ed25519 = 3
discriminant AlgorithmName.rsa_v1_5_sha256 = 4
discriminant AlgorithmName.rsa_pss_sha512 = 5

-- `derive(PartialEq)`
unfoldable pub alg_beq : AlgorithmName → AlgorithmName → Bool
unfolding discriminant
alg_beq a b = discriminant a == discriminant b

unfoldable pub alg_from_str : String → Outcome HttpSigError AlgorithmName
alg_from_str s =
    if s == "hmac-sha256"
    then ok AlgorithmName.hmac_sha256
    else if s == "ecdsa-p256-sha256"
    then ok AlgorithmName.ecdsa_p256_sha256
    else if s == "ecdsa-p384-sha384"
    then ok AlgorithmName.ecdsa_p384_sha384
    else if s == "ed25519"
    then ok AlgorithmName.ed25519
    else if s == "rsa-v1_5-sha256"
    then ok AlgorithmName.rsa_v1_5_sha256
    else if s == "rsa-pss-sha512"
    then ok AlgorithmName.rsa_pss_sha512
    else err (HttpSigError.invalid_algorithm_name s)

abbrev pub Bytes : Type 0
Bytes = List ℕ

-- The traits `SigningKey` and `VerifyingKey`: a key is what its methods do.
pub record SigningKey : Type 0 where
  pub sign : Bytes → Outcome HttpSigError Bytes
  pub key_id : String
  pub alg : AlgorithmName

pub record VerifyingKey : Type 0 where
  pub verify : Bytes → Bytes → Outcome HttpSigError (Unit {0})
  pub key_id : String
  pub alg : AlgorithmName
