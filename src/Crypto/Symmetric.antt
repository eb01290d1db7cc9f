-- ===== src/Crypto/Symmetric.antt =====
-- httpsig/src/crypto/symmetric.rs
use httpsig_rs.Base.{String, Bool, ◌<>◌, Outcome, ok, err, ◌>>=◌, if◌then◌else◌}
use httpsig_rs.Error.{HttpSigError}
use httpsig_rs.Sfv.{Parsed, or_error}
use httpsig_rs.Crypto.{AlgorithmName, alg_as_str, Bytes}

-- The crates `base64`, `hmac` and `sha2`.
pub record SymmetricCrypto : Type 0 where
  pub decode : String → Parsed Bytes
  pub encode : Bytes → String
  pub sha256 : Bytes → Bytes
  -- `new_from_slice`, `update` and `finalize`, which take a key of any length
  pub hmac_sha256 : Bytes → Bytes → Bytes
  -- `verify_slice`, which compares in constant time
  pub verify_slice : Bytes → Bytes → Bytes → Bool

pub data SharedKey : Type 0 where
  hmac_sha256 : Bytes → SharedKey

shared_key_of : AlgorithmName → Bytes → Outcome HttpSigError SharedKey
unfolding alg_as_str ◌<>◌
shared_key_of AlgorithmName.hmac_sha256 key = ok (SharedKey.hmac_sha256 key)
shared_key_of alg key = err (
    HttpSigError.invalid_algorithm_name ("Unsupported algorithm for SharedKey: " <> alg_as_str alg))

module _ (c : SymmetricCrypto) where
  unfoldable pub shared_from_base64 : AlgorithmName → String → Outcome HttpSigError SharedKey
  unfolding shared_key_of
  shared_from_base64 alg key = do
    bytes ← or_error HttpSigError.base64_decode_error (SymmetricCrypto.decode c key)
    shared_key_of alg bytes

  unfoldable pub shared_sign : SharedKey → Bytes → Outcome HttpSigError Bytes
  shared_sign (SharedKey.hmac_sha256 key) bytes = ok (SymmetricCrypto.hmac_sha256 c key bytes)

  unfoldable pub shared_verify : SharedKey → Bytes → Bytes → Outcome HttpSigError (Unit {0})
  shared_verify (SharedKey.hmac_sha256 key) bytes expected_mac =
      if SymmetricCrypto.verify_slice c key bytes expected_mac
      then ok tt
      else err (HttpSigError.invalid_signature "Invalid MAC")

  unfoldable pub shared_key_id : SharedKey → String
  shared_key_id (SharedKey.hmac_sha256 key) =
      SymmetricCrypto.encode c (SymmetricCrypto.sha256 c key)

unfoldable pub shared_alg : SharedKey → AlgorithmName
shared_alg (SharedKey.hmac_sha256 _) = AlgorithmName.hmac_sha256
