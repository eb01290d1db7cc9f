-- ===== src/Crypto/Asymmetric.antt =====
-- httpsig/src/crypto/asymmetric.rs, with the feature `rsa-signature`
pub mod Public
pub mod Secret
pub mod Consistent
pub mod Panics
pub mod Signs
use httpsig_rs.Base.{
  ℕ, suc, zero, String, Bool, true, false, List, [], ◌∷◌, Option, none, some, ◌<>◌, ◌==◌, nat_eq,
  string_eq, length, Outcome, ok, err, panic, map_ok, map_err, ok_or, ◌>>=◌, ◌>>◌, ensure,
  if◌then◌else◌,
}
use httpsig_rs.Error.{HttpSigError}
use httpsig_rs.Sfv.{Parsed, parsed, failed, or_error}
use httpsig_rs.Crypto.{AlgorithmName, alg_beq, Bytes}

-- What the program calls of the crate of one signature scheme to read and write its keys and
-- signatures. The readers that take an array of a fixed size (`bytes.into()`) panic at a slice of
-- another length.
pub record Scheme : Type 1 where
  pub Secret : Type 0
  pub Public : Type 0
  pub Signature : Type 0
  pub secret_from_bytes : Bytes → Outcome String Secret
  pub public_from_bytes : Bytes → Parsed Public
  pub public_key : Secret → Public
  pub signature_from_bytes : Bytes → Outcome String Signature
  pub to_bytes : Signature → Bytes

-- `pkcs8::PrivateKeyInfo` and `spki::SubjectPublicKeyInfoRef`
pub record PrivateKeyInfo : Type 0 where
  pub oid : String
  pub parameters_oid : Parsed String
  pub private_key : Bytes

pub record SubjectPublicKeyInfo : Type 0 where
  pub oid : String
  pub parameters_oid : Parsed String
  pub subject_public_key : Option Bytes

pub record AsymmetricCrypto : Type 1 where
  pub p256 : Scheme
  pub p384 : Scheme
  pub ed25519 : Scheme
  pub rsa_v1_5 : Scheme
  pub rsa_pss : Scheme
  -- the hashers of `sha2`: `Sha256::new`, `Sha384::new` and `update`
  pub Hasher : Type 0
  pub sha256_new : Hasher
  pub sha384_new : Hasher
  pub update : Hasher → Bytes → Hasher
  -- `sign_digest` and `verify_digest` of `ecdsa`
  pub p256_sign_digest : p256.Secret → Hasher → p256.Signature
  pub p256_verify_digest : p256.Public → Hasher → p256.Signature → Parsed (Unit {0})
  pub p384_sign_digest : p384.Secret → Hasher → p384.Signature
  pub p384_verify_digest : p384.Public → Hasher → p384.Signature → Parsed (Unit {0})
  -- `sign` with the noise and `sign_with_rng` with the random bytes that the call draws
  pub ed25519_sign : ed25519.Secret → Bytes → Bytes → ed25519.Signature
  pub ed25519_verify : ed25519.Public → Bytes → ed25519.Signature → Parsed (Unit {0})
  pub rsa_v1_5_sign_with_rng : rsa_v1_5.Secret → Bytes → Bytes → rsa_v1_5.Signature
  pub rsa_v1_5_verify : rsa_v1_5.Public → Bytes → rsa_v1_5.Signature → Parsed (Unit {0})
  pub rsa_pss_sign_with_rng : rsa_pss.Secret → Bytes → Bytes → rsa_pss.Signature
  pub rsa_pss_verify : rsa_pss.Public → Bytes → rsa_pss.Signature → Parsed (Unit {0})
  pub private_key_info : Bytes → Parsed PrivateKeyInfo
  pub public_key_info : Bytes → Parsed SubjectPublicKeyInfo
  -- `sec1::EcPrivateKey::try_from`, and its field `private_key`
  pub ec_private_key : Bytes → Parsed Bytes
  -- `Document::from_pem`: the label and the bytes
  pub document_from_pem : String → Parsed (String × Bytes)
  -- the compressed SEC1 points, the raw key and the PKCS#1 encodings
  pub p256_point : p256.Public → Bytes
  pub p384_point : p384.Public → Bytes
  pub ed25519_raw : ed25519.Public → Bytes
  pub rsa_v1_5_der : rsa_v1_5.Public → Parsed Bytes
  pub rsa_pss_der : rsa_pss.Public → Parsed Bytes
  pub sha256 : Bytes → Bytes
  pub encode : Bytes → String

abbrev pub oid_ec : String
oid_ec = "1.2.840.10045.2.1"

abbrev pub oid_ed25519 : String
oid_ed25519 = "1.3.101.112"

abbrev pub oid_rsa : String
oid_rsa = "1.2.840.113549.1.1.1"

abbrev pub oid_secp256r1 : String
oid_secp256r1 = "1.2.840.10045.3.1.7"

abbrev pub oid_secp384r1 : String
oid_secp384r1 = "1.3.132.0.34"

-- The algorithm of a curve.
unfoldable pub curve_alg : (String → HttpSigError) → String → Outcome HttpSigError AlgorithmName
curve_alg error param =
    if param == oid_secp256r1
    then ok AlgorithmName.ecdsa_p256_sha256
    else if param == oid_secp384r1
    then ok AlgorithmName.ecdsa_p384_sha384
    else err (error "Unsupported curve")

unfoldable pub is_rsa : AlgorithmName → Bool
is_rsa AlgorithmName.rsa_v1_5_sha256 = true
is_rsa AlgorithmName.rsa_pss_sha512 = true
is_rsa _ = false

-- `&bytes[2..]`
unfoldable pub drop_two : Bytes → Outcome HttpSigError Bytes
drop_two (_ ∷ _ ∷ rest) = ok rest
drop_two bytes = panic "range start index 2 out of range for slice"

module _ (c : AsymmetricCrypto) where
  pub data SecretKey : Type 0 where
    ecdsa_p384_sha384 : c.p384.Secret → SecretKey
    ecdsa_p256_sha256 : c.p256.Secret → SecretKey
    ed25519 : c.ed25519.Secret → SecretKey
    rsa_v1_5_sha256 : c.rsa_v1_5.Secret → SecretKey
    rsa_pss_sha512 : c.rsa_pss.Secret → SecretKey

  pub data PublicKey : Type 0 where
    ecdsa_p256_sha256 : c.p256.Public → PublicKey
    ecdsa_p384_sha384 : c.p384.Public → PublicKey
    ed25519 : c.ed25519.Public → PublicKey
    rsa_v1_5_sha256 : c.rsa_v1_5.Public → PublicKey
    rsa_pss_sha512 : c.rsa_pss.Public → PublicKey
