-- ===== src/Tests/Keys.antt =====
-- Examples for keys and algorithms.
use httpsig_rs.Base.{◌≡◌, refl, String, [], ◌∷◌, ◌++◌, some, ok, if◌then◌else◌}
use httpsig_rs.Sfv.{Parsed, parsed, failed}
use httpsig_rs.Signature.Verify.{Accepts}
use httpsig_rs.Crypto.{AlgorithmName, Bytes, SigningKey, VerifyingKey}
use httpsig_rs.Crypto.Asymmetric.{
  Scheme, PrivateKeyInfo, SubjectPublicKeyInfo, AsymmetricCrypto, SecretKey, PublicKey, oid_ec,
  oid_ed25519, oid_secp256r1,
}
use httpsig_rs.Crypto.Asymmetric.Public.{public_from_pem, public_alg}
use httpsig_rs.Crypto.Asymmetric.Secret.{
  secret_from_der, secret_sign, public_key, secret_signing_key, secret_verifying_key,
  public_verifying_key,
}
use httpsig_rs.Crypto.Asymmetric.Consistent.{
  HasIdentifiers, secret_from_der-alg, public_from_pem-alg,
}
use httpsig_rs.Crypto.Asymmetric.Signs.{IsSound, secret_signing_key-Accepts}
use httpsig_rs.Digest.{is_equal_digest}
use httpsig_rs.Digest.Verified.{is_equal_digest_iff}

-- A scheme whose signatures are the messages.
toy_accepts : Bytes → Bytes → Parsed (Unit {0})
unfolding is_equal_digest
toy_accepts message signature =
    if is_equal_digest message signature then parsed tt else failed "toy"

abbrev toy_scheme : Scheme
toy_scheme = record {
  Secret = Bytes;
  Public = Bytes;
  Signature = Bytes;
  secret_from_bytes = ok;
  public_from_bytes = parsed;
  public_key = λ sk. sk;
  signature_from_bytes = ok;
  to_bytes = λ s. s;
}

abbrev seed : Bytes
seed =
    1 ∷ 2 ∷ 3 ∷ 4 ∷ 5 ∷ 6 ∷ 7 ∷ 8 ∷ 1 ∷ 2 ∷ 3 ∷ 4 ∷ 5 ∷ 6 ∷ 7 ∷ 8 ∷ 1 ∷ 2 ∷ 3 ∷ 4 ∷ 5 ∷ 6 ∷ 7 ∷ 8
    ∷ 1 ∷ 2 ∷ 3 ∷ 4 ∷ 5 ∷ 6 ∷ 7 ∷ 8 ∷ []

abbrev ed_info : PrivateKeyInfo
ed_info = record { oid = oid_ed25519; parameters_oid = failed "none"; private_key = 4 ∷ 32 ∷ seed }

abbrev ec_info : SubjectPublicKeyInfo
ec_info = record {
  oid = oid_ec;
  parameters_oid = parsed oid_secp256r1;
  subject_public_key = some (9 ∷ []);
}

-- A signature is what is signed: the bytes a hasher has been fed, with what it began with, or the
-- message.
unfoldable pub crypto_with : String → PrivateKeyInfo → AsymmetricCrypto
unfolding toy_accepts
crypto_with label info = record {
  p256 = toy_scheme;
  p384 = toy_scheme;
  ed25519 = toy_scheme;
  rsa_v1_5 = toy_scheme;
  rsa_pss = toy_scheme;
  Hasher = Bytes;
  sha256_new = 1 ∷ [];
  sha384_new = 2 ∷ [];
  update = λ d m. d ++ m;
  p256_sign_digest = λ sk d. d;
  p256_verify_digest = λ pk d s. toy_accepts d s;
  p384_sign_digest = λ sk d. d;
  p384_verify_digest = λ pk d s. toy_accepts d s;
  ed25519_sign = λ sk m r. m;
  ed25519_verify = λ pk m s. toy_accepts m s;
  rsa_v1_5_sign_with_rng = λ sk r m. m;
  rsa_v1_5_verify = λ pk m s. toy_accepts m s;
  rsa_pss_sign_with_rng = λ sk r m. m;
  rsa_pss_verify = λ pk m s. toy_accepts m s;
  private_key_info = λ d. parsed info;
  public_key_info = λ d. parsed ec_info;
  ec_private_key = λ d. failed "ec";
  document_from_pem = λ s. parsed (label, 0 ∷ []);
  p256_point = λ k. 2 ∷ [];
  p384_point = λ k. 2 ∷ [];
  ed25519_raw = λ k. 2 ∷ [];
  rsa_v1_5_der = λ k. failed "der";
  rsa_pss_der = λ k. failed "der";
  sha256 = λ b. b;
  encode = λ b. "id";
}

unfoldable pub toy_crypto : AsymmetricCrypto
unfolding crypto_with
toy_crypto = crypto_with "PUBLIC KEY" ed_info

accepts_own : (message : Bytes) → toy_accepts message message ≡ parsed tt
unfolding toy_accepts
accepts_own message = rw ((is_equal_digest_iff message message).1 refl) refl

pub toy-IsSound : IsSound toy_crypto
unfolding toy_crypto crypto_with
toy-IsSound = record {
  p256_reads = λ s. refl;
  p384_reads = λ s. refl;
  ed25519_reads = λ s. refl;
  rsa_v1_5_reads = λ s. refl;
  rsa_pss_reads = λ s. refl;
  p256 = λ sk d. accepts_own d;
  p384 = λ sk d. accepts_own d;
  ed25519 = λ sk m r. accepts_own m;
  rsa_v1_5 = λ sk m r. accepts_own m;
  rsa_pss = λ sk m r. accepts_own m;
}

-- The Ed25519 key with this seed.
ed_key : SecretKey toy_crypto
unfolding toy_crypto crypto_with
ed_key = SecretKey.ed25519 seed

ec_key : PublicKey toy_crypto
unfolding toy_crypto crypto_with
ec_key = PublicKey.ecdsa_p256_sha256 (9 ∷ [])

der_read : secret_from_der toy_crypto AlgorithmName.ed25519 (0 ∷ []) ≡ ok ed_key
unfolding secret_from_der toy_crypto crypto_with ed_key
der_read = refl

secret_from_der-alg_example :
    (public_alg toy_crypto (public_key toy_crypto ed_key) ≡ AlgorithmName.ed25519)
    × ((pki : PrivateKeyInfo) × (AsymmetricCrypto.private_key_info toy_crypto (0 ∷ []) ≡ parsed pki)
        × HasIdentifiers AlgorithmName.ed25519 pki.oid pki.parameters_oid)
secret_from_der-alg_example =
    secret_from_der-alg toy_crypto AlgorithmName.ed25519 (0 ∷ []) ed_key der_read

pem_read : public_from_pem toy_crypto AlgorithmName.ecdsa_p256_sha256 "pem" ≡ ok ec_key
unfolding public_from_pem toy_crypto ec_key
pem_read = refl

public_from_pem-alg_example :
    (public_alg toy_crypto ec_key ≡ AlgorithmName.ecdsa_p256_sha256)
    × ((der : Bytes) × (spki : SubjectPublicKeyInfo) × (AsymmetricCrypto.document_from_pem
            toy_crypto "pem"
          ≡ parsed ("PUBLIC KEY", der))
        × (AsymmetricCrypto.public_key_info toy_crypto der ≡ parsed spki)
        × HasIdentifiers AlgorithmName.ecdsa_p256_sha256 spki.oid spki.parameters_oid)
public_from_pem-alg_example =
    public_from_pem-alg toy_crypto AlgorithmName.ecdsa_p256_sha256 "pem" ec_key pem_read

-- A private key of Ed25519 with one byte in place of the seed.
abbrev short_info : PrivateKeyInfo
short_info = record {
  oid = oid_ed25519;
  parameters_oid = failed "none";
  private_key = 4 ∷ 1 ∷ 7 ∷ [];
}

unfoldable short_crypto : AsymmetricCrypto
unfolding crypto_with
short_crypto = crypto_with "PRIVATE KEY" short_info

-- The P-384 key with this seed, which signs the bytes that SHA-384 is fed.
p384_key : SecretKey toy_crypto
unfolding toy_crypto crypto_with
p384_key = SecretKey.ecdsa_p384_sha384 seed

key_signs : secret_sign toy_crypto p384_key [] (5 ∷ []) ≡ ok (2 ∷ 5 ∷ [])
unfolding secret_sign toy_crypto p384_key
key_signs = refl

secret_signing_key-Accepts_example :
    Accepts
      (secret_signing_key toy_crypto (λ m. m) p384_key)
      (public_verifying_key toy_crypto (public_key toy_crypto p384_key))
    × Accepts
        (secret_signing_key toy_crypto (λ m. m) p384_key)
        (secret_verifying_key toy_crypto p384_key)
    × (SigningKey.key_id (secret_signing_key toy_crypto (λ m. m) p384_key)
        ≡ VerifyingKey.key_id (public_verifying_key toy_crypto (public_key toy_crypto p384_key)))
    × (SigningKey.alg (secret_signing_key toy_crypto (λ m. m) p384_key)
        ≡ VerifyingKey.alg (public_verifying_key toy_crypto (public_key toy_crypto p384_key)))
secret_signing_key-Accepts_example =
    secret_signing_key-Accepts toy_crypto p384_key (λ m. m) toy-IsSound
