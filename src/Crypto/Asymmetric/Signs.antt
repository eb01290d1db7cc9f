-- ===== src/Crypto/Asymmetric/Signs.antt =====
-- Verifying what a key has signed, for asymmetric.rs.
use httpsig_rs.Base.{◌≡◌, refl, sym, nat_eq, string_eq, ok, ok-injective}
use httpsig_rs.Sfv.{Parsed, parsed}
use httpsig_rs.Signature.Verify.{Accepts}
use httpsig_rs.Crypto.{Bytes}
use httpsig_rs.Crypto.Asymmetric.{Scheme, AsymmetricCrypto, SecretKey}
use httpsig_rs.Crypto.Asymmetric.Public.{verify_with, public_verify}
use httpsig_rs.Crypto.Asymmetric.Secret.{
  public_key, secret_sign, secret_signing_key, secret_verifying_key, public_verifying_key,
}

-- The encoding of a signature is read back.
abbrev pub ReadsOwn : Scheme → Type 0
ReadsOwn s = (sig : s.Signature) → s.signature_from_bytes (s.to_bytes sig) ≡ ok sig

-- What the crates of the schemes promise: they read their own encodings, a signature of a hasher's
-- state is accepted for the same state, and one of a message for the same message, whatever random
-- bytes were drawn.
pub record IsSound (c : AsymmetricCrypto) : Type 0 where
  pub p256_reads : ReadsOwn c.p256
  pub p384_reads : ReadsOwn c.p384
  pub ed25519_reads : ReadsOwn c.ed25519
  pub rsa_v1_5_reads : ReadsOwn c.rsa_v1_5
  pub rsa_pss_reads : ReadsOwn c.rsa_pss
  pub p256 :
      (sk : c.p256.Secret) (d : c.Hasher)
      → c.p256_verify_digest (c.p256.public_key sk) d (c.p256_sign_digest sk d) ≡ parsed tt
  pub p384 :
      (sk : c.p384.Secret) (d : c.Hasher)
      → c.p384_verify_digest (c.p384.public_key sk) d (c.p384_sign_digest sk d) ≡ parsed tt
  pub ed25519 :
      (sk : c.ed25519.Secret) (m r : Bytes)
      → c.ed25519_verify (c.ed25519.public_key sk) m (c.ed25519_sign sk m r) ≡ parsed tt
  pub rsa_v1_5 :
      (sk : c.rsa_v1_5.Secret) (m r : Bytes)
      → c.rsa_v1_5_verify (c.rsa_v1_5.public_key sk) m (c.rsa_v1_5_sign_with_rng sk r m) ≡ parsed tt
  pub rsa_pss :
      (sk : c.rsa_pss.Secret) (m r : Bytes)
      → c.rsa_pss_verify (c.rsa_pss.public_key sk) m (c.rsa_pss_sign_with_rng sk r m) ≡ parsed tt

verify_with-own :
    (s : Scheme) (check : s.Signature → Parsed (Unit {0})) (sig : s.Signature)
    → ReadsOwn s
    → check sig ≡ parsed tt
    → verify_with s check (s.to_bytes sig) ≡ ok tt
unfolding verify_with
verify_with-own s check sig reads accepted = rw (reads sig, accepted) refl

public_verify-own :
    (c : AsymmetricCrypto) (sk : SecretKey c) (random message signature : Bytes)
    → IsSound c
    → secret_sign c sk random message ≡ ok signature
    → public_verify c (public_key c sk) message signature ≡ ok tt
unfolding secret_sign public_verify public_key
public_verify-own c (SecretKey.ecdsa_p256_sha256 sk) random message signature sound e =
    rw (sym (ok-injective e))
      (verify_with-own c.p256 _ _ (IsSound.p256_reads sound) (IsSound.p256 sound sk _))
public_verify-own c (SecretKey.ecdsa_p384_sha384 sk) random message signature sound e =
    rw (sym (ok-injective e))
      (verify_with-own c.p384 _ _ (IsSound.p384_reads sound) (IsSound.p384 sound sk _))
public_verify-own c (SecretKey.ed25519 sk) random message signature sound e =
    rw (sym (ok-injective e)) (
      verify_with-own c.ed25519 _ _ (IsSound.ed25519_reads sound)
        (IsSound.ed25519 sound sk message random))
public_verify-own c (SecretKey.rsa_v1_5_sha256 sk) random message signature sound e =
    rw (sym (ok-injective e)) (
      verify_with-own c.rsa_v1_5 _ _ (IsSound.rsa_v1_5_reads sound)
        (IsSound.rsa_v1_5 sound sk message random))
public_verify-own c (SecretKey.rsa_pss_sha512 sk) random message signature sound e =
    rw (sym (ok-injective e)) (
      verify_with-own c.rsa_pss _ _ (IsSound.rsa_pss_reads sound)
        (IsSound.rsa_pss sound sk message random))

-- Where the crates read their own signatures and accept a signature of a hasher's state, or of a
-- message, for the same state or message: whatever random bytes are drawn, what a secret key signs
-- is accepted by its public key and by the secret key itself where it stands for its public key, and
-- all three say the same key id and algorithm.
pub secret_signing_key-Accepts :
    (c : AsymmetricCrypto) (sk : SecretKey c) (random : Bytes → Bytes)
    → IsSound c
    → Accepts (secret_signing_key c random sk) (public_verifying_key c (public_key c sk))
      × Accepts (secret_signing_key c random sk) (secret_verifying_key c sk)
      × ((secret_signing_key c random sk).key_id
          ≡ (public_verifying_key c (public_key c sk)).key_id)
      × ((secret_signing_key c random sk).alg ≡ (public_verifying_key c (public_key c sk)).alg)
unfolding secret_signing_key secret_verifying_key public_verifying_key
secret_signing_key-Accepts c sk random sound = (
  λ m s e. public_verify-own c sk (random m) m s sound e,
  λ m s e. public_verify-own c sk (random m) m s sound e,
  refl,
  refl,
)
