-- ===== src/Crypto/Asymmetric/Secret.antt =====
-- `SecretKey` of httpsig/src/crypto/asymmetric.rs
use httpsig_rs.Base.{
  String, ◌<>◌, ◌==◌, nat_eq, string_eq, length, Outcome, ok, err, panic, map_ok, map_err, ◌>>=◌,
  ◌>>◌, ensure, if◌then◌else◌,
}
use httpsig_rs.Error.{HttpSigError}
use httpsig_rs.Sfv.{or_error}
use httpsig_rs.Crypto.{AlgorithmName, alg_beq, Bytes, SigningKey, VerifyingKey}
use httpsig_rs.Crypto.Asymmetric.{
  Scheme, PrivateKeyInfo, AsymmetricCrypto, SecretKey, PublicKey, oid_ec, oid_ed25519, oid_rsa,
  curve_alg, is_rsa, drop_two,
}
use httpsig_rs.Crypto.Asymmetric.Public.{public_verify, public_key_id, public_alg}

abbrev parse_error : String → HttpSigError
parse_error = HttpSigError.parse_private_key_error

unfoldable pub secret_of_bytes : (s : Scheme) → Bytes → Outcome HttpSigError s.Secret
secret_of_bytes s bytes = map_err HttpSigError.parse_private_key_error (s.secret_from_bytes bytes)

-- `seed.copy_from_slice(bytes)` into 32 bytes
unfoldable pub copy_seed : Bytes → Outcome HttpSigError Bytes
copy_seed bytes =
    if length bytes == 32
    then ok bytes
    else panic "source slice length does not match destination slice length"

module _ (c : AsymmetricCrypto) where
  unfoldable pub secret_from_bytes : AlgorithmName → Bytes → Outcome HttpSigError (SecretKey c)
  unfolding secret_of_bytes copy_seed
  secret_from_bytes AlgorithmName.ecdsa_p256_sha256 bytes =
      map_ok SecretKey.ecdsa_p256_sha256 (secret_of_bytes c.p256 bytes)
  secret_from_bytes AlgorithmName.ecdsa_p384_sha384 bytes =
      map_ok SecretKey.ecdsa_p384_sha384 (secret_of_bytes c.p384 bytes)
  secret_from_bytes AlgorithmName.ed25519 bytes = do
    seed ← copy_seed bytes
    map_ok SecretKey.ed25519 (secret_of_bytes c.ed25519 seed)
  secret_from_bytes AlgorithmName.rsa_v1_5_sha256 bytes =
      map_ok SecretKey.rsa_v1_5_sha256 (secret_of_bytes c.rsa_v1_5 bytes)
  secret_from_bytes AlgorithmName.rsa_pss_sha512 bytes =
      map_ok SecretKey.rsa_pss_sha512 (secret_of_bytes c.rsa_pss bytes)
  secret_from_bytes AlgorithmName.hmac_sha256 bytes = err (parse_error "Unsupported algorithm")

  -- The key bytes, once the key's algorithm is seen to be the caller's.
  unfoldable pub secret_key_bytes : AlgorithmName → PrivateKeyInfo → Outcome HttpSigError Bytes
  unfolding curve_alg alg_beq is_rsa drop_two ◌<>◌
  secret_key_bytes alg pki =
      if pki.oid == oid_ec
      then (do
        param ← or_error parse_error pki.parameters_oid
        algorithm_name ← curve_alg parse_error param
        ensure (alg_beq algorithm_name alg) (parse_error "Algorithm mismatch")
        or_error (λ e. parse_error ("Error decoding EcPrivateKey: " <> e))
            (c.ec_private_key pki.private_key))
      else if pki.oid == oid_ed25519
      then (do
        ensure (alg_beq AlgorithmName.ed25519 alg) (parse_error "Algorithm mismatch")
        drop_two pki.private_key)
      else if pki.oid == oid_rsa
      then (do ensure (is_rsa alg) (parse_error "Algorithm mismatch"); ok pki.private_key)
      else err (parse_error "Unsupported algorithm")

  unfoldable pub secret_from_der : AlgorithmName → Bytes → Outcome HttpSigError (SecretKey c)
  unfolding secret_key_bytes secret_from_bytes
  secret_from_der alg der = do
    pki ← or_error parse_error (c.private_key_info der)
    sk_bytes ← secret_key_bytes alg pki
    secret_from_bytes alg sk_bytes

  unfoldable pub secret_from_pem : AlgorithmName → String → Outcome HttpSigError (SecretKey c)
  unfolding secret_from_der
  secret_from_pem alg pem = do
    (tag, doc) ← or_error parse_error (c.document_from_pem pem)
    ensure (tag == "PRIVATE KEY") (parse_error "Invalid tag")
    secret_from_der alg doc

  unfoldable pub public_key : SecretKey c → PublicKey c
  public_key (SecretKey.ecdsa_p256_sha256 sk) = PublicKey.ecdsa_p256_sha256 (c.p256.public_key sk)
  public_key (SecretKey.ecdsa_p384_sha384 sk) = PublicKey.ecdsa_p384_sha384 (c.p384.public_key sk)
  public_key (SecretKey.ed25519 sk) = PublicKey.ed25519 (c.ed25519.public_key sk)
  public_key (SecretKey.rsa_v1_5_sha256 sk) = PublicKey.rsa_v1_5_sha256 (c.rsa_v1_5.public_key sk)
  public_key (SecretKey.rsa_pss_sha512 sk) = PublicKey.rsa_pss_sha512 (c.rsa_pss.public_key sk)

  -- `random` is what the call draws from the random number generator, if it does.
  unfoldable pub secret_sign : SecretKey c → Bytes → Bytes → Outcome HttpSigError Bytes
  secret_sign (SecretKey.ecdsa_p256_sha256 sk) random message =
      let digest = c.update c.sha256_new message in
      ok (c.p256.to_bytes (c.p256_sign_digest sk digest))
  secret_sign (SecretKey.ecdsa_p384_sha384 sk) random message =
      let digest = c.update c.sha384_new message in
      ok (c.p384.to_bytes (c.p384_sign_digest sk digest))
  secret_sign (SecretKey.ed25519 sk) random message =
      ok (c.ed25519.to_bytes (c.ed25519_sign sk message random))
  secret_sign (SecretKey.rsa_v1_5_sha256 sk) random message =
      ok (c.rsa_v1_5.to_bytes (c.rsa_v1_5_sign_with_rng sk random message))
  secret_sign (SecretKey.rsa_pss_sha512 sk) random message =
      ok (c.rsa_pss.to_bytes (c.rsa_pss_sign_with_rng sk random message))

  -- The two trait implementations: identity and algorithm come from the public key. `random` gives
  -- the random bytes that signing a message draws.
  unfoldable pub secret_signing_key : (Bytes → Bytes) → SecretKey c → SigningKey
  unfolding secret_sign public_key public_key_id public_alg
  secret_signing_key random sk = record {
    sign = λ message. secret_sign sk (random message) message;
    key_id = public_key_id c (public_key sk);
    alg = public_alg c (public_key sk);
  }

  unfoldable pub secret_verifying_key : SecretKey c → VerifyingKey
  unfolding public_key public_verify public_key_id public_alg
  secret_verifying_key sk = record {
    verify = public_verify c (public_key sk);
    key_id = public_key_id c (public_key sk);
    alg = public_alg c (public_key sk);
  }

  unfoldable pub public_verifying_key : PublicKey c → VerifyingKey
  unfolding public_verify public_key_id public_alg
  public_verifying_key pk = record {
    verify = public_verify c pk;
    key_id = public_key_id c pk;
    alg = public_alg c pk;
  }
