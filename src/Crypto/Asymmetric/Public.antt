-- ===== src/Crypto/Asymmetric/Public.antt =====
-- `PublicKey` of httpsig/src/crypto/asymmetric.rs
use httpsig_rs.Base.{
  String, ◌<>◌, ◌==◌, string_eq, Outcome, err, map_ok, map_err, ok_or, ◌>>=◌, ◌>>◌, ensure,
  as_bytes, if◌then◌else◌,
}
use httpsig_rs.Error.{HttpSigError}
use httpsig_rs.Sfv.{Parsed, parsed, failed, or_error}
use httpsig_rs.Crypto.{AlgorithmName, alg_beq, Bytes}
use httpsig_rs.Crypto.Asymmetric.{
  Scheme, SubjectPublicKeyInfo, AsymmetricCrypto, PublicKey, oid_ec, oid_ed25519, oid_rsa,
  curve_alg, is_rsa,
}

abbrev parse_error : String → HttpSigError
parse_error = HttpSigError.parse_public_key_error

module _ (s : Scheme) where
  public_of_bytes : Bytes → Outcome HttpSigError s.Public
  public_of_bytes bytes = or_error HttpSigError.parse_public_key_error (s.public_from_bytes bytes)

  -- The signature is read, then checked.
  unfoldable pub verify_with :
      (s.Signature → Parsed (Unit {0})) → Bytes → Outcome HttpSigError (Unit {0})
  verify_with check signature = do
    sig ← map_err HttpSigError.parse_signature_error (s.signature_from_bytes signature)
    or_error HttpSigError.invalid_signature (check sig)

-- `.unwrap_or(b"rsa-der-serialization-failed".to_vec())`
der_or_failed : Parsed Bytes → Bytes
unfolding as_bytes
der_or_failed (parsed bytes) = bytes
der_or_failed (failed _) = as_bytes "rsa-der-serialization-failed"

module _ (c : AsymmetricCrypto) where
  unfoldable pub public_from_bytes : AlgorithmName → Bytes → Outcome HttpSigError (PublicKey c)
  unfolding public_of_bytes
  public_from_bytes AlgorithmName.ecdsa_p256_sha256 bytes =
      map_ok PublicKey.ecdsa_p256_sha256 (public_of_bytes c.p256 bytes)
  public_from_bytes AlgorithmName.ecdsa_p384_sha384 bytes =
      map_ok PublicKey.ecdsa_p384_sha384 (public_of_bytes c.p384 bytes)
  public_from_bytes AlgorithmName.ed25519 bytes =
      map_ok PublicKey.ed25519 (public_of_bytes c.ed25519 bytes)
  public_from_bytes AlgorithmName.rsa_v1_5_sha256 bytes =
      map_ok PublicKey.rsa_v1_5_sha256 (public_of_bytes c.rsa_v1_5 bytes)
  public_from_bytes AlgorithmName.rsa_pss_sha512 bytes =
      map_ok PublicKey.rsa_pss_sha512 (public_of_bytes c.rsa_pss bytes)
  public_from_bytes AlgorithmName.hmac_sha256 bytes = err (parse_error "Unsupported algorithm")

  subject_public_key : SubjectPublicKeyInfo → Outcome HttpSigError Bytes
  subject_public_key spki = ok_or spki.subject_public_key (parse_error "Invalid public key")

  -- The key bytes, once the key's algorithm is seen to be the caller's.
  unfoldable pub public_key_bytes :
      AlgorithmName → SubjectPublicKeyInfo → Outcome HttpSigError Bytes
  unfolding curve_alg alg_beq is_rsa subject_public_key
  public_key_bytes alg spki =
      if spki.oid == oid_ec
      then (do
        param ← or_error parse_error spki.parameters_oid
        algorithm_name ← curve_alg parse_error param
        ensure (alg_beq algorithm_name alg) (parse_error "Algorithm mismatch")
        subject_public_key spki)
      else if spki.oid == oid_ed25519
      then (do
        ensure (alg_beq AlgorithmName.ed25519 alg) (parse_error "Algorithm mismatch")
        subject_public_key spki)
      else if spki.oid == oid_rsa
      then (do ensure (is_rsa alg) (parse_error "Algorithm mismatch"); subject_public_key spki)
      else err (parse_error "Unsupported algorithm")

  unfoldable pub public_from_pem : AlgorithmName → String → Outcome HttpSigError (PublicKey c)
  unfolding public_key_bytes public_from_bytes
  public_from_pem alg pem = do
    (tag, doc) ← or_error parse_error (c.document_from_pem pem)
    ensure (tag == "PUBLIC KEY") (parse_error "Invalid tag")
    spki ←
        or_error (λ e. parse_error ("Error decoding SubjectPublicKeyInfo: " <> e))
          (c.public_key_info doc)
    pk_bytes ← public_key_bytes alg spki
    public_from_bytes alg pk_bytes

  unfoldable pub public_verify : PublicKey c → Bytes → Bytes → Outcome HttpSigError (Unit {0})
  unfolding verify_with
  public_verify (PublicKey.ecdsa_p256_sha256 pk) message signature =
      let digest = c.update c.sha256_new message in
      verify_with c.p256 (c.p256_verify_digest pk digest) signature
  public_verify (PublicKey.ecdsa_p384_sha384 pk) message signature =
      let digest = c.update c.sha384_new message in
      verify_with c.p384 (c.p384_verify_digest pk digest) signature
  public_verify (PublicKey.ed25519 pk) message signature =
      verify_with c.ed25519 (c.ed25519_verify pk message) signature
  public_verify (PublicKey.rsa_v1_5_sha256 pk) message signature =
      verify_with c.rsa_v1_5 (c.rsa_v1_5_verify pk message) signature
  public_verify (PublicKey.rsa_pss_sha512 pk) message signature =
      verify_with c.rsa_pss (c.rsa_pss_verify pk message) signature

  public_bytes : PublicKey c → Bytes
  unfolding der_or_failed
  public_bytes (PublicKey.ecdsa_p256_sha256 pk) = c.p256_point pk
  public_bytes (PublicKey.ecdsa_p384_sha384 pk) = c.p384_point pk
  public_bytes (PublicKey.ed25519 pk) = c.ed25519_raw pk
  public_bytes (PublicKey.rsa_v1_5_sha256 pk) = der_or_failed (c.rsa_v1_5_der pk)
  public_bytes (PublicKey.rsa_pss_sha512 pk) = der_or_failed (c.rsa_pss_der pk)

  unfoldable pub public_key_id : PublicKey c → String
  unfolding public_bytes
  public_key_id pk = c.encode (c.sha256 (public_bytes pk))

  unfoldable pub public_alg : PublicKey c → AlgorithmName
  public_alg (PublicKey.ecdsa_p256_sha256 _) = AlgorithmName.ecdsa_p256_sha256
  public_alg (PublicKey.ecdsa_p384_sha384 _) = AlgorithmName.ecdsa_p384_sha384
  public_alg (PublicKey.ed25519 _) = AlgorithmName.ed25519
  public_alg (PublicKey.rsa_v1_5_sha256 _) = AlgorithmName.rsa_v1_5_sha256
  public_alg (PublicKey.rsa_pss_sha512 _) = AlgorithmName.rsa_pss_sha512
