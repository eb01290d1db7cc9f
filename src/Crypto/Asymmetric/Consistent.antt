-- ===== src/Crypto/Asymmetric/Consistent.antt =====
-- Keys are what they were asked to be, for httpsig/src/crypto/asymmetric.rs.
use httpsig_rs.Base.{
  ◌≡◌, refl, ap, sym, ◌∙◌, subst, inl, inr, String, true, Bool-cases, ◌==◌, nat_eq, string_eq,
  eq_iff, Outcome, ok, err, >>=-eq-ok, map_ok-eq-ok, ensure-eq-ok, ok-injective, ◌>>=◌,
  if◌then◌else◌, ensure,
}
use httpsig_rs.Error.{HttpSigError}
use httpsig_rs.Sfv.{Parsed, parsed, failed, or_error, or_error-eq-ok}
use httpsig_rs.Crypto.{AlgorithmName, alg_beq, Bytes}
use httpsig_rs.Crypto.Laws.{alg_beq_iff}
use httpsig_rs.Crypto.Asymmetric.{
  PrivateKeyInfo, SubjectPublicKeyInfo, AsymmetricCrypto, SecretKey, PublicKey, oid_ec, oid_ed25519,
  oid_rsa, oid_secp256r1, oid_secp384r1, curve_alg, is_rsa,
}
use httpsig_rs.Crypto.Asymmetric.Public.{
  public_from_bytes, public_key_bytes, public_from_pem, public_alg,
}
use httpsig_rs.Crypto.Asymmetric.Secret.{
  copy_seed, secret_from_bytes, secret_key_bytes, secret_from_der, public_key,
}

-- The object identifiers of a key of the algorithm: its own, and that of its curve if it has one.
abbrev pub HasIdentifiers : AlgorithmName → String → Parsed String → Type 0
HasIdentifiers AlgorithmName.hmac_sha256 oid param = ⊥
HasIdentifiers AlgorithmName.ecdsa_p256_sha256 oid param =
    (oid ≡ oid_ec) × (param ≡ parsed oid_secp256r1)
HasIdentifiers AlgorithmName.ecdsa_p384_sha384 oid param =
    (oid ≡ oid_ec) × (param ≡ parsed oid_secp384r1)
HasIdentifiers AlgorithmName.ed25519 oid param = oid ≡ oid_ed25519
HasIdentifiers AlgorithmName.rsa_v1_5_sha256 oid param = oid ≡ oid_rsa
HasIdentifiers AlgorithmName.rsa_pss_sha512 oid param = oid ≡ oid_rsa

HasIdentifiers-of_curve :
    (f : String → HttpSigError) (param : String) (alg : AlgorithmName)
    → curve_alg f param ≡ ok alg
    → HasIdentifiers alg oid_ec (parsed param)
unfolding curve_alg
HasIdentifiers-of_curve f param alg e = elim (Bool-cases (param == oid_secp256r1)) [
  | inl p256 ↦
      subst (λ a. HasIdentifiers a oid_ec (parsed param)) (ok-injective (rw p256 at e))
        (refl, ap parsed ((eq_iff _ _).0 p256))
  | inr other ↦ elim (Bool-cases (param == oid_secp384r1)) [
    | inl p384 ↦
        subst (λ a. HasIdentifiers a oid_ec (parsed param)) (ok-injective (rw (other, p384) at e))
          (refl, ap parsed ((eq_iff _ _).0 p384))
    | inr neither ↦ cc (rw (other, neither) at e)
  ]
]

HasIdentifiers-of_rsa :
    (alg : AlgorithmName) (param : Parsed String)
    → is_rsa alg ≡ true
    → HasIdentifiers alg oid_rsa param
unfolding is_rsa
HasIdentifiers-of_rsa AlgorithmName.rsa_v1_5_sha256 param h = refl
HasIdentifiers-of_rsa AlgorithmName.rsa_pss_sha512 param h = refl
HasIdentifiers-of_rsa _ param h = cc

-- The shared shape of `secret_key_bytes` and `public_key_bytes`.
abbrev by_identifier :
    String
    → Parsed String
    → AlgorithmName
    → (String → HttpSigError)
    → Outcome HttpSigError Bytes
    → Outcome HttpSigError Bytes
    → Outcome HttpSigError Bytes
    → Outcome HttpSigError Bytes
by_identifier oid param alg f ec ed rsa =
    if oid == oid_ec
    then (or_error f param >>= λ p.
        curve_alg f p >>= λ a. ensure (alg_beq a alg) (f "Algorithm mismatch") >>= λ _. ec)
    else if oid == oid_ed25519
    then (ensure (alg_beq AlgorithmName.ed25519 alg) (f "Algorithm mismatch") >>= λ _. ed)
    else if oid == oid_rsa
    then (ensure (is_rsa alg) (f "Algorithm mismatch") >>= λ _. rsa)
    else err (f "Unsupported algorithm")

HasIdentifiers-of_ec :
    (param : Parsed String) (alg : AlgorithmName) (f : String → HttpSigError)
    (ec : Outcome HttpSigError Bytes) (bytes : Bytes)
    → (or_error f param >>= λ p.
        curve_alg f p >>= λ a. ensure (alg_beq a alg) (f "Algorithm mismatch") >>= λ _. ec)
      ≡ ok bytes
    → HasIdentifiers alg oid_ec param
HasIdentifiers-of_ec (failed t) alg f ec bytes e = cc
HasIdentifiers-of_ec (parsed p) alg f ec bytes e =
    let (a, curve, e') = >>=-eq-ok (curve_alg f p) _ e in
    let (same, _) = ensure-eq-ok (alg_beq a alg) _ ec e' in
    subst (λ b. HasIdentifiers b oid_ec (parsed p)) ((alg_beq_iff a alg).0 same)
      (HasIdentifiers-of_curve f p a curve)

HasIdentifiers-of_bytes :
    (oid : String) (param : Parsed String) (alg : AlgorithmName) (f : String → HttpSigError)
    (ec ed rsa : Outcome HttpSigError Bytes) (bytes : Bytes)
    → by_identifier oid param alg f ec ed rsa ≡ ok bytes
    → HasIdentifiers alg oid param
HasIdentifiers-of_bytes oid param alg f ec ed rsa bytes e = elim (Bool-cases (oid == oid_ec)) [
  | inl is_ec ↦
      rw ((eq_iff _ _).0 is_ec) (HasIdentifiers-of_ec param alg f ec bytes (rw is_ec at e))
  | inr not_ec ↦ elim (Bool-cases (oid == oid_ed25519)) [
    | inl is_ed ↦ rw ((eq_iff _ _).0 is_ed) (
        subst (λ a. HasIdentifiers a oid_ed25519 param)
          ((alg_beq_iff AlgorithmName.ed25519 alg).0
            (ensure-eq-ok (alg_beq AlgorithmName.ed25519 alg) _ ed (rw (not_ec, is_ed) at e)).0)
          refl)
    | inr not_ed ↦ elim (Bool-cases (oid == oid_rsa)) [
      | inl rsa_key ↦ rw ((eq_iff _ _).0 rsa_key) (
          HasIdentifiers-of_rsa alg param
            (ensure-eq-ok (is_rsa alg) _ rsa (rw (not_ec, not_ed, rsa_key) at e)).0)
      | inr unknown ↦ cc (rw (not_ec, not_ed, unknown) at e)
    ]
  ]
]

module _ (c : AsymmetricCrypto) where
  secret_from_bytes-alg :
      (alg : AlgorithmName) (bytes : Bytes) (sk : SecretKey c)
      → secret_from_bytes c alg bytes ≡ ok sk
      → public_alg c (public_key c sk) ≡ alg
  unfolding secret_from_bytes public_alg public_key
  secret_from_bytes-alg AlgorithmName.hmac_sha256 bytes sk e = cc
  secret_from_bytes-alg AlgorithmName.ecdsa_p256_sha256 bytes sk e =
      let (_, _, same) = map_ok-eq-ok _ _ e in ap (λ k. public_alg c (public_key c k)) (sym same)
  secret_from_bytes-alg AlgorithmName.ecdsa_p384_sha384 bytes sk e =
      let (_, _, same) = map_ok-eq-ok _ _ e in ap (λ k. public_alg c (public_key c k)) (sym same)
  secret_from_bytes-alg AlgorithmName.ed25519 bytes sk e =
      let (_, _, e') = >>=-eq-ok (copy_seed bytes) _ e in
      let (_, _, same) = map_ok-eq-ok _ _ e' in ap (λ k. public_alg c (public_key c k)) (sym same)
  secret_from_bytes-alg AlgorithmName.rsa_v1_5_sha256 bytes sk e =
      let (_, _, same) = map_ok-eq-ok _ _ e in ap (λ k. public_alg c (public_key c k)) (sym same)
  secret_from_bytes-alg AlgorithmName.rsa_pss_sha512 bytes sk e =
      let (_, _, same) = map_ok-eq-ok _ _ e in ap (λ k. public_alg c (public_key c k)) (sym same)

  public_from_bytes-alg :
      (alg : AlgorithmName) (bytes : Bytes) (pk : PublicKey c)
      → public_from_bytes c alg bytes ≡ ok pk
      → public_alg c pk ≡ alg
  unfolding public_from_bytes public_alg
  public_from_bytes-alg AlgorithmName.hmac_sha256 bytes pk e = cc
  public_from_bytes-alg _ bytes pk e =
      let (_, _, same) = map_ok-eq-ok _ _ e in ap (public_alg c) (sym same)

  -- A private key is read from DER only under its own algorithm: the algorithm of the key made is
  -- the one asked for, and it is the one that the key's object identifiers name.
  pub secret_from_der-alg :
      (alg : AlgorithmName) (der : Bytes) (sk : SecretKey c)
      → secret_from_der c alg der ≡ ok sk
      → (public_alg c (public_key c sk) ≡ alg)
        × ((pki : PrivateKeyInfo) × (c.private_key_info der ≡ parsed pki)
            × HasIdentifiers alg pki.oid pki.parameters_oid)
  unfolding secret_from_der secret_key_bytes
  secret_from_der-alg alg der sk e =
      let (pki, info, e') = >>=-eq-ok (or_error _ (c.private_key_info der)) _ e in
      let (bytes, key_bytes, e'') = >>=-eq-ok (secret_key_bytes c alg pki) _ e' in
      (
        secret_from_bytes-alg alg bytes sk e'',
        (
          pki,
          or_error-eq-ok _ _ info,
          HasIdentifiers-of_bytes pki.oid pki.parameters_oid alg _ _ _ _ bytes key_bytes,
        ),
      )

  -- A public key is read from PEM only under its own algorithm, and only if the label is that of a
  -- public key: the algorithm of the key made is the one asked for and the one that the key's object
  -- identifiers name.
  pub public_from_pem-alg :
      (alg : AlgorithmName) (pem : String) (pk : PublicKey c)
      → public_from_pem c alg pem ≡ ok pk
      → (public_alg c pk ≡ alg)
        × ((der : Bytes) × (spki : SubjectPublicKeyInfo) × (c.document_from_pem pem
              ≡ parsed ("PUBLIC KEY", der))
            × (c.public_key_info der ≡ parsed spki)
            × HasIdentifiers alg spki.oid spki.parameters_oid)
  unfolding public_from_pem public_key_bytes
  public_from_pem-alg alg pem pk e =
      let (doc, document, e1) = >>=-eq-ok (or_error _ (c.document_from_pem pem)) _ e in
      let (label, e2) = ensure-eq-ok (doc.0 == "PUBLIC KEY") _ _ e1 in
      let (spki, info, e3) = >>=-eq-ok (or_error _ (c.public_key_info (doc.1))) _ e2 in
      let (bytes, key_bytes, e4) = >>=-eq-ok (public_key_bytes c alg spki) _ e3 in
      (
        public_from_bytes-alg alg bytes pk e4,
        (
          doc.1,
          spki,
          or_error-eq-ok _ _ document ∙ ap (λ t. parsed (t, doc.1)) ((eq_iff _ _).0 label),
          or_error-eq-ok _ _ info,
          HasIdentifiers-of_bytes spki.oid spki.parameters_oid alg _ _ _ _ bytes key_bytes,
        ),
      )
