-- ===== src/Signature/Verify.antt =====
-- Signing and verifying a base, for signature_base.rs.
use httpsig_rs.Base.{
  ◌≡◌, ap, sym, ◌↔◌, not, ℕ, String, Option, some, ◌<◌, ok, err, ensure-eq-ok, >>=-eq-ok,
  ok-injective, arith,
}
use httpsig_rs.Error.{HttpSigError}
use httpsig_rs.Crypto.{Bytes, SigningKey, VerifyingKey}
use httpsig_rs.Params.{is_expired}
use httpsig_rs.Params.Expiry.{IsCurrent, is_expired_iff, is_expired_of_late}
use httpsig_rs.Signature.{
  HttpSignatureBase, HttpSignatureHeaders, base_as_bytes, build_raw_signature,
  build_signature_headers, verify_signature_headers, name_or_default,
}

-- The verifying key accepts what the signing key makes.
abbrev pub Accepts : SigningKey → VerifyingKey → Type 0
Accepts sk vk =
    (message signature : Bytes)
    → sk.sign message ≡ ok signature
    → vk.verify message signature ≡ ok tt

-- Verification succeeds exactly when the parameters that came with the signature have not expired
-- and the key accepts the signature for the bytes of the base.
pub verify_signature_headers_iff :
    (now : ℕ) (base : HttpSignatureBase) (vk : VerifyingKey) (s : HttpSignatureHeaders)
    → (verify_signature_headers now base vk s ≡ ok tt) ↔ (
        IsCurrent now s.signature_params.expires
        × (vk.verify (base_as_bytes base) s.signature ≡ ok tt))
unfolding verify_signature_headers
verify_signature_headers_iff now base vk s = (
  λ h.
      let (current, e) = ensure-eq-ok (not (is_expired now s.signature_params)) _ _ h in
      ((is_expired_iff now s.signature_params).0 (ground arith), e),
  λ k. rw ((is_expired_iff now s.signature_params).1 k.0) (k.1),
)

-- Parameters that have expired are refused, whatever the key says of the signature.
pub verify_signature_headers-expired :
    (now exp : ℕ) (base : HttpSignatureBase) (vk : VerifyingKey) (s : HttpSignatureHeaders)
    → s.signature_params.expires ≡ some exp
    → exp < now
    → verify_signature_headers now base vk s
      ≡ err (HttpSigError.expired_signature_params "Signature params is expired")
unfolding verify_signature_headers is_expired
verify_signature_headers-expired now exp base vk s e late =
    rw (is_expired_of_late now exp s.signature_params e late)

-- What is made with a key is accepted by a matching key until the parameters expire, and it has the
-- name asked for, or the default one, and the parameters of the base.
pub build_signature_headers-verifies :
    (now : ℕ) (base : HttpSignatureBase) (sk : SigningKey) (vk : VerifyingKey)
    (name : Option String) (s : HttpSignatureHeaders)
    → Accepts sk vk
    → IsCurrent now base.signature_params.expires
    → build_signature_headers base sk name ≡ ok s
    → (verify_signature_headers now base vk s ≡ ok tt)
      × (s.signature_name ≡ name_or_default name)
      × (s.signature_params ≡ base.signature_params)
unfolding build_signature_headers build_raw_signature
build_signature_headers-verifies now base sk vk name s accepts current h =
    let (sig, e, h') = >>=-eq-ok (sk.sign (base_as_bytes base)) _ h in
    let made = sym (ok-injective h') in
    (
      (verify_signature_headers_iff now base vk s).1
          (rw made current, rw made (accepts (base_as_bytes base) sig e)),
      ap (λ r. r.signature_name) made,
      ap (λ r. r.signature_params) made,
    )
