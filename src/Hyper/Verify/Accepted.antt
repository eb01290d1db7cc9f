-- ===== src/Hyper/Verify/Accepted.antt =====
-- What a name that verifying with a key returns says, for hyper_http.rs.
use httpsig_rs.Base.{
  ◌≡◌, ◌∙◌, inl, inr, ℕ, String, true, not, List, [], Option, Option-cases, ok, >>=-eq-ok,
  map_ok-eq-ok, ensure-eq-ok, ok-injective, Any, Any-filter, Any-filter_ok, Any-collect_set,
  Any-first, first, collect_set, is_empty, map_ok, string_eq,
}
use httpsig_rs.Crypto.{VerifyingKey}
use httpsig_rs.Params.Expiry.{IsCurrent}
use httpsig_rs.Signature.{
  HttpSignatureBase, HttpSignatureHeaders, verify_signature_headers, base_as_bytes,
}
use httpsig_rs.Signature.Verify.{verify_signature_headers_iff}
use httpsig_rs.Hyper.Verify.{
  SignatureMap, has_keyid, candidates, successful_names, first_or_invalid, verify_one,
}

-- The entry is named so, has the key id that was asked for, has not expired, and its signature is
-- accepted by the key for the bytes of its base.
abbrev pub IsVerified :
    ℕ
    → VerifyingKey
    → Option String
    → String
    → String × (HttpSignatureBase × HttpSignatureHeaders)
    → Type 0
IsVerified now key key_id name e =
    (e.0 ≡ name)
    × (has_keyid key_id e.1.0 ≡ true)
    × IsCurrent now e.1.1.signature_params.expires
    × (key.verify (base_as_bytes e.1.0) e.1.1.signature ≡ ok tt)

first_or_invalid-mem :
    (names : List String) (name : String)
    → first_or_invalid names ≡ ok name
    → Any (λ n. n ≡ name) names
unfolding first_or_invalid
first_or_invalid-mem names name h = elim (Option-cases (first (collect_set [] names))) [
  | inl nothing ↦ cc (rw (first_or_invalid, nothing) at h)
  | inr (n, e) ↦
      elim (Any-collect_set (λ k. k ≡ name) [] names
        (Any-first (λ k. k ≡ name) (collect_set [] names) n e
          (ok-injective (rw (first_or_invalid, e) at h)))) [
            | inl none_yet ↦ absurd none_yet
            | inr there ↦ there
          ]
]

IsVerified_of_success :
    (now : ℕ) (key : VerifyingKey) (name n : String)
    (x : String × (HttpSignatureBase × HttpSignatureHeaders))
    → map_ok (λ _. x.0) (verify_signature_headers now x.1.0 key x.1.1) ≡ ok n
    → n ≡ name
    → (x.0 ≡ name)
      × IsCurrent now x.1.1.signature_params.expires
      × (key.verify (base_as_bytes x.1.0) x.1.1.signature ≡ ok tt)
IsVerified_of_success now key name n x r q =
    let (_, success, same) =
      map_ok-eq-ok (λ _. x.0) (verify_signature_headers now x.1.0 key x.1.1) r in
    let verified = (verify_signature_headers_iff now x.1.0 key x.1.1).0 success in
    (same ∙ q, verified.0, verified.1)

-- A name that the verification with a key returns is that of a signature of the message with the
-- key id asked for, which has not expired and which the key accepts for the signature's base.
pub verify_one_sound :
    (now : ℕ) (m : SignatureMap) (key : VerifyingKey) (key_id : Option String) (name : String)
    → verify_one now m (key, key_id) ≡ ok name
    → Any (IsVerified now key key_id name) m
unfolding verify_one successful_names candidates
verify_one_sound now m key key_id name h =
    let (_, h') = ensure-eq-ok (not (is_empty (candidates m key_id))) _ _ h in
    let (names, e, h'') = >>=-eq-ok (successful_names now key (candidates m key_id)) _ h' in
    Any-filter (IsVerified now key key_id name)
      (λ x.
        (x.0 ≡ name)
        × IsCurrent now x.1.1.signature_params.expires
        × (key.verify (base_as_bytes x.1.0) x.1.1.signature ≡ ok tt))
      (λ x. has_keyid key_id x.1.0) (λ x k q. (q.0, k, q.1, q.2)) m
      (Any-filter_ok _ (λ n. n ≡ name)
        (λ x. map_ok (λ _. x.0) (verify_signature_headers now x.1.0 key x.1.1))
        (λ x n r q. IsVerified_of_success now key name n x r q) (candidates m key_id) names e
        (first_or_invalid-mem names name h''))
