-- ===== src/Digest.antt =====
-- httpsig-hyper/src/hyper_content_digest.rs, and the digest types of httpsig-hyper/src/lib.rs
pub mod Roundtrip
pub mod Verified
pub mod Responses
use httpsig_rs.Base.{
  String, Bool, true, false, ◌&&◌, [], ◌∷◌, ◌==◌, nat_eq, string_eq, ◌<>◌, length, Outcome, ok, err,
  panic, ◌>>=◌, map_err, ok_or, if◌then◌else◌,
}
use httpsig_rs.Error.{HyperDigestError}
use httpsig_rs.Crypto.{Bytes}
use httpsig_rs.Http.{Http, Request, Response}
use httpsig_rs.Sfv.{Sfv, Dictionary, Parsed, parsed, failed, or_error}
use httpsig_rs.Signature.Headers.{bytes_of}

abbrev pub content_digest_header : String
content_digest_header = "content-digest"

pub data ContentDigestType : Type 0 where
  sha256 sha512 : ContentDigestType

-- The crates `sha2` and `base64`.
pub record DigestCrypto : Type 0 where
  pub sha256 : Bytes → Bytes
  pub sha512 : Bytes → Bytes
  pub encode : Bytes → String

unfoldable pub digest_type_to_string : ContentDigestType → String
digest_type_to_string ContentDigestType.sha256 = "sha-256"
digest_type_to_string ContentDigestType.sha512 = "sha-512"

unfoldable pub digest_type_from_str : String → Outcome HyperDigestError ContentDigestType
digest_type_from_str s =
    if s == "sha-256"
    then ok ContentDigestType.sha256
    else if s == "sha-512"
    then ok ContentDigestType.sha512
    else err (HyperDigestError.invalid_content_digest_type s)

-- `ct_eq`, which takes as long for any two slices of one length.
ct_eq : Bytes → Bytes → Bool
ct_eq [] [] = true
ct_eq (a ∷ as') (b ∷ bs) = a == b && ct_eq as' bs
ct_eq _ _ = false

unfoldable pub is_equal_digest : Bytes → Bytes → Bool
unfolding ct_eq
is_equal_digest digest1 digest2 =
    if length digest1 == length digest2 then ct_eq digest1 digest2 else false

-- `to_string` of the error that `ContentDigestType::from_str` returns.
error_text : HyperDigestError → String
unfolding ◌<>◌
error_text (HyperDigestError.http_body_error s) = "Http body error: " <> s
error_text (HyperDigestError.no_digest_header s) = "No content-digest header found: " <> s
error_text (HyperDigestError.invalid_header_value s) = "Failed to parse header value: " <> s
error_text (HyperDigestError.failed_to_str_digest_header s) =
    "Failed to stringify content-digest header: " <> s
error_text (HyperDigestError.invalid_content_digest s) = "Invalid content-digest: " <> s
error_text (HyperDigestError.invalid_content_digest_type s) = "Invalid content-digest type: " <> s

single_digest : Dictionary → Outcome HyperDigestError (ContentDigestType × Bytes)
unfolding digest_type_from_str error_text ◌<>◌
single_digest ((key, cd) ∷ []) = do
  cd_type ←
      map_err
        (λ e.
          HyperDigestError.invalid_header_value ("Invalid Content-Digest type: " <> error_text e))
        (digest_type_from_str key)
  bytes ← ok_or (bytes_of cd) (HyperDigestError.invalid_header_value "Invalid Content-Digest value")
  ok (cd_type, bytes)
single_digest _ =
    err (HyperDigestError.invalid_header_value "Content-Digest header should have only one value")

-- The value of the header that `set_content_digest` writes.
unfoldable pub digest_header_value : ContentDigestType → String → String
unfolding digest_type_to_string ◌<>◌
digest_header_value cd_type digest = digest_type_to_string cd_type <> "=:" <> digest <> ":"

module _ (c : DigestCrypto) where
  unfoldable pub derive_digest : Bytes → ContentDigestType → Bytes
  derive_digest body_bytes ContentDigestType.sha256 = DigestCrypto.sha256 c body_bytes
  derive_digest body_bytes ContentDigestType.sha512 = DigestCrypto.sha512 c body_bytes

  -- `into_bytes_with_digest`
  unfoldable pub into_bytes_with_digest :
      Parsed Bytes → ContentDigestType → Outcome String (Bytes × String)
  unfolding derive_digest
  into_bytes_with_digest body cd_type = do
    body_bytes ← or_error (λ e. e) body
    ok (body_bytes, DigestCrypto.encode c (derive_digest body_bytes cd_type))

module _ (c : DigestCrypto) (sfv : Sfv) (h : Http) where
  unfoldable pub extract_content_digest :
      h.HeaderMap → Outcome HyperDigestError (ContentDigestType × Bytes)
  unfolding single_digest
  extract_content_digest header_map = do
    value ←
        ok_or (h.get header_map content_digest_header)
          (HyperDigestError.no_digest_header "No content-digest header")
    text ← or_error HyperDigestError.failed_to_str_digest_header (h.to_str value)
    indexmap ← or_error HyperDigestError.invalid_header_value (Sfv.parse_dictionary sfv text)
    single_digest indexmap

  -- Both implementations of `set_content_digest`: the new headers and the new body.
  pub set_digest :
      h.HeaderMap
      → Parsed Bytes
      → ContentDigestType
      → Outcome HyperDigestError (h.HeaderMap × Bytes)
  unfolding into_bytes_with_digest digest_header_value
  set_digest headers body cd_type = do
    (body_bytes, digest) ←
        map_err (λ _. HyperDigestError.http_body_error "Failed to generate digest")
          (into_bytes_with_digest c body cd_type)
    elim (h.parse (digest_header_value cd_type digest)) [
      | failed e ↦ panic "called `Result::unwrap()` on an `Err` value"
      | parsed v ↦ ok (h.insert headers content_digest_header v, body_bytes)
    ]

  -- Both implementations of `verify_content_digest`: the bytes of the body, if the digest fits.
  pub verify_digest : h.HeaderMap → Parsed Bytes → Outcome HyperDigestError Bytes
  unfolding extract_content_digest derive_digest is_equal_digest
  verify_digest headers body = do
    (cd_type, expected_digest) ← extract_content_digest headers
    body_bytes ← or_error (λ _. HyperDigestError.http_body_error "Failed to get body bytes") body
    if is_equal_digest (derive_digest c body_bytes cd_type) expected_digest
        then ok body_bytes
        else err (HyperDigestError.invalid_content_digest "Content-Digest verification failed")

  unfoldable pub request_set_content_digest :
      Request h → ContentDigestType → Outcome HyperDigestError (Request h)
  unfolding set_digest
  request_set_content_digest req cd_type = do
    (m, body) ← set_digest req.headers req.body cd_type
    ok (record req { headers = m; body = parsed body })

  unfoldable pub request_verify_content_digest : Request h → Outcome HyperDigestError (Request h)
  unfolding verify_digest
  request_verify_content_digest req = do
    body ← verify_digest req.headers req.body
    ok (record req { body = parsed body })

  unfoldable pub response_set_content_digest :
      Response h → ContentDigestType → Outcome HyperDigestError (Response h)
  unfolding set_digest
  response_set_content_digest res cd_type = do
    (m, body) ← set_digest res.headers res.body cd_type
    ok (record res { headers = m; body = parsed body })

  unfoldable pub response_verify_content_digest : Response h → Outcome HyperDigestError (Response h)
  unfolding verify_digest
  response_verify_content_digest res = do
    body ← verify_digest res.headers res.body
    ok (record res { body = parsed body })
