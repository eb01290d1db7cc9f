-- ===== src/Digest/Roundtrip.antt =====
-- Setting and verifying a content digest, for hyper_content_digest.rs.
use httpsig_rs.Base.{
  ◌≡◌, ◌≢◌, refl, ap, sym, ◌∙◌, inl, inr, String, false, Bool-cases, [], ◌∷◌, nat_eq, string_eq,
  to_ascii_lowercase, Outcome, ok, err, panic, >>=-eq-ok, ok-injective,
}
use httpsig_rs.Error.{HyperDigestError}
use httpsig_rs.Crypto.{Bytes}
use httpsig_rs.Http.{Http, IsLawful, Request}
use httpsig_rs.Sfv.{Sfv, BareItem, ListEntry, Parsed, parsed, failed}
use httpsig_rs.Digest.{
  content_digest_header, ContentDigestType, DigestCrypto, digest_type_to_string, is_equal_digest,
  single_digest, digest_header_value, derive_digest, into_bytes_with_digest, extract_content_digest,
  set_digest, verify_digest, request_set_content_digest, request_verify_content_digest,
}
use httpsig_rs.Digest.Verified.{is_equal_digest_iff, request_verify_content_digest_iff}

-- What the crates `base64` and `sfv` promise of the header value that is written.
abbrev pub ReadsDigest : DigestCrypto → Sfv → Type 0
ReadsDigest c sfv =
    (t : ContentDigestType) (bytes : Bytes)
    → Sfv.parse_dictionary sfv (digest_header_value t (DigestCrypto.encode c bytes))
      ≡ parsed (
          (
            digest_type_to_string t,
            ListEntry.item (record { bare_item = BareItem.byte_sequence bytes; params = [] }),
          )
          ∷ [])

single_digest_of_written :
    (t : ContentDigestType) (bytes : Bytes)
    → single_digest (
        (
          digest_type_to_string t,
          ListEntry.item (record { bare_item = BareItem.byte_sequence bytes; params = [] }),
        )
        ∷ [])
      ≡ ok (t, bytes)
unfolding single_digest digest_type_to_string
single_digest_of_written ContentDigestType.sha256 bytes = refl
single_digest_of_written ContentDigestType.sha512 bytes = refl

module _ (c : DigestCrypto) (sfv : Sfv) (h : Http) where
  written-eq-ok :
      (headers : h.HeaderMap) (text : String) (bytes : Bytes) (p : Parsed h.HeaderValue)
      {r : h.HeaderMap × Bytes}
      → ◌≡◌ {A = Outcome HyperDigestError (h.HeaderMap × Bytes)}
          (elim p [
            | failed e ↦ panic "called `Result::unwrap()` on an `Err` value"
            | parsed v ↦ ok (h.insert headers content_digest_header v, bytes)
          ])
          (ok r)
      → (v : h.HeaderValue) × (p ≡ parsed v)
        × ((h.insert headers content_digest_header v, bytes) ≡ r)
  written-eq-ok headers text bytes (parsed v) e = (v, refl, ok-injective e)
  written-eq-ok headers text bytes (failed t) e = cc

  pub set_digest-eq-ok :
      (headers : h.HeaderMap) (body : Parsed Bytes) (t : ContentDigestType)
      (r : h.HeaderMap × Bytes)
      → set_digest c sfv h headers body t ≡ ok r
      → (v : h.HeaderValue) × (body ≡ parsed r.1)
        × (h.parse (digest_header_value t (DigestCrypto.encode c (derive_digest c r.1 t)))
            ≡ parsed v)
        × (r.0 ≡ h.insert headers content_digest_header v)
  unfolding set_digest into_bytes_with_digest
  set_digest-eq-ok headers (failed _) t r e = cc
  set_digest-eq-ok headers (parsed bytes) t r e =
      let (v, written, same) =
        written-eq-ok headers
          (digest_header_value t (DigestCrypto.encode c (derive_digest c bytes t))) bytes
          (h.parse (digest_header_value t (DigestCrypto.encode c (derive_digest c bytes t)))) e in
      (
        v,
        ap (λ q. parsed (q.1)) same,
        ap (λ q. h.parse (digest_header_value t (DigestCrypto.encode c (derive_digest c (q.1) t))))
              (sym same)
            ∙ written,
        ap (λ q. q.0) (sym same),
      )

  module _ (lawful : IsLawful h) (reads : ReadsDigest c sfv) where
    extract-insert :
        (headers : h.HeaderMap) (t : ContentDigestType) (bytes : Bytes) (v : h.HeaderValue)
        → h.parse (digest_header_value t (DigestCrypto.encode c bytes)) ≡ parsed v
        → extract_content_digest c sfv h (h.insert headers content_digest_header v) ≡ ok (t, bytes)
    unfolding extract_content_digest to_ascii_lowercase
    extract-insert headers t bytes v e =
        rw
          (
            IsLawful.get-eq-first lawful (h.insert headers content_digest_header v)
                content_digest_header,
            IsLawful.get_all-insert lawful headers content_digest_header content_digest_header v,
            IsLawful.to_str-parse lawful _ v e,
            reads t bytes,
          )
          (single_digest_of_written t bytes)

    pub set_digest-verifies :
        (headers : h.HeaderMap) (body : Parsed Bytes) (t : ContentDigestType)
        (r : h.HeaderMap × Bytes)
        → set_digest c sfv h headers body t ≡ ok r
        → extract_content_digest c sfv h (r.0) ≡ ok (t, derive_digest c (r.1) t)
    set_digest-verifies headers body t r e =
        let (v, read, written, inserted) = set_digest-eq-ok headers body t r e in
        rw inserted (extract-insert headers t (derive_digest c (r.1) t) v written)

    request_digest_found :
        (req r : Request h) (t : ContentDigestType)
        → request_set_content_digest c sfv h req t ≡ ok r
        → (bytes : Bytes) × (req.body ≡ parsed bytes)
          × (r.body ≡ parsed bytes)
          × (extract_content_digest c sfv h r.headers ≡ ok (t, derive_digest c bytes t))
    unfolding request_set_content_digest
    request_digest_found req r t e =
        let (written, set, made) = >>=-eq-ok (set_digest c sfv h req.headers req.body t) _ e in
        let (_, read, _, _) = set_digest-eq-ok req.headers req.body t written set in
        let same = sym (ok-injective made) in
        (
          written.1,
          read,
          ap (λ q. q.body) same,
          rw same (set_digest-verifies req.headers req.body t written set),
        )

    not_equal_digest : (a b : Bytes) → a ≢ b → is_equal_digest a b ≡ false
    not_equal_digest a b h = elim (Bool-cases (is_equal_digest a b)) [
      | inl same ↦ absurd (h ((is_equal_digest_iff a b).0 same))
      | inr other ↦ other
    ]

    -- Where header maps are lawful and the parser reads a digest header back as it was written, a
    -- request whose content digest has been set passes verification as it is, and keeps its body:
    -- the digest found is the one that was written, of either type and whatever digest stood there.
    pub request_set_content_digest-verifies :
        (req r : Request h) (t : ContentDigestType)
        → request_set_content_digest c sfv h req t ≡ ok r
        → (request_verify_content_digest c sfv h r ≡ ok r) × (r.body ≡ req.body)
    request_set_content_digest-verifies req r t e =
        let (bytes, read, kept, found) = request_digest_found req r t e in
        (
          (request_verify_content_digest_iff c sfv h r r).1 (bytes, kept, (t, found), refl),
          kept ∙ sym read,
        )

    -- Under the same laws of header maps and parser, if the body of a request whose content digest
    -- has been set is replaced by bytes with another digest, verification fails as an invalid
    -- digest.
    pub request_set_content_digest-tampered :
        (req r : Request h) (t : ContentDigestType) (bytes other : Bytes)
        → request_set_content_digest c sfv h req t ≡ ok r
        → req.body ≡ parsed bytes
        → derive_digest c other t ≢ derive_digest c bytes t
        → request_verify_content_digest c sfv h (record r { body = parsed other })
          ≡ err (HyperDigestError.invalid_content_digest "Content-Digest verification failed")
    unfolding request_verify_content_digest verify_digest
    request_set_content_digest-tampered req r t bytes other e read differs =
        let (original, was_read, _, found) = request_digest_found req r t e in
        let same : original ≡ bytes = cc in
        rw (
          found,
          not_equal_digest (derive_digest c other t) (derive_digest c original t)
              (λ k. differs (k ∙ ap (λ b. derive_digest c b t) same)),
        )
