-- ===== src/Hyper/Digested.antt =====
-- A request whose content digest is set and which is then signed, for hyper_content_digest.rs and
-- hyper_http.rs.
use httpsig_rs.Base.{
  ◌≡◌, refl, ap, sym, ◌∙◌, ℕ, false, true, String, List, [], ◌∷◌, ◌++◌, map, All, Option, none, ok,
  >>=-eq-ok, ok-injective, string_eq, to_ascii_lowercase,
}
use httpsig_rs.Http.{Http, IsLawful, Request, same_header}
use httpsig_rs.Sfv.{Sfv}
use httpsig_rs.Util.Unique.{IsSetOf}
use httpsig_rs.Crypto.{Bytes, VerifyingKey}
use httpsig_rs.Params.Expiry.{IsCurrent}
use httpsig_rs.Params.Written.{IsWellFormed}
use httpsig_rs.Signature.{HttpSignatureHeaders}
use httpsig_rs.Signature.Verify.{Accepts}
use httpsig_rs.Digest.{
  content_digest_header, ContentDigestType, DigestCrypto, extract_content_digest, set_digest,
  request_set_content_digest, request_verify_content_digest,
}
use httpsig_rs.Digest.Roundtrip.{ReadsDigest, request_set_content_digest-verifies, set_digest-eq-ok}
use httpsig_rs.Digest.Verified.{request_verify_content_digest_iff}
use httpsig_rs.Hyper.{RequestOrResponse}
use httpsig_rs.Hyper.Unsigned.{IsUntouched}
use httpsig_rs.Hyper.Sign.{ParamsKeyName, request_set_message_signatures}
use httpsig_rs.Hyper.Sign.Appended.{IsAppended}
use httpsig_rs.Hyper.Sign.Made.{AreMadeFor, request_set_message_signatures-appends}
use httpsig_rs.Hyper.Verify.{request_verify_message_signature}
use httpsig_rs.Hyper.Roundtrip.{ReadsBack, request_set_message_signatures-verify}
use httpsig_rs.Hyper.Roundtrip.Entries.{asked_name, has_key_id, IsSteady}

module _ {h : Http} (c : DigestCrypto) (sfv : Sfv) (encode : Bytes → String) (lawful : IsLawful h)
    (reads_digest : ReadsDigest c sfv) where
  -- Setting the digest leaves the headers with other names.
  digested-other :
      (req d : Request h) (t : ContentDigestType) (j : String)
      → same_header content_digest_header j ≡ false
      → request_set_content_digest c sfv h req t ≡ ok d
      → h.get_all d.headers j ≡ h.get_all req.headers j
  unfolding request_set_content_digest
  digested-other req d t j other e =
      let (written, set, made) = >>=-eq-ok (set_digest c sfv h req.headers req.body t) _ e in
      let (v, _, _, inserted) = set_digest-eq-ok c sfv h req.headers req.body t written set in
      ap (λ q. h.get_all q.headers j) (sym (ok-injective made))
      ∙ ap (λ m. h.get_all m j) inserted
      ∙ IsLawful.get_all-insert lawful req.headers content_digest_header j v
      ∙ rw other refl

  -- Signing leaves the digest that is found.
  signed-digest :
      (m r : h.HeaderMap) (ss : List HttpSignatureHeaders)
      → IsAppended h encode m r ss
      → extract_content_digest c sfv h r ≡ extract_content_digest c sfv h m
  unfolding extract_content_digest to_ascii_lowercase
  signed-digest m r ss appended =
      rw
        (
          IsLawful.get-eq-first lawful r content_digest_header,
          IsLawful.get-eq-first lawful m content_digest_header,
          IsAppended.others appended content_digest_header refl refl,
        )
        refl

  signed-verifies :
      (d r : Request h) (ps : List ParamsKeyName)
      → request_verify_content_digest c sfv h d ≡ ok d
      → request_set_message_signatures h encode sfv d ps ≡ (r, ok tt)
      → request_verify_content_digest c sfv h r ≡ ok r
  signed-verifies d r ps verified e =
      let (ss, _, appended, kept) =
        request_set_message_signatures-appends encode sfv d r ps lawful e in
      let (bytes, body, (t, found), _) =
        (request_verify_content_digest_iff c sfv h d d).0 verified in
      (request_verify_content_digest_iff c sfv h r r).1
        (bytes, kept ∙ body, (t, signed-digest d.headers r.headers ss appended ∙ found), refl)

  -- Where header maps are lawful and a request that bears no signature gets its content digest and
  -- is then signed with several keys under distinct names: it is verified with a key that matches
  -- one of them, under that signature's name and until its parameters expire, the request comes back
  -- from the verification of its digest as it is, and its body is what it was. It is supposed, as for
  -- signing alone, that the parameters of the signatures in front have another key id than the one
  -- asked for, that the key does not panic at a signature behind its own, that all parameters are
  -- well formed and cover no signature header of the request, and that the parser reads what is
  -- written as the structures it stands for, the digest header included.
  pub digested_and_signed-verify :
      (now : ℕ) (req d r : Request h) (t : ContentDigestType) (front : List ParamsKeyName)
      (x : ParamsKeyName) (back : List ParamsKeyName) (vk : VerifyingKey) (key_id : Option String)
      → Accepts (x.1) vk
      → IsSteady vk back
      → IsCurrent now ((x.0).expires)
      → All (λ y. has_key_id key_id y.0 ≡ false) front
      → has_key_id key_id (x.0) ≡ true
      → IsSetOf (map asked_name (front ++ (x ∷ back)))
      → All (λ y. IsWellFormed y.0) (front ++ (x ∷ back))
      → All (λ y. All IsUntouched ((y.0).covered_components)) (front ++ (x ∷ back))
      → h.get_all req.headers "signature-input" ≡ []
      → h.get_all req.headers "signature" ≡ []
      → ((ss : List HttpSignatureHeaders)
          → AreMadeFor sfv (RequestOrResponse.request d) none (front ++ (x ∷ back)) ss
          → ReadsBack sfv encode ss)
      → request_set_content_digest c sfv h req t ≡ ok d
      → request_set_message_signatures h encode sfv d (front ++ (x ∷ back)) ≡ (r, ok tt)
      → (request_verify_message_signature sfv now r vk key_id ≡ ok (asked_name x))
        × (request_verify_content_digest c sfv h r ≡ ok r)
        × (r.body ≡ req.body)
  unfolding to_ascii_lowercase
  digested_and_signed-verify now req d r t front x back vk key_id accepts steady current others has
        distinct formed untouched no_input no_signature reads set signed =
      let (verified, kept) =
        request_set_content_digest-verifies c sfv h lawful reads_digest req d t set in
      let (_, _, _, body) =
        request_set_message_signatures-appends encode sfv d r (front ++ (x ∷ back)) lawful signed in
      (
        request_set_message_signatures-verify sfv encode lawful now d r front x back vk key_id
            accepts steady current others has distinct formed untouched
            (digested-other req d t "signature-input" refl set ∙ no_input)
            (digested-other req d t "signature" refl set ∙ no_signature) reads signed,
        signed-verifies d r (front ++ (x ∷ back)) verified signed,
        body ∙ kept,
      )
