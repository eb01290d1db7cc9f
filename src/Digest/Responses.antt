-- ===== src/Digest/Responses.antt =====
-- The content digest of a response, for `Response` in hyper_content_digest.rs.
use httpsig_rs.Base.{◌≡◌, ap, sym, ◌∙◌, ok, >>=-eq-ok, ok-injective, refl}
use httpsig_rs.Http.{Http, IsLawful, Response}
use httpsig_rs.Sfv.{Sfv, parsed}
use httpsig_rs.Digest.{
  ContentDigestType, DigestCrypto, set_digest, response_set_content_digest,
  response_verify_content_digest,
}
use httpsig_rs.Digest.Roundtrip.{ReadsDigest, set_digest-eq-ok, set_digest-verifies}
use httpsig_rs.Digest.Verified.{verify_digest_iff}

module _ (c : DigestCrypto) (sfv : Sfv) (h : Http) (lawful : IsLawful h)
    (reads : ReadsDigest c sfv) where
  -- Where header maps are lawful and the parser reads a digest header back as it was written, a
  -- response whose content digest has been set passes verification as it is, and keeps its body and
  -- its status.
  pub response_set_content_digest-verifies :
      (res r : Response h) (t : ContentDigestType)
      → response_set_content_digest c sfv h res t ≡ ok r
      → (response_verify_content_digest c sfv h r ≡ ok r)
        × (r.body ≡ res.body)
        × (r.status ≡ res.status)
  unfolding response_set_content_digest response_verify_content_digest
  response_set_content_digest-verifies res r t e =
      let (written, set, made) = >>=-eq-ok (set_digest c sfv h res.headers res.body t) _ e in
      let (_, read, _, _) = set_digest-eq-ok c sfv h res.headers res.body t written set in
      let found = set_digest-verifies c sfv h lawful reads res.headers res.body t written set in
      let same = ok-injective made in
      let passes =
        (verify_digest_iff c sfv h (written.0) (parsed (written.1)) (written.1)).1
          (refl, (t, found)) in
      (
        rw (sym same, passes) refl,
        ap (λ q. q.body) (sym same) ∙ sym read,
        ap (λ q. q.status) (sym same),
      )
