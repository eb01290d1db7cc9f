-- ===== src/Hyper/Body.antt =====
-- How a signature that covers the content digest binds the body, for hyper_http.rs and
-- hyper_content_digest.rs.
use httpsig_rs.Base.{
  ◌≡◌, refl, ap, sym, ◌∙◌, subst, inl, inr, String, List, [], ◌∷◌, map, Any, none, Outcome, ok,
  ok-injective, traverse, Traversed, traverse-eq-ok, map_ok-eq-ok, map_ok, ◌>>=◌, <>-cancel_left,
  ◌<>◌, join, map_err,
}
use httpsig_rs.Error.{HyperSigError, HyperDigestError}
use httpsig_rs.Http.{Http, IsLawful, Request}
use httpsig_rs.Sfv.{Sfv, Parsed, parsed, failed, or_error}
use httpsig_rs.Crypto.{Bytes}
use httpsig_rs.Component.Name.{HttpMessageComponentName}
use httpsig_rs.Component.Id.{HttpMessageComponentId, id_to_string}
use httpsig_rs.Component.Value.{value_from_str}
use httpsig_rs.Component.Build.{HttpMessageComponent, component_to_string, component_try_from}
use httpsig_rs.Params.{HttpSignatureParams}
use httpsig_rs.Signature.{HttpSignatureBase, base_to_string}
use httpsig_rs.Signature.Unambiguous.{HasOneLineTexts, base_to_string-injective}
use httpsig_rs.Digest.{
  content_digest_header, ContentDigestType, DigestCrypto, derive_digest, extract_content_digest,
  request_verify_content_digest,
}
use httpsig_rs.Digest.Verified.{request_verify_content_digest_iff}
use httpsig_rs.Hyper.{RequestOrResponse, headers}
use httpsig_rs.Hyper.Extract.{component_line, build_signature_base}
use httpsig_rs.Hyper.Extract.Total.{build_signature_base-lines}

-- The component that is the content digest of the message itself.
abbrev pub digest_id : HttpMessageComponentId
digest_id = record { name = HttpMessageComponentName.http_field content_digest_header; params = [] }

abbrev digest_line : String → HttpMessageComponent
digest_line text = record { id = digest_id; value = value_from_str text }

-- Lines that are one text are one value.
digest_line-injective :
    (s t : String)
    → component_to_string (digest_line s) ≡ component_to_string (digest_line t)
    → s ≡ t
unfolding component_to_string
digest_line-injective s t e =
    <>-cancel_left ": " s t (<>-cancel_left (id_to_string digest_id) (": " <> s) (": " <> t) e)

module _ (h : Http) (sfv : Sfv) where
  built_of_value :
      (p : Parsed String) (line : HttpMessageComponent)
      → ((or_error HyperSigError.failed_to_str_signature_headers p >>= λ s.
            map_ok (λ ss. s ∷ ss) (ok []))
          >>= λ vs. map_err HyperSigError.http_sig_error (component_try_from sfv digest_id vs))
        ≡ ok line
      → (text : String) × (p ≡ parsed text) × (line ≡ digest_line text)
  unfolding component_try_from join
  built_of_value (parsed text) line e = (text, refl, sym (ok-injective e))
  built_of_value (failed t) line e = cc

  -- The line of a message with one content digest header is the header's text.
  line_of_digest :
      (req : Request h) (v : h.HeaderValue) (line : HttpMessageComponent)
      → h.get_all req.headers content_digest_header ≡ v ∷ []
      → component_line sfv (RequestOrResponse.request req) none digest_id ≡ ok line
      → (text : String) × (h.to_str v ≡ parsed text) × (line ≡ digest_line text)
  unfolding component_line headers
  line_of_digest req v line one e = built_of_value (h.to_str v) line (rw one at e)

  -- Two messages whose lines are the same texts have the same text for the digest.
  lines_of_digest :
      (a b : Request h) (v w : h.HeaderValue) (ids : List HttpMessageComponentId)
      (ls ms : List HttpMessageComponent)
      → h.get_all a.headers content_digest_header ≡ v ∷ []
      → h.get_all b.headers content_digest_header ≡ w ∷ []
      → Traversed (component_line sfv (RequestOrResponse.request a) none) ids ls
      → Traversed (component_line sfv (RequestOrResponse.request b) none) ids ms
      → map component_to_string ls ≡ map component_to_string ms
      → Any (λ id. id ≡ digest_id) ids
      → (text : String) × (h.to_str v ≡ parsed text) × (h.to_str w ≡ parsed text)
  lines_of_digest a b v w [] ls ms one other s t e covered = absurd covered
  lines_of_digest a b v w (id ∷ ids) [] ms one other s t e covered = absurd s
  lines_of_digest a b v w (id ∷ ids) (l ∷ ls) [] one other s t e covered = absurd t
  lines_of_digest a b v w (id ∷ ids) (l ∷ ls) (m ∷ ms) one other s t e (inl here) =
      let (x, read_x, line_x) =
        line_of_digest a v l one
          (subst (λ i. component_line sfv (RequestOrResponse.request a) none i ≡ ok l) here s.0) in
      let (y, read_y, line_y) =
        line_of_digest b w m other
          (subst (λ i. component_line sfv (RequestOrResponse.request b) none i ≡ ok m) here t.0) in
      let texts : component_to_string l ≡ component_to_string m = cc in
      let same =
        digest_line-injective x y
          (ap component_to_string (sym line_x) ∙ texts ∙ ap component_to_string line_y) in
      (x, read_x, read_y ∙ ap parsed (sym same))
  lines_of_digest a b v w (id ∷ ids) (l ∷ ls) (m ∷ ms) one other s t e (inr later) =
      lines_of_digest a b v w ids ls ms one other s.1 t.1 (cc) later

  -- The lines of a base come from the components of the parameters, one by one.
  lines_of_base :
      (req : Request h) (p : HttpSignatureParams) (base : HttpSignatureBase)
      → build_signature_base sfv (RequestOrResponse.request req) p none ≡ ok base
      → (ls : List HttpMessageComponent) × Traversed
          (component_line sfv (RequestOrResponse.request req) none)
          p.covered_components
          ls
        × (map component_to_string ls ≡ map component_to_string base.component_lines)
  lines_of_base req p base built =
      let (ls, traversed, same) =
        map_ok-eq-ok (λ ls. record { component_lines = ls; signature_params = p })
          (traverse (component_line sfv (RequestOrResponse.request req) none) p.covered_components)
          (sym (build_signature_base-lines sfv (RequestOrResponse.request req) p none) ∙ built) in
      (
        ls,
        traverse-eq-ok _ p.covered_components ls traversed,
        ap (λ q. map component_to_string q.component_lines) same,
      )

  module _ (c : DigestCrypto) (lawful : IsLawful h) where
    same_digest :
        (m n : h.HeaderMap) (v w : h.HeaderValue) (text : String)
        → h.get_all m content_digest_header ≡ v ∷ []
        → h.get_all n content_digest_header ≡ w ∷ []
        → h.to_str v ≡ parsed text
        → h.to_str w ≡ parsed text
        → extract_content_digest c sfv h m ≡ extract_content_digest c sfv h n
    unfolding extract_content_digest
    same_digest m n v w text one other read_v read_w =
        rw
          (
            IsLawful.get-eq-first lawful m content_digest_header,
            IsLawful.get-eq-first lawful n content_digest_header,
            one,
            other,
            read_v,
            read_w,
          )
          refl

    same_pair :
        (t u : ContentDigestType) (x y : Bytes)
        → ◌≡◌ {A = Outcome HyperDigestError (ContentDigestType × Bytes)}
            (ok (t, derive_digest c x t))
            (ok (u, derive_digest c y u))
        → derive_digest c x t ≡ derive_digest c y t
    same_pair t u x y e =
        let pair = ok-injective e in
        ap (λ q. q.1) pair ∙ ap (λ k. derive_digest c y k) (sym (ap (λ q. q.0) pair))

    -- Where header maps are lawful: if two requests with one content digest header each have passed
    -- its verification, and their bases for the same parameters, which cover the content digest, are
    -- signed as one text of one-line texts, then their bodies have one digest, of one type: a
    -- signature for the one request is none for another with another body, but for a collision of
    -- the hash.
    pub base_to_string-same_body :
        (a b ra rb : Request h) (p : HttpSignatureParams) (base other : HttpSignatureBase)
        (v w : h.HeaderValue)
        → build_signature_base sfv (RequestOrResponse.request a) p none ≡ ok base
        → build_signature_base sfv (RequestOrResponse.request b) p none ≡ ok other
        → HasOneLineTexts base
        → HasOneLineTexts other
        → base_to_string base ≡ base_to_string other
        → Any (λ id. id ≡ digest_id) p.covered_components
        → h.get_all a.headers content_digest_header ≡ v ∷ []
        → h.get_all b.headers content_digest_header ≡ w ∷ []
        → request_verify_content_digest c sfv h a ≡ ok ra
        → request_verify_content_digest c sfv h b ≡ ok rb
        → (x : Bytes) × (y : Bytes) × (t : ContentDigestType) × (a.body ≡ parsed x)
          × (b.body ≡ parsed y)
          × (derive_digest c x t ≡ derive_digest c y t)
    base_to_string-same_body a b ra rb p base other v w built built_other flat flat_other signed
          covered one one_other verified verified_other =
        let (ls, traversed, texts) = lines_of_base a p base built in
        let (ms, traversed_other, texts_other) = lines_of_base b p other built_other in
        let (lines, _) = base_to_string-injective base other flat flat_other signed in
        let (text, read, read_other) =
          lines_of_digest a b v w p.covered_components ls ms one one_other traversed traversed_other
            (texts ∙ lines ∙ sym texts_other) covered in
        let (x, body, (t, digest), _) =
          (request_verify_content_digest_iff c sfv h a ra).0 verified in
        let (y, body_other, (u, digest_other), _) =
          (request_verify_content_digest_iff c sfv h b rb).0 verified_other in
        (
          x,
          y,
          t,
          body,
          body_other,
          same_pair t u x y (
              sym digest
              ∙ same_digest a.headers b.headers v w text one one_other read read_other
              ∙ digest_other),
        )
