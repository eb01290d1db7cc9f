-- ===== src/Hyper/Sign/Steps.antt =====
-- Any sequence of signing a request and setting its content digest, for hyper_http.rs and
-- hyper_content_digest.rs.
use httpsig_rs.Base.{◌≡◌, refl, ap, sym, ◌∙◌, String, List, ok, >>=-eq-ok, ok-injective, subst}
use httpsig_rs.Http.{Http, IsLawful, Request}
use httpsig_rs.Sfv.{Sfv}
use httpsig_rs.Crypto.{Bytes}
use httpsig_rs.Digest.{ContentDigestType, DigestCrypto, set_digest, request_set_content_digest}
use httpsig_rs.Digest.Roundtrip.{set_digest-eq-ok}
use httpsig_rs.Hyper.Sign.{ParamsKeyName, request_set_message_signatures}
use httpsig_rs.Hyper.Sign.Grows.{
  Grows, Grows-refl, Grows-trans, insert_digest-Grows, request_set_message_signatures-Grows,
}

module _ (h : Http) (encode : Bytes → String) (c : DigestCrypto) (sfv : Sfv) where
  -- What a caller may do to a request, and the request it then holds. Signing leaves it changed
  -- even where it returns an error.
  pub data Step : Request h → Request h → Type 0 where
    signed :
        (req : Request h) (ps : List ParamsKeyName)
        → Step req ((request_set_message_signatures h encode sfv req ps).0)
    digested :
        (req r : Request h) (t : ContentDigestType)
        → request_set_content_digest c sfv h req t ≡ ok r
        → Step req r

  pub data Reaches : Request h → Request h → Type 0 where
    start : (req : Request h) → Reaches req req
    next : (req mid r : Request h) → Reaches req mid → Step mid r → Reaches req r

  -- What no call changes.
  pub record Keeps (req r : Request h) : Type 0 where
    pub grows : Grows h req.headers r.headers
    pub method : r.method ≡ req.method
    pub uri : r.uri ≡ req.uri
    pub body : r.body ≡ req.body

  module _ (lawful : IsLawful h) where
    signed-Keeps :
        (req : Request h) (ps : List ParamsKeyName)
        → Keeps req ((request_set_message_signatures h encode sfv req ps).0)
    unfolding request_set_message_signatures
    signed-Keeps req ps = record {
      grows = request_set_message_signatures-Grows h lawful encode sfv req ps;
      method = refl;
      uri = refl;
      body = refl;
    }

    digested-Keeps :
        (req r : Request h) (t : ContentDigestType)
        → request_set_content_digest c sfv h req t ≡ ok r
        → Keeps req r
    unfolding request_set_content_digest
    digested-Keeps req r t e =
        let (written, set, made) = >>=-eq-ok (set_digest c sfv h req.headers req.body t) _ e in
        let (v, read, _, inserted) = set_digest-eq-ok c sfv h req.headers req.body t written set in
        let same = ok-injective made in
        record {
          grows =
              subst (Grows h req.headers) (sym inserted ∙ ap (λ q. q.headers) same)
                (insert_digest-Grows h lawful req.headers v);
          method = sym (ap (λ q. q.method) same);
          uri = sym (ap (λ q. q.uri) same);
          body = sym (ap (λ q. q.body) same) ∙ sym read;
        }

    step-Keeps : (req r : Request h) → Step req r → Keeps req r
    step-Keeps _ _ (signed req ps) = signed-Keeps req ps
    step-Keeps _ _ (digested req r t e) = digested-Keeps req r t e

    -- Where header maps are lawful: whatever calls that sign a request or set its content digest have
    -- been made, in any order and with any result of the signing calls, the lines each header but
    -- the content digest had are still there and in front, headers other than this one and the two
    -- signature headers are as they were, and so are method, target and body.
    pub Reaches-Keeps : (req r : Request h) → Reaches req r → Keeps req r
    Reaches-Keeps _ _ (start req) = record {
      grows = Grows-refl h req.headers;
      method = refl;
      uri = refl;
      body = refl;
    }
    Reaches-Keeps _ _ (next req mid r before step) =
        let a = Reaches-Keeps req mid before in
        let b = step-Keeps mid r step in
        record {
          grows = Grows-trans h req.headers mid.headers r.headers (Keeps.grows a) (Keeps.grows b);
          method = Keeps.method b ∙ Keeps.method a;
          uri = Keeps.uri b ∙ Keeps.uri a;
          body = Keeps.body b ∙ Keeps.body a;
        }
