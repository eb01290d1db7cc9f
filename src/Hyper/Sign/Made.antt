-- ===== src/Hyper/Sign/Made.antt =====
-- The signatures that signing makes, for hyper_http.rs.
use httpsig_rs.Base.{
  ◌≡◌, refl, ap, sym, ◌∙◌, subst, String, List, [], ◌∷◌, map, Option, none, Outcome, ok, err, panic,
  >>=-eq-ok, map_ok-eq-ok, map_err-eq-ok, ok-injective, map_err, map_ok, traverse, traverse-eq-ok,
  Traversed, join_all, ◌>>=◌,
}
use httpsig_rs.Error.{HyperSigError}
use httpsig_rs.Http.{Http, IsLawful, Request, Response}
use httpsig_rs.Sfv.{Sfv}
use httpsig_rs.Crypto.{Bytes, SigningKey}
use httpsig_rs.Signature.{
  HttpSignatureBase, HttpSignatureHeaders, build_signature_headers, build_raw_signature,
  base_as_bytes, name_or_default,
}
use httpsig_rs.Hyper.{RequestOrResponse, headers}
use httpsig_rs.Hyper.Extract.{build_signature_base}
use httpsig_rs.Hyper.Extract.Total.{build_signature_base-ids}
use httpsig_rs.Hyper.Sign.{
  ParamsKeyName, Signed, sign_bases, append_signatures, signature_bases, set_signatures,
  request_set_message_signatures, response_set_message_signatures,
}
use httpsig_rs.Hyper.Sign.Appended.{IsAppended, append_signatures-IsAppended}

-- What a request for a signature comes to: the base is built with the parameters, and the key's
-- signature of the bytes of the base stands under the name asked for, or the default one.
abbrev pub IsMadeFor :
    {h : Http}
    → Sfv
    → RequestOrResponse h
    → Option (Request h)
    → ParamsKeyName
    → HttpSignatureHeaders
    → Type 0
IsMadeFor sfv m req p s =
    (base : HttpSignatureBase) × (build_signature_base sfv m (p.0) req ≡ ok base)
    × (SigningKey.sign (p.1) (base_as_bytes base) ≡ ok s.signature)
    × (s.signature_name ≡ name_or_default (p.2))
    × (s.signature_params ≡ p.0)

-- One is made for each request, in order.
abbrev pub AreMadeFor :
    {h : Http}
    → Sfv
    → RequestOrResponse h
    → Option (Request h)
    → List ParamsKeyName
    → List HttpSignatureHeaders
    → Type 0
AreMadeFor sfv m req [] [] = Unit
AreMadeFor sfv m req (p ∷ ps) (s ∷ ss) = IsMadeFor sfv m req p s × AreMadeFor sfv m req ps ss
AreMadeFor sfv m req _ _ = ⊥

abbrev collected : {B : Type 0} → List (Outcome HyperSigError B) → Outcome HyperSigError (List B)
collected rs = join_all rs >>= traverse (λ r. r)

Traversed-of_collected :
    {B : Type 0} (rs : List (Outcome HyperSigError B)) (ys : List B)
    → collected rs ≡ ok ys
    → Traversed (λ r. r) rs ys
Traversed-of_collected [] [] e = tt
Traversed-of_collected [] (y ∷ ys) e = cc
Traversed-of_collected (panic t ∷ rs) ys e = cc
Traversed-of_collected (err d ∷ rs) ys e =
    let (results, joined, traversed) = >>=-eq-ok (join_all (err d ∷ rs)) _ e in
    let (rest, _, same) = map_ok-eq-ok (λ l. err d ∷ l) (join_all rs) joined in
    cc (subst (λ l. traverse (λ r. r) l ≡ ok ys) (sym same) traversed)
Traversed-of_collected (ok a ∷ rs) ys e =
    let (results, joined, traversed) = >>=-eq-ok (join_all (ok a ∷ rs)) _ e in
    let (rest, others, same) = map_ok-eq-ok (λ l. ok a ∷ l) (join_all rs) joined in
    let (zs, later, made) =
      map_ok-eq-ok (λ l. a ∷ l) (traverse (λ r. r) rest)
        (subst (λ l. traverse (λ r. r) l ≡ ok ys) (sym same) traversed) in
    subst (Traversed (λ r. r) (ok a ∷ rs)) made
      (refl, Traversed-of_collected rs zs (ap (λ m. m >>= traverse (λ r. r)) others ∙ later))

build_signature_headers-eq-ok :
    (base : HttpSignatureBase) (key : SigningKey) (name : Option String) (s : HttpSignatureHeaders)
    → build_signature_headers base key name ≡ ok s
    → (key.sign (base_as_bytes base) ≡ ok s.signature)
      × (s.signature_name ≡ name_or_default name)
      × (s.signature_params ≡ base.signature_params)
unfolding build_signature_headers build_raw_signature
build_signature_headers-eq-ok base key name s e =
    let (signature, signed, made) = >>=-eq-ok (key.sign (base_as_bytes base)) _ e in
    let same = sym (ok-injective made) in
    (
      signed ∙ ap (λ r. ok (r.signature)) (sym same),
      ap (λ r. r.signature_name) same,
      ap (λ r. r.signature_params) same,
    )

AreMadeFor-of_Traversed :
    {h : Http} (sfv : Sfv) (m : RequestOrResponse h) (req : Option (Request h))
    (ps : List ParamsKeyName) (bases : List (HttpSignatureBase × SigningKey × Option String))
    (ss : List HttpSignatureHeaders)
    → Traversed
        (λ r. map_ok (λ base. (base, r.1, r.2)) (build_signature_base sfv m (r.0) req))
        ps
        bases
    → Traversed
        (λ r. r)
        (map
          (λ b. map_err HyperSigError.http_sig_error (build_signature_headers (b.0) (b.1) (b.2)))
          bases)
        ss
    → AreMadeFor sfv m req ps ss
AreMadeFor-of_Traversed sfv m req [] [] [] a b = tt
AreMadeFor-of_Traversed sfv m req [] [] (s ∷ ss) a b = absurd b
AreMadeFor-of_Traversed sfv m req [] (x ∷ bases) ss a b = absurd a
AreMadeFor-of_Traversed sfv m req (p ∷ ps) [] ss a b = absurd a
AreMadeFor-of_Traversed sfv m req (p ∷ ps) (x ∷ bases) [] a b = absurd b
AreMadeFor-of_Traversed sfv m req (p ∷ ps) (x ∷ bases) (s ∷ ss) a b =
    let (base, built, same) =
      map_ok-eq-ok (λ c. (c, p.1, p.2)) (build_signature_base sfv m (p.0) req) (a.0) in
    let made =
      map_err-eq-ok HyperSigError.http_sig_error (build_signature_headers (x.0) (x.1) (x.2))
        (b.0) in
    let (signed, named, kept) =
      build_signature_headers-eq-ok base (p.1) (p.2) s
        (subst (λ y. build_signature_headers (y.0) (y.1) (y.2) ≡ ok s) (sym same) made) in
    (
      (base, built, signed, named, kept ∙ (build_signature_base-ids sfv m (p.0) req base built).1),
      AreMadeFor-of_Traversed sfv m req ps bases ss a.1 b.1,
    )

module _ (h : Http) (encode : Bytes → String) where
  -- The end of `set_signatures`, on what signing has given.
  abbrev pub finish : Outcome HyperSigError (List HttpSignatureHeaders) → h.HeaderMap → Signed h
  finish o m = elim o [
    | ok ss ↦ append_signatures h encode ss m
    | err e ↦ (m, err e)
    | panic t ↦ (m, panic t)
  ]

  signed-eq-ok :
      (o : Outcome HyperSigError (List HttpSignatureHeaders)) (m r : h.HeaderMap)
      → finish o m ≡ (r, ok tt)
      → (ss : List HttpSignatureHeaders) × (o ≡ ok ss)
        × (append_signatures h encode ss m ≡ (r, ok tt))
  signed-eq-ok (ok ss) m r e = (ss, refl, e)
  signed-eq-ok (err d) m r e = cc (ap (λ x. x.1) e)
  signed-eq-ok (panic t) m r e = cc (ap (λ x. x.1) e)

module _ {h : Http} (encode : Bytes → String) (sfv : Sfv) where
  -- What signing gives has been made.
  pub AreMadeFor-of_signed :
      (m : RequestOrResponse h) (req : Option (Request h)) (ps : List ParamsKeyName)
      (ss : List HttpSignatureHeaders)
      → (signature_bases h encode sfv m req ps >>= sign_bases) ≡ ok ss
      → AreMadeFor sfv m req ps ss
  unfolding signature_bases sign_bases
  AreMadeFor-of_signed m req ps ss signed =
      let (bases, built, made) = >>=-eq-ok (signature_bases h encode sfv m req ps) _ signed in
      AreMadeFor-of_Traversed sfv m req ps bases ss (traverse-eq-ok _ ps bases built)
        (Traversed-of_collected _ ss made)

  set_signatures-eq-ok :
      (m : RequestOrResponse h) (req : Option (Request h)) (ps : List ParamsKeyName)
      (r : h.HeaderMap)
      → IsLawful h
      → set_signatures h encode sfv m req ps ≡ (r, ok tt)
      → (ss : List HttpSignatureHeaders) × AreMadeFor sfv m req ps ss
        × IsAppended h encode (headers m) r ss
  unfolding set_signatures
  set_signatures-eq-ok m req ps r lawful e =
      let (ss, signed, appended) =
        signed-eq-ok h encode (signature_bases h encode sfv m req ps >>= sign_bases) (headers m) r
          e in
      (
        ss,
        AreMadeFor-of_signed m req ps ss signed,
        append_signatures-IsAppended h encode lawful ss (headers m) r appended,
      )

  -- Where header maps are lawful and a request is signed with success, one signature is made for
  -- each of the parameters given, in their order, of the request as it was before; their header
  -- lines are added behind those that stood there, each reads back as it was written, and the other
  -- headers and the body stay.
  pub request_set_message_signatures-appends :
      (req r : Request h) (ps : List ParamsKeyName)
      → IsLawful h
      → request_set_message_signatures h encode sfv req ps ≡ (r, ok tt)
      → (ss : List HttpSignatureHeaders) × AreMadeFor sfv (RequestOrResponse.request req) none ps ss
        × IsAppended h encode req.headers r.headers ss
        × (r.body ≡ req.body)
  unfolding request_set_message_signatures headers
  request_set_message_signatures-appends req r ps lawful e =
      let (ss, made, appended) =
        set_signatures-eq-ok (RequestOrResponse.request req) none ps r.headers lawful
          (ap (λ x. (x.0.headers, x.1)) e) in
      (ss, made, appended, ap (λ x. x.0.body) (sym e))

  -- Signing changes the headers of a request alone.
  pub request_set_message_signatures-headers :
      (req r : Request h) (ps : List ParamsKeyName)
      → request_set_message_signatures h encode sfv req ps ≡ (r, ok tt)
      → record req { headers = r.headers } ≡ r
  unfolding request_set_message_signatures
  request_set_message_signatures-headers req r ps e =
      sym (ap (λ x. record req { headers = x.0.headers }) e) ∙ ap (λ x. x.0) e

  -- Where header maps are lawful and a response is signed with success, one signature is made for
  -- each of the parameters given, in their order, of the response as it was before and of the
  -- request given; their header lines are added behind those that stood there, and the other
  -- headers and the body stay.
  pub response_set_message_signatures-appends :
      (res r : Response h) (ps : List ParamsKeyName) (req : Option (Request h))
      → IsLawful h
      → response_set_message_signatures h encode sfv res ps req ≡ (r, ok tt)
      → (ss : List HttpSignatureHeaders) × AreMadeFor sfv (RequestOrResponse.response res) req ps ss
        × IsAppended h encode res.headers r.headers ss
        × (r.body ≡ res.body)
  unfolding response_set_message_signatures headers
  response_set_message_signatures-appends res r ps req lawful e =
      let (ss, made, appended) =
        set_signatures-eq-ok (RequestOrResponse.response res) req ps r.headers lawful
          (ap (λ x. (x.0.headers, x.1)) e) in
      (ss, made, appended, ap (λ x. x.0.body) (sym e))

  -- Signing changes the headers of a response alone.
  pub response_set_message_signatures-headers :
      (res r : Response h) (ps : List ParamsKeyName) (req : Option (Request h))
      → response_set_message_signatures h encode sfv res ps req ≡ (r, ok tt)
      → record res { headers = r.headers } ≡ r
  unfolding response_set_message_signatures
  response_set_message_signatures-headers res r ps req e =
      sym (ap (λ x. record res { headers = x.0.headers }) e) ∙ ap (λ x. x.0) e
