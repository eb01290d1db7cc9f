-- ===== src/Hyper/Listed.antt =====
-- What a receiver learns of the signatures of a message before it verifies them, for
-- `get_alg_key_ids` and `get_signature_params` of hyper_http.rs.
use httpsig_rs.Base.{
  ◌≡◌, refl, ap, sym, ◌∙◌, subst, String, true, false, List, [], ◌∷◌, map, All, none, Option, ok,
  keys, collect_map, is_empty, string_eq,
}
use httpsig_rs.Http.{Http, IsLawful, Request}
use httpsig_rs.Sfv.{Sfv}
use httpsig_rs.Util.Unique.{IsSetOf}
use httpsig_rs.Crypto.{Bytes}
use httpsig_rs.Params.{HttpSignatureParams}
use httpsig_rs.Params.Written.{IsWellFormed}
use httpsig_rs.Signature.{HttpSignatureHeaders}
use httpsig_rs.Hyper.{RequestOrResponse, headers}
use httpsig_rs.Hyper.Api.{
  request_has_message_signature, request_get_alg_key_ids, request_get_signature_params,
}
use httpsig_rs.Hyper.Sign.{ParamsKeyName, request_set_message_signatures}
use httpsig_rs.Hyper.Sign.Appended.{IsAppended}
use httpsig_rs.Hyper.Sign.Made.{AreMadeFor, request_set_message_signatures-appends}
use httpsig_rs.Hyper.Verify.{
  known_alg, has_message_signature_inner, extract_signature_headers_with_name,
  get_alg_key_ids_inner, get_signature_params_inner,
}
use httpsig_rs.Hyper.Roundtrip.{ReadsBack}
use httpsig_rs.Hyper.Roundtrip.Headers.{extract_signature_headers_with_name-own, appended_alone}
use httpsig_rs.Hyper.Roundtrip.Maps.{collect_map-distinct}
use httpsig_rs.Hyper.Roundtrip.Lines.{named}
use httpsig_rs.Hyper.Roundtrip.Entries.{asked_name, names-asked, made-IsWellFormed}

-- What is kept of each signature, by its name.
module _ {V : Type 0} (g : HttpSignatureParams → V) where
  abbrev found_entry : String × HttpSignatureHeaders → String × V
  found_entry e = (e.0, g e.1.signature_params)

  abbrev pub asked_entry : ParamsKeyName → String × V
  asked_entry y = (asked_name y, g y.0)

module _ {h : Http} (sfv : Sfv) (msg : RequestOrResponse h) (asked : Option (Request h)) where
  module _ {V : Type 0} (g : HttpSignatureParams → V) where
    listed :
        (xs : List ParamsKeyName) (ss : List HttpSignatureHeaders)
        → AreMadeFor sfv msg asked xs ss
        → map (found_entry g) (map named ss) ≡ map (asked_entry g) xs
    listed [] [] a = refl
    listed [] (s ∷ ss) a = absurd a
    listed (x ∷ xs) [] a = absurd a
    listed (x ∷ xs) (s ∷ ss) a = cc (a.0.3, a.0.4, listed xs ss a.1)

    keys-listed : (xs : List ParamsKeyName) → keys (map (asked_entry g) xs) ≡ map asked_name xs
    keys-listed [] = refl
    keys-listed (x ∷ xs) = ap (λ l. asked_name x ∷ l) (keys-listed xs)

    collected :
        (xs : List ParamsKeyName) (ss : List HttpSignatureHeaders)
        → AreMadeFor sfv msg asked xs ss
        → IsSetOf (map asked_name xs)
        → collect_map [] (map (found_entry g) (map named ss)) ≡ map (asked_entry g) xs
    collected xs ss a distinct =
        ap (collect_map []) (listed xs ss a)
        ∙ collect_map-distinct (map (asked_entry g) xs)
            (subst IsSetOf (sym (keys-listed xs)) distinct)

module _ {h : Http} (sfv : Sfv) (encode : Bytes → String) (lawful : IsLawful h) where
  -- The two headers of a signed request hold its signatures and no other.
  extract_signed :
      (req r : Request h) (x : ParamsKeyName) (xs : List ParamsKeyName)
      → IsSetOf (map asked_name (x ∷ xs))
      → All (λ y. IsWellFormed y.0) (x ∷ xs)
      → h.get_all req.headers "signature-input" ≡ []
      → h.get_all req.headers "signature" ≡ []
      → ((ss : List HttpSignatureHeaders)
          → AreMadeFor sfv (RequestOrResponse.request req) none (x ∷ xs) ss
          → ReadsBack sfv encode ss)
      → request_set_message_signatures h encode sfv req (x ∷ xs) ≡ (r, ok tt)
      → (ss : List HttpSignatureHeaders) × AreMadeFor sfv
          (RequestOrResponse.request req)
          none
          (x ∷ xs)
          ss
        × (has_message_signature_inner h r.headers ≡ true)
        × (extract_signature_headers_with_name sfv (RequestOrResponse.request r)
            ≡ ok (map named ss))
  unfolding headers
  extract_signed req r x xs distinct formed no_input no_signature reads e =
      let msg = RequestOrResponse.request req in
      let (ss, made, appended, _) =
        request_set_message_signatures-appends encode sfv req r (x ∷ xs) lawful e in
      let (present, extracted) =
        extract_signature_headers_with_name-own sfv encode lawful (RequestOrResponse.request r) ss
          (filled ss made)
          (IsAppended.inputs appended
            ∙ appended_alone sfv encode lawful req.headers "signature-input" _ no_input)
          (IsAppended.signatures appended
            ∙ appended_alone sfv encode lawful req.headers "signature" _ no_signature)
          (subst IsSetOf (sym (names-asked sfv msg none (x ∷ xs) ss made)) distinct)
          (made-IsWellFormed sfv msg none (x ∷ xs) ss made formed) (reads ss made) in
      (ss, made, present, extracted)
    where
      filled :
          (ss : List HttpSignatureHeaders)
          → AreMadeFor sfv (RequestOrResponse.request req) none (x ∷ xs) ss
          → is_empty ss ≡ false
      filled [] a = absurd a
      filled (s ∷ ss) a = refl

  -- Where header maps are lawful, a request that bears no signature and is then signed by one or more
  -- keys under distinct names, with well-formed parameters, says that it is signed, and what it
  -- tells of its signatures is one entry for each key, in order: the name with the algorithm, if it
  -- is a known one, and the key id that the parameters state, and the name with the parameters. It
  -- is supposed that the parser reads what is written as the structures it stands for.
  pub request_get_alg_key_ids-signed :
      (req r : Request h) (x : ParamsKeyName) (xs : List ParamsKeyName)
      → IsSetOf (map asked_name (x ∷ xs))
      → All (λ y. IsWellFormed y.0) (x ∷ xs)
      → h.get_all req.headers "signature-input" ≡ []
      → h.get_all req.headers "signature" ≡ []
      → ((ss : List HttpSignatureHeaders)
          → AreMadeFor sfv (RequestOrResponse.request req) none (x ∷ xs) ss
          → ReadsBack sfv encode ss)
      → request_set_message_signatures h encode sfv req (x ∷ xs) ≡ (r, ok tt)
      → (request_has_message_signature sfv r ≡ true)
        × (request_get_alg_key_ids sfv r
            ≡ ok (map (asked_entry (λ p. (known_alg p.alg, p.keyid))) (x ∷ xs)))
        × (request_get_signature_params sfv r ≡ ok (map (asked_entry (λ p. p)) (x ∷ xs)))
  unfolding request_has_message_signature request_get_alg_key_ids request_get_signature_params
      get_alg_key_ids_inner get_signature_params_inner
  request_get_alg_key_ids-signed req r x xs distinct formed no_input no_signature reads e =
      let msg = RequestOrResponse.request req in
      let (ss, made, present, extracted) =
        extract_signed req r x xs distinct formed no_input no_signature reads e in
      (
        present,
        rw extracted (
            ap ok
              (collected sfv msg none (λ p. (known_alg p.alg, p.keyid)) (x ∷ xs) ss made distinct)),
        rw extracted (ap ok (collected sfv msg none (λ p. p) (x ∷ xs) ss made distinct)),
      )
