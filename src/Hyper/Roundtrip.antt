-- ===== src/Hyper/Roundtrip.antt =====
-- A message that has been signed is verified, for hyper_http.rs.
pub mod Maps
pub mod Lines
pub mod Entries
pub mod Headers
pub use Lines.{ReadsBack}
pub use Entries.{has_key_id, asked_name, IsSteady}
use httpsig_rs.Base.{
  ◌≡◌, refl, ap, sym, ◌∙◌, subst, ◌++◌, ℕ, String, true, false, not, List, [], ◌∷◌, map, All,
  Option, none, ok, traverse, map_ok, join, is_empty, collect_map, string_eq, NoPanic,
}
use httpsig_rs.Error.{HyperSigError}
use httpsig_rs.Http.{Http, IsLawful, Request, Response}
use httpsig_rs.Sfv.{Sfv, Parsed, parsed, or_error}
use httpsig_rs.Util.Unique.{IsSetOf}
use httpsig_rs.Crypto.{Bytes, SigningKey, VerifyingKey}
use httpsig_rs.Params.{HttpSignatureParams}
use httpsig_rs.Params.Expiry.{IsCurrent}
use httpsig_rs.Params.Written.{IsWellFormed}
use httpsig_rs.Signature.{HttpSignatureHeaders, name_or_default}
use httpsig_rs.Signature.Verify.{Accepts}
use httpsig_rs.Signature.Headers.{signature_header_value, signature_input_header_value}
use httpsig_rs.Hyper.{RequestOrResponse, headers}
use httpsig_rs.Hyper.Unsigned.{IsUntouched, with_headers, headers-with_headers}
use httpsig_rs.Hyper.Sign.{
  ParamsKeyName, request_set_message_signature, request_set_message_signatures,
  response_set_message_signature, response_set_message_signatures,
}
use httpsig_rs.Hyper.Sign.Appended.{IsAppended, texts}
use httpsig_rs.Hyper.Sign.Made.{
  AreMadeFor, request_set_message_signatures-appends, request_set_message_signatures-headers,
  response_set_message_signatures-appends, response_set_message_signatures-headers,
}
use httpsig_rs.Hyper.Verify.{
  has_message_signature_inner, header_strings, extract_signature_headers_with_name,
  extract_signatures_inner, verify_one, request_verify_message_signature,
  response_verify_message_signature,
}
use httpsig_rs.Hyper.Verify.Sound.{
  verify_single, request_verify_message_signature_single, response_verify_message_signature_single,
}
use httpsig_rs.Hyper.Verify.Complete.{verify_one_first}
use httpsig_rs.Hyper.Roundtrip.Maps.{collect_map-distinct}
use httpsig_rs.Hyper.Roundtrip.Lines.{names, named, headers_try_parse-written}
use httpsig_rs.Hyper.Roundtrip.Entries.{
  entries, keys-entries, names-asked, made-IsWellFormed, filter_ok-made, IsPlaced, entries-IsPlaced,
}
use httpsig_rs.Hyper.Roundtrip.Headers.{
  extract_signature_headers_with_name-own, made-filled, appended_alone,
}

module _ {h : Http} (sfv : Sfv) (encode : Bytes → String) (lawful : IsLawful h) where
  module _ (now : ℕ) (front : List ParamsKeyName) (x : ParamsKeyName) (back : List ParamsKeyName)
      (vk : VerifyingKey) (key_id : Option String) (accepts : Accepts (x.1) vk)
      (steady : IsSteady vk back) (current : IsCurrent now ((x.0).expires))
      (others : All (λ y. has_key_id key_id y.0 ≡ false) front)
      (has : has_key_id key_id (x.0) ≡ true)
      (distinct : IsSetOf (map asked_name (front ++ (x ∷ back))))
      (formed : All (λ y. IsWellFormed y.0) (front ++ (x ∷ back)))
      (untouched : All
        (λ y. All IsUntouched ((y.0).covered_components))
        (front ++ (x ∷ back))) where
    verify_one-placed :
        (msg : RequestOrResponse h) (asked : Option (Request h)) (ss : List HttpSignatureHeaders)
        (a : AreMadeFor sfv msg asked (front ++ (x ∷ back)) ss)
        → verify_one now (entries sfv msg asked (front ++ (x ∷ back)) ss a) (vk, key_id)
          ≡ ok (asked_name x)
    verify_one-placed msg asked ss a =
        let place =
          entries-IsPlaced sfv msg asked now vk key_id front x back ss a others has accepts current
            steady in
        ap (λ es. verify_one now es (vk, key_id)) (IsPlaced.parts place)
        ∙ verify_one_first now vk key_id (IsPlaced.front place) (IsPlaced.back place)
            (IsPlaced.own place) (IsPlaced.passed place) (IsPlaced.has place)
            (IsPlaced.checked place) (IsPlaced.calm place)
        ∙ ap ok (IsPlaced.called place)

    extract_signatures_inner-made :
        (msg : RequestOrResponse h) (asked : Option (Request h)) (m : h.HeaderMap)
        (ss : List HttpSignatureHeaders) (a : AreMadeFor sfv msg asked (front ++ (x ∷ back)) ss)
        → IsAppended h encode (headers msg) m ss
        → extract_signature_headers_with_name sfv (with_headers msg m) ≡ ok (map named ss)
        → extract_signatures_inner sfv (with_headers msg m) asked
          ≡ ok (entries sfv msg asked (front ++ (x ∷ back)) ss a)
    unfolding extract_signatures_inner
    extract_signatures_inner-made msg asked m ss a appended extracted =
        let set : IsSetOf (names ss) = rw (names-asked sfv msg asked _ ss a) distinct in
        rw
          (
            extracted,
            filter_ok-made sfv msg asked m (IsAppended.others appended) _ ss a untouched,
            collect_map-distinct (entries sfv msg asked _ ss a)
                (rw (keys-entries sfv msg asked _ ss a) set),
          )
          refl

    -- The signature of `x` is found in the message with its new headers and is verified.
    verify_single-signed :
        (missing : String) (msg : RequestOrResponse h) (asked : Option (Request h))
        (m : h.HeaderMap) (ss : List HttpSignatureHeaders)
        → h.get_all (headers msg) "signature-input" ≡ []
        → h.get_all (headers msg) "signature" ≡ []
        → AreMadeFor sfv msg asked (front ++ (x ∷ back)) ss
        → IsAppended h encode (headers msg) m ss
        → ReadsBack sfv encode ss
        → verify_single sfv missing now (with_headers msg m) asked (vk, key_id) ≡ ok (asked_name x)
    verify_single-signed missing msg asked m ss no_input no_signature a appended reads =
        let at_m = headers-with_headers msg m in
        let (present, extracted) =
          extract_signature_headers_with_name-own sfv encode lawful (with_headers msg m) ss
            (made-filled sfv encode lawful msg asked front x back ss a)
            (rw at_m (
              IsAppended.inputs appended
              ∙ appended_alone sfv encode lawful (headers msg) "signature-input" _ no_input))
            (rw at_m (
              IsAppended.signatures appended
              ∙ appended_alone sfv encode lawful (headers msg) "signature" _ no_signature))
            (rw (names-asked sfv msg asked _ ss a) distinct)
            (made-IsWellFormed sfv msg asked _ ss a formed) reads in
        rw (present, extract_signatures_inner-made msg asked m ss a appended extracted)
          (verify_one-placed msg asked ss a)

  -- Where header maps are lawful, a request that bears no signature and is signed with several keys
  -- under distinct names is verified with a key that matches one of them, and the name of its
  -- signature is returned, until its parameters expire. It is supposed that the parameters of the
  -- signatures in front have another key id than the one asked for; that the key does not panic at
  -- a signature that it checks behind its own; that all parameters are well formed and cover no
  -- signature header of the request; and that the parser of structured fields reads the texts that
  -- are written of ids, parameters and signatures as the structures they stand for.
  pub request_set_message_signatures-verify :
      (now : ℕ) (req r : Request h) (front : List ParamsKeyName) (x : ParamsKeyName)
      (back : List ParamsKeyName) (vk : VerifyingKey) (key_id : Option String)
      → Accepts (x.1) vk
      → IsSteady vk back
      → IsCurrent now ((x.0).expires)
      → All (λ y. has_key_id key_id y.0 ≡ false) front
      → has_key_id key_id (x.0) ≡ true
      → IsSetOf (map asked_name (front ++ (x ∷ back)))
      → All (λ y. IsWellFormed y.0) (front ++ (x ∷ back))
      → All (λ y. All IsUntouched ((y.0).covered_components)) (front ++ (x ∷ back))
      → h.get_all req.headers "signature-input" ≡ []
      → h.get_all req.headers "signature" ≡ []
      → ((ss : List HttpSignatureHeaders)
          → AreMadeFor sfv (RequestOrResponse.request req) none (front ++ (x ∷ back)) ss
          → ReadsBack sfv encode ss)
      → request_set_message_signatures h encode sfv req (front ++ (x ∷ back)) ≡ (r, ok tt)
      → request_verify_message_signature sfv now r vk key_id ≡ ok (asked_name x)
  unfolding headers
  request_set_message_signatures-verify now req r front x back vk key_id accepts steady current
        others has distinct formed untouched no_input no_signature reads e =
      let xs : List ParamsKeyName = front ++ (x ∷ back) in
      let (ss, made, appended, _) =
        request_set_message_signatures-appends encode sfv req r xs lawful e in
      subst (λ q. request_verify_message_signature sfv now q vk key_id ≡ ok (asked_name x))
        (request_set_message_signatures-headers encode sfv req r xs e)
        (request_verify_message_signature_single sfv now (record req { headers = r.headers }) vk
            key_id
          ∙ verify_single-signed now front x back vk key_id accepts steady current others has
              distinct formed untouched _ (RequestOrResponse.request req) none r.headers ss no_input
              no_signature made appended (reads ss made))

  -- Where header maps are lawful, a request that bears no signature, signed with a key under the
  -- name given or the default one, is verified with a matching key, under that name and for any or
  -- for its own key id, until the parameters expire. It is supposed that the parameters are well
  -- formed and cover neither signature header, and that the parser of structured fields reads the
  -- texts that are written of ids, parameters and signature as the structures they stand for.
  pub request_set_message_signature-verifies :
      (now : ℕ) (req r : Request h) (p : HttpSignatureParams) (sk : SigningKey) (vk : VerifyingKey)
      (name key_id : Option String)
      → Accepts sk vk
      → IsCurrent now p.expires
      → has_key_id key_id p ≡ true
      → IsWellFormed p
      → All IsUntouched p.covered_components
      → h.get_all req.headers "signature-input" ≡ []
      → h.get_all req.headers "signature" ≡ []
      → ((ss : List HttpSignatureHeaders)
          → AreMadeFor sfv (RequestOrResponse.request req) none ((p, sk, name) ∷ []) ss
          → ReadsBack sfv encode ss)
      → request_set_message_signature h encode sfv req p sk name ≡ (r, ok tt)
      → request_verify_message_signature sfv now r vk key_id ≡ ok (name_or_default name)
  unfolding request_set_message_signature
  request_set_message_signature-verifies now req r p sk vk name key_id accepts current has formed
        untouched no_input no_signature reads e =
      request_set_message_signatures-verify now req r [] (p, sk, name) [] vk key_id accepts tt
        current tt has (tt, tt) (formed, tt) (untouched, tt) no_input no_signature reads e

  -- Where header maps are lawful, a response that bears no signature and is signed with several keys
  -- under distinct names is verified, with the same request at hand, with a key that matches one of
  -- them, under the same suppositions as for a request; but components of the request, its signature
  -- headers included, may be covered.
  pub response_set_message_signatures-verify :
      (now : ℕ) (res r : Response h) (asked : Option (Request h)) (front : List ParamsKeyName)
      (x : ParamsKeyName) (back : List ParamsKeyName) (vk : VerifyingKey) (key_id : Option String)
      → Accepts (x.1) vk
      → IsSteady vk back
      → IsCurrent now ((x.0).expires)
      → All (λ y. has_key_id key_id y.0 ≡ false) front
      → has_key_id key_id (x.0) ≡ true
      → IsSetOf (map asked_name (front ++ (x ∷ back)))
      → All (λ y. IsWellFormed y.0) (front ++ (x ∷ back))
      → All (λ y. All IsUntouched ((y.0).covered_components)) (front ++ (x ∷ back))
      → h.get_all res.headers "signature-input" ≡ []
      → h.get_all res.headers "signature" ≡ []
      → ((ss : List HttpSignatureHeaders)
          → AreMadeFor sfv (RequestOrResponse.response res) asked (front ++ (x ∷ back)) ss
          → ReadsBack sfv encode ss)
      → response_set_message_signatures h encode sfv res (front ++ (x ∷ back)) asked ≡ (r, ok tt)
      → response_verify_message_signature sfv now r vk key_id asked ≡ ok (asked_name x)
  unfolding headers
  response_set_message_signatures-verify now res r asked front x back vk key_id accepts steady
        current others has distinct formed untouched no_input no_signature reads e =
      let xs : List ParamsKeyName = front ++ (x ∷ back) in
      let (ss, made, appended, _) =
        response_set_message_signatures-appends encode sfv res r xs asked lawful e in
      subst (λ q. response_verify_message_signature sfv now q vk key_id asked ≡ ok (asked_name x))
        (response_set_message_signatures-headers encode sfv res r xs asked e)
        (response_verify_message_signature_single sfv now (record res { headers = r.headers }) vk
            key_id asked
          ∙ verify_single-signed now front x back vk key_id accepts steady current others has
              distinct formed untouched _ (RequestOrResponse.response res) asked r.headers ss
              no_input no_signature made appended (reads ss made))
