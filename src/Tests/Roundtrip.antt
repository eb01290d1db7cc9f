-- ===== src/Tests/Roundtrip.antt =====
-- Examples of messages that are signed and verified.
use httpsig_rs.Base.{
  ◌≡◌, true, map, refl, inl, inr, List, [], ◌∷◌, none, some, ok, to_ascii_lowercase, string_eq,
}
use httpsig_rs.Http.{Request, Response}
use httpsig_rs.Hyper.Derived.{has_req}
use httpsig_rs.Hyper.Api.{
  request_has_message_signature, request_get_alg_key_ids, request_get_signature_params,
}
use httpsig_rs.Hyper.Listed.{asked_entry, request_get_alg_key_ids-signed}
use httpsig_rs.Hyper.Sign.{
  ParamsKeyName, request_set_message_signature, request_set_message_signatures,
  response_set_message_signatures,
}
use httpsig_rs.Hyper.Verify.{
  known_alg, request_verify_message_signature, response_verify_message_signature,
}
use httpsig_rs.Hyper.Roundtrip.{
  request_set_message_signatures-verify, response_set_message_signatures-verify,
}
use httpsig_rs.Tests.Env.{toy_http, toy_http-IsLawful, dated, request_with, response_with}
use httpsig_rs.Tests.Messages.{date_params}
use httpsig_rs.Tests.Signing.{req_params}
use httpsig_rs.Tests.OneByte.{
  with_key, signing_sfv, encode, one_byte, byte_verifier, accepts, steady, date_IsWellFormed,
  keyed_IsWellFormed, req_IsWellFormed, reads_two, reads_response, two_made,
}

abbrev signed : Request toy_http
signed =
    (request_set_message_signature toy_http encode signing_sfv (request_with dated) date_params
      one_byte none).0

signing :
    request_set_message_signature toy_http encode signing_sfv
      (request_with dated)
      date_params
      one_byte
      none
    ≡ (signed, ok tt)
unfolding request_set_message_signature signing_sfv
signing = refl

-- Two keys, of which the second is asked for.
abbrev first_key : ParamsKeyName
first_key = (with_key "k1" date_params, one_byte, none)

abbrev second_key : ParamsKeyName
second_key = (with_key "k2" date_params, one_byte, some "b")

abbrev twice_signed : Request toy_http
twice_signed =
    (request_set_message_signatures toy_http encode signing_sfv (request_with dated)
      (first_key ∷ second_key ∷ [])).0

signing_twice :
    request_set_message_signatures toy_http encode signing_sfv
      (request_with dated)
      (first_key ∷ second_key ∷ [])
    ≡ (twice_signed, ok tt)
unfolding request_set_message_signatures signing_sfv
signing_twice = refl

request_set_message_signatures-verify_example :
    request_verify_message_signature signing_sfv 5 twice_signed byte_verifier (some "k2") ≡ ok "b"
unfolding to_ascii_lowercase
request_set_message_signatures-verify_example =
    request_set_message_signatures-verify signing_sfv encode toy_http-IsLawful 5
      (request_with dated) twice_signed (first_key ∷ []) second_key [] byte_verifier (some "k2")
      accepts tt tt (refl, tt) refl ((refl, tt), (tt, tt))
      (keyed_IsWellFormed "k1", (keyed_IsWellFormed "k2", tt))
      ((inr (refl, refl), tt), ((inr (refl, refl), tt), tt)) refl refl
      (λ ss made.
        rw
          (two_made "sig" "b" (with_key "k1" date_params) (with_key "k2" date_params) _ none none
            (some "b") ss refl refl made)
          reads_two)
      signing_twice

-- A response whose first signature covers the method of the request.
abbrev response_keys : List ParamsKeyName
response_keys = (req_params, one_byte, none) ∷ (date_params, one_byte, some "b") ∷ []

abbrev answer : Response toy_http
answer =
    (response_set_message_signatures toy_http encode signing_sfv (response_with dated) response_keys
      (some (request_with dated))).0

answering :
    response_set_message_signatures toy_http encode signing_sfv
      (response_with dated)
      response_keys
      (some (request_with dated))
    ≡ (answer, ok tt)
unfolding response_set_message_signatures signing_sfv
answering = refl

response_set_message_signatures-verify_example :
    response_verify_message_signature signing_sfv 5 answer byte_verifier none
      (some (request_with dated))
    ≡ ok "sig"
unfolding to_ascii_lowercase has_req
response_set_message_signatures-verify_example =
    response_set_message_signatures-verify signing_sfv encode toy_http-IsLawful 5
      (response_with dated) answer (some (request_with dated)) [] (req_params, one_byte, none)
      ((date_params, one_byte, some "b") ∷ []) byte_verifier none accepts steady tt tt refl
      ((refl, tt), (tt, tt)) (req_IsWellFormed, (date_IsWellFormed, tt))
      ((inr (refl, refl), (inl refl, tt)), ((inr (refl, refl), tt), tt)) refl refl
      (λ ss made.
        rw
          (two_made "sig" "b" req_params date_params _ (some (request_with dated)) none (some "b")
            ss refl refl made)
          reads_response)
      answering

request_get_alg_key_ids-signed_example :
    (request_has_message_signature signing_sfv twice_signed ≡ true)
    × (request_get_alg_key_ids signing_sfv twice_signed
        ≡ ok (map (asked_entry (λ p. (known_alg p.alg, p.keyid))) (first_key ∷ second_key ∷ [])))
    × (request_get_signature_params signing_sfv twice_signed
        ≡ ok (map (asked_entry (λ p. p)) (first_key ∷ second_key ∷ [])))
unfolding to_ascii_lowercase
request_get_alg_key_ids-signed_example =
    request_get_alg_key_ids-signed signing_sfv encode toy_http-IsLawful (request_with dated)
      twice_signed first_key (second_key ∷ []) ((refl, tt), (tt, tt))
      (keyed_IsWellFormed "k1", (keyed_IsWellFormed "k2", tt)) refl refl
      (λ ss made.
        rw
          (two_made "sig" "b" (with_key "k1" date_params) (with_key "k2" date_params) _ none none
            (some "b") ss refl refl made)
          reads_two)
      signing_twice
