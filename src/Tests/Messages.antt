-- ===== src/Tests/Messages.antt =====
-- Examples for the messages of httpsig-hyper.
use httpsig_rs.Base.{◌≡◌, refl, String, true, [], ◌∷◌, none, ok, err, NoPanic, as_bytes, Any}
use httpsig_rs.Error.{HttpSigError}
use httpsig_rs.Http.{Request, Response}
use httpsig_rs.Crypto.{Bytes}
use httpsig_rs.Component.Name.{HttpMessageComponentName}
use httpsig_rs.Component.Id.{HttpMessageComponentId}
use httpsig_rs.Component.Build.{HttpMessageComponent}
use httpsig_rs.Component.Value.{value_from_str}
use httpsig_rs.Params.{HttpSignatureParams, with_components}
use httpsig_rs.Signature.{HttpSignatureBase, verify_signature_headers}
use httpsig_rs.Signature.Headers.{HttpSignatureHeadersMap}
use httpsig_rs.Hyper.{RequestOrResponse}
use httpsig_rs.Hyper.Verify.{
  has_keyid, request_verify_message_signature, response_verify_message_signature,
  extract_signature_headers_with_name,
}
use httpsig_rs.Hyper.Verify.Sound.{
  IsSignedEntry, request_verify_message_signature_sound, response_verify_message_signature_sound,
}
use httpsig_rs.Hyper.Verify.Complete.{Entry}
use httpsig_rs.Tests.Env.{
  toy_http, toy_sfv, toy_verifier, date_base, signed_headers, request_with, response_with,
}

abbrev pub date_id : HttpMessageComponentId
date_id = record { name = HttpMessageComponentName.http_field "date"; params = [] }

abbrev pub date_params : HttpSignatureParams
date_params = with_components none (date_id ∷ [])

abbrev signed_request : Request toy_http
signed_request = request_with signed_headers

abbrev signed_response : Response toy_http
signed_response = response_with signed_headers

verified : request_verify_message_signature toy_sfv 5 signed_request toy_verifier none ≡ ok "sig"
unfolding request_verify_message_signature toy_sfv toy_verifier
verified = refl

request_verify_message_signature_sound_example :
    (found : HttpSignatureHeadersMap) × (extract_signature_headers_with_name toy_sfv
        (RequestOrResponse.request signed_request)
      ≡ ok found)
    × Any
        (IsSignedEntry toy_sfv 5
          (RequestOrResponse.request signed_request)
          none
          toy_verifier
          none
          "sig")
        found
request_verify_message_signature_sound_example =
    request_verify_message_signature_sound toy_sfv 5 signed_request toy_verifier none "sig" verified

response_verified :
    response_verify_message_signature toy_sfv 5 signed_response toy_verifier none none ≡ ok "sig"
unfolding response_verify_message_signature toy_sfv toy_verifier
response_verified = refl

response_verify_message_signature_sound_example :
    (found : HttpSignatureHeadersMap) × (extract_signature_headers_with_name toy_sfv
        (RequestOrResponse.response signed_response)
      ≡ ok found)
    × Any
        (IsSignedEntry toy_sfv 5
          (RequestOrResponse.response signed_response)
          none
          toy_verifier
          none
          "sig")
        found
response_verify_message_signature_sound_example =
    response_verify_message_signature_sound toy_sfv 5 signed_response toy_verifier none none "sig"
      response_verified

-- A base, and two entries for it: one signed with the toy key and one with other bytes.
abbrev pub date_line : HttpMessageComponent
date_line = record { id = date_id; value = value_from_str "Tue" }

abbrev pub base : HttpSignatureBase
base = record { component_lines = date_line ∷ []; signature_params = date_params }

abbrev pub entry_of : String → Bytes → Entry
entry_of name signature = (
  name,
  (base, record { signature_name = name; signature = signature; signature_params = date_params }),
)

abbrev pub forged : Entry
forged = entry_of "a" (1 ∷ [])

abbrev pub good : Entry
good = entry_of "b" (as_bytes date_base)

pub forged_refused :
    verify_signature_headers 5 base toy_verifier (forged.1.1)
    ≡ err (HttpSigError.invalid_signature "toy")
unfolding verify_signature_headers toy_verifier
forged_refused = refl

pub good_accepted : verify_signature_headers 5 base toy_verifier (good.1.1) ≡ ok tt
unfolding verify_signature_headers toy_verifier
good_accepted = refl

pub forged_not_panicking : NoPanic (verify_signature_headers 5 base toy_verifier (forged.1.1))
forged_not_panicking t e = cc (forged_refused, e)

pub asked : has_keyid none base ≡ true
unfolding has_keyid
asked = refl
