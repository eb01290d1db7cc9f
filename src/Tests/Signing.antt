-- ===== src/Tests/Signing.antt =====
-- Examples for signing and for the signature bases of httpsig-hyper.
use httpsig_rs.Base.{
  ◌≡◌, ◌⊎◌, All, refl, String, List, [], ◌∷◌, map, none, some, ok, err, NoPanic, map_ok, traverse,
}
use httpsig_rs.Error.{HyperSigError}
use httpsig_rs.Http.{Request, Response}
use httpsig_rs.Crypto.{Bytes}
use httpsig_rs.Component.Name.{HttpMessageComponentName, DerivedComponentName}
use httpsig_rs.Component.Param.{HttpMessageComponentParam}
use httpsig_rs.Component.Id.{HttpMessageComponentId}
use httpsig_rs.Params.{HttpSignatureParams, with_components}
use httpsig_rs.Signature.{HttpSignatureHeaders}
use httpsig_rs.Hyper.{RequestOrResponse}
use httpsig_rs.Hyper.Extract.{build_signature_base, component_line}
use httpsig_rs.Hyper.Extract.Total.{
  build_signature_base-NoPanic, build_signature_base-lines, build_signature_base-ids,
}
use httpsig_rs.Hyper.Sign.{
  ParamsKeyName, request_set_message_signatures, response_set_message_signatures,
}
use httpsig_rs.Hyper.Sign.Appended.{IsAppended}
use httpsig_rs.Hyper.Sign.Made.{AreMadeFor, request_set_message_signatures-appends}
use httpsig_rs.Hyper.Sign.Atomic.{IsWritable, request_set_message_signatures-atomic}
use httpsig_rs.Tests.Env.{
  toy_http, toy_http-IsLawful, toy_sfv, toy_signer, dated, request_with, response_with,
}
use httpsig_rs.Tests.Messages.{date_id, date_params, base}

abbrev dated_request : Request toy_http
dated_request = request_with dated

abbrev dated_response : Response toy_http
dated_response = response_with dated

abbrev pub req_id : HttpMessageComponentId
req_id = record {
  name = HttpMessageComponentName.derived DerivedComponentName.method;
  params = HttpMessageComponentParam.req ∷ [];
}

abbrev pub req_params : HttpSignatureParams
req_params = with_components none (date_id ∷ req_id ∷ [])

abbrev toy_encode : Bytes → String
toy_encode bytes = "MAC"

abbrev asked : List ParamsKeyName
asked = (date_params, toy_signer, none) ∷ (date_params, toy_signer, some "b") ∷ []

-- The request that signing gives.
abbrev twice_signed : Request toy_http
twice_signed = (request_set_message_signatures toy_http toy_encode toy_sfv dated_request asked).0

signing :
    request_set_message_signatures toy_http toy_encode toy_sfv dated_request asked
    ≡ (twice_signed, ok tt)
unfolding request_set_message_signatures toy_sfv
signing = refl

request_set_message_signatures-appends_example :
    (ss : List HttpSignatureHeaders) × AreMadeFor toy_sfv
      (RequestOrResponse.request dated_request)
      none
      asked
      ss
    × IsAppended toy_http toy_encode dated_request.headers twice_signed.headers ss
    × (twice_signed.body ≡ dated_request.body)
request_set_message_signatures-appends_example =
    request_set_message_signatures-appends toy_encode toy_sfv dated_request twice_signed asked
      toy_http-IsLawful signing

abbrev response_asked : List ParamsKeyName
response_asked = (req_params, toy_signer, none) ∷ []

abbrev signed_answer : Response toy_http
signed_answer =
    (response_set_message_signatures toy_http toy_encode toy_sfv dated_response response_asked
      (some dated_request)).0

-- A component marked `req` is refused in a request, and nothing has been written for the first of
-- the two signatures.
abbrev one_refused : List ParamsKeyName
one_refused = (date_params, toy_signer, none) ∷ (req_params, toy_signer, none) ∷ []

refused :
    request_set_message_signatures toy_http toy_encode toy_sfv dated_request one_refused
    ≡ (dated_request, err (HyperSigError.invalid_component_param "`req` is not allowed in request"))
unfolding request_set_message_signatures toy_sfv
refused = refl

-- Every text is a header value of the toy headers.
all-IsWritable : (ss : List HttpSignatureHeaders) → All (IsWritable toy_http toy_encode) ss
all-IsWritable [] = tt
all-IsWritable (s ∷ ss) = (((_, refl), (_, refl)), all-IsWritable ss)

request_set_message_signatures-atomic_example :
    ((request_set_message_signatures toy_http toy_encode toy_sfv dated_request one_refused).1
      ≡ ok tt)
    ⊎ ((request_set_message_signatures toy_http toy_encode toy_sfv dated_request one_refused).0
        ≡ dated_request)
request_set_message_signatures-atomic_example =
    request_set_message_signatures-atomic toy_encode toy_sfv dated_request one_refused
      (λ ss made. all-IsWritable ss)

build_signature_base-lines_example :
    build_signature_base toy_sfv
      (RequestOrResponse.response dated_response)
      req_params
      (some dated_request)
    ≡ map_ok
        (λ lines. record { component_lines = lines; signature_params = req_params })
        (traverse
          (component_line toy_sfv (RequestOrResponse.response dated_response) (some dated_request))
          req_params.covered_components)
build_signature_base-lines_example =
    build_signature_base-lines toy_sfv (RequestOrResponse.response dated_response) req_params
      (some dated_request)

build_signature_base-NoPanic_example :
    NoPanic (build_signature_base toy_sfv (RequestOrResponse.request dated_request) req_params none)
build_signature_base-NoPanic_example =
    build_signature_base-NoPanic toy_sfv (RequestOrResponse.request dated_request) req_params none

built :
    build_signature_base toy_sfv (RequestOrResponse.request dated_request) date_params none
    ≡ ok base
unfolding build_signature_base toy_sfv
built = refl

build_signature_base-ids_example :
    (map (λ c. c.id) base.component_lines ≡ date_params.covered_components)
    × (base.signature_params ≡ date_params)
build_signature_base-ids_example =
    build_signature_base-ids toy_sfv (RequestOrResponse.request dated_request) date_params none base
      built
