-- ===== src/Tests/Bodies.antt =====
-- Examples of requests with a content digest that are signed.
use httpsig_rs.Base.{
  ◌≡◌, refl, inl, inr, String, [], ◌∷◌, none, ok, ◌<>◌, if◌then◌else◌, drop_first, starts_with_char,
  to_ascii_lowercase, contains_char, join,
}
use httpsig_rs.Http.{Request}
use httpsig_rs.Sfv.{Sfv, Dictionary, Parsed, parsed}
use httpsig_rs.Crypto.{Bytes}
use httpsig_rs.Component.Build.{component_to_string}
use httpsig_rs.Component.Value.{value_from_str}
use httpsig_rs.Params.{HttpSignatureParams, with_components, signature_params_to_string}
use httpsig_rs.Signature.{HttpSignatureBase}
use httpsig_rs.Signature.Unambiguous.{HasOneLineTexts}
use httpsig_rs.Digest.{
  ContentDigestType, derive_digest, digest_header_value, digest_type_to_string,
  request_set_content_digest, request_verify_content_digest,
}
use httpsig_rs.Digest.Roundtrip.{ReadsDigest}
use httpsig_rs.Hyper.{RequestOrResponse}
use httpsig_rs.Hyper.Extract.{build_signature_base}
use httpsig_rs.Hyper.Body.{digest_id, base_to_string-same_body}
use httpsig_rs.Hyper.Digested.{digested_and_signed-verify}
use httpsig_rs.Hyper.Sign.{ParamsKeyName, request_set_message_signatures}
use httpsig_rs.Hyper.Verify.{request_verify_message_signature}
use httpsig_rs.Tests.Env.{toy_http, toy_http-IsLawful, dated, request_with}
use httpsig_rs.Params.Written.{ReadsIds}
use httpsig_rs.Component.Id.{id_to_string}
use httpsig_rs.Component.Name.{derived_as_ref}
use httpsig_rs.Signature.Headers.{signature_header_value, signature_input_header_value}
use httpsig_rs.Hyper.Roundtrip.{ReadsBack}
use httpsig_rs.Tests.Messages.{date_id, date_params}
use httpsig_rs.Tests.OneByte.{
  signing_sfv, read_headers, encode, one_byte, byte_verifier, accepts, date_IsWellFormed, made_with,
  one_signature,
}
use httpsig_rs.Tests.Digests.{
  digest_crypto, digest_sfv, digested, read_digest, encode-append, decode-encode,
}

-- Another request with the same body and digest.
abbrev other_request : Request toy_http
other_request = record digested { method = "POST" }

abbrev digest_params : HttpSignatureParams
digest_params = with_components none (digest_id ∷ [])

abbrev digest_text : String
digest_text = "sha-512=:1111111010110:"

abbrev digest_base : HttpSignatureBase
digest_base = record {
  component_lines = record { id = digest_id; value = value_from_str digest_text } ∷ [];
  signature_params = digest_params;
}

built :
    build_signature_base digest_sfv (RequestOrResponse.request digested) digest_params none
    ≡ ok digest_base
unfolding build_signature_base to_ascii_lowercase
built = refl

other_built :
    build_signature_base digest_sfv (RequestOrResponse.request other_request) digest_params none
    ≡ ok digest_base
unfolding build_signature_base to_ascii_lowercase
other_built = refl

flat : HasOneLineTexts digest_base
unfolding contains_char component_to_string signature_params_to_string
flat = record { lines = (refl, tt); params = refl }

verified : request_verify_content_digest digest_crypto digest_sfv toy_http digested ≡ ok digested
unfolding request_verify_content_digest digest_crypto digest_sfv to_ascii_lowercase
verified = refl

other_verified :
    request_verify_content_digest digest_crypto digest_sfv toy_http other_request ≡ ok other_request
unfolding request_verify_content_digest digest_crypto digest_sfv to_ascii_lowercase
other_verified = refl

base_to_string-same_body_example :
    (x : Bytes) × (y : Bytes) × (t : ContentDigestType) × (digested.body ≡ parsed x)
    × (other_request.body ≡ parsed y)
    × (derive_digest digest_crypto x t ≡ derive_digest digest_crypto y t)
unfolding to_ascii_lowercase
base_to_string-same_body_example =
    base_to_string-same_body toy_http digest_sfv digest_crypto toy_http-IsLawful digested
      other_request digested other_request digest_params digest_base digest_base digest_text
      digest_text built other_built flat flat refl (inl refl) refl refl verified other_verified

-- A parser that knows the signature headers and the digest headers.
read_either : String → Parsed Dictionary
unfolding starts_with_char
read_either s = if starts_with_char b'h' (drop_first s) then read_digest s else read_headers s

unfoldable both_sfv : Sfv
unfolding read_either signing_sfv
both_sfv = record signing_sfv { parse_dictionary = read_either }

reads_digest : ReadsDigest digest_crypto both_sfv
unfolding digest_crypto both_sfv read_digest digest_header_value digest_type_to_string ◌<>◌
    starts_with_char
reads_digest ContentDigestType.sha256 bytes = rw (encode-append bytes, decode-encode bytes) refl
reads_digest ContentDigestType.sha512 bytes = rw (encode-append bytes, decode-encode bytes) refl

setting_both :
    request_set_content_digest digest_crypto both_sfv toy_http
      (request_with dated)
      ContentDigestType.sha512
    ≡ ok digested
unfolding request_set_content_digest digest_crypto
setting_both = refl

abbrev date_key : ParamsKeyName
date_key = (date_params, one_byte, none)

abbrev digested_and_signed : Request toy_http
digested_and_signed =
    (request_set_message_signatures toy_http encode both_sfv digested (date_key ∷ [])).0

signing_both :
    request_set_message_signatures toy_http encode both_sfv digested (date_key ∷ [])
    ≡ (digested_and_signed, ok tt)
unfolding request_set_message_signatures both_sfv
signing_both = refl

reads_both_ids : ReadsIds both_sfv (date_id ∷ [])
unfolding both_sfv id_to_string
reads_both_ids = record { written = (refl, tt); read = (refl, tt) }

reads_both : ReadsBack both_sfv encode (made_with "sig" date_params ∷ [])
unfolding both_sfv signature_header_value signature_input_header_value ◌<>◌ join derived_as_ref
reads_both = record { inputs = refl; signatures = refl; ids = (reads_both_ids, tt) }

digested_and_signed-verify_example :
    (request_verify_message_signature both_sfv 5 digested_and_signed byte_verifier none ≡ ok "sig")
    × (request_verify_content_digest digest_crypto both_sfv toy_http digested_and_signed
        ≡ ok digested_and_signed)
    × (digested_and_signed.body ≡ (request_with dated).body)
unfolding to_ascii_lowercase
digested_and_signed-verify_example =
    digested_and_signed-verify digest_crypto both_sfv encode toy_http-IsLawful reads_digest 5
      (request_with dated) digested digested_and_signed ContentDigestType.sha512 [] date_key []
      byte_verifier none accepts tt tt tt refl (tt, tt) (date_IsWellFormed, tt)
      ((inr (refl, refl), tt), tt) refl refl
      (λ ss made. rw (one_signature both_sfv "sig" date_params _ none none ss refl made) reads_both)
      setting_both signing_both
