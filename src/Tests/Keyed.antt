-- ===== src/Tests/Keyed.antt =====
-- An example of a request signed with a secret key and verified with the key that its key id names.
use httpsig_rs.Base.{
  ◌≡◌, refl, ◌∙◌, String, List, [], ◌∷◌, none, some, ok, ok-injective, ◌<>◌, ◌==◌, string_eq, inr,
  join, to_ascii_lowercase, if◌then◌else◌,
}
use httpsig_rs.Http.{Request}
use httpsig_rs.Sfv.{Sfv, Dictionary, Parsed, parsed, failed}
use httpsig_rs.Crypto.{alg_as_str, SigningKey}
use httpsig_rs.Crypto.Asymmetric.{AsymmetricCrypto, SecretKey}
use httpsig_rs.Crypto.Asymmetric.Public.{public_alg, public_key_id}
use httpsig_rs.Crypto.Asymmetric.Secret.{
  secret_sign, public_key, secret_signing_key, public_verifying_key,
}
use httpsig_rs.Crypto.Asymmetric.Signs.{IsSound}
use httpsig_rs.Component.Id.{id_to_string}
use httpsig_rs.Params.{HttpSignatureParams, set_key_info}
use httpsig_rs.Params.Written.{ReadsIds}
use httpsig_rs.Signature.{HttpSignatureHeaders, name_or_default}
use httpsig_rs.Signature.Headers.{signature_header_value, signature_input_header_value}
use httpsig_rs.Hyper.{RequestOrResponse}
use httpsig_rs.Hyper.Api.{request_get_alg_key_ids}
use httpsig_rs.Hyper.Keyed.{request_set_message_signature-key_info}
use httpsig_rs.Hyper.Roundtrip.{ReadsBack}
use httpsig_rs.Hyper.Sign.{request_set_message_signature}
use httpsig_rs.Hyper.Sign.Made.{AreMadeFor}
use httpsig_rs.Hyper.Verify.{request_verify_message_signature}
use httpsig_rs.Tests.Env.{toy_http, toy_http-IsLawful, toy_sfv, dated, request_with}
use httpsig_rs.Tests.Keys.{toy_crypto, crypto_with, toy-IsSound}
use httpsig_rs.Tests.Messages.{date_id, date_params}
use httpsig_rs.Tests.OneByte.{
  encode, write_item, own_input, own_bytes, made_with, date_IsWellFormed, made_lem,
}

-- Every key of Ed25519 signs with one byte, and takes every signature for its own.
unfoldable byte_crypto : AsymmetricCrypto
unfolding toy_crypto crypto_with
byte_crypto = record toy_crypto {
  ed25519_sign = λ sk m r. 7 ∷ [];
  ed25519_verify = λ pk m s. parsed tt;
}

byte-IsSound : IsSound byte_crypto
unfolding byte_crypto toy_crypto crypto_with
byte-IsSound = record {
  p256_reads = IsSound.p256_reads toy-IsSound;
  p384_reads = IsSound.p384_reads toy-IsSound;
  ed25519_reads = IsSound.ed25519_reads toy-IsSound;
  rsa_v1_5_reads = IsSound.rsa_v1_5_reads toy-IsSound;
  rsa_pss_reads = IsSound.rsa_pss_reads toy-IsSound;
  p256 = IsSound.p256 toy-IsSound;
  p384 = IsSound.p384 toy-IsSound;
  ed25519 = λ sk m r. refl;
  rsa_v1_5 = IsSound.rsa_v1_5 toy-IsSound;
  rsa_pss = IsSound.rsa_pss toy-IsSound;
}

unfoldable byte_key : SecretKey byte_crypto
unfolding byte_crypto toy_crypto crypto_with
byte_key = SecretKey.ed25519 (3 ∷ [])

abbrev signing_key : SigningKey
signing_key = secret_signing_key byte_crypto (λ m. m) byte_key

-- The parameters with the algorithm and the key id of the key.
abbrev info_params : HttpSignatureParams
info_params = record date_params { keyid = some "id"; alg = some "ed25519" }

filled : set_key_info signing_key date_params ≡ info_params
unfolding set_key_info secret_signing_key public_key_id public_alg public_key byte_key byte_crypto
    toy_crypto crypto_with alg_as_str
filled = refl

read_keyed : String → Parsed Dictionary
read_keyed s =
    if s == "sig=(\"date\");alg=\"ed25519\";keyid=\"id\""
    then parsed (("sig", own_input info_params) ∷ [])
    else if s == "sig=:BW==:"
    then parsed (("sig", own_bytes (7 ∷ [])) ∷ [])
    else failed "dictionary"

unfoldable keyed_sfv : Sfv
unfolding read_keyed write_item toy_sfv
keyed_sfv = record toy_sfv { parse_dictionary = read_keyed; serialize_item = write_item }

reads_ids : ReadsIds keyed_sfv (date_id ∷ [])
unfolding keyed_sfv id_to_string
reads_ids = record { written = (refl, tt); read = (refl, tt) }

reads_keyed : ReadsBack keyed_sfv encode (made_with "sig" info_params ∷ [])
unfolding keyed_sfv signature_header_value signature_input_header_value ◌<>◌ join
reads_keyed = record { inputs = refl; signatures = refl; ids = (reads_ids, tt) }

made_by_key :
    (msg : RequestOrResponse toy_http) (ss : List HttpSignatureHeaders)
    → AreMadeFor keyed_sfv msg none
        ((set_key_info signing_key date_params, signing_key, none) ∷ [])
        ss
    → ss ≡ made_with "sig" info_params ∷ []
unfolding secret_signing_key secret_sign byte_key byte_crypto toy_crypto crypto_with
made_by_key msg [] made = absurd made
made_by_key msg (s ∷ t ∷ ss) made = absurd made.1
made_by_key msg (s ∷ []) made =
    cc (made_lem s "sig" info_params made.0.3 (ok-injective made.0.2) (made.0.4 ∙ filled))

abbrev signed : Request toy_http
signed =
    (request_set_message_signature toy_http encode keyed_sfv (request_with dated)
      (set_key_info signing_key date_params) signing_key none).0

signing :
    request_set_message_signature toy_http encode keyed_sfv
      (request_with dated)
      (set_key_info signing_key date_params)
      signing_key
      none
    ≡ (signed, ok tt)
unfolding request_set_message_signature keyed_sfv secret_signing_key secret_sign byte_key
    byte_crypto toy_crypto crypto_with set_key_info
signing = refl

request_set_message_signature-key_info_example :
    (request_get_alg_key_ids keyed_sfv signed
      ≡ ok (
          (
            name_or_default none,
            (
              some (public_alg byte_crypto (public_key byte_crypto byte_key)),
              some (public_key_id byte_crypto (public_key byte_crypto byte_key)),
            ),
          )
          ∷ []))
    × (request_verify_message_signature keyed_sfv 5 signed
          (public_verifying_key byte_crypto (public_key byte_crypto byte_key))
          (some (public_key_id byte_crypto (public_key byte_crypto byte_key)))
        ≡ ok (name_or_default none))
unfolding to_ascii_lowercase
request_set_message_signature-key_info_example =
    request_set_message_signature-key_info keyed_sfv encode toy_http-IsLawful byte_crypto 5
      (request_with dated) signed date_params byte_key (λ m. m) none byte-IsSound tt
      date_IsWellFormed (inr (refl, refl), tt) refl refl
      (λ ss made.
        rw (made_by_key (RequestOrResponse.request (request_with dated)) ss made) reads_keyed)
      signing
