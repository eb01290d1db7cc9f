-- ===== src/Tests/OneByte.antt =====
-- A parser and a key of one fixed signature, for the examples of signed messages.
use httpsig_rs.Base.{
  ◌≡◌, refl, sym, ◌∙◌, Bool, true, false, NoPanic, join, Option, String, List, [], ◌∷◌, some,
  Outcome, ok, err, ok-injective, ◌<>◌, starts_with_char, ◌==◌, string_eq, if◌then◌else◌,
}
use httpsig_rs.Error.{HttpSigError}
use httpsig_rs.Http.{Request}
use httpsig_rs.Sfv.{Sfv, BareItem, Item, ListEntry, Dictionary, Parsed, parsed, failed}
use httpsig_rs.Crypto.{AlgorithmName, Bytes, SigningKey, VerifyingKey}
use httpsig_rs.Component.Id.Laws.{IsValid}
use httpsig_rs.Component.Id.{id_beq, id_to_string}
use httpsig_rs.Component.Name.{derived_as_ref}
use httpsig_rs.Params.{HttpSignatureParams}
use httpsig_rs.Params.Written.{IsWellFormed, ReadsIds, params_field}
use httpsig_rs.Signature.{HttpSignatureHeaders, name_or_default}
use httpsig_rs.Signature.Headers.{signature_header_value, signature_input_header_value}
use httpsig_rs.Signature.Verify.{Accepts}
use httpsig_rs.Digest.{is_equal_digest}
use httpsig_rs.Digest.Verified.{is_equal_digest_iff}
use httpsig_rs.Hyper.{RequestOrResponse}
use httpsig_rs.Hyper.Sign.Made.{AreMadeFor}
use httpsig_rs.Hyper.Roundtrip.{ReadsBack}
use httpsig_rs.Tests.Env.{toy_http, toy_sfv}
use httpsig_rs.Tests.Messages.{date_id, date_params}
use httpsig_rs.Tests.Signing.{req_id, req_params}

-- Parameters with a key id.
abbrev pub with_key : String → HttpSignatureParams → HttpSignatureParams
with_key k p = record p { keyid = some k }

abbrev pub own_bytes : Bytes → ListEntry
own_bytes b = ListEntry.item (record { bare_item = BareItem.byte_sequence b; params = [] })

abbrev pub own_input : HttpSignatureParams → ListEntry
own_input p = ListEntry.inner_list (params_field p)

-- A parser that knows the header lines of the examples.
unfoldable pub read_headers : String → Parsed Dictionary
read_headers s =
    if s == "sig=(\"date\")"
    then parsed (("sig", own_input date_params) ∷ [])
    else if s == "sig=:BW==:"
    then parsed (("sig", own_bytes (7 ∷ [])) ∷ [])
    else if s == "sig=(\"date\");keyid=\"k1\", b=(\"date\");keyid=\"k2\""
    then parsed (
        ("sig", own_input (with_key "k1" date_params))
        ∷ ("b", own_input (with_key "k2" date_params))
        ∷ [])
    else if s == "sig=:BW==:, b=:BW==:"
    then parsed (("sig", own_bytes (7 ∷ [])) ∷ ("b", own_bytes (7 ∷ [])) ∷ [])
    else if s == "sig=(\"date\" \"@method\";req), b=(\"date\")"
    then parsed (("sig", own_input req_params) ∷ ("b", own_input date_params) ∷ [])
    else failed "dictionary"

unfoldable pub write_item : Item → String
write_item i = elim (i.bare_item) [
  | BareItem.string s ↦ if s == "date" then "\"date\"" else "\"@method\";req"
  | _ ↦ "other"
]

unfoldable pub signing_sfv : Sfv
unfolding read_headers write_item toy_sfv
signing_sfv = record toy_sfv { parse_dictionary = read_headers; serialize_item = write_item }

abbrev pub encode : Bytes → String
encode b = "BW=="

-- A key whose signature is one fixed byte.
abbrev pub one_byte : SigningKey
one_byte = record { sign = λ m. ok (7 ∷ []); key_id = "7"; alg = AlgorithmName.ed25519 }

check_byte : Bytes → Outcome HttpSigError (Unit {0})
unfolding is_equal_digest
check_byte s =
    if is_equal_digest s (7 ∷ []) then ok tt else err (HttpSigError.invalid_signature "7")

unfoldable pub byte_verifier : VerifyingKey
unfolding check_byte
byte_verifier = record { verify = λ m s. check_byte s; key_id = "7"; alg = AlgorithmName.ed25519 }

pub accepts : Accepts one_byte byte_verifier
unfolding byte_verifier
accepts message signature e =
    rw ((is_equal_digest_iff signature (7 ∷ [])).1 (sym (ok-injective e))) refl

pub steady : (message signature : Bytes) → NoPanic (byte_verifier.verify message signature)
unfolding byte_verifier check_byte
steady message signature = calm (is_equal_digest signature (7 ∷ []))
  where
    calm :
        (b : Bool)
        → NoPanic {E = HttpSigError} (if b then ok tt else err (HttpSigError.invalid_signature "7"))
    calm true = λ t p. cc
    calm false = λ t p. cc

-- What the signing key makes.
abbrev pub made_with : String → HttpSignatureParams → HttpSignatureHeaders
made_with n p = record { signature_name = n; signature = 7 ∷ []; signature_params = p }

pub made_lem :
    (s : HttpSignatureHeaders) (n : String) (p : HttpSignatureParams)
    → s.signature_name ≡ n
    → (7 ∷ []) ≡ s.signature
    → s.signature_params ≡ p
    → s ≡ made_with n p
made_lem s n p a b c = cc

date_IsValid : IsValid date_id
date_IsValid = record { allowed = tt; once = tt }

pub req_IsValid : IsValid req_id
req_IsValid = record { allowed = (tt, tt); once = (tt, tt) }

pub date_IsWellFormed : IsWellFormed date_params
unfolding starts_with_char
date_IsWellFormed = record { valid = (date_IsValid, tt); named = (refl, tt); distinct = (tt, tt) }

pub keyed_IsWellFormed : (k : String) → IsWellFormed (with_key k date_params)
unfolding starts_with_char
keyed_IsWellFormed k = record {
  valid = (date_IsValid, tt);
  named = (refl, tt);
  distinct = (tt, tt);
}

pub req_IsWellFormed : IsWellFormed req_params
unfolding id_beq starts_with_char
req_IsWellFormed = record {
  valid = (date_IsValid, (req_IsValid, tt));
  named = (refl, (tt, tt));
  distinct = ((refl, tt), (tt, tt));
}

pub reads_date : ReadsIds signing_sfv (date_id ∷ [])
unfolding signing_sfv id_to_string
reads_date = record { written = (refl, tt); read = (refl, tt) }

reads_req : ReadsIds signing_sfv (date_id ∷ req_id ∷ [])
unfolding signing_sfv id_to_string derived_as_ref
reads_req = record { written = (refl, (refl, tt)); read = (refl, (refl, tt)) }

pub reads_two :
    ReadsBack signing_sfv encode
      (made_with "sig" (with_key "k1" date_params) ∷ made_with "b" (with_key "k2" date_params) ∷ [])
unfolding signing_sfv signature_header_value signature_input_header_value ◌<>◌ join
reads_two = record { inputs = refl; signatures = refl; ids = (reads_date, (reads_date, tt)) }

pub reads_response :
    ReadsBack signing_sfv encode (made_with "sig" req_params ∷ made_with "b" date_params ∷ [])
unfolding signing_sfv signature_header_value signature_input_header_value ◌<>◌ join derived_as_ref
reads_response = record { inputs = refl; signatures = refl; ids = (reads_req, (reads_date, tt)) }

pub two_made :
    (m n : String) (p q : HttpSignatureParams) (msg : RequestOrResponse toy_http)
    (asked : Option (Request toy_http)) (a b : Option String) (ss : List HttpSignatureHeaders)
    → name_or_default a ≡ m
    → name_or_default b ≡ n
    → AreMadeFor signing_sfv msg asked ((p, one_byte, a) ∷ (q, one_byte, b) ∷ []) ss
    → ss ≡ made_with m p ∷ made_with n q ∷ []
two_made m n p q msg asked a b [] e f made = absurd made
two_made m n p q msg asked a b (s ∷ []) e f made = absurd made.1
two_made m n p q msg asked a b (s ∷ t ∷ u ∷ ss) e f made = absurd made.1.1
two_made m n p q msg asked a b (s ∷ t ∷ []) e f made = cc (
  made_lem s m p (made.0.3 ∙ e) (ok-injective made.0.2) made.0.4,
  made_lem t n q (made.1.0.3 ∙ f) (ok-injective made.1.0.2) made.1.0.4,
)

pub one_signature :
    (sfv : Sfv) (m : String) (p : HttpSignatureParams) (msg : RequestOrResponse toy_http)
    (asked : Option (Request toy_http)) (a : Option String) (ss : List HttpSignatureHeaders)
    → name_or_default a ≡ m
    → AreMadeFor sfv msg asked ((p, one_byte, a) ∷ []) ss
    → ss ≡ made_with m p ∷ []
one_signature sfv m p msg asked a [] e made = absurd made
one_signature sfv m p msg asked a (s ∷ t ∷ ss) e made = absurd made.1
one_signature sfv m p msg asked a (s ∷ []) e made =
    cc (made_lem s m p (made.0.3 ∙ e) (ok-injective made.0.2) made.0.4)
