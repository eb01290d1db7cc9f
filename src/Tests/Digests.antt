-- ===== src/Tests/Digests.antt =====
-- Examples for content digests, with a digest that is the body itself.
use httpsig_rs.Base.{
  ◌≡◌, ◌≢◌, refl, ap, ◌∙◌, ◌↔◌, ℕ, zero, suc, ◌+◌, [], ◌∷◌, code, ◌==◌, nat_eq, ◌<>◌, drop_first,
  starts_with_char, ok, err, arith, if◌then◌else◌,
}
use httpsig_rs.Error.{HyperDigestError}
use httpsig_rs.Crypto.{Bytes}
use httpsig_rs.Http.{Request, Response}
use httpsig_rs.Sfv.{Sfv, Dictionary, Parsed, parsed}
use httpsig_rs.Digest.{
  ContentDigestType, DigestCrypto, digest_type_to_string, digest_header_value, derive_digest,
  extract_content_digest, request_set_content_digest, request_verify_content_digest,
  response_set_content_digest, response_verify_content_digest,
}
use httpsig_rs.Digest.Responses.{response_set_content_digest-verifies}
use httpsig_rs.Digest.Roundtrip.{
  ReadsDigest, request_set_content_digest-verifies, request_set_content_digest-tampered,
}
use httpsig_rs.Digest.Verified.{request_verify_content_digest_iff}
use httpsig_rs.Tests.Env.{
  toy_http, toy_http-IsLawful, toy_sfv, bytes_entry, dated, request_with, response_with,
}
use Prim.Native.String.{String, [], ◌∷◌}

-- A number as that many ones and a zero.
ones : ℕ → String → String
unfolding ◌<>◌
ones zero rest = "0" <> rest
ones (suc n) rest = "1" <> ones n rest

unfoldable pub encode_bytes : Bytes → String → String
unfolding ones
encode_bytes [] rest = rest
encode_bytes (n ∷ ns) rest = ones n (encode_bytes ns rest)

unfoldable pub decode_bytes : ℕ → String → Bytes
decode_bytes acc [] = []
decode_bytes acc (c ∷ s) =
    let more = decode_bytes (suc acc) s in
    let next = decode_bytes 0 s in
    if code c == b'1' then more else if code c == b'0' then acc ∷ next else []

decode-ones :
    (acc n : ℕ) (rest : String) → decode_bytes acc (ones n rest) ≡ (acc + n) ∷ decode_bytes 0 rest
unfolding ones decode_bytes
decode-ones acc zero rest = ap (λ m. m ∷ decode_bytes 0 rest) (omega arith)
decode-ones acc (suc n) rest =
    decode-ones (suc acc) n rest ∙ ap (λ m. m ∷ decode_bytes 0 rest) (omega arith)

zero_add : (n : ℕ) → 0 + n ≡ n
zero_add n = omega arith

pub decode-encode : (bytes : Bytes) → decode_bytes 0 (encode_bytes bytes ":") ≡ bytes
unfolding encode_bytes decode_bytes
decode-encode [] = refl
decode-encode (n ∷ ns) =
    decode-ones 0 n (encode_bytes ns ":")
    ∙ ap (λ m. m ∷ decode_bytes 0 (encode_bytes ns ":")) (zero_add n)
    ∙ ap (λ l. n ∷ l) (decode-encode ns)

unfoldable pub read_digest : String → Parsed Dictionary
unfolding decode_bytes digest_type_to_string starts_with_char
read_digest s = parsed (
    (
      digest_type_to_string (
          if starts_with_char b'2' (drop_first (drop_first (drop_first (drop_first s))))
          then ContentDigestType.sha256
          else ContentDigestType.sha512),
      bytes_entry (
          decode_bytes 0 (
            drop_first (
              drop_first (
                drop_first (
                  drop_first
                    (drop_first (drop_first (drop_first (drop_first (drop_first s)))))))))),
    )
    ∷ [])

unfoldable pub digest_sfv : Sfv
unfolding read_digest toy_sfv
digest_sfv = record toy_sfv { parse_dictionary = read_digest }

unfoldable pub digest_crypto : DigestCrypto
unfolding encode_bytes
digest_crypto = record { sha256 = λ b. b; sha512 = λ b. 7 ∷ b; encode = λ b. encode_bytes b "" }

pub encode-append : (bytes : Bytes) → encode_bytes bytes "" <> ":" ≡ encode_bytes bytes ":"
unfolding encode_bytes ◌<>◌
encode-append [] = refl
encode-append (n ∷ ns) = ones-append n (encode_bytes ns "") ∙ ap (ones n) (encode-append ns)
  where
    ones-append : (m : ℕ) (s : String) → ones m s <> ":" ≡ ones m (s <> ":")
    ones-append zero s = refl
    ones-append (suc m) s = ap (λ r. "1" <> r) (ones-append m s)

reads : ReadsDigest digest_crypto digest_sfv
unfolding digest_crypto digest_sfv digest_header_value digest_type_to_string ◌<>◌ starts_with_char
reads ContentDigestType.sha256 bytes = rw (encode-append bytes, decode-encode bytes) refl
reads ContentDigestType.sha512 bytes = rw (encode-append bytes, decode-encode bytes) refl

abbrev pub plain_request : Request toy_http
plain_request = request_with dated

-- The request with the digest set.
abbrev pub digested : Request toy_http
digested = record plain_request {
  headers = toy_http.insert dated "content-digest" "sha-512=:1111111010110:";
}

pub setting :
    request_set_content_digest digest_crypto digest_sfv toy_http plain_request
      ContentDigestType.sha512
    ≡ ok digested
unfolding request_set_content_digest digest_crypto
setting = refl

request_set_content_digest-verifies_example :
    (request_verify_content_digest digest_crypto digest_sfv toy_http digested ≡ ok digested)
    × (digested.body ≡ plain_request.body)
request_set_content_digest-verifies_example =
    request_set_content_digest-verifies digest_crypto digest_sfv toy_http toy_http-IsLawful reads
      plain_request digested ContentDigestType.sha512 setting

other_digest :
    derive_digest digest_crypto (1 ∷ []) ContentDigestType.sha512
    ≢ derive_digest digest_crypto (1 ∷ 2 ∷ []) ContentDigestType.sha512
unfolding derive_digest digest_crypto
other_digest e = cc

request_set_content_digest-tampered_example :
    request_verify_content_digest digest_crypto digest_sfv toy_http
      (record digested { body = parsed (1 ∷ []) })
    ≡ err (HyperDigestError.invalid_content_digest "Content-Digest verification failed")
request_set_content_digest-tampered_example =
    request_set_content_digest-tampered digest_crypto digest_sfv toy_http toy_http-IsLawful reads
      plain_request digested ContentDigestType.sha512 (1 ∷ 2 ∷ []) (1 ∷ []) setting refl
      other_digest

request_verify_content_digest_iff_example :
    (request_verify_content_digest digest_crypto digest_sfv toy_http plain_request
      ≡ ok plain_request)
    ↔ ((bytes : Bytes) × (plain_request.body ≡ parsed bytes)
        × ((t : ContentDigestType) × (extract_content_digest digest_crypto digest_sfv toy_http dated
              ≡ ok (t, derive_digest digest_crypto bytes t)))
        × (plain_request ≡ plain_request))
request_verify_content_digest_iff_example =
    request_verify_content_digest_iff digest_crypto digest_sfv toy_http plain_request plain_request

abbrev plain_response : Response toy_http
plain_response = response_with dated

abbrev digested_response : Response toy_http
digested_response = record plain_response {
  headers = toy_http.insert dated "content-digest" "sha-512=:1111111010110:";
}

response_setting :
    response_set_content_digest digest_crypto digest_sfv toy_http plain_response
      ContentDigestType.sha512
    ≡ ok digested_response
unfolding response_set_content_digest digest_crypto
response_setting = refl

response_set_content_digest-verifies_example :
    (response_verify_content_digest digest_crypto digest_sfv toy_http digested_response
      ≡ ok digested_response)
    × (digested_response.body ≡ plain_response.body)
    × (digested_response.status ≡ plain_response.status)
response_set_content_digest-verifies_example =
    response_set_content_digest-verifies digest_crypto digest_sfv toy_http toy_http-IsLawful reads
      plain_response digested_response ContentDigestType.sha512 response_setting
