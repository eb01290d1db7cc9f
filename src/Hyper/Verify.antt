-- ===== src/Hyper/Verify.antt =====
-- httpsig-hyper/src/hyper_http.rs: reading and verifying the signatures of a message
pub mod Sound
pub mod Accepted
pub mod Complete
pub mod KeyId
pub mod Verdict
pub mod Verdicts
use httpsig_rs.Base.{
  ℕ, String, Bool, true, not, ◌&&◌, List, [], ◌∷◌, Option, none, some, string_eq, option_beq,
  is_empty, filter, first, last, join, map, collect_map, collect_set, Outcome, ok, err, panic,
  ◌>>=◌, ◌>>◌, ensure, map_err, map_ok, filter_ok, traverse, join_all,
}
use httpsig_rs.Error.{HyperSigError}
use httpsig_rs.Http.{Http, Request, Response}
use httpsig_rs.Sfv.{Sfv, or_error}
use httpsig_rs.Crypto.{AlgorithmName, alg_from_str, VerifyingKey}
use httpsig_rs.Params.{HttpSignatureParams}
use httpsig_rs.Signature.{
  HttpSignatureBase, HttpSignatureHeaders, base_keyid, verify_signature_headers,
}
use httpsig_rs.Signature.Headers.{HttpSignatureHeadersMap, headers_try_parse}
use httpsig_rs.Hyper.{RequestOrResponse, headers}
use httpsig_rs.Hyper.Extract.{build_signature_base}

-- An `IndexMap` from signature names.
abbrev pub SignatureMap : Type 0
SignatureMap = List (String × (HttpSignatureBase × HttpSignatureHeaders))

-- `AlgorithmName::from_str(&a)` with `.transpose().ok().flatten()`
unfoldable pub known_alg : Option String → Option AlgorithmName
unfolding alg_from_str
known_alg none = none
known_alg (some a) = elim (alg_from_str a) [ ok alg ↦ some alg | err _ ↦ none | panic _ ↦ none ]

-- The key id that the caller asks for, if any.
unfoldable pub has_keyid : Option String → HttpSignatureBase → Bool
unfolding base_keyid
has_keyid none base = true
has_keyid (some key_id) base = option_beq (base_keyid base) (some key_id)

unfoldable pub candidates : SignatureMap → Option String → SignatureMap
unfolding has_keyid
candidates m key_id = filter (λ e. has_keyid key_id e.1.0) m

-- The names whose signature the key verifies.
unfoldable pub successful_names :
    ℕ → VerifyingKey → SignatureMap → Outcome HyperSigError (List String)
unfolding verify_signature_headers
successful_names now key m =
    filter_ok (λ e. map_ok (λ _. e.0) (verify_signature_headers now e.1.0 key e.1.1)) m

unfoldable pub first_or_invalid : List String → Outcome HyperSigError String
first_or_invalid names = elim (first (collect_set [] names)) [
  | some name ↦ ok name
  | none ↦ err (HyperSigError.invalid_signature "Invalid signature for the verifying key")
]

-- The task of one key.
unfoldable pub verify_one :
    ℕ → SignatureMap → VerifyingKey × Option String → Outcome HyperSigError String
unfolding candidates successful_names first_or_invalid
verify_one now m (key, key_id) = do
  ensure (not (is_empty (candidates m key_id)))
      (HyperSigError.no_signature_headers "No signature as appropriate target for verification")
  names ← successful_names now key (candidates m key_id)
  first_or_invalid names

-- `join_all` returns the results in the order of the keys.
unfoldable pub verify_message_signatures_inner :
    ℕ
    → SignatureMap
    → List (VerifyingKey × Option String)
    → Outcome HyperSigError (List (Outcome HyperSigError String))
unfolding verify_one
verify_message_signatures_inner now m key_and_id = join_all (map (verify_one now m) key_and_id)

-- `.pop().unwrap()`
pop_result : List (Outcome HyperSigError String) → Outcome HyperSigError String
pop_result results = elim (last results) [
  | none ↦ panic "called `Option::unwrap()` on a `None` value"
  | some r ↦ r
]

module _ (h : Http) where
  unfoldable pub has_message_signature_inner : h.HeaderMap → Bool
  has_message_signature_inner m = h.contains_key m "signature" && h.contains_key m "signature-input"

  -- All values of a header, joined.
  unfoldable pub header_strings : h.HeaderMap → String → Outcome HyperSigError String
  unfolding join
  header_strings m k = map_ok (join ", ") (
      traverse (λ v. or_error HyperSigError.failed_to_str_signature_headers (h.to_str v))
        (h.get_all m k))

module _ {h : Http} (sfv : Sfv) where
  unfoldable pub extract_signature_headers_with_name :
      RequestOrResponse h → Outcome HyperSigError HttpSignatureHeadersMap
  unfolding headers header_strings headers_try_parse
  extract_signature_headers_with_name m = do
    ensure (h.contains_key (headers m) "signature-input" && h.contains_key (headers m) "signature")
        (HyperSigError.no_signature_headers
          "The request does not have signature and signature-input headers")
    signature_input_strings ← header_strings h (headers m) "signature-input"
    signature_strings ← header_strings h (headers m) "signature"
    map_err HyperSigError.http_sig_error
        (headers_try_parse sfv signature_strings signature_input_strings)

  unfoldable pub get_alg_key_ids_inner :
      RequestOrResponse h
      → Outcome HyperSigError (List (String × (Option AlgorithmName × Option String)))
  unfolding extract_signature_headers_with_name known_alg
  get_alg_key_ids_inner m = do
    signature_headers_map ← extract_signature_headers_with_name m
    ok (
        collect_map [] (
          map (λ e. (e.0, (known_alg e.1.signature_params.alg, e.1.signature_params.keyid)))
            signature_headers_map))

  unfoldable pub get_signature_params_inner :
      RequestOrResponse h → Outcome HyperSigError (List (String × HttpSignatureParams))
  unfolding extract_signature_headers_with_name
  get_signature_params_inner m = do
    signature_headers_map ← extract_signature_headers_with_name m
    ok (collect_map [] (map (λ e. (e.0, e.1.signature_params)) signature_headers_map))

  -- One entry of the map: a signature whose base cannot be built is left out.
  unfoldable pub signature_entry :
      RequestOrResponse h
      → Option (Request h)
      → String × HttpSignatureHeaders
      → Outcome HyperSigError (String × (HttpSignatureBase × HttpSignatureHeaders))
  unfolding build_signature_base
  signature_entry m req_for_param (name, headers) =
      map_ok (λ base. (name, (base, headers)))
        (build_signature_base sfv m headers.signature_params req_for_param)

  unfoldable pub extract_signatures_inner :
      RequestOrResponse h → Option (Request h) → Outcome HyperSigError SignatureMap
  unfolding extract_signature_headers_with_name signature_entry
  extract_signatures_inner m req_for_param = do
    signature_headers_map ← extract_signature_headers_with_name m
    extracted ← filter_ok (signature_entry m req_for_param) signature_headers_map
    ok (collect_map [] extracted)

  -- `verify_message_signatures` of both kinds of message; the text is that of the first error.
  verify_signatures :
      String
      → ℕ
      → RequestOrResponse h
      → Option (Request h)
      → List (VerifyingKey × Option String)
      → Outcome HyperSigError (List (Outcome HyperSigError String))
  unfolding has_message_signature_inner extract_signatures_inner verify_message_signatures_inner
      headers
  verify_signatures missing now m req_for_param key_and_id = do
    ensure (has_message_signature_inner h (headers m)) (HyperSigError.no_signature_headers missing)
    map_signature_with_base ← extract_signatures_inner m req_for_param
    verify_message_signatures_inner now map_signature_with_base key_and_id

  unfoldable pub request_verify_message_signatures :
      ℕ
      → Request h
      → List (VerifyingKey × Option String)
      → Outcome HyperSigError (List (Outcome HyperSigError String))
  unfolding verify_signatures
  request_verify_message_signatures now req =
      verify_signatures "The request does not have signature and signature-input headers" now
        (RequestOrResponse.request req) none

  unfoldable pub response_verify_message_signatures :
      ℕ
      → Response h
      → List (VerifyingKey × Option String)
      → Option (Request h)
      → Outcome HyperSigError (List (Outcome HyperSigError String))
  unfolding verify_signatures
  response_verify_message_signatures now res key_and_id req_for_param =
      verify_signatures "The response does not have signature and signature-input headers" now
        (RequestOrResponse.response res) req_for_param key_and_id

  unfoldable pub request_verify_message_signature :
      ℕ → Request h → VerifyingKey → Option String → Outcome HyperSigError String
  unfolding request_verify_message_signatures pop_result
  request_verify_message_signature now req verifying_key key_id =
      request_verify_message_signatures now req ((verifying_key, key_id) ∷ []) >>= pop_result

  unfoldable pub response_verify_message_signature :
      ℕ
      → Response h
      → VerifyingKey
      → Option String
      → Option (Request h)
      → Outcome HyperSigError String
  unfolding response_verify_message_signatures pop_result
  response_verify_message_signature now res verifying_key key_id req_for_param =
      response_verify_message_signatures now res ((verifying_key, key_id) ∷ []) req_for_param
      >>= pop_result
