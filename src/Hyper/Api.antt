-- ===== src/Hyper/Api.antt =====
-- httpsig-hyper/src/hyper_http.rs: the other methods of the traits, and the blocking ones
use httpsig_rs.Base.{String, ℕ, Bool, List, Option, none, Outcome}
use httpsig_rs.Error.{HyperSigError}
use httpsig_rs.Http.{Http, Request, Response}
use httpsig_rs.Sfv.{Sfv}
use httpsig_rs.Crypto.{AlgorithmName, Bytes, SigningKey, VerifyingKey}
use httpsig_rs.Params.{HttpSignatureParams}
use httpsig_rs.Hyper.{RequestOrResponse}
use httpsig_rs.Hyper.Sign.{
  ParamsKeyName, request_set_message_signature, request_set_message_signatures,
  response_set_message_signature, response_set_message_signatures,
}
use httpsig_rs.Hyper.Verify.{
  SignatureMap, has_message_signature_inner, get_alg_key_ids_inner, get_signature_params_inner,
  extract_signatures_inner, request_verify_message_signature, request_verify_message_signatures,
  response_verify_message_signature, response_verify_message_signatures,
}

module _ {h : Http} (sfv : Sfv) where
  unfoldable pub request_has_message_signature : Request h → Bool
  unfolding has_message_signature_inner
  request_has_message_signature req = has_message_signature_inner h req.headers

  unfoldable pub response_has_message_signature : Response h → Bool
  unfolding has_message_signature_inner
  response_has_message_signature res = has_message_signature_inner h res.headers

  unfoldable pub request_get_alg_key_ids :
      Request h → Outcome HyperSigError (List (String × (Option AlgorithmName × Option String)))
  unfolding get_alg_key_ids_inner
  request_get_alg_key_ids req = get_alg_key_ids_inner sfv (RequestOrResponse.request req)

  unfoldable pub response_get_alg_key_ids :
      Response h → Outcome HyperSigError (List (String × (Option AlgorithmName × Option String)))
  unfolding get_alg_key_ids_inner
  response_get_alg_key_ids res = get_alg_key_ids_inner sfv (RequestOrResponse.response res)

  unfoldable pub request_get_signature_params :
      Request h → Outcome HyperSigError (List (String × HttpSignatureParams))
  unfolding get_signature_params_inner
  request_get_signature_params req = get_signature_params_inner sfv (RequestOrResponse.request req)

  unfoldable pub response_get_signature_params :
      Response h → Outcome HyperSigError (List (String × HttpSignatureParams))
  unfolding get_signature_params_inner
  response_get_signature_params res =
      get_signature_params_inner sfv (RequestOrResponse.response res)

  unfoldable pub request_extract_signatures : Request h → Outcome HyperSigError SignatureMap
  unfolding extract_signatures_inner
  request_extract_signatures req = extract_signatures_inner sfv (RequestOrResponse.request req) none

  unfoldable pub response_extract_signatures :
      Response h → Option (Request h) → Outcome HyperSigError SignatureMap
  unfolding extract_signatures_inner
  response_extract_signatures res = extract_signatures_inner sfv (RequestOrResponse.response res)

-- `block_on` runs a future to its end, and what a future returns is what the model computes.
module _ (h : Http) (encode : Bytes → String) (sfv : Sfv) where
  unfoldable pub request_set_message_signature_sync :
      Request h
      → HttpSignatureParams
      → SigningKey
      → Option String
      → Request h × Outcome HyperSigError (Unit {0})
  unfolding request_set_message_signature
  request_set_message_signature_sync = request_set_message_signature h encode sfv

  unfoldable pub request_set_message_signatures_sync :
      Request h → List ParamsKeyName → Request h × Outcome HyperSigError (Unit {0})
  unfolding request_set_message_signatures
  request_set_message_signatures_sync = request_set_message_signatures h encode sfv

  unfoldable pub response_set_message_signature_sync :
      Response h
      → HttpSignatureParams
      → SigningKey
      → Option String
      → Option (Request h)
      → Response h × Outcome HyperSigError (Unit {0})
  unfolding response_set_message_signature
  response_set_message_signature_sync = response_set_message_signature h encode sfv

  unfoldable pub response_set_message_signatures_sync :
      Response h
      → List ParamsKeyName
      → Option (Request h)
      → Response h × Outcome HyperSigError (Unit {0})
  unfolding response_set_message_signatures
  response_set_message_signatures_sync = response_set_message_signatures h encode sfv

module _ {h : Http} (sfv : Sfv) where
  unfoldable pub request_verify_message_signature_sync :
      ℕ → Request h → VerifyingKey → Option String → Outcome HyperSigError String
  unfolding request_verify_message_signature
  request_verify_message_signature_sync = request_verify_message_signature sfv

  unfoldable pub request_verify_message_signatures_sync :
      ℕ
      → Request h
      → List (VerifyingKey × Option String)
      → Outcome HyperSigError (List (Outcome HyperSigError String))
  unfolding request_verify_message_signatures
  request_verify_message_signatures_sync = request_verify_message_signatures sfv

  unfoldable pub response_verify_message_signature_sync :
      ℕ
      → Response h
      → VerifyingKey
      → Option String
      → Option (Request h)
      → Outcome HyperSigError String
  unfolding response_verify_message_signature
  response_verify_message_signature_sync = response_verify_message_signature sfv

  unfoldable pub response_verify_message_signatures_sync :
      ℕ
      → Response h
      → List (VerifyingKey × Option String)
      → Option (Request h)
      → Outcome HyperSigError (List (Outcome HyperSigError String))
  unfolding response_verify_message_signatures
  response_verify_message_signatures_sync = response_verify_message_signatures sfv
