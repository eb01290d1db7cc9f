-- ===== src/Hyper/Instances.antt =====
-- The implementations of the traits of hyper_http.rs and hyper_content_digest.rs for requests and
-- responses: which function is which method.
use httpsig_rs.Base.{String}
use httpsig_rs.Http.{Http, Request, Response}
use httpsig_rs.Sfv.{Sfv}
use httpsig_rs.Crypto.{Bytes}
use httpsig_rs.Digest.{
  DigestCrypto, request_set_content_digest, request_verify_content_digest,
  response_set_content_digest, response_verify_content_digest,
}
use httpsig_rs.Hyper.Sign.{
  request_set_message_signature, request_set_message_signatures, response_set_message_signature,
  response_set_message_signatures,
}
use httpsig_rs.Hyper.Verify.{
  request_verify_message_signature, request_verify_message_signatures,
  response_verify_message_signature, response_verify_message_signatures,
}
use httpsig_rs.Hyper.Api
use httpsig_rs.Hyper.Traits.{
  MessageSignature, MessageSignatureReq, MessageSignatureRes, MessageSignatureReqSync,
  MessageSignatureResSync, RequestContentDigest, ResponseContentDigest,
}

module _ (h : Http) (encode : Bytes → String) (sfv : Sfv) where
  abbrev pub request_message_signature : MessageSignature (Request h)
  request_message_signature = record {
    has_message_signature = Api.request_has_message_signature sfv;
    get_alg_key_ids = Api.request_get_alg_key_ids sfv;
    get_signature_params = Api.request_get_signature_params sfv;
  }

  abbrev pub response_message_signature : MessageSignature (Response h)
  response_message_signature = record {
    has_message_signature = Api.response_has_message_signature sfv;
    get_alg_key_ids = Api.response_get_alg_key_ids sfv;
    get_signature_params = Api.response_get_signature_params sfv;
  }

  abbrev pub message_signature_req : MessageSignatureReq (Request h)
  message_signature_req = record {
    set_message_signature = request_set_message_signature h encode sfv;
    set_message_signatures = request_set_message_signatures h encode sfv;
    verify_message_signature = request_verify_message_signature sfv;
    verify_message_signatures = request_verify_message_signatures sfv;
    extract_signatures = Api.request_extract_signatures sfv;
  }

  abbrev pub message_signature_res : MessageSignatureRes (Response h) (Request h)
  message_signature_res = record {
    set_message_signature = response_set_message_signature h encode sfv;
    set_message_signatures = response_set_message_signatures h encode sfv;
    verify_message_signature = response_verify_message_signature sfv;
    verify_message_signatures = response_verify_message_signatures sfv;
    extract_signatures = Api.response_extract_signatures sfv;
  }

  abbrev pub message_signature_req_sync : MessageSignatureReqSync (Request h)
  message_signature_req_sync = record {
    set_message_signature_sync = Api.request_set_message_signature_sync h encode sfv;
    set_message_signatures_sync = Api.request_set_message_signatures_sync h encode sfv;
    verify_message_signature_sync = Api.request_verify_message_signature_sync sfv;
    verify_message_signatures_sync = Api.request_verify_message_signatures_sync sfv;
  }

  abbrev pub message_signature_res_sync : MessageSignatureResSync (Response h) (Request h)
  message_signature_res_sync = record {
    set_message_signature_sync = Api.response_set_message_signature_sync h encode sfv;
    set_message_signatures_sync = Api.response_set_message_signatures_sync h encode sfv;
    verify_message_signature_sync = Api.response_verify_message_signature_sync sfv;
    verify_message_signatures_sync = Api.response_verify_message_signatures_sync sfv;
  }

  module _ (c : DigestCrypto) where
    abbrev pub request_content_digest : RequestContentDigest (Request h)
    request_content_digest = record {
      set_content_digest = request_set_content_digest c sfv h;
      verify_content_digest = request_verify_content_digest c sfv h;
    }

    abbrev pub response_content_digest : ResponseContentDigest (Response h)
    response_content_digest = record {
      set_content_digest = response_set_content_digest c sfv h;
      verify_content_digest = response_verify_content_digest c sfv h;
    }
