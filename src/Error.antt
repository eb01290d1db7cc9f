-- ===== src/Error.antt =====
-- The error types of httpsig/src/error.rs and httpsig-hyper/src/error.rs.
use httpsig_rs.Base.{String}

pub data HttpSigError : Type 0 where
  base64_decode_error : String → HttpSigError
  parse_private_key_error : String → HttpSigError
  parse_public_key_error : String → HttpSigError
  parse_signature_error : String → HttpSigError
  invalid_signature : String → HttpSigError
  parse_sfv_error : String → HttpSigError
  invalid_component_name : String → HttpSigError
  invalid_component_param : String → HttpSigError
  invalid_component_id : String → HttpSigError
  invalid_component : String → HttpSigError
  invalid_signature_params : String → HttpSigError
  build_signature_header_error : String → HttpSigError
  build_signature_base_error : String → HttpSigError
  expired_signature_params : String → HttpSigError
  invalid_algorithm_name : String → HttpSigError
  not_yet_implemented : String → HttpSigError

-- The texts of the errors of the `http` crate stand for those errors.
pub data HyperSigError : Type 0 where
  no_signature_headers : String → HyperSigError
  failed_to_str_signature_headers : String → HyperSigError
  invalid_header_value : String → HyperSigError
  invalid_component_name : String → HyperSigError
  invalid_component_param : String → HyperSigError
  invalid_signature : String → HyperSigError
  http_sig_error : HttpSigError → HyperSigError

pub data HyperDigestError : Type 0 where
  http_body_error : String → HyperDigestError
  no_digest_header : String → HyperDigestError
  invalid_header_value : String → HyperDigestError
  failed_to_str_digest_header : String → HyperDigestError
  invalid_content_digest : String → HyperDigestError
  invalid_content_digest_type : String → HyperDigestError
