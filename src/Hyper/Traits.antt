-- ===== src/Hyper/Traits.antt =====
-- The traits of httpsig-hyper/src/hyper_http.rs and hyper_content_digest.rs: what each promises of a
-- type of messages, with the type as a parameter. A method that changes its receiver returns it, and
-- one that reads the clock takes the time.
use httpsig_rs.Base.{String, ℕ, Bool, List, Option, Outcome}
use httpsig_rs.Error.{HyperSigError, HyperDigestError}
use httpsig_rs.Crypto.{AlgorithmName, VerifyingKey, SigningKey}
use httpsig_rs.Params.{HttpSignatureParams}
use httpsig_rs.Digest.{ContentDigestType}
use httpsig_rs.Hyper.Sign.{ParamsKeyName}
use httpsig_rs.Hyper.Verify.{SignatureMap}

pub record MessageSignature (Self : Type 0) : Type 0 where
  pub has_message_signature : Self → Bool
  pub get_alg_key_ids :
      Self → Outcome HyperSigError (List (String × (Option AlgorithmName × Option String)))
  pub get_signature_params : Self → Outcome HyperSigError (List (String × HttpSignatureParams))

pub record MessageSignatureReq (Self : Type 0) : Type 0 where
  pub set_message_signature :
      Self
      → HttpSignatureParams
      → SigningKey
      → Option String
      → Self × Outcome HyperSigError (Unit {0})
  pub set_message_signatures : Self → List ParamsKeyName → Self × Outcome HyperSigError (Unit {0})
  pub verify_message_signature :
      ℕ → Self → VerifyingKey → Option String → Outcome HyperSigError String
  pub verify_message_signatures :
      ℕ
      → Self
      → List (VerifyingKey × Option String)
      → Outcome HyperSigError (List (Outcome HyperSigError String))
  pub extract_signatures : Self → Outcome HyperSigError SignatureMap

-- `Req` is the type of the requests that a response answers.
pub record MessageSignatureRes (Self Req : Type 0) : Type 0 where
  pub set_message_signature :
      Self
      → HttpSignatureParams
      → SigningKey
      → Option String
      → Option Req
      → Self × Outcome HyperSigError (Unit {0})
  pub set_message_signatures :
      Self → List ParamsKeyName → Option Req → Self × Outcome HyperSigError (Unit {0})
  pub verify_message_signature :
      ℕ → Self → VerifyingKey → Option String → Option Req → Outcome HyperSigError String
  pub verify_message_signatures :
      ℕ
      → Self
      → List (VerifyingKey × Option String)
      → Option Req
      → Outcome HyperSigError (List (Outcome HyperSigError String))
  pub extract_signatures : Self → Option Req → Outcome HyperSigError SignatureMap

-- The blocking counterparts.
pub record MessageSignatureReqSync (Self : Type 0) : Type 0 where
  pub set_message_signature_sync :
      Self
      → HttpSignatureParams
      → SigningKey
      → Option String
      → Self × Outcome HyperSigError (Unit {0})
  pub set_message_signatures_sync :
      Self → List ParamsKeyName → Self × Outcome HyperSigError (Unit {0})
  pub verify_message_signature_sync :
      ℕ → Self → VerifyingKey → Option String → Outcome HyperSigError String
  pub verify_message_signatures_sync :
      ℕ
      → Self
      → List (VerifyingKey × Option String)
      → Outcome HyperSigError (List (Outcome HyperSigError String))

pub record MessageSignatureResSync (Self Req : Type 0) : Type 0 where
  pub set_message_signature_sync :
      Self
      → HttpSignatureParams
      → SigningKey
      → Option String
      → Option Req
      → Self × Outcome HyperSigError (Unit {0})
  pub set_message_signatures_sync :
      Self → List ParamsKeyName → Option Req → Self × Outcome HyperSigError (Unit {0})
  pub verify_message_signature_sync :
      ℕ → Self → VerifyingKey → Option String → Option Req → Outcome HyperSigError String
  pub verify_message_signatures_sync :
      ℕ
      → Self
      → List (VerifyingKey × Option String)
      → Option Req
      → Outcome HyperSigError (List (Outcome HyperSigError String))

pub record RequestContentDigest (Self : Type 0) : Type 0 where
  pub set_content_digest : Self → ContentDigestType → Outcome HyperDigestError Self
  pub verify_content_digest : Self → Outcome HyperDigestError Self

pub record ResponseContentDigest (Self : Type 0) : Type 0 where
  pub set_content_digest : Self → ContentDigestType → Outcome HyperDigestError Self
  pub verify_content_digest : Self → Outcome HyperDigestError Self
