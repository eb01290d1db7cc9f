-- ===== src/Hyper.antt =====
-- httpsig-hyper/src/hyper_http.rs: the components of a message and its signature base
pub mod Derived
pub mod Extract
pub mod Verify
pub mod Sign
pub mod Unsigned
pub mod Roundtrip
pub mod Body
pub mod Digested
pub mod Traits
pub mod Api
pub mod Listed
pub mod Keyed
pub mod Target
pub mod Instances
use httpsig_rs.Base.{String, Outcome, ok, err}
use httpsig_rs.Error.{HyperSigError}
use httpsig_rs.Http.{Http, Uri, Request, Response}

pub data RequestOrResponse (h : Http) : Type 0 where
  request : Request h → RequestOrResponse h
  response : Response h → RequestOrResponse h

module _ {h : Http} where
  unfoldable pub method : RequestOrResponse h → Outcome HyperSigError String
  method (RequestOrResponse.request req) = ok req.method
  method (RequestOrResponse.response _) =
      err (HyperSigError.invalid_component_name "`method` is only for request")

  unfoldable pub uri : RequestOrResponse h → Outcome HyperSigError Uri
  uri (RequestOrResponse.request req) = ok req.uri
  uri (RequestOrResponse.response _) =
      err (HyperSigError.invalid_component_name "`uri` is only for request")

  unfoldable pub headers : RequestOrResponse h → h.HeaderMap
  headers (RequestOrResponse.request req) = req.headers
  headers (RequestOrResponse.response res) = res.headers

  unfoldable pub status : RequestOrResponse h → Outcome HyperSigError String
  status (RequestOrResponse.response res) = ok res.status
  status (RequestOrResponse.request _) =
      err (HyperSigError.invalid_component_name "`status` is only for response")
