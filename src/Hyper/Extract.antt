-- ===== src/Hyper/Extract.antt =====
-- httpsig-hyper/src/hyper_http.rs: component values taken from a message, and the signature base
pub mod Total
pub mod Checks
use httpsig_rs.Base.{
  unwrap, is_some, String, not, Option, none, some, string_eq, Outcome, err, ◌>>=◌, ◌>>◌, ensure,
  map_err, traverse, if◌then◌else◌,
}
use httpsig_rs.Error.{HyperSigError}
use httpsig_rs.Http.{Http, Request}
use httpsig_rs.Sfv.{Sfv, or_error}
use httpsig_rs.Component.Name.{HttpMessageComponentName}
use httpsig_rs.Component.Param.{param_eq}
use httpsig_rs.Component.Id.{HttpMessageComponentId}
use httpsig_rs.Component.Build.{HttpMessageComponent, component_try_from}
use httpsig_rs.Params.{HttpSignatureParams}
use httpsig_rs.Signature.{HttpSignatureBase, base_try_new}
use httpsig_rs.Hyper.{RequestOrResponse, headers}
use httpsig_rs.Hyper.Derived.{is_request, has_req, extract_derived_component}

module _ {h : Http} (sfv : Sfv) where
  unfoldable pub extract_field :
      RequestOrResponse h
      → HttpMessageComponentId
      → String
      → Outcome HyperSigError HttpMessageComponent
  unfolding headers component_try_from
  extract_field m id header_name = do
    field_values ←
        traverse (λ v. or_error HyperSigError.failed_to_str_signature_headers (h.to_str v))
          (h.get_all (headers m) header_name)
    map_err HyperSigError.http_sig_error (component_try_from sfv id field_values)

  unfoldable pub extract_http_field :
      RequestOrResponse h → HttpMessageComponentId → Outcome HyperSigError HttpMessageComponent
  unfolding extract_field
  extract_http_field m id = elim (id.name) [
    | HttpMessageComponentName.http_field header_name ↦ extract_field m id header_name
    | HttpMessageComponentName.derived _ ↦
        err
          (HyperSigError.invalid_component_name "invalid http message component name as http field")
  ]

  unfoldable pub extract_http_message_component :
      RequestOrResponse h → HttpMessageComponentId → Outcome HyperSigError HttpMessageComponent
  unfolding extract_http_field extract_derived_component
  extract_http_message_component m id = elim (id.name) [
    | HttpMessageComponentName.http_field _ ↦ extract_http_field m id
    | HttpMessageComponentName.derived _ ↦ extract_derived_component sfv m id
  ]

  from_source_request :
      Option (Request h) → HttpMessageComponentId → Outcome HyperSigError HttpMessageComponent
  unfolding extract_http_message_component
  from_source_request req_for_param id = do
    ensure (is_some req_for_param)
        (HyperSigError.invalid_component_param "`req` is required for the param")
    req ← unwrap req_for_param
    extract_http_message_component (RequestOrResponse.request req) id

  -- One line of the signature base: a component with `req` comes from the source request.
  unfoldable pub component_line :
      RequestOrResponse h
      → Option (Request h)
      → HttpMessageComponentId
      → Outcome HyperSigError HttpMessageComponent
  unfolding has_req from_source_request extract_http_message_component
  component_line m req_for_param id =
      if has_req id.params
      then (do
        ensure (not (is_request m))
            (HyperSigError.invalid_component_param "`req` is not allowed in request")
        from_source_request req_for_param id)
      else extract_http_message_component m id

  unfoldable pub build_signature_base :
      RequestOrResponse h
      → HttpSignatureParams
      → Option (Request h)
      → Outcome HyperSigError HttpSignatureBase
  unfolding component_line base_try_new
  build_signature_base m signature_params req_for_param = do
    component_lines ← traverse (component_line m req_for_param) signature_params.covered_components
    map_err HyperSigError.http_sig_error (base_try_new component_lines signature_params)
