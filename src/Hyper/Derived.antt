-- ===== src/Hyper/Derived.antt =====
-- httpsig-hyper/src/hyper_http.rs: the derived components of a message
use httpsig_rs.Base.{
  String, Bool, true, false, not, ◌&&◌, List, [], ◌∷◌, map, Option, none, some, ◌==◌, string_eq,
  ◌<>◌, contains, filter, split_on, pieces, Outcome, ok, err, ◌>>=◌, ◌>>◌, ensure, map_err,
  if◌then◌else◌,
}
use httpsig_rs.Error.{HyperSigError}
use httpsig_rs.Http.{Http, Uri}
use httpsig_rs.Sfv.{Sfv, Parsed, parsed, failed}
use httpsig_rs.Component.Name.{HttpMessageComponentName, DerivedComponentName, derived_beq}
use httpsig_rs.Component.Param.{
  HttpMessageComponentParam, HttpMessageComponentParams, param_eq, param_beq, param_to_string,
}
use httpsig_rs.Component.Id.{HttpMessageComponentId}
use httpsig_rs.Component.Build.{HttpMessageComponent, component_try_from}
use httpsig_rs.Hyper.{RequestOrResponse, method, uri, headers, status}

-- `contains(&HttpMessageComponentParam::Req)`
unfoldable pub has_req : HttpMessageComponentParams → Bool
unfolding param_beq
has_req params = contains params HttpMessageComponentParam.req

abbrev pub or_empty : Option String → String
or_empty none = ""
or_empty (some s) = s

abbrev pub text_or_empty : Parsed String → String
text_or_empty (parsed s) = s
text_or_empty (failed _) = ""

unfoldable pub request_target : String → Uri → String
request_target name u =
    if name == "CONNECT"
    then or_empty u.authority
    else if name == "OPTIONS"
    then "*"
    else or_empty u.path_and_query

abbrev query_text : Option String → String
query_text none = "?"
query_text (some v) = "?" <> v

-- `query.split('&').filter(|s| !s.is_empty())`
query_pieces : String → List String
unfolding split_on
query_pieces query = filter (λ s. not (s == "")) (pieces (split_on b'&' query))

module _ {h : Http} where
  abbrev pub is_request : RequestOrResponse h → Bool
  is_request (RequestOrResponse.request _) = true
  is_request (RequestOrResponse.response _) = false

  -- One round of the `try_for_each` over the parameters of a derived component.
  unfoldable pub check_param :
      RequestOrResponse h
      → DerivedComponentName
      → HttpMessageComponentParam
      → Outcome HyperSigError (Unit {0})
  unfolding derived_beq param_to_string ◌<>◌
  check_param m d (HttpMessageComponentParam.name _) =
      ensure (derived_beq d DerivedComponentName.query_param) (
        HyperSigError.invalid_component_param "`name` parameter is only allowed for `@query-param`")
  check_param m d HttpMessageComponentParam.req = ensure (is_request m) (
      HyperSigError.invalid_component_param
        "`req`-tagged component must be extracted from the source request")
  check_param m d param = err (
      HyperSigError.invalid_component_param
        ("parameter `" <> param_to_string param <> "` is not allowed on derived components"))

  unfoldable pub check_params :
      RequestOrResponse h
      → DerivedComponentName
      → List HttpMessageComponentParam
      → Outcome HyperSigError (Unit {0})
  unfolding check_param
  check_params m d [] = ok tt
  check_params m d (p ∷ ps) = check_param m d p >> check_params m d ps

  -- Which derived components a request and a response have.
  unfoldable pub check_message :
      RequestOrResponse h
      → DerivedComponentName
      → HttpMessageComponentParams
      → Outcome HyperSigError (Unit {0})
  unfolding derived_beq has_req
  check_message (RequestOrResponse.request _) d params =
      ensure (not (derived_beq d DerivedComponentName.status))
        (HyperSigError.invalid_component_name "`status` is only for response")
  check_message (RequestOrResponse.response _) d params = do
    ensure
        (not (
          not (derived_beq d DerivedComponentName.status)
          && not (derived_beq d DerivedComponentName.signature_params)
          && not (has_req params)))
        (HyperSigError.invalid_component_name
          "derived components other than `@status` and `@signature-params` require `req` parameter for response")
    ensure (not (derived_beq d DerivedComponentName.status && has_req params))
        (HyperSigError.invalid_component_param "`@status` does not accept `req` parameter")

  unfoldable pub derived_field_values :
      RequestOrResponse h → DerivedComponentName → Outcome HyperSigError (List String)
  unfolding method uri headers status request_target query_pieces ◌<>◌
  derived_field_values m DerivedComponentName.method = do name ← method m; ok (name ∷ [])
  derived_field_values m DerivedComponentName.target_uri = do u ← uri m; ok (Uri.text u ∷ [])
  derived_field_values m DerivedComponentName.authority = do
    u ← uri m
    ok (or_empty (Uri.authority u) ∷ [])
  derived_field_values m DerivedComponentName.scheme = do
    u ← uri m
    ok (or_empty (Uri.scheme_str u) ∷ [])
  derived_field_values m DerivedComponentName.request_target = do
    name ← method m
    u ← uri m
    ok (request_target name u ∷ [])
  derived_field_values m DerivedComponentName.path = do
    u ← uri m
    ok ((if Uri.path u == "" then "/" else Uri.path u) ∷ [])
  derived_field_values m DerivedComponentName.query = do
    u ← uri m
    ok (query_text (Uri.query u) ∷ [])
  derived_field_values m DerivedComponentName.query_param = do
    u ← uri m
    ok (query_pieces (or_empty (Uri.query u)))
  derived_field_values m DerivedComponentName.status = do code ← status m; ok (code ∷ [])
  derived_field_values m DerivedComponentName.signature_params =
      ok (map (λ v. text_or_empty (h.to_str v)) (h.get_all (headers m) "signature-input"))

  module _ (sfv : Sfv) where
    unfoldable pub extract_derived :
        RequestOrResponse h
        → HttpMessageComponentId
        → DerivedComponentName
        → Outcome HyperSigError HttpMessageComponent
    unfolding check_params check_message derived_field_values component_try_from
    extract_derived m id d = do
      check_params m d id.params
      check_message m d id.params
      field_values ← derived_field_values m d
      map_err HyperSigError.http_sig_error (component_try_from sfv id field_values)

    unfoldable pub extract_derived_component :
        RequestOrResponse h → HttpMessageComponentId → Outcome HyperSigError HttpMessageComponent
    unfolding extract_derived
    extract_derived_component m id = elim (id.name) [
      | HttpMessageComponentName.http_field _ ↦ err (
          HyperSigError.invalid_component_name
            "invalid http message component name as derived component")
      | HttpMessageComponentName.derived d ↦ extract_derived m id d
    ]
