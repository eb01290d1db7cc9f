-- ===== src/Tests/Targets.antt =====
-- Examples of request targets.
use httpsig_rs.Base.{◌≡◌, refl, ◌↔◌, ◌⊎◌, false, [], ◌∷◌, none, ok, ◌==◌, string_eq}
use httpsig_rs.Component.Name.{HttpMessageComponentName, DerivedComponentName}
use httpsig_rs.Component.Param.{HttpMessageComponentParam}
use httpsig_rs.Component.Id.{HttpMessageComponentId}
use httpsig_rs.Component.Value.{value_from_str}
use httpsig_rs.Http.{Request}
use httpsig_rs.Hyper.{RequestOrResponse}
use httpsig_rs.Hyper.Extract.{component_line}
use httpsig_rs.Hyper.Target.{target_id, target_line, path_and_query_text, component_line-target_iff}
use httpsig_rs.Tests.Env.{toy_http, toy_sfv, dated, request_with, toy_uri}

abbrev asking : Request toy_http
asking = record (request_with dated) { method = "OPTIONS" }

component_line-target_iff_example :
    (component_line toy_sfv (RequestOrResponse.request asking) none target_id
      ≡ ok (target_line (path_and_query_text toy_uri)))
    ↔ (((asking.method == "OPTIONS") ≡ false) ⊎ (path_and_query_text toy_uri ≡ "*"))
component_line-target_iff_example = component_line-target_iff toy_sfv asking refl

-- The path of the request is not signed.
asterisk :
    component_line toy_sfv (RequestOrResponse.request asking) none target_id ≡ ok (target_line "*")
unfolding component_line
asterisk = refl

-- A method of small letters is signed as one of capitals.
abbrev method_id : HttpMessageComponentId
method_id = record {
  name = HttpMessageComponentName.derived DerivedComponentName.method;
  params = [];
}

capitals :
    component_line toy_sfv
      (RequestOrResponse.request (record (request_with dated) { method = "get" }))
      none
      method_id
    ≡ ok (record { id = method_id; value = value_from_str "GET" })
unfolding component_line
capitals = refl

-- A query parameter that the query does not have is signed as an empty one.
abbrev param_id : HttpMessageComponentId
param_id = record {
  name = HttpMessageComponentName.derived DerivedComponentName.query_param;
  params = HttpMessageComponentParam.name "a" ∷ [];
}

absent :
    component_line toy_sfv (RequestOrResponse.request (request_with dated)) none param_id
    ≡ ok (record { id = param_id; value = value_from_str "" })
unfolding component_line
absent = refl
