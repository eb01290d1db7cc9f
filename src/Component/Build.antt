-- ===== src/Component/Build.antt =====
-- httpsig/src/message_component/component.rs
pub mod Laws
pub mod Written
use httpsig_rs.Base.{
  String, Bool, true, false, ◌&&◌, ◌||◌, List, [], ◌∷◌, Option, none, some, Outcome, ok, err, ◌>>=◌,
  ◌>>◌, ensure, ◌<>◌, ◌==◌, string_eq, trim, split_once, join, starts_with_char, ends_with_char,
  contains_str, drop_first, all, find_map, filter, map, traverse, not, is_empty, is_some, unwrap,
  index_zero, contains_char, to_ascii_uppercase, to_ascii_lowercase, if◌then◌else◌,
}
use httpsig_rs.Error.{HttpSigError}
use httpsig_rs.Sfv.{Sfv}
use httpsig_rs.Component.Name.{HttpMessageComponentName, DerivedComponentName}
use httpsig_rs.Component.Param.{
  HttpMessageComponentParam, HttpMessageComponentParams, handle_params_sf, handle_params_key_into,
}
use httpsig_rs.Component.Id.{HttpMessageComponentId, id_try_from, id_to_string, is_name_param}
use httpsig_rs.Component.Value.{
  HttpMessageComponentValue, value_from_str, value_from_pair, value_to_string,
}

pub record HttpMessageComponent : Type 0 where
  pub id : HttpMessageComponentId
  pub value : HttpMessageComponentValue

-- The test on the text in front of the first colon.
unfoldable pub is_wrapped : String → Bool
unfolding starts_with_char ends_with_char contains_str
is_wrapped id =
    starts_with_char b'"' id && (ends_with_char b'"' id || contains_str "\";" (drop_first id))

with_value : String → HttpMessageComponentId → HttpMessageComponent
with_value value id = record { id = id; value = value_from_str (trim value) }

-- `TryFrom<&str>`
unfoldable pub component_try_from_str : Sfv → String → Outcome HttpSigError HttpMessageComponent
unfolding split_once trim is_wrapped with_value
component_try_from_str sfv val = elim (split_once b':' val) [
  | none ↦ err (HttpSigError.invalid_component ("Invalid http message component: " <> val))
  | some (before, value) ↦ do
    let id = trim before
    ensure (is_wrapped id)
        (HttpSigError.invalid_component_id ("Invalid http message component id: " <> id))
    parsed_id ← id_try_from sfv id
    ok (with_value value parsed_id)
]

unfoldable pub component_to_string : HttpMessageComponent → String
unfolding id_to_string value_to_string ◌<>◌
component_to_string c = id_to_string c.id <> ": " <> value_to_string c.value

abbrev pub is_req : HttpMessageComponentParam → Bool
is_req HttpMessageComponentParam.req = true
is_req _ = false

-- The values of the parameter `name` in a query string's pieces: those with an equals sign are split
-- at it, and the split unwrapped.
query_param_values : {E : Type 0} → String → List String → Outcome E (List String)
unfolding split_once contains_char
query_param_values name field_values = do
  pairs ← traverse (λ v. unwrap (split_once b'=' v)) (filter (contains_char b'=') field_values)
  ok (map (λ p. p.1) (filter (λ p. p.0 == name) pairs))

abbrev pub name_value : HttpMessageComponentParam → Option String
name_value (HttpMessageComponentParam.name name) = some name
name_value _ = none

-- The component value of a derived component, from the field values.
derived_value :
    DerivedComponentName
    → HttpMessageComponentParams
    → List String
    → Outcome HttpSigError HttpMessageComponentValue
unfolding to_ascii_uppercase to_ascii_lowercase join query_param_values trim split_once
derived_value DerivedComponentName.method params values = do
  value ← index_zero values
  ok (value_from_str (to_ascii_uppercase value))
derived_value DerivedComponentName.target_uri params values = do
  value ← index_zero values
  ok (value_from_str value)
derived_value DerivedComponentName.authority params values = do
  value ← index_zero values
  ok (value_from_str (to_ascii_lowercase value))
derived_value DerivedComponentName.scheme params values = do
  value ← index_zero values
  ok (value_from_str (to_ascii_lowercase value))
derived_value DerivedComponentName.request_target params values = do
  value ← index_zero values
  ok (value_from_str value)
derived_value DerivedComponentName.path params values = do
  value ← index_zero values
  ok (value_from_str value)
derived_value DerivedComponentName.query params values = do
  value ← index_zero values
  ok (value_from_str value)
derived_value DerivedComponentName.status params values = do
  value ← index_zero values
  ok (value_from_str value)
derived_value DerivedComponentName.query_param params values = do
  ensure (is_some (find_map name_value params))
      (HttpSigError.invalid_component "query-param derived component requires name parameter")
  name ← unwrap (find_map name_value params)
  kvs ← query_param_values name values
  ok (value_from_str (join ", " kvs))
derived_value DerivedComponentName.signature_params params values = do
  value ← index_zero values
  ensure (is_some (split_once b'=' (trim value)))
      (HttpSigError.invalid_component "invalid signature-params derived component")
  (key, val) ← unwrap (split_once b'=' (trim value))
  ok (value_from_pair key val)

build_derived :
    HttpMessageComponentId
    → DerivedComponentName
    → List String
    → Outcome HttpSigError HttpMessageComponent
unfolding derived_value
build_derived id derived_id field_values = do
  ensure (not (is_empty field_values))
      (HttpSigError.invalid_component "derived component requires field values")
  ensure (all (λ p. is_req p || is_name_param p) id.params)
      (HttpSigError.invalid_component "invalid parameter for derived component")
  v ← derived_value derived_id id.params field_values
  ok (record { id = id; value = v })

abbrev derived_name : HttpMessageComponentName → Option DerivedComponentName
derived_name (HttpMessageComponentName.derived d) = some d
derived_name (HttpMessageComponentName.http_field _) = none

unfoldable pub build_derived_component :
    HttpMessageComponentId → List String → Outcome HttpSigError HttpMessageComponent
unfolding build_derived
build_derived_component id field_values = elim (derived_name id.name) [
  | none ↦
      err
        (HttpSigError.invalid_component "invalid http message component name as derived component")
  | some derived_id ↦ build_derived id derived_id field_values
]

-- The loop over the parameters, which rewrites the field values.
apply_param : Sfv → HttpMessageComponentParam → List String → Outcome HttpSigError (List String)
unfolding handle_params_sf handle_params_key_into
apply_param sfv HttpMessageComponentParam.sf values = handle_params_sf sfv values
apply_param sfv (HttpMessageComponentParam.key k) values = handle_params_key_into sfv values k
apply_param sfv HttpMessageComponentParam.bs values =
    err (HttpSigError.not_yet_implemented "`bs` is not supported yet")
apply_param sfv HttpMessageComponentParam.req values = ok values
apply_param sfv HttpMessageComponentParam.tr values =
    err (HttpSigError.not_yet_implemented "`tr` is not supported yet")
apply_param sfv (HttpMessageComponentParam.name _) values =
    err (HttpSigError.not_yet_implemented "`name` is only for derived component query-params")

apply_params :
    Sfv → List HttpMessageComponentParam → List String → Outcome HttpSigError (List String)
apply_params sfv [] values = ok values
apply_params sfv (p ∷ ps) values = apply_param sfv p values >>= apply_params sfv ps

unfoldable pub build_http_field_component :
    Sfv → HttpMessageComponentId → List String → Outcome HttpSigError HttpMessageComponent
unfolding apply_params apply_param join
build_http_field_component sfv id field_values = do
  values ← apply_params sfv id.params field_values
  ok (record { id = id; value = value_from_str (join ", " values) })

-- `TryFrom<(&HttpMessageComponentId, &[String])>`
unfoldable pub component_try_from :
    Sfv → HttpMessageComponentId → List String → Outcome HttpSigError HttpMessageComponent
unfolding build_derived_component build_http_field_component
component_try_from sfv id field_values = elim (id.name) [
  | HttpMessageComponentName.http_field _ ↦ build_http_field_component sfv id field_values
  | HttpMessageComponentName.derived _ ↦ build_derived_component id field_values
]
