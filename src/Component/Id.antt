-- ===== src/Component/Id.antt =====
-- httpsig/src/message_component/component_id.rs
pub mod Laws
pub mod Equality
pub mod Written
use httpsig_rs.Base.{
  List, String, Bool, true, false, not, ◌&&◌, Outcome, ok, err, ◌>>=◌, ◌<>◌, ◌==◌, string_eq, trim,
  starts_with_char, ends_with_char, contains_char, any, insert_elem, set_beq, if◌then◌else◌,
}
use httpsig_rs.Error.{HttpSigError}
use httpsig_rs.Sfv.{Sfv, or_error}
use httpsig_rs.Component.Name.{
  HttpMessageComponentName, DerivedComponentName, name_try_from, name_to_string, name_beq,
}
use httpsig_rs.Component.Param.{
  HttpMessageComponentParam, HttpMessageComponentParams, param_eq, param_beq, params_hash,
  params_try_from, params_to_string,
}

pub record HttpMessageComponentId : Type 0 where
  pub name : HttpMessageComponentName
  pub params : HttpMessageComponentParams

-- `derive(PartialEq)`, with the equality of `IndexSet` on the parameters
unfoldable pub id_beq : HttpMessageComponentId → HttpMessageComponentId → Bool
unfolding name_beq param_beq
id_beq a b = name_beq a.name b.name && set_beq a.params b.params

-- `derive(Hash)`: the hashes of the fields, one after the other.
unfoldable pub id_hash : HttpMessageComponentId → HttpMessageComponentName × List String
unfolding params_hash
id_hash id = (id.name, params_hash id.params)

unfoldable pub add_req_param : HttpMessageComponentId → HttpMessageComponentId
unfolding param_beq
add_req_param id = record id { params = insert_elem id.params HttpMessageComponentParam.req }

unfoldable pub id_to_string : HttpMessageComponentId → String
unfolding name_to_string params_to_string ◌<>◌
id_to_string id = name_to_string id.name <> params_to_string id.params

abbrev pub is_name_param : HttpMessageComponentParam → Bool
is_name_param (HttpMessageComponentParam.name _) = true
is_name_param _ = false

-- The parameters that only an http field takes.
abbrev pub is_field_param : HttpMessageComponentParam → Bool
is_field_param HttpMessageComponentParam.bs = true
is_field_param HttpMessageComponentParam.sf = true
is_field_param HttpMessageComponentParam.tr = true
is_field_param (HttpMessageComponentParam.key _) = true
is_field_param _ = false

abbrev pub is_query_param : HttpMessageComponentName → Bool
is_query_param (HttpMessageComponentName.derived DerivedComponentName.query_param) = true
is_query_param _ = false

abbrev pub is_http_field : HttpMessageComponentName → Bool
is_http_field (HttpMessageComponentName.http_field _) = true
is_http_field _ = false

-- A text without any double quotation is put between two.
unfoldable pub quoted : String → String
unfolding starts_with_char ends_with_char contains_char ◌<>◌
quoted val =
    if not (starts_with_char b'"' val)
      && not (ends_with_char b'"' val)
      && not (val == "")
      && not (contains_char b'"' val)
    then "\"" <> val <> "\""
    else val

-- The two assertions that end `try_from`.
unfoldable pub check_id : HttpMessageComponentId → Outcome HttpSigError HttpMessageComponentId
unfolding id_to_string
check_id res =
    let invalid : HttpSigError =
      HttpSigError.invalid_component_id
        ("Invalid http message component id: " <> id_to_string res) in
    if any is_name_param res.params && not (is_query_param res.name)
    then err invalid
    else if any is_field_param res.params && not (is_http_field res.name)
    then err invalid
    else ok res

unfoldable pub id_try_from : Sfv → String → Outcome HttpSigError HttpMessageComponentId
unfolding trim quoted name_try_from params_try_from check_id
id_try_from sfv val = do
  item ← or_error HttpSigError.parse_sfv_error (Sfv.parse_item sfv (quoted (trim val)))
  name ← name_try_from sfv item.bare_item
  params ← params_try_from item.params
  check_id (record { name = name; params = params })
