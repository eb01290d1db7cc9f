-- ===== src/Component/Name.antt =====
-- httpsig/src/message_component/component_name.rs
pub mod Laws
use httpsig_rs.Base.{
  ℕ, String, Bool, false, Outcome, ok, err, panic, map_ok, ◌==◌, string_eq, nat_eq, ◌<>◌,
  starts_with_char, if◌then◌else◌,
}
use httpsig_rs.Error.{HttpSigError}
use httpsig_rs.Sfv.{Sfv, BareItem}

pub data DerivedComponentName : Type 0 where
  method target_uri authority scheme request_target path query query_param status signature_params :
      DerivedComponentName

pub data HttpMessageComponentName : Type 0 where
  http_field : String → HttpMessageComponentName
  derived : DerivedComponentName → HttpMessageComponentName

unfoldable pub derived_as_ref : DerivedComponentName → String
derived_as_ref DerivedComponentName.method = "@method"
derived_as_ref DerivedComponentName.target_uri = "@target-uri"
derived_as_ref DerivedComponentName.authority = "@authority"
derived_as_ref DerivedComponentName.scheme = "@scheme"
derived_as_ref DerivedComponentName.request_target = "@request-target"
derived_as_ref DerivedComponentName.path = "@path"
derived_as_ref DerivedComponentName.query = "@query"
derived_as_ref DerivedComponentName.query_param = "@query-param"
derived_as_ref DerivedComponentName.status = "@status"
derived_as_ref DerivedComponentName.signature_params = "@signature-params"

-- `From<&str>`, which panics at a name that is none of the ten.
unfoldable pub derived_from_str : {E : Type 0} → String → Outcome E DerivedComponentName
derived_from_str val =
    if val == "@method"
    then ok DerivedComponentName.method
    else if val == "@target-uri"
    then ok DerivedComponentName.target_uri
    else if val == "@authority"
    then ok DerivedComponentName.authority
    else if val == "@scheme"
    then ok DerivedComponentName.scheme
    else if val == "@request-target"
    then ok DerivedComponentName.request_target
    else if val == "@path"
    then ok DerivedComponentName.path
    else if val == "@query"
    then ok DerivedComponentName.query
    else if val == "@query-param"
    then ok DerivedComponentName.query_param
    else if val == "@status"
    then ok DerivedComponentName.status
    else if val == "@signature-params"
    then ok DerivedComponentName.signature_params
    else panic ("Invalid derived component: " <> val)

unfoldable pub name_try_from : Sfv → BareItem → Outcome HttpSigError HttpMessageComponentName
unfolding derived_from_str starts_with_char
name_try_from sfv (BareItem.string name) =
    if starts_with_char b'@' name
    then map_ok HttpMessageComponentName.derived (derived_from_str name)
    else ok (HttpMessageComponentName.http_field name)
name_try_from sfv value = err (
    HttpSigError.invalid_component_name
      ("Invalid http message component name: " <> Sfv.debug_bare_item sfv value))

unfoldable pub name_to_string : HttpMessageComponentName → String
unfolding derived_as_ref ◌<>◌
name_to_string (HttpMessageComponentName.http_field val) = "\"" <> val <> "\""
name_to_string (HttpMessageComponentName.derived val) = "\"" <> derived_as_ref val <> "\""

-- `derive(PartialEq)`: the discriminants are compared.
discriminant : DerivedComponentName → ℕ
discriminant DerivedComponentName.method = 0
discriminant DerivedComponentName.target_uri = 1
discriminant DerivedComponentName.authority = 2
discriminant DerivedComponentName.scheme = 3
discriminant DerivedComponentName.request_target = 4
discriminant DerivedComponentName.path = 5
discriminant DerivedComponentName.query = 6
discriminant DerivedComponentName.query_param = 7
discriminant DerivedComponentName.status = 8
discriminant DerivedComponentName.signature_params = 9

unfoldable pub derived_beq : DerivedComponentName → DerivedComponentName → Bool
unfolding discriminant
derived_beq a b = discriminant a == discriminant b

unfoldable pub name_beq : HttpMessageComponentName → HttpMessageComponentName → Bool
unfolding derived_beq
name_beq (HttpMessageComponentName.http_field a) (HttpMessageComponentName.http_field b) = a == b
name_beq (HttpMessageComponentName.derived a) (HttpMessageComponentName.derived b) = derived_beq a b
name_beq _ _ = false
