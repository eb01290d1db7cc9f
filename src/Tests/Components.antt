-- ===== src/Tests/Components.antt =====
-- Examples for component names, ids and components.
use httpsig_rs.Base.{◌≡◌, ◌≢◌, refl, true, [], ◌∷◌, ok, panic, starts_with_char, ◌<>◌}
use httpsig_rs.Sfv.{BareItem}
use httpsig_rs.Component.Name.{
  HttpMessageComponentName, DerivedComponentName, derived_as_ref, name_try_from,
}
use httpsig_rs.Component.Name.Laws.{name_try_from-panic}
use httpsig_rs.Component.Param.{HttpMessageComponentParam}
use httpsig_rs.Component.Id.{HttpMessageComponentId}
use httpsig_rs.Component.Value.{value_from_str}
use httpsig_rs.Component.Build.{build_http_field_component}
use httpsig_rs.Tests.Env.{toy_sfv}
use httpsig_rs.Tests.Messages.{date_id}

abbrev method_id : HttpMessageComponentId
method_id = record {
  name = HttpMessageComponentName.derived DerivedComponentName.method;
  params = HttpMessageComponentParam.req ∷ [];
}

abbrev req_date : HttpMessageComponentId
req_date = record date_id { params = HttpMessageComponentParam.req ∷ [] }

built :
    build_http_field_component toy_sfv req_date ("Tue" ∷ [])
    ≡ ok (record { id = req_date; value = value_from_str "Tue" })
unfolding build_http_field_component
built = refl

at_sign : starts_with_char b'@' "@foo" ≡ true
unfolding starts_with_char
at_sign = refl

no_name : (d : DerivedComponentName) → "@foo" ≢ derived_as_ref d
unfolding derived_as_ref
no_name DerivedComponentName.method e = cc
no_name _ e = cc

name_try_from-panic_example :
    name_try_from toy_sfv (BareItem.string "@foo") ≡ panic ("Invalid derived component: " <> "@foo")
name_try_from-panic_example = name_try_from-panic toy_sfv "@foo" at_sign no_name
