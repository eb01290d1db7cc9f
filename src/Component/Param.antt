-- ===== src/Component/Param.antt =====
-- httpsig/src/message_component/component_param.rs
pub mod Laws
pub mod Hash
use mathlib.Core.Option
use httpsig_rs.Base.{
  map_err, String, Bool, true, false, ◌≡◌, ◌↔◌, List, [], ◌∷◌, map, Option, none, some, arith,
  Outcome, ok, err, map_ok, ok_or, traverse, ◌>>=◌, PartialEq, ◌==◌, string_eq, eq_iff, ◌<>◌, join,
  sort, is_empty, lookup, filter_map, collect_set, if◌then◌else◌,
}
use httpsig_rs.Error.{HttpSigError}
use httpsig_rs.Sfv.{
  Sfv, SfvList, Parsed, BareItem, Dictionary, Parameters, parsed, failed, as_string, or_error,
}

pub data HttpMessageComponentParam : Type 0 where
  sf : HttpMessageComponentParam
  key : String → HttpMessageComponentParam
  bs : HttpMessageComponentParam
  tr : HttpMessageComponentParam
  req : HttpMessageComponentParam
  name : String → HttpMessageComponentParam

-- `From<HttpMessageComponentParam> for String`
unfoldable pub param_to_string : HttpMessageComponentParam → String
unfolding ◌<>◌
param_to_string HttpMessageComponentParam.sf = "sf"
param_to_string (HttpMessageComponentParam.key val) = "key=\"" <> val <> "\""
param_to_string HttpMessageComponentParam.bs = "bs"
param_to_string HttpMessageComponentParam.tr = "tr"
param_to_string HttpMessageComponentParam.req = "req"
param_to_string (HttpMessageComponentParam.name v) = "name=\"" <> v <> "\""

unfoldable pub param_try_from : String × BareItem → Outcome HttpSigError HttpMessageComponentParam
param_try_from (k, val) =
    if k == "sf"
    then ok HttpMessageComponentParam.sf
    else if k == "bs"
    then ok HttpMessageComponentParam.bs
    else if k == "tr"
    then ok HttpMessageComponentParam.tr
    else if k == "req"
    then ok HttpMessageComponentParam.req
    else if k == "name"
    then map_ok HttpMessageComponentParam.name (
        ok_or (as_string val)
          (HttpSigError.invalid_component_param "Invalid http field param: name"))
    else if k == "key"
    then map_ok HttpMessageComponentParam.key (
        ok_or (as_string val)
          (HttpSigError.invalid_component_param "Invalid http field param: key"))
    else err (HttpSigError.invalid_component_param ("Invalid http field param: " <> k))

-- `derive(PartialEq)`
unfoldable pub param_beq : HttpMessageComponentParam → HttpMessageComponentParam → Bool
param_beq HttpMessageComponentParam.sf HttpMessageComponentParam.sf = true
param_beq (HttpMessageComponentParam.key a) (HttpMessageComponentParam.key b) = a == b
param_beq HttpMessageComponentParam.bs HttpMessageComponentParam.bs = true
param_beq HttpMessageComponentParam.tr HttpMessageComponentParam.tr = true
param_beq HttpMessageComponentParam.req HttpMessageComponentParam.req = true
param_beq (HttpMessageComponentParam.name a) (HttpMessageComponentParam.name b) = a == b
param_beq _ _ = false

pub param_beq_iff : (p q : HttpMessageComponentParam) → (param_beq p q ≡ true) ↔ (p ≡ q)
unfolding param_beq
param_beq_iff (HttpMessageComponentParam.key a) (HttpMessageComponentParam.key b) =
    ground (arith, eq_iff a b)
param_beq_iff (HttpMessageComponentParam.name a) (HttpMessageComponentParam.name b) =
    ground (arith, eq_iff a b)
param_beq_iff HttpMessageComponentParam.sf HttpMessageComponentParam.sf = ground arith
param_beq_iff p q = ground arith

instance abbrev pub param_eq : PartialEq HttpMessageComponentParam
param_eq = record { eq_test = param_beq; eq_test_iff = param_beq_iff }

-- `HttpMessageComponentParams`: an `IndexSet`, as its elements in the order of insertion.
abbrev pub HttpMessageComponentParams : Type 0
HttpMessageComponentParams = List HttpMessageComponentParam

unfoldable pub params_try_from : Parameters → Outcome HttpSigError HttpMessageComponentParams
unfolding param_try_from param_beq
params_try_from val = map_ok (collect_set []) (traverse param_try_from val)

unfoldable pub params_to_string : HttpMessageComponentParams → String
unfolding param_to_string join ◌<>◌
params_to_string params =
    if is_empty params then "" else ";" <> join ";" (map param_to_string params)

-- `Hash`: what the hasher is fed, the texts of the parameters in their order as texts.
unfoldable pub params_hash : HttpMessageComponentParams → List String
unfolding param_to_string sort
params_hash params = sort (map param_to_string params)

-- One field value of `sf`: read as a list, else as a dictionary, and written out again.
sf_dictionary : Sfv → Parsed Dictionary → Outcome String String
sf_dictionary sfv (parsed dict) =
    ok_or (Sfv.serialize_dictionary sfv dict) "Failed to serialize structured field value for sf"
sf_dictionary sfv (failed _) = err "invalid structured field value for sf"

sf_list : Sfv → String → Parsed SfvList → Outcome String String
unfolding sf_dictionary
sf_list sfv v (parsed list) =
    ok_or (Sfv.serialize_list sfv list) "Failed to serialize structured field value for sf"
sf_list sfv v (failed _) = sf_dictionary sfv (Sfv.parse_dictionary sfv v)

sf_value : Sfv → String → Outcome String String
unfolding sf_list
sf_value sfv v = sf_list sfv v (Sfv.parse_list sfv v)

-- `iter_mut().zip(list)`, each value replaced by its partner.
zip_assign : List String → List String → List String
zip_assign (v ∷ vs) (p ∷ ps) = p ∷ zip_assign vs ps
zip_assign vs _ = vs

-- The field values after the call.
unfoldable pub handle_params_sf : Sfv → List String → Outcome HttpSigError (List String)
unfolding sf_value zip_assign
handle_params_sf sfv field_values = do
  parsed_list ←
      map_err
        (λ e.
          HttpSigError.invalid_component_param ("Failed to parse structured field value: " <> e))
        (traverse (sf_value sfv) field_values)
  ok (zip_assign field_values parsed_list)

key_dict : Sfv → String → Outcome HttpSigError Dictionary
key_dict sfv v =
    or_error
      (λ e. HttpSigError.invalid_component_param ("Failed to parse structured field value: " <> e))
      (Sfv.parse_dictionary sfv v)

-- `collect::<Option<Vec<_>>>()`
collect_options : List (Option String) → Option (List String)
collect_options [] = some []
collect_options (none ∷ os) = none
collect_options (some s ∷ os) = Option.map (λ ss. s ∷ ss) (collect_options os)

-- The member at the key, as a list of one member.
member : Sfv → String → Dictionary → Option (Option String)
member sfv k dict = Option.map (λ v. Sfv.serialize_list sfv (v ∷ [])) (lookup k dict)

unfoldable pub handle_params_key_into :
    Sfv → List String → String → Outcome HttpSigError (List String)
unfolding key_dict collect_options member
handle_params_key_into sfv field_values k = do
  dicts ← traverse (key_dict sfv) field_values
  ok_or (collect_options (filter_map (member sfv k) dicts))
      (HttpSigError.invalid_component_param "Failed to serialize structured field value")
