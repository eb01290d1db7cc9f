-- ===== src/Tests/Written.antt =====
-- Examples of ids and parameters that are written, read, compared and changed.
use httpsig_rs.Base.{
  err, contains_char, starts_with_char, trim, ◌≡◌, refl, arith, ◌↔◌, true, [], ◌∷◌, some, ok,
}
use httpsig_rs.Sfv.{Sfv, BareItem, ListEntry, parsed}
use httpsig_rs.Error.{HttpSigError}
use httpsig_rs.Sfv.Canonical.{
  IsPlain, has_special, all_visible, is_key, serialize_inner_list, serialize_parameter,
}
use httpsig_rs.Util.Unique.{IsSetOf}
use httpsig_rs.Component.Name.{HttpMessageComponentName, derived_as_ref}
use httpsig_rs.Component.Param.{
  HttpMessageComponentParam, HttpMessageComponentParams, param_beq, param_eq,
}
use httpsig_rs.Component.Id.{HttpMessageComponentId, id_beq, id_hash, id_to_string, id_try_from}
use httpsig_rs.Component.Value.{value_from_str}
use httpsig_rs.Component.Build.{component_try_from_str, component_to_string}
use httpsig_rs.Component.Build.Written.{component_try_from_str-component_to_string}
use httpsig_rs.Component.Id.Laws.{IsValid}
use httpsig_rs.Component.Id.Equality.{id_hash_iff}
use httpsig_rs.Component.Id.Written.{id_field, id_try_from-id_to_string}
use httpsig_rs.Params.{
  HttpSignatureParams, is_expired, print_text, set_expires_with_duration, set_keyid,
  signature_params_to_string, params_try_from_entry, try_new,
}
use httpsig_rs.Params.Plain.{HasPlainTexts}
use httpsig_rs.Params.Canonical.{print_text_iff, signature_params_to_string-inner_list}
use httpsig_rs.Params.Expiry.{set_expires_with_duration-overflow}
use httpsig_rs.Params.Reachable.{IsReachable, IsReachable-IsWellFormed}
use httpsig_rs.Params.Timestamps.{AreU64}
use httpsig_rs.Params.Written.{IsWellFormed, params_field, params_try_from_entry-params_field}
use httpsig_rs.Tests.Env.{toy_sfv}
use httpsig_rs.Tests.Messages.{date_id, date_params}
use httpsig_rs.Tests.OneByte.{
  signing_sfv, encode, with_key, keyed_IsWellFormed, reads_date, req_IsValid,
}
use httpsig_rs.Tests.Signing.{req_id, req_params}

reads_method : Sfv.parse_item signing_sfv (id_to_string req_id) ≡ parsed (id_field req_id)
unfolding signing_sfv id_to_string derived_as_ref
reads_method = refl

id_try_from-id_to_string_example : id_try_from signing_sfv (id_to_string req_id) ≡ ok req_id
id_try_from-id_to_string_example =
    id_try_from-id_to_string signing_sfv req_id req_IsValid tt reads_method

params_try_from_entry-params_field_example :
    params_try_from_entry signing_sfv
      (ListEntry.inner_list (params_field (with_key "k1" date_params)))
    ≡ ok (with_key "k1" date_params)
params_try_from_entry-params_field_example =
    params_try_from_entry-params_field signing_sfv (with_key "k1" date_params)
      (keyed_IsWellFormed "k1") reads_date

-- Made at time 100 from an id that was read, then given an expiry and a key id.
abbrev made_at : HttpSignatureParams
made_at = record date_params { created = some 100 }

abbrev expiring : HttpSignatureParams
expiring = record made_at { expires = some 160 }

date_read : id_try_from toy_sfv "\"date\"" ≡ ok date_id
unfolding id_try_from toy_sfv
date_read = refl

date_made : try_new 100 (date_id ∷ []) ≡ ok made_at
unfolding try_new
date_made = refl

date_expiring : set_expires_with_duration {E = HttpSigError} (some 60) made_at ≡ ok expiring
unfolding set_expires_with_duration
date_expiring = refl

IsReachable-IsWellFormed_example :
    IsWellFormed (set_keyid "k" expiring) × AreU64 (set_keyid "k" expiring)
IsReachable-IsWellFormed_example =
    IsReachable-IsWellFormed {sfv = toy_sfv} {p = set_keyid "k" expiring} (
      IsReachable.keyid "k" expiring (
        IsReachable.duration (some 60) made_at expiring
          (IsReachable.made 100 (date_id ∷ []) made_at (omega arith) (("\"date\"", date_read), tt)
            date_made)
          date_expiring))

plain_texts : HasPlainTexts (record req_params { created = some 100; keyid = some "k" })
unfolding has_special all_visible
plain_texts = record {
  ids = (((refl, refl), tt), ((tt, (tt, tt)), tt));
  created = refl;
  expires = tt;
  nonce = tt;
  alg = tt;
  keyid = (refl, refl);
  tag = tt;
}

signature_params_to_string-inner_list_example :
    serialize_inner_list encode
      (params_field (record req_params { created = some 100; keyid = some "k" }))
    ≡ some (signature_params_to_string (record req_params { created = some 100; keyid = some "k" }))
signature_params_to_string-inner_list_example =
    signature_params_to_string-inner_list encode
      (record req_params { created = some 100; keyid = some "k" }) plain_texts

keyid_is_key : is_key "keyid" ≡ true
unfolding is_key
keyid_is_key = refl

print_text_iff_example :
    (serialize_parameter encode ("keyid", BareItem.string "a\"b")
      ≡ some (print_text "keyid" (some "a\"b")))
    ↔ IsPlain "a\"b"
print_text_iff_example = print_text_iff encode "keyid" "a\"b" keyid_is_key

-- One set of parameters, put together in two orders.
abbrev forth : HttpMessageComponentParams
forth = HttpMessageComponentParam.sf ∷ HttpMessageComponentParam.key "a" ∷ []

abbrev back : HttpMessageComponentParams
back = HttpMessageComponentParam.key "a" ∷ HttpMessageComponentParam.sf ∷ []

abbrev id_with : HttpMessageComponentParams → HttpMessageComponentId
id_with ps = record { name = HttpMessageComponentName.http_field "date"; params = ps }

forth_IsSet : IsSetOf forth
unfolding param_beq
forth_IsSet = ((refl, tt), (tt, tt))

back_IsSet : IsSetOf back
unfolding param_beq
back_IsSet = ((refl, tt), (tt, tt))

id_hash_iff_example :
    (id_beq (id_with forth) (id_with back) ≡ true)
    ↔ (id_hash (id_with forth) ≡ id_hash (id_with back))
id_hash_iff_example = id_hash_iff (id_with forth) (id_with back) forth_IsSet

set_expires_with_duration-overflow_example :
    (q : HttpSignatureParams) × (set_expires_with_duration {E = HttpSigError}
        (some 18446744073709551615)
        made_at
      ≡ ok q)
    × (is_expired 100 q ≡ true)
set_expires_with_duration-overflow_example =
    set_expires_with_duration-overflow 100 100 (some 18446744073709551615) made_at refl
      (omega arith) (omega arith) (omega arith) (omega arith)

date_IsValid : IsValid date_id
date_IsValid = record { allowed = tt; once = tt }

reads_date_id : Sfv.parse_item signing_sfv (id_to_string date_id) ≡ parsed (id_field date_id)
unfolding signing_sfv id_to_string
reads_date_id = refl

component_try_from_str-component_to_string_example :
    component_try_from_str signing_sfv
      (component_to_string (record { id = date_id; value = value_from_str "12:30" }))
    ≡ ok (record { id = date_id; value = value_from_str "12:30" })
unfolding contains_char id_to_string trim starts_with_char
component_try_from_str-component_to_string_example =
    component_try_from_str-component_to_string signing_sfv date_id "12:30" date_IsValid refl
      reads_date_id refl refl

-- A colon in the id is taken for the end of the id.
colon_in_name :
    component_try_from_str signing_sfv "\"@query-param\";name=\"a:b\": 1"
    ≡ err (HttpSigError.parse_sfv_error "item")
unfolding component_try_from_str signing_sfv id_try_from
colon_in_name = refl
