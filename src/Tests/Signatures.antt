-- ===== src/Tests/Signatures.antt =====
-- Examples for signature parameters, bases and headers.
use httpsig_rs.Base.{
  ◌≡◌, refl, subst, ◌↔◌, inl, ◌+◌, ltb, arith, [], ◌∷◌, map, none, some, ok, panic, NoPanic,
  traverse, as_bytes, keys, All, pos, negsuc, contains_char, string_eq,
}
use httpsig_rs.Error.{HttpSigError}
use httpsig_rs.Sfv.{Sfv, BareItem, InnerList, ListEntry, Dictionary, parsed, parsed-injective}
use httpsig_rs.Util.Unique.{IsSetOf}
use httpsig_rs.Component.Id.{id_try_from}
use httpsig_rs.Component.Build.{component_to_string}
use httpsig_rs.Params.{
  HttpSignatureParams, with_components, is_expired, set_expires_with_duration, default_duration,
  params_try_from_entry, signature_params_to_string,
}
use httpsig_rs.Params.Expiry.{IsCurrent, set_expires_with_duration-expiry}
use httpsig_rs.Params.Covered.{negative_timestamp-panic}
use httpsig_rs.Signature.{HttpSignatureHeaders, base_as_bytes, verify_signature_headers}
use httpsig_rs.Signature.Unambiguous.{HasOneLineTexts, base_to_string-injective}
use httpsig_rs.Signature.Verify.{verify_signature_headers_iff}
use httpsig_rs.Signature.Headers.{headers_try_parse}
use httpsig_rs.Signature.Headers.Matching.{headers_try_parse-NoPanic}
use httpsig_rs.Tests.Env.{toy_sfv, toy_verifier, plain, date_base}
use httpsig_rs.Tests.Messages.{date_id, date_params, date_line, base}

abbrev signature_of : HttpSignatureParams → HttpSignatureHeaders
signature_of p = record {
  signature_name = "sig";
  signature = as_bytes date_base;
  signature_params = p;
}

verify_signature_headers_iff_example :
    (verify_signature_headers 5 base toy_verifier (signature_of date_params) ≡ ok tt)
    ↔ (IsCurrent 5 none × (toy_verifier.verify (base_as_bytes base) (as_bytes date_base) ≡ ok tt))
verify_signature_headers_iff_example =
    verify_signature_headers_iff 5 base toy_verifier (signature_of date_params)

base-HasOneLineTexts : HasOneLineTexts base
unfolding component_to_string signature_params_to_string contains_char
base-HasOneLineTexts = record { lines = (refl, tt); params = refl }

base_to_string-injective_example :
    (map component_to_string (date_line ∷ []) ≡ map component_to_string (date_line ∷ []))
    × (signature_params_to_string date_params ≡ signature_params_to_string date_params)
base_to_string-injective_example =
    base_to_string-injective base base base-HasOneLineTexts base-HasOneLineTexts refl

abbrev date_items : InnerList
date_items = record {
  items = plain "date" ∷ [];
  params = ("expires", BareItem.integer (pos 9)) ∷ [];
}

abbrev read_params : HttpSignatureParams
read_params = record date_params { expires = some 9 }

read : params_try_from_entry toy_sfv (ListEntry.inner_list date_items) ≡ ok read_params
unfolding params_try_from_entry toy_sfv
read = refl

date_read :
    traverse (λ v. id_try_from toy_sfv (Sfv.serialize_item toy_sfv v)) (plain "date" ∷ [])
    ≡ ok (date_id ∷ [])
unfolding id_try_from toy_sfv
date_read = refl

negative_timestamp-panic_example :
    params_try_from_entry toy_sfv (
      ListEntry.inner_list (record {
        items = plain "date" ∷ [];
        params = ("created", BareItem.integer (negsuc 0)) ∷ [];
      }))
    ≡ panic "called `Result::unwrap()` on an `Err` value"
negative_timestamp-panic_example =
    negative_timestamp-panic toy_sfv (plain "date" ∷ []) (date_id ∷ []) 0 "created" [] date_read
      (tt, tt) (inl refl)

abbrev created_at : HttpSignatureParams
created_at = with_components (some 10) (date_id ∷ [])

set_expires_with_duration-expiry_example :
    (q : HttpSignatureParams) × (set_expires_with_duration {E = HttpSigError} none created_at
      ≡ ok q)
    × (is_expired 311 q ≡ ltb (10 + default_duration) 311)
set_expires_with_duration-expiry_example =
    set_expires_with_duration-expiry 311 10 none created_at refl (ground arith)

input_NoPanic :
    (input : Dictionary)
    → Sfv.parse_dictionary toy_sfv "sig=(\"date\")" ≡ parsed input
    → All (λ e. NoPanic (params_try_from_entry toy_sfv e.1)) input
unfolding params_try_from_entry toy_sfv
input_NoPanic input e =
    subst (All (λ x. NoPanic (params_try_from_entry toy_sfv (x.1)))) (parsed-injective e)
      ((λ t q. cc), tt)

signature_keys :
    (signature : Dictionary)
    → Sfv.parse_dictionary toy_sfv "sig=:MAC:" ≡ parsed signature
    → IsSetOf (keys signature)
unfolding toy_sfv
signature_keys signature e = subst (λ d. IsSetOf (keys d)) (parsed-injective e) (tt, tt)

headers_try_parse-NoPanic_example : NoPanic (headers_try_parse toy_sfv "sig=:MAC:" "sig=(\"date\")")
headers_try_parse-NoPanic_example =
    headers_try_parse-NoPanic toy_sfv "sig=:MAC:" "sig=(\"date\")" signature_keys input_NoPanic
