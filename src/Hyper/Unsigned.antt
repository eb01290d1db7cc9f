-- ===== src/Hyper/Unsigned.antt =====
-- That the signature headers do not change the base of a message, for hyper_http.rs.
use httpsig_rs.Base.{
  ◌≡◌, refl, ap, ◌∙◌, ◌⊎◌, inl, inr, Bool-cases, String, true, false, List, [], ◌∷◌, All, Option,
  ◌>>=◌, traverse,
}
use httpsig_rs.Http.{Http, same_header, Request}
use httpsig_rs.Sfv.{Sfv}
use httpsig_rs.Component.Name.{HttpMessageComponentName, DerivedComponentName}
use httpsig_rs.Component.Param.{HttpMessageComponentParam, HttpMessageComponentParams}
use httpsig_rs.Component.Id.{HttpMessageComponentId}
use httpsig_rs.Params.{HttpSignatureParams}
use httpsig_rs.Hyper.{RequestOrResponse, headers, method, uri, status}
use httpsig_rs.Hyper.Derived.{
  check_param, check_params, check_message, derived_field_values, extract_derived,
  extract_derived_component, has_req, is_request,
}
use httpsig_rs.Hyper.Extract.{
  extract_field, extract_http_field, extract_http_message_component, component_line,
  build_signature_base,
}

-- The name of a component that the two signature headers have no part in.
abbrev pub IsUnsigned : HttpMessageComponentName → Type 0
IsUnsigned (HttpMessageComponentName.http_field f) =
    (same_header "signature-input" f ≡ false) × (same_header "signature" f ≡ false)
IsUnsigned (HttpMessageComponentName.derived DerivedComponentName.signature_params) = ⊥
IsUnsigned (HttpMessageComponentName.derived _) = Unit

-- A component that the signature headers of the message have no part in: one of the request that a
-- response answers, or one with such a name.
abbrev pub IsUntouched : HttpMessageComponentId → Type 0
IsUntouched id = (has_req id.params ≡ true) ⊎ IsUnsigned id.name

module _ {h : Http} where
  -- The message with other headers.
  abbrev pub with_headers : RequestOrResponse h → h.HeaderMap → RequestOrResponse h
  with_headers (RequestOrResponse.request req) m =
      RequestOrResponse.request (record req { headers = m })
  with_headers (RequestOrResponse.response res) m =
      RequestOrResponse.response (record res { headers = m })

  is_request-with_headers :
      (msg : RequestOrResponse h) (m : h.HeaderMap)
      → is_request (with_headers msg m) ≡ is_request msg
  is_request-with_headers (RequestOrResponse.request req) m = refl
  is_request-with_headers (RequestOrResponse.response res) m = refl

  pub headers-with_headers :
      (msg : RequestOrResponse h) (m : h.HeaderMap) → headers (with_headers msg m) ≡ m
  unfolding headers
  headers-with_headers (RequestOrResponse.request req) m = refl
  headers-with_headers (RequestOrResponse.response res) m = refl

abbrev at : HttpMessageComponentName → HttpMessageComponentParams → HttpMessageComponentId
at n ps = record { name = n; params = ps }

module _ {h : Http} (msg : RequestOrResponse h) (m : h.HeaderMap) where
  check_param-changed :
      (d : DerivedComponentName) (p : HttpMessageComponentParam)
      → check_param (with_headers msg m) d p ≡ check_param msg d p
  unfolding check_param
  check_param-changed d HttpMessageComponentParam.req = rw (is_request-with_headers msg m) refl
  check_param-changed d _ = refl

  check_params-changed :
      (d : DerivedComponentName) (ps : List HttpMessageComponentParam)
      → check_params (with_headers msg m) d ps ≡ check_params msg d ps
  unfolding check_params
  check_params-changed d [] = refl
  check_params-changed d (p ∷ ps) =
      ap (λ x. x >>= λ _. check_params (with_headers msg m) d ps) (check_param-changed d p)
      ∙ ap (λ x. check_param msg d p >>= λ _. x) (check_params-changed d ps)

check_message-changed :
    {h : Http} (msg : RequestOrResponse h) (m : h.HeaderMap) (d : DerivedComponentName)
    (ps : HttpMessageComponentParams)
    → check_message (with_headers msg m) d ps ≡ check_message msg d ps
unfolding check_message
check_message-changed (RequestOrResponse.request req) m d ps = refl
check_message-changed (RequestOrResponse.response res) m d ps = refl

derived_field_values-changed :
    {h : Http} (msg : RequestOrResponse h) (m : h.HeaderMap) (d : DerivedComponentName)
    → IsUnsigned (HttpMessageComponentName.derived d)
    → derived_field_values (with_headers msg m) d ≡ derived_field_values msg d
unfolding derived_field_values method uri status
derived_field_values-changed msg m DerivedComponentName.signature_params u = absurd u
derived_field_values-changed (RequestOrResponse.request req) m DerivedComponentName.method u = refl
derived_field_values-changed (RequestOrResponse.response res) m DerivedComponentName.method u = refl
derived_field_values-changed (RequestOrResponse.request req) m _ u = refl
derived_field_values-changed (RequestOrResponse.response res) m _ u = refl

module _ {h : Http} (sfv : Sfv) (msg : RequestOrResponse h) (m : h.HeaderMap) where
  module _
      (same : (j : String)
        → same_header "signature-input" j ≡ false
        → same_header "signature" j ≡ false
        → h.get_all m j ≡ h.get_all (headers msg) j) where
    extract-changed :
        (n : HttpMessageComponentName) (ps : HttpMessageComponentParams)
        → IsUnsigned n
        → extract_http_message_component sfv (with_headers msg m) (at n ps)
          ≡ extract_http_message_component sfv msg (at n ps)
    unfolding extract_http_message_component extract_http_field extract_field
        extract_derived_component extract_derived
    extract-changed (HttpMessageComponentName.http_field f) ps u =
        rw (headers-with_headers msg m, same f (u.0) (u.1)) refl
    extract-changed (HttpMessageComponentName.derived d) ps u =
        rw
          (
            check_params-changed msg m d ps,
            check_message-changed msg m d ps,
            derived_field_values-changed msg m d u,
          )
          refl

    component_line-changed :
        (asked : Option (Request h)) (id : HttpMessageComponentId)
        → IsUntouched id
        → component_line sfv (with_headers msg m) asked id ≡ component_line sfv msg asked id
    unfolding component_line
    component_line-changed asked id (inl tagged) = rw (tagged, is_request-with_headers msg m) refl
    component_line-changed asked id (inr u) = elim (Bool-cases (has_req id.params)) [
      | inl tagged ↦ rw (tagged, is_request-with_headers msg m) refl
      | inr untagged ↦ rw untagged (extract-changed id.name id.params u)
    ]

    lines-changed :
        (asked : Option (Request h)) (ids : List HttpMessageComponentId)
        → All IsUntouched ids
        → traverse (component_line sfv (with_headers msg m) asked) ids
          ≡ traverse (component_line sfv msg asked) ids
    lines-changed asked [] u = refl
    lines-changed asked (id ∷ ids) u =
        rw (component_line-changed asked id (u.0), lines-changed asked ids (u.1)) refl

    -- A message has one base for parameters that cover neither of its signature headers, whatever
    -- these headers hold, so long as the other headers are the same.
    pub build_signature_base-changed :
        (p : HttpSignatureParams) (asked : Option (Request h))
        → All IsUntouched p.covered_components
        → build_signature_base sfv (with_headers msg m) p asked
          ≡ build_signature_base sfv msg p asked
    unfolding build_signature_base
    build_signature_base-changed p asked u = rw (lines-changed asked p.covered_components u) refl
