-- ===== src/Hyper/Extract/Total.antt =====
-- What a signature base built from a message consists of, for hyper_http.rs.
use httpsig_rs.Base.{
  ◌≡◌, refl, ap, sym, ◌∙◌, inl, inr, not, Bool-cases, List, [], ◌∷◌, map, Option, none, some, ok,
  NoPanic, >>=-NoPanic, >>=-eq-ok, map_ok-eq-ok, map_err-NoPanic, traverse-NoPanic, ensure-NoPanic,
  ensure-eq-ok, Traversed, traverse-eq-ok, Outcome-cases, traverse, map_ok, ensure,
}
use httpsig_rs.Error.{HyperSigError}
use httpsig_rs.Http.{Http, Request}
use httpsig_rs.Sfv.{Sfv, or_error-NoPanic, or_error}
use httpsig_rs.Component.Name.{HttpMessageComponentName}
use httpsig_rs.Component.Param.{HttpMessageComponentParams}
use httpsig_rs.Component.Id.{HttpMessageComponentId}
use httpsig_rs.Component.Build.{HttpMessageComponent}
use httpsig_rs.Params.{HttpSignatureParams}
use httpsig_rs.Signature.{HttpSignatureBase}
use httpsig_rs.Signature.Ids.{Covers, base_try_new_iff}
use httpsig_rs.Component.Id.Equality.{id_beq_refl}
use httpsig_rs.Hyper.{RequestOrResponse, headers}
use httpsig_rs.Hyper.Derived.{
  has_req, is_request, check_params, check_message, derived_field_values, extract_derived,
  extract_derived_component,
}
use httpsig_rs.Hyper.Extract.{
  extract_field, extract_http_field, extract_http_message_component, from_source_request,
  component_line, build_signature_base,
}
use httpsig_rs.Hyper.Extract.Checks.{
  check_params-NoPanic, check_message-NoPanic, derived_field_values-NoPanic, at,
  base_try_new-NoPanic, built-NoPanic, built-id,
}

module _ {h : Http} (sfv : Sfv) where
  extract_at-NoPanic :
      (m : RequestOrResponse h) (n : HttpMessageComponentName) (ps : HttpMessageComponentParams)
      → NoPanic (extract_http_message_component sfv m (at n ps))
  unfolding extract_http_message_component extract_http_field extract_field
      extract_derived_component extract_derived
  extract_at-NoPanic m (HttpMessageComponentName.http_field f) ps =
      built-NoPanic sfv (at (HttpMessageComponentName.http_field f) ps) _
        (traverse-NoPanic _ (h.get_all (headers m) f) (λ v. or_error-NoPanic _ (h.to_str v)))
  extract_at-NoPanic m (HttpMessageComponentName.derived d) ps =
      >>=-NoPanic (check_params m d ps) _ (check_params-NoPanic m d ps) (λ _.
        >>=-NoPanic (check_message m d ps) _ (check_message-NoPanic m d ps) (λ _.
          built-NoPanic sfv (at (HttpMessageComponentName.derived d) ps) _
            (derived_field_values-NoPanic m d)))

  extract_at-id :
      (m : RequestOrResponse h) (n : HttpMessageComponentName) (ps : HttpMessageComponentParams)
      (c : HttpMessageComponent)
      → extract_http_message_component sfv m (at n ps) ≡ ok c
      → c.id ≡ at n ps
  unfolding extract_http_message_component extract_http_field extract_field
      extract_derived_component extract_derived
  extract_at-id m (HttpMessageComponentName.http_field f) ps c e =
      built-id sfv (at (HttpMessageComponentName.http_field f) ps)
        (traverse (λ v. or_error HyperSigError.failed_to_str_signature_headers (h.to_str v))
          (h.get_all (headers m) f))
        c e
  extract_at-id m (HttpMessageComponentName.derived d) ps c e =
      let (_, _, e1) = >>=-eq-ok (check_params m d ps) _ e in
      let (_, _, e2) = >>=-eq-ok (check_message m d ps) _ e1 in
      built-id sfv (at (HttpMessageComponentName.derived d) ps) (derived_field_values m d) c e2

  from_source_request-NoPanic :
      (req : Option (Request h)) (id : HttpMessageComponentId)
      → NoPanic (from_source_request sfv req id)
  unfolding from_source_request
  from_source_request-NoPanic none id = λ t e. cc
  from_source_request-NoPanic (some r) id =
      extract_at-NoPanic (RequestOrResponse.request r) id.name id.params

  from_source_request-id :
      (req : Option (Request h)) (id : HttpMessageComponentId) (c : HttpMessageComponent)
      → from_source_request sfv req id ≡ ok c
      → c.id ≡ id
  unfolding from_source_request
  from_source_request-id none id c e = cc
  from_source_request-id (some r) id c e =
      extract_at-id (RequestOrResponse.request r) id.name id.params c e

  component_line-NoPanic :
      (m : RequestOrResponse h) (req : Option (Request h)) (id : HttpMessageComponentId)
      → NoPanic (component_line sfv m req id)
  unfolding component_line
  component_line-NoPanic m req id = elim (Bool-cases (has_req id.params)) [
    | inl tagged ↦ rw tagged (
        >>=-NoPanic (ensure (not (is_request m)) _) _ (ensure-NoPanic (not (is_request m)) _)
          (λ _. from_source_request-NoPanic req id))
    | inr untagged ↦ rw untagged (extract_at-NoPanic m id.name id.params)
  ]

  component_line-id :
      (m : RequestOrResponse h) (req : Option (Request h)) (id : HttpMessageComponentId)
      (c : HttpMessageComponent)
      → component_line sfv m req id ≡ ok c
      → c.id ≡ id
  unfolding component_line
  component_line-id m req id c e = elim (Bool-cases (has_req id.params)) [
    | inl tagged ↦
        from_source_request-id req id c (ensure-eq-ok (not (is_request m)) _ _ (rw tagged at e)).1
    | inr untagged ↦ extract_at-id m id.name id.params c (rw untagged at e)
  ]

  component_lines-ids :
      (m : RequestOrResponse h) (req : Option (Request h)) (ids : List HttpMessageComponentId)
      (lines : List HttpMessageComponent)
      → Traversed (component_line sfv m req) ids lines
      → Covers lines ids × (map (λ c. c.id) lines ≡ ids)
  component_lines-ids m req [] [] t = (tt, refl)
  component_lines-ids m req [] (c ∷ cs) t = absurd t
  component_lines-ids m req (id ∷ ids) [] t = absurd t
  component_lines-ids m req (id ∷ ids) (c ∷ cs) t =
      let (covers, same) = component_lines-ids m req ids cs t.1 in
      let here = component_line-id m req id c t.0 in ((rw here (id_beq_refl id), covers), cc)

  -- Building the base of a message never panics, whatever the message, the parameters and the
  -- request that a response answers.
  pub build_signature_base-NoPanic :
      (m : RequestOrResponse h) (p : HttpSignatureParams) (req : Option (Request h))
      → NoPanic (build_signature_base sfv m p req)
  unfolding build_signature_base
  build_signature_base-NoPanic m p req =
      >>=-NoPanic (traverse (component_line sfv m req) p.covered_components) _
        (traverse-NoPanic (component_line sfv m req) p.covered_components
          (component_line-NoPanic m req))
        (λ lines. map_err-NoPanic HyperSigError.http_sig_error _ (base_try_new-NoPanic lines p))

  -- The base of a message exists exactly if each covered component can be taken from the message,
  -- or from the request answered; it has their lines in the order of the parameters. The tests of
  -- number and order that the base itself makes never fail here.
  pub build_signature_base-lines :
      (m : RequestOrResponse h) (p : HttpSignatureParams) (req : Option (Request h))
      → build_signature_base sfv m p req
        ≡ map_ok
            (λ lines. record { component_lines = lines; signature_params = p })
            (traverse (component_line sfv m req) p.covered_components)
  unfolding build_signature_base
  build_signature_base-lines m p req =
      elim (Outcome-cases (traverse (component_line sfv m req) p.covered_components)) [
        | inl (lines, e) ↦ rw (
          e,
          (base_try_new_iff lines p _).1 (
            (component_lines-ids m req p.covered_components lines
                (traverse-eq-ok _ p.covered_components lines e)).0,
            refl,
          ),
        )
        | inr (inl (d, e)) ↦ rw e
        | inr (inr (t, e)) ↦ rw e
      ]

  -- A built base covers the components of the parameters, one line for each and in their order.
  pub build_signature_base-ids :
      (m : RequestOrResponse h) (p : HttpSignatureParams) (req : Option (Request h))
      (b : HttpSignatureBase)
      → build_signature_base sfv m p req ≡ ok b
      → (map (λ c. c.id) b.component_lines ≡ p.covered_components) × (b.signature_params ≡ p)
  build_signature_base-ids m p req b e =
      let (lines, built, same) =
        map_ok-eq-ok (λ ls. record { component_lines = ls; signature_params = p })
          (traverse (component_line sfv m req) p.covered_components)
          (sym (build_signature_base-lines m p req) ∙ e) in
      (
        ap (λ x. map (λ c. c.id) x.component_lines) (sym same)
            ∙ (component_lines-ids m req p.covered_components lines
                (traverse-eq-ok _ p.covered_components lines built)).1,
        ap (λ x. x.signature_params) (sym same),
      )
