-- ===== src/Hyper/Extract/Checks.antt =====
-- That the checks and field values of components never panic, for hyper_http.rs.
use httpsig_rs.Base.{
  ◌≡◌, String, List, [], ◌∷◌, Outcome, ok, NoPanic, >>=-NoPanic, >>=-eq-ok, map_err-NoPanic,
  map_err-eq-ok, ensure-NoPanic, map_err, ◌>>=◌, arith,
}
use httpsig_rs.Error.{HyperSigError}
use httpsig_rs.Http.{Http}
use httpsig_rs.Sfv.{Sfv}
use httpsig_rs.Component.Name.{HttpMessageComponentName, DerivedComponentName}
use httpsig_rs.Component.Param.{HttpMessageComponentParam, HttpMessageComponentParams}
use httpsig_rs.Component.Id.{HttpMessageComponentId}
use httpsig_rs.Component.Build.{HttpMessageComponent, component_try_from}
use httpsig_rs.Component.Build.Laws.{component_try_from-id, component_try_from-NoPanic}
use httpsig_rs.Params.{HttpSignatureParams}
use httpsig_rs.Signature.{base_try_new}
use httpsig_rs.Hyper.{RequestOrResponse, method, uri, status}
use httpsig_rs.Hyper.Derived.{check_param, check_params, check_message, derived_field_values}

module _ {h : Http} where
  check_param-NoPanic :
      (m : RequestOrResponse h) (d : DerivedComponentName) (p : HttpMessageComponentParam)
      → NoPanic (check_param m d p)
  unfolding check_param
  check_param-NoPanic m d (HttpMessageComponentParam.name _) = ensure-NoPanic _ _
  check_param-NoPanic m d HttpMessageComponentParam.req = ensure-NoPanic _ _
  check_param-NoPanic m d _ = λ t e. cc

  pub check_params-NoPanic :
      (m : RequestOrResponse h) (d : DerivedComponentName) (ps : List HttpMessageComponentParam)
      → NoPanic (check_params m d ps)
  unfolding check_params
  check_params-NoPanic m d [] = λ t e. cc
  check_params-NoPanic m d (p ∷ ps) =
      >>=-NoPanic (check_param m d p) _ (check_param-NoPanic m d p)
        (λ _. check_params-NoPanic m d ps)

  pub check_message-NoPanic :
      (m : RequestOrResponse h) (d : DerivedComponentName) (ps : HttpMessageComponentParams)
      → NoPanic (check_message m d ps)
  unfolding check_message
  check_message-NoPanic (RequestOrResponse.request _) d ps = ensure-NoPanic _ _
  check_message-NoPanic (RequestOrResponse.response _) d ps = λ t e. ground arith

  pub derived_field_values-NoPanic :
      (m : RequestOrResponse h) (d : DerivedComponentName) → NoPanic (derived_field_values m d)
  unfolding derived_field_values method uri status
  derived_field_values-NoPanic (RequestOrResponse.request _) DerivedComponentName.method = λ t e. cc
  derived_field_values-NoPanic (RequestOrResponse.request _) _ = λ t e. cc
  derived_field_values-NoPanic (RequestOrResponse.response _) DerivedComponentName.method =
      λ t e. cc
  derived_field_values-NoPanic (RequestOrResponse.response _) _ = λ t e. cc

abbrev pub at : HttpMessageComponentName → HttpMessageComponentParams → HttpMessageComponentId
at n ps = record { name = n; params = ps }

pub base_try_new-NoPanic :
    (lines : List HttpMessageComponent) (p : HttpSignatureParams) → NoPanic (base_try_new lines p)
unfolding base_try_new
base_try_new-NoPanic lines p t e = ground arith

module _ (sfv : Sfv) where
  pub built-NoPanic :
      (id : HttpMessageComponentId) (values : Outcome HyperSigError (List String))
      → NoPanic values
      → NoPanic
          (values >>= λ vs. map_err HyperSigError.http_sig_error (component_try_from sfv id vs))
  built-NoPanic id values k =
      >>=-NoPanic values _ k (λ vs.
        map_err-NoPanic HyperSigError.http_sig_error _ (component_try_from-NoPanic sfv id vs))

  pub built-id :
      (id : HttpMessageComponentId) (values : Outcome HyperSigError (List String))
      (c : HttpMessageComponent)
      → (values >>= λ vs. map_err HyperSigError.http_sig_error (component_try_from sfv id vs))
        ≡ ok c
      → c.id ≡ id
  built-id id values c e =
      let (vs, _, e') = >>=-eq-ok values _ e in
      component_try_from-id sfv id vs c (map_err-eq-ok HyperSigError.http_sig_error _ e')
