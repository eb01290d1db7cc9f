-- ===== src/Hyper/Target.antt =====
-- The component `@request-target` of a request, for `extract_derived_component` of hyper_http.rs.
use httpsig_rs.Base.{
  ◌≡◌, ap, refl, sym, ◌∙◌, ◌↔◌, ◌⊎◌, inl, inr, Bool-cases, String, false, none, [], Outcome, ok,
  ok-injective, ◌==◌, string_eq,
}
use httpsig_rs.Http.{Http, Request, Uri}
use httpsig_rs.Error.{HyperSigError}
use httpsig_rs.Sfv.{Sfv}
use httpsig_rs.Component.Name.{HttpMessageComponentName, DerivedComponentName}
use httpsig_rs.Component.Id.{HttpMessageComponentId}
use httpsig_rs.Component.Value.{value_from_str, value_to_string}
use httpsig_rs.Component.Build.{HttpMessageComponent, component_try_from}
use httpsig_rs.Hyper.{RequestOrResponse, method, uri}
use httpsig_rs.Hyper.Derived.{or_empty, request_target}
use httpsig_rs.Hyper.Extract.{component_line}

abbrev pub target_id : HttpMessageComponentId
target_id = record {
  name = HttpMessageComponentName.derived DerivedComponentName.request_target;
  params = [];
}

abbrev pub target_line : String → HttpMessageComponent
target_line text = record { id = target_id; value = value_from_str text }

-- The path and query of a target, as an HTTP/1.1 request line has it (RFC 9112, section 3.2): an
-- asterisk where the request is for no resource.
abbrev pub path_and_query_text : Uri → String
path_and_query_text u = or_empty u.path_and_query

target_line-injective :
    (s t : String)
    → ◌≡◌ {A = Outcome HyperSigError HttpMessageComponent} (ok (target_line s)) (ok (target_line t))
    → s ≡ t
unfolding value_to_string
target_line-injective s t e = ap (λ c. value_to_string c.value) (ok-injective e)

target_of :
    (name : String) (u : Uri)
    → (name == "CONNECT") ≡ false
    → (request_target name u ≡ path_and_query_text u)
      ↔ (((name == "OPTIONS") ≡ false) ⊎ (path_and_query_text u ≡ "*"))
unfolding request_target
target_of name u not_connect = elim (Bool-cases (name == "OPTIONS")) [
  | inl asked ↦ (
    λ e. inr (sym (rw (not_connect, asked) at e)),
    λ k. elim k [ inl other ↦ cc | inr star ↦ rw (not_connect, asked) (sym star) ],
  )
  | inr other ↦ (λ e. inl other, λ k. rw (not_connect, other) refl)
]

module _ {h : Http} (sfv : Sfv) where
  line_of_target :
      (r : Request h)
      → component_line sfv (RequestOrResponse.request r) none target_id
        ≡ ok (target_line (request_target r.method r.uri))
  unfolding component_line component_try_from method uri
  line_of_target r = refl

  -- For a request whose method is not `CONNECT`, the line of `@request-target` is the path and query
  -- of its target exactly if the method is not `OPTIONS` either or this is the asterisk: an `OPTIONS`
  -- request for a path is signed as one for the asterisk.
  pub component_line-target_iff :
      (r : Request h)
      → (r.method == "CONNECT") ≡ false
      → (component_line sfv (RequestOrResponse.request r) none target_id
          ≡ ok (target_line (path_and_query_text r.uri)))
        ↔ (((r.method == "OPTIONS") ≡ false) ⊎ (path_and_query_text r.uri ≡ "*"))
  component_line-target_iff r not_connect =
      let (there, back) = target_of r.method r.uri not_connect in
      (
        λ e. there (target_line-injective _ _ (sym (line_of_target r) ∙ e)),
        λ k. line_of_target r ∙ ap (λ t. ok (target_line t)) (back k),
      )
