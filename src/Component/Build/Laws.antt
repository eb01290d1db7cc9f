-- ===== src/Component/Build/Laws.antt =====
-- What building a component gives, for component.rs.
use Prim.Native.String as Text
use httpsig_rs.Base.{
  is_some, unwrap, contains_char, split_once, trim, filter, find_map, traverse, map_ok-NoPanic,
  Bool-cases, inl, inr, ℕ, code, ◌==◌, nat_eq, none, some, Option, Outcome, ◌>>=◌, ◌≡◌, refl, true,
  ◌||◌, String, List, [], ◌∷◌, all, All, All-of_all, All-map, arith, ok, NoPanic, >>=-NoPanic,
  >>=-eq-ok, ensure, ensure-NoPanic, ensure-eq-ok, ◌≢◌, join,
}
use httpsig_rs.Sfv.{Sfv}
use httpsig_rs.Component.Param.Laws.{handle_params_sf-NoPanic, handle_params_key_into-NoPanic}
use httpsig_rs.Component.Name.{HttpMessageComponentName, DerivedComponentName}
use httpsig_rs.Component.Param.{HttpMessageComponentParam, HttpMessageComponentParams}
use httpsig_rs.Component.Id.{HttpMessageComponentId, is_name_param}
use httpsig_rs.Component.Value.{value_from_str}
use httpsig_rs.Component.Build.{
  HttpMessageComponent, is_req, derived_value, query_param_values, name_value, build_derived,
  build_derived_component, apply_param, apply_params, build_http_field_component,
  component_try_from,
}

build_derived-id :
    (id : HttpMessageComponentId) (d : DerivedComponentName) (values : List String)
    {c : HttpMessageComponent}
    → build_derived id d values ≡ ok c
    → c.id ≡ id
unfolding build_derived
build_derived-id id d [] h = cc
build_derived-id id d (value ∷ rest) h = ground arith

build_http_field_component-id :
    (sfv : Sfv) (id : HttpMessageComponentId) (values : List String) {c : HttpMessageComponent}
    → build_http_field_component sfv id values ≡ ok c
    → c.id ≡ id
unfolding build_http_field_component
build_http_field_component-id sfv id values h = ground arith

abbrev at : HttpMessageComponentName → HttpMessageComponentParams → HttpMessageComponentId
at n ps = record { name = n; params = ps }

component_try_from-id_at :
    (sfv : Sfv) (n : HttpMessageComponentName) (ps : HttpMessageComponentParams)
    (values : List String) (c : HttpMessageComponent)
    → component_try_from sfv (at n ps) values ≡ ok c
    → c.id ≡ at n ps
unfolding component_try_from build_derived_component
component_try_from-id_at sfv (HttpMessageComponentName.http_field _) ps values c h =
    build_http_field_component-id sfv _ values h
component_try_from-id_at sfv (HttpMessageComponentName.derived d) ps values c h =
    build_derived-id _ d values h

-- A component is built for the id that it was asked for.
pub component_try_from-id :
    (sfv : Sfv) (id : HttpMessageComponentId) (values : List String) (c : HttpMessageComponent)
    → component_try_from sfv id values ≡ ok c
    → c.id ≡ id
component_try_from-id sfv id = component_try_from-id_at sfv id.name id.params

-- What is tested first can be unwrapped.
unwrap_tested-NoPanic :
    {E A B : Type 0} (o : Option A) (e : E) (f : A → Outcome E B)
    → ((a : A) → NoPanic (f a))
    → NoPanic (ensure (is_some o) e >>= λ _. unwrap o >>= f)
unwrap_tested-NoPanic none e f k = λ t h. cc
unwrap_tested-NoPanic (some a) e f k = k a

split_once-found :
    (c : ℕ) (s : String)
    → contains_char c s ≡ true
    → (p : String × String) × (split_once c s ≡ some p)
unfolding split_once contains_char
split_once-found c Text.[] h = cc
split_once-found c (Text.◌∷◌ d s) h = elim (Bool-cases (code d == c)) [
  | inl here ↦ ((Text.[], s), rw here refl)
  | inr other ↦
      let (p, found) = split_once-found c s (rw other at h) in
      ((Text.◌∷◌ d (p.0), p.1), rw (other, found) refl)
]

unwrap-NoPanic : {E A : Type 0} (o : Option A) (a : A) → o ≡ some a → NoPanic {E = E} (unwrap o)
unwrap-NoPanic none a h = cc
unwrap-NoPanic (some b) a h = λ t e. cc

-- The pieces that are split are those that have an equals sign.
split_pieces-NoPanic :
    {E : Type 0} (vs : List String)
    → NoPanic {E = E} (traverse (λ v. unwrap (split_once b'=' v)) (filter (contains_char b'=') vs))
split_pieces-NoPanic [] = λ t h. cc
split_pieces-NoPanic (v ∷ vs) = elim (Bool-cases (contains_char b'=' v)) [
  | inl there ↦
      let (p, found) = split_once-found b'=' v there in
      rw there (
        >>=-NoPanic (unwrap (split_once b'=' v)) _ (unwrap-NoPanic (split_once b'=' v) p found)
          (λ y. map_ok-NoPanic _ _ (split_pieces-NoPanic vs)))
  | inr other ↦ rw other (split_pieces-NoPanic vs)
]

query_param_values-NoPanic :
    {E : Type 0} (name : String) (vs : List String) → NoPanic {E = E} (query_param_values name vs)
unfolding query_param_values
query_param_values-NoPanic name vs =
    >>=-NoPanic (traverse (λ v. unwrap (split_once b'=' v)) (filter (contains_char b'=') vs)) _
      (split_pieces-NoPanic vs) (λ pairs t h. cc)

derived_value-NoPanic :
    (d : DerivedComponentName) (ps : HttpMessageComponentParams) (v : String) (vs : List String)
    → NoPanic (derived_value d ps (v ∷ vs))
unfolding derived_value
derived_value-NoPanic DerivedComponentName.query_param ps v vs =
    unwrap_tested-NoPanic (find_map name_value ps) _ _ (λ name.
      >>=-NoPanic (query_param_values name (v ∷ vs)) _ (query_param_values-NoPanic name (v ∷ vs))
        (λ kvs t h. cc))
derived_value-NoPanic DerivedComponentName.signature_params ps v vs =
    unwrap_tested-NoPanic (split_once b'=' (trim v)) _ _ (λ pair t h. cc)
derived_value-NoPanic DerivedComponentName.method ps v vs = λ t h. cc
derived_value-NoPanic _ ps v vs = λ t h. cc

build_derived-NoPanic :
    (id : HttpMessageComponentId) (d : DerivedComponentName) (values : List String)
    → NoPanic (build_derived id d values)
unfolding build_derived
build_derived-NoPanic id d [] = λ t h. cc
build_derived-NoPanic id d (v ∷ vs) = >>=-NoPanic (ensure _ _) _ (ensure-NoPanic _ _) (λ _.
    >>=-NoPanic (derived_value d id.params (v ∷ vs)) _ (derived_value-NoPanic d _ v vs)
      (λ r t h. cc))

apply_param-NoPanic :
    (sfv : Sfv) (p : HttpMessageComponentParam) (values : List String)
    → NoPanic (apply_param sfv p values)
unfolding apply_param
apply_param-NoPanic sfv HttpMessageComponentParam.sf values = handle_params_sf-NoPanic sfv values
apply_param-NoPanic sfv (HttpMessageComponentParam.key k) values =
    handle_params_key_into-NoPanic sfv values k
apply_param-NoPanic sfv _ values = λ t h. cc

apply_params-NoPanic :
    (sfv : Sfv) (ps : List HttpMessageComponentParam) (values : List String)
    → NoPanic (apply_params sfv ps values)
unfolding apply_params
apply_params-NoPanic sfv [] values = λ t h. cc
apply_params-NoPanic sfv (p ∷ ps) values =
    >>=-NoPanic (apply_param sfv p values) _ (apply_param-NoPanic sfv p values)
      (apply_params-NoPanic sfv ps)

component_try_from-NoPanic-at :
    (sfv : Sfv) (n : HttpMessageComponentName) (ps : HttpMessageComponentParams)
    (values : List String)
    → NoPanic (component_try_from sfv (at n ps) values)
unfolding component_try_from build_derived_component build_http_field_component
component_try_from-NoPanic-at sfv (HttpMessageComponentName.http_field _) ps values =
    >>=-NoPanic (apply_params sfv ps values) _ (apply_params-NoPanic sfv ps values) (λ vs t h. cc)
component_try_from-NoPanic-at sfv (HttpMessageComponentName.derived d) ps values =
    build_derived-NoPanic (at (HttpMessageComponentName.derived d) ps) d values

-- Building a component from field values never panics, whatever the id, the values and the parser
-- of structured fields.
pub component_try_from-NoPanic :
    (sfv : Sfv) (id : HttpMessageComponentId) (values : List String)
    → NoPanic (component_try_from sfv id values)
component_try_from-NoPanic sfv id = component_try_from-NoPanic-at sfv id.name id.params

-- The parameters that an http field component is built with.
abbrev pub Supported : HttpMessageComponentParam → Type 0
Supported HttpMessageComponentParam.sf = Unit
Supported (HttpMessageComponentParam.key _) = Unit
Supported HttpMessageComponentParam.req = Unit
Supported _ = ⊥

apply_param-Supported :
    (sfv : Sfv) (p : HttpMessageComponentParam) (values : List String) {r : List String}
    → apply_param sfv p values ≡ ok r
    → Supported p
unfolding apply_param
apply_param-Supported sfv HttpMessageComponentParam.sf values h = tt
apply_param-Supported sfv (HttpMessageComponentParam.key _) values h = tt
apply_param-Supported sfv HttpMessageComponentParam.req values h = tt
apply_param-Supported sfv _ values h = cc

apply_params-Supported :
    (sfv : Sfv) (ps : List HttpMessageComponentParam) (values : List String) {r : List String}
    → apply_params sfv ps values ≡ ok r
    → All Supported ps
unfolding apply_params
apply_params-Supported sfv [] values h = tt
apply_params-Supported sfv (p ∷ ps) values h =
    let (vs, e, h') = >>=-eq-ok (apply_param sfv p values) _ h in
    (apply_param-Supported sfv p values e, apply_params-Supported sfv ps vs h')

-- An http field component is built only if its parameters are `sf`, `key` and `req`.
pub build_http_field_component-Supported :
    (sfv : Sfv) (id : HttpMessageComponentId) (values : List String) (c : HttpMessageComponent)
    → build_http_field_component sfv id values ≡ ok c
    → All Supported id.params
unfolding build_http_field_component
build_http_field_component-Supported sfv id values c h =
    let (vs, e, _) = >>=-eq-ok (apply_params sfv id.params values) _ h in
    apply_params-Supported sfv id.params values e

apply_params_of_req :
    (sfv : Sfv) (ps : List HttpMessageComponentParam) (values : List String)
    → All (λ p. p ≡ HttpMessageComponentParam.req) ps
    → apply_params sfv ps values ≡ ok values
unfolding apply_params apply_param
apply_params_of_req sfv [] values h = refl
apply_params_of_req sfv (p ∷ ps) values h = rw (h.0) (apply_params_of_req sfv ps values h.1)

-- Without a parameter that rewrites them, the value of an http field is its field values in order,
-- joined by a comma and a space.
pub build_http_field_component_plain :
    (sfv : Sfv) (id : HttpMessageComponentId) (values : List String)
    → All (λ p. p ≡ HttpMessageComponentParam.req) id.params
    → build_http_field_component sfv id values
      ≡ ok (record { id = id; value = value_from_str (join ", " values) })
unfolding build_http_field_component
build_http_field_component_plain sfv id values h = rw (apply_params_of_req sfv id.params values h)

-- The parameters that a derived component is built with.
abbrev pub OnDerived : HttpMessageComponentParam → Type 0
OnDerived HttpMessageComponentParam.req = Unit
OnDerived (HttpMessageComponentParam.name _) = Unit
OnDerived _ = ⊥

OnDerived-of_test :
    (p : HttpMessageComponentParam) → (is_req p || is_name_param p) ≡ true → OnDerived p
OnDerived-of_test HttpMessageComponentParam.req h = tt
OnDerived-of_test (HttpMessageComponentParam.name _) h = tt
OnDerived-of_test _ h = cc

-- A derived component is built only from at least one field value and with no parameter but `req`
-- and `name`.
pub build_derived_component-OnDerived :
    (d : DerivedComponentName) (ps : HttpMessageComponentParams) (values : List String)
    (c : HttpMessageComponent)
    → build_derived_component
        (record { name = HttpMessageComponentName.derived d; params = ps })
        values
      ≡ ok c
    → All OnDerived ps × (values ≢ [])
unfolding build_derived_component build_derived
build_derived_component-OnDerived d ps [] c h = cc
build_derived_component-OnDerived d ps (v ∷ vs) c h =
    let (passed, _) = ensure-eq-ok (all (λ p. is_req p || is_name_param p) ps) _ _ h in
    (All-map OnDerived-of_test ps (All-of_all _ ps passed), λ e. cc)
