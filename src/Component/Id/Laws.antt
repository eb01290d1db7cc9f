-- ===== src/Component/Id/Laws.antt =====
-- Which component ids are accepted, for component_id.rs.
use httpsig_rs.Base.{
  trim, ◌≡◌, sym, refl, true, false, Bool-cases, inl, inr, String, List, [], ◌∷◌, any, All, All-map,
  All-zip, arith, ok, ok-injective, >>=-eq-ok, map_ok-eq-ok, traverse, Bool, not, ◌&&◌,
}
use httpsig_rs.Error.{HttpSigError}
use httpsig_rs.Sfv.{Sfv, BareItem, Item, or_error}
use httpsig_rs.Util.Unique.{IsSetOf, collect_set-IsSetOf}
use httpsig_rs.Component.Name.{HttpMessageComponentName, DerivedComponentName, name_try_from}
use httpsig_rs.Component.Param.{
  HttpMessageComponentParam, HttpMessageComponentParams, param_eq, params_try_from, param_try_from,
}
use httpsig_rs.Component.Id.{
  HttpMessageComponentId, is_name_param, is_field_param, is_query_param, is_http_field, check_id,
  quoted, id_try_from,
}

-- The parameters that a name takes: an http field all but `name`, a derived component `req`, and
-- `@query-param` also `name`.
abbrev pub Allowed : HttpMessageComponentName → HttpMessageComponentParam → Type 0
Allowed (HttpMessageComponentName.http_field _) (HttpMessageComponentParam.name _) = ⊥
Allowed (HttpMessageComponentName.http_field _) _ = Unit
Allowed (HttpMessageComponentName.derived _) HttpMessageComponentParam.req = Unit
Allowed (HttpMessageComponentName.derived DerivedComponentName.query_param)
      (HttpMessageComponentParam.name _) =
    Unit
Allowed (HttpMessageComponentName.derived _) _ = ⊥

pub record IsValid (id : HttpMessageComponentId) : Type 0 where
  pub allowed : All (Allowed id.name) id.params
  pub once : IsSetOf id.params

-- A parameter passes both tests exactly if the name takes it.
passes : HttpMessageComponentName → HttpMessageComponentParam → Bool
passes n p =
    not (is_name_param p && not (is_query_param n))
    && not (is_field_param p && not (is_http_field n))

passes_sound :
    (n : HttpMessageComponentName) (p : HttpMessageComponentParam) → passes n p ≡ true → Allowed n p
unfolding passes
passes_sound (HttpMessageComponentName.http_field _) (HttpMessageComponentParam.name _) h = cc
passes_sound (HttpMessageComponentName.http_field _) _ h = tt
passes_sound (HttpMessageComponentName.derived _) HttpMessageComponentParam.req h = tt
passes_sound (HttpMessageComponentName.derived DerivedComponentName.query_param)
      (HttpMessageComponentParam.name _) h =
    tt
passes_sound _ _ h = cc

passes_complete :
    (n : HttpMessageComponentName) (p : HttpMessageComponentParam) → Allowed n p → passes n p ≡ true
unfolding passes
passes_complete (HttpMessageComponentName.http_field _) (HttpMessageComponentParam.name _) h =
    absurd h
passes_complete (HttpMessageComponentName.http_field _) _ h = refl
passes_complete (HttpMessageComponentName.derived _) HttpMessageComponentParam.req h = refl
passes_complete (HttpMessageComponentName.derived DerivedComponentName.query_param)
      (HttpMessageComponentParam.name _) h =
    refl
passes_complete _ _ h = absurd h

module _ (p : HttpMessageComponentParam → Bool) (c : Bool) where
  All-of_any_and :
      (ps : HttpMessageComponentParams) → (any p ps && c) ≡ false → All (λ x. (p x && c) ≡ false) ps
  All-of_any_and [] h = tt
  All-of_any_and (x ∷ xs) h = (ground arith, All-of_any_and xs (ground arith))

  any_and_of_All :
      (ps : HttpMessageComponentParams) → All (λ x. (p x && c) ≡ false) ps → (any p ps && c) ≡ false
  any_and_of_All [] h = refl
  any_and_of_All (x ∷ xs) h = ground (arith, any_and_of_All xs h.1, h.0)

module _ (id : HttpMessageComponentId) where
  -- The conditions of the two assertions.
  abbrev pub misnamed : Bool
  misnamed = any is_name_param id.params && not (is_query_param id.name)

  abbrev pub misplaced : Bool
  misplaced = any is_field_param id.params && not (is_http_field id.name)

  pub check_id_inversion :
      (r : HttpMessageComponentId)
      → check_id id ≡ ok r
      → (r ≡ id) × (misnamed ≡ false) × (misplaced ≡ false)
  unfolding check_id
  check_id_inversion r h = elim (Bool-cases misnamed) [
    | inl bad ↦ cc (rw bad at h)
    | inr fine ↦ elim (Bool-cases misplaced) [
      | inl bad ↦ cc (rw (fine, bad) at h)
      | inr well ↦ (sym (ok-injective (rw (fine, well) at h)), fine, well)
    ]
  ]

  All-Allowed : misnamed ≡ false → misplaced ≡ false → All (Allowed id.name) id.params
  unfolding passes
  All-Allowed f w =
      All-zip (λ p a b. passes_sound id.name p (ground (arith, a, b))) id.params
        (All-of_any_and is_name_param _ id.params f) (All-of_any_and is_field_param _ id.params w)

  -- An id whose parameters are all allowed passes.
  pub check_id_complete : All (Allowed id.name) id.params → check_id id ≡ ok id
  unfolding check_id passes
  check_id_complete h = rw (
    any_and_of_All is_name_param (not (is_query_param id.name)) id.params
        (All-map (λ p a. ground (arith, passes_complete id.name p a)) id.params h),
    any_and_of_All is_field_param (not (is_http_field id.name)) id.params
        (All-map (λ p a. ground (arith, passes_complete id.name p a)) id.params h),
  )

params_try_from-IsSetOf :
    {ps : HttpMessageComponentParams} (val : List (String × BareItem))
    → params_try_from val ≡ ok ps
    → IsSetOf ps
unfolding params_try_from
params_try_from-IsSetOf val h =
    let (xs, _, e) = map_ok-eq-ok _ (traverse param_try_from val) h in
    rw (← e) (collect_set-IsSetOf [] xs tt)

-- Whatever the text and whatever the parser made of it, an id that is accepted has only parameters
-- that its name takes, and none of them twice.
pub id_try_from-IsValid :
    (sfv : Sfv) (val : String) (id : HttpMessageComponentId)
    → id_try_from sfv val ≡ ok id
    → IsValid id
unfolding id_try_from
id_try_from-IsValid sfv val id h =
    let (item, _, h₁) =
      >>=-eq-ok {A = Item}
        (or_error HttpSigError.parse_sfv_error (Sfv.parse_item sfv (quoted (trim val)))) _ h in
    let (name, _, h₂) = >>=-eq-ok (name_try_from sfv item.bare_item) _ h₁ in
    let (params, e, h₃) = >>=-eq-ok (params_try_from item.params) _ h₂ in
    let (same, f, w) = check_id_inversion _ id h₃ in
    rw same (record { allowed = All-Allowed _ f w; once = params_try_from-IsSetOf item.params e })
