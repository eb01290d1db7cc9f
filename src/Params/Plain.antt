-- ===== src/Params/Plain.antt =====
-- Component ids and parameters with plain texts, and the texts of ids against RFC 8941, for
-- component_id.rs and signature_params.rs.
use httpsig_rs.Base.{
  inl, inr, ltb, ◌^◌, true, ◌≡◌, ◌≢◌, refl, ap, sym, ◌∙◌, inl, inr, Bool-cases, ℕ, String, false,
  List, [], ◌∷◌, map, All, Option, none, some, ◌==◌, string_eq, eq_iff, ◌<>◌, <>-nil, <>_assoc,
  <>-filled, join,
}
use httpsig_rs.Sfv.{BareItem}
use httpsig_rs.Sfv.Canonical.{
  IsPlain, escaped, escaped-plain, bare_item, parameter, parameters, item,
}
use httpsig_rs.Component.Name.{
  HttpMessageComponentName, DerivedComponentName, derived_as_ref, name_to_string,
}
use httpsig_rs.Component.Param.{
  HttpMessageComponentParam, HttpMessageComponentParams, param_to_string, params_to_string,
}
use httpsig_rs.Component.Id.{HttpMessageComponentId, id_to_string}
use httpsig_rs.Component.Id.Written.{name_text, param_field, id_field}
use httpsig_rs.Params.{HttpSignatureParams, join_components}

abbrev pub IsPlainName : HttpMessageComponentName → Type 0
IsPlainName (HttpMessageComponentName.http_field val) = IsPlain val
IsPlainName (HttpMessageComponentName.derived _) = Unit

abbrev pub IsPlainParam : HttpMessageComponentParam → Type 0
IsPlainParam (HttpMessageComponentParam.key val) = IsPlain val
IsPlainParam (HttpMessageComponentParam.name val) = IsPlain val
IsPlainParam _ = Unit

-- Every character of the id's texts is visible ASCII and neither a double quote nor a backslash.
abbrev pub IsPlainId : HttpMessageComponentId → Type 0
IsPlainId id = IsPlainName id.name × All IsPlainParam id.params

abbrev pub IsPlainText : Option String → Type 0
IsPlainText none = Unit
IsPlainText (some s) = IsPlain s

-- At most fifteen digits.
abbrev pub IsShortInt : Option ℕ → Type 0
IsShortInt none = Unit
IsShortInt (some n) = ltb n (10 ^ 15) ≡ true

-- No text of the parameters has a character that is not visible ASCII, a double quote or a
-- backslash, and no timestamp more than fifteen digits.
pub record HasPlainTexts (p : HttpSignatureParams) : Type 0 where
  pub ids : All IsPlainId p.covered_components
  pub created : IsShortInt p.created
  pub expires : IsShortInt p.expires
  pub nonce : IsPlainText p.nonce
  pub alg : IsPlainText p.alg
  pub keyid : IsPlainText p.keyid
  pub tag : IsPlainText p.tag

module _ (encode : List ℕ → String) where
  name_to_string-bare_item :
      (n : HttpMessageComponentName)
      → IsPlainName n
      → name_to_string n ≡ bare_item encode (BareItem.string (name_text n))
  unfolding name_to_string bare_item derived_as_ref escaped ◌<>◌
  name_to_string-bare_item (HttpMessageComponentName.http_field val) h =
      ap (λ t. "\"" <> t <> "\"") (sym (escaped-plain val h.0))
  name_to_string-bare_item (HttpMessageComponentName.derived DerivedComponentName.method) h = refl
  name_to_string-bare_item (HttpMessageComponentName.derived _) h = refl

  param_to_string-parameter :
      (p : HttpMessageComponentParam)
      → IsPlainParam p
      → ";" <> param_to_string p ≡ parameter encode (param_field p)
  unfolding param_to_string parameter bare_item ◌<>◌
  param_to_string-parameter (HttpMessageComponentParam.key val) h =
      ap (λ t. ";key=\"" <> t <> "\"") (sym (escaped-plain val h.0))
  param_to_string-parameter (HttpMessageComponentParam.name val) h =
      ap (λ t. ";name=\"" <> t <> "\"") (sym (escaped-plain val h.0))
  param_to_string-parameter HttpMessageComponentParam.sf h = refl
  param_to_string-parameter _ h = refl

  join-parameters :
      (p : HttpMessageComponentParam) (ps : HttpMessageComponentParams)
      → IsPlainParam p
      → All IsPlainParam ps
      → ";" <> join ";" (map param_to_string (p ∷ ps))
        ≡ parameters encode (map param_field (p ∷ ps))
  unfolding join parameters
  join-parameters p [] h hs = param_to_string-parameter p h ∙ sym (<>-nil _)
  join-parameters p (q ∷ ps) h hs =
      sym (<>_assoc ";" (param_to_string p) _)
      ∙ ap (λ t. t <> ";" <> join ";" (map param_to_string (q ∷ ps)))
          (param_to_string-parameter p h)
      ∙ ap (λ t. parameter encode (param_field p) <> t) (join-parameters q ps hs.0 hs.1)

  params_to_string-parameters :
      (ps : HttpMessageComponentParams)
      → All IsPlainParam ps
      → params_to_string ps ≡ parameters encode (map param_field ps)
  unfolding params_to_string parameters
  params_to_string-parameters [] h = refl
  params_to_string-parameters (p ∷ ps) h = join-parameters p ps h.0 h.1

  pub id_to_string-item :
      (id : HttpMessageComponentId) → IsPlainId id → id_to_string id ≡ item encode (id_field id)
  unfolding id_to_string item
  id_to_string-item id h =
      ap (λ t. t <> params_to_string id.params) (name_to_string-bare_item id.name h.0)
      ∙ ap (λ t. bare_item encode (BareItem.string (name_text id.name)) <> t)
          (params_to_string-parameters id.params h.1)

-- The fold of the code is a join: no id is written as the empty text.
name_in_front-filled : (n : HttpMessageComponentName) (t : String) → name_to_string n <> t ≢ ""
unfolding name_to_string ◌<>◌
name_in_front-filled (HttpMessageComponentName.http_field val) t = λ e. cc
name_in_front-filled (HttpMessageComponentName.derived d) t = λ e. cc

id_to_string-filled : (id : HttpMessageComponentId) → id_to_string id ≢ ""
unfolding id_to_string
id_to_string-filled id = name_in_front-filled id.name (params_to_string id.params)

behind : List HttpMessageComponentId → String
behind [] = ""
behind (v ∷ vs) = " " <> id_to_string v <> behind vs

not_empty : (s : String) → s ≢ "" → (s == "") ≡ false
not_empty s h = elim (Bool-cases (s == "")) [
  | inl same ↦ absurd (h ((eq_iff s "").0 same))
  | inr other ↦ other
]

join_components-behind :
    (vs : List HttpMessageComponentId) (acc : String)
    → acc ≢ ""
    → join_components acc vs ≡ acc <> behind vs
unfolding join_components behind
join_components-behind [] acc h = sym (<>-nil acc)
join_components-behind (v ∷ vs) acc h =
    let next = acc <> " " <> id_to_string v in
    let filled = <>-filled acc (" " <> id_to_string v) (<>-filled " " _ (id_to_string-filled v)) in
    rw (not_empty acc h) (
      join_components-behind vs next filled
      ∙ <>_assoc acc (" " <> id_to_string v) (behind vs)
      ∙ ap (λ t. acc <> t) (<>_assoc " " (id_to_string v) (behind vs)))

join-behind :
    (v : HttpMessageComponentId) (vs : List HttpMessageComponentId)
    → join " " (map id_to_string (v ∷ vs)) ≡ id_to_string v <> behind vs
unfolding join behind
join-behind v [] = sym (<>-nil (id_to_string v))
join-behind v (w ∷ vs) = ap (λ t. id_to_string v <> " " <> t) (join-behind w vs)

pub join_components-join :
    (vs : List HttpMessageComponentId) → join_components "" vs ≡ join " " (map id_to_string vs)
unfolding join_components join
join_components-join [] = refl
join_components-join (v ∷ vs) =
    join_components-behind vs (id_to_string v) (id_to_string-filled v) ∙ sym (join-behind v vs)
