-- ===== src/Params/Serializable.antt =====
-- Serializing parameters with plain texts, for signature_params.rs.
use httpsig_rs.Base.{
  true, all, ◌&&◌, ◌≡◌, refl, ℕ, String, List, [], ◌∷◌, ◌++◌, map, All, Option, none, some,
  string_eq,
}
use httpsig_rs.Sfv.{Parameters}
use httpsig_rs.Sfv.Canonical.{
  is_key, all_visible, is_serializable_item, is_serializable_parameter, is_serializable,
}
use httpsig_rs.Component.Name.{HttpMessageComponentName, DerivedComponentName, derived_as_ref}
use httpsig_rs.Component.Param.{HttpMessageComponentParam, HttpMessageComponentParams}
use httpsig_rs.Component.Id.{HttpMessageComponentId}
use httpsig_rs.Component.Id.Written.{name_text, param_field, id_field}
use httpsig_rs.Params.{HttpSignatureParams}
use httpsig_rs.Params.Written.{int_field, text_field, params_field}
use httpsig_rs.Params.Plain.{
  IsPlainName, IsPlainParam, IsPlainId, IsPlainText, IsShortInt, HasPlainTexts,
}

name_text-visible :
    (n : HttpMessageComponentName) → IsPlainName n → all_visible (name_text n) ≡ true
unfolding all_visible derived_as_ref
name_text-visible (HttpMessageComponentName.http_field val) h = h.1
name_text-visible (HttpMessageComponentName.derived DerivedComponentName.method) h = refl
name_text-visible (HttpMessageComponentName.derived _) h = refl

param_field-serializable :
    (p : HttpMessageComponentParam)
    → IsPlainParam p
    → is_serializable_parameter (param_field p) ≡ true
unfolding is_serializable_parameter
param_field-serializable (HttpMessageComponentParam.key val) h = h.1
param_field-serializable (HttpMessageComponentParam.name val) h = h.1
param_field-serializable HttpMessageComponentParam.sf h = refl
param_field-serializable _ h = refl

params-serializable :
    (ps : HttpMessageComponentParams)
    → All IsPlainParam ps
    → all is_serializable_parameter (map param_field ps) ≡ true
params-serializable [] h = refl
params-serializable (p ∷ ps) h =
    rw (param_field-serializable p h.0, params-serializable ps h.1) refl

items-serializable :
    (ids : List HttpMessageComponentId)
    → All IsPlainId ids
    → all
        (λ i. is_serializable_item i.bare_item && all is_serializable_parameter i.params)
        (map id_field ids)
      ≡ true
unfolding is_serializable_item
items-serializable [] h = refl
items-serializable (id ∷ ids) h =
    rw
      (
        name_text-visible id.name h.0.0,
        params-serializable id.params h.0.1,
        items-serializable ids h.1,
      )
      refl

-- In front of further attributes.
int_field-serializable :
    (label : String) (o : Option ℕ) (rest : Parameters)
    → is_key label ≡ true
    → IsShortInt o
    → all is_serializable_parameter rest ≡ true
    → all is_serializable_parameter (int_field label o ++ rest) ≡ true
unfolding is_serializable_parameter
int_field-serializable label none rest key h later = later
int_field-serializable label (some n) rest key h later = rw (key, later, h) refl

text_field-serializable :
    (label : String) (o : Option String) (rest : Parameters)
    → is_key label ≡ true
    → IsPlainText o
    → all is_serializable_parameter rest ≡ true
    → all is_serializable_parameter (text_field label o ++ rest) ≡ true
unfolding is_serializable_parameter
text_field-serializable label none rest key h later = later
text_field-serializable label (some s) rest key h later = rw (key, later, h.1) refl

tag_field-serializable :
    (o : Option String) → IsPlainText o → all is_serializable_parameter (text_field "tag" o) ≡ true
unfolding is_serializable_parameter is_key
tag_field-serializable none h = refl
tag_field-serializable (some s) h = rw h.1 refl

pub params_field-IsSerializable :
    (p : HttpSignatureParams) → HasPlainTexts p → is_serializable (params_field p) ≡ true
unfolding is_serializable is_key
params_field-IsSerializable p plain =
    rw
      (
        items-serializable p.covered_components (HasPlainTexts.ids plain),
        int_field-serializable "created" p.created _ refl (HasPlainTexts.created plain) (
            int_field-serializable "expires" p.expires _ refl (HasPlainTexts.expires plain) (
              text_field-serializable "nonce" p.nonce _ refl (HasPlainTexts.nonce plain) (
                text_field-serializable "alg" p.alg _ refl (HasPlainTexts.alg plain) (
                  text_field-serializable "keyid" p.keyid _ refl (HasPlainTexts.keyid plain)
                    (tag_field-serializable p.tag (HasPlainTexts.tag plain)))))),
      )
      refl
