-- ===== src/Params/Written.antt =====
-- Signature parameters that are written are read back, for signature_params.rs.
use httpsig_rs.Base.{
  ◌≡◌, refl, ◌∙◌, ℕ, String, pos, List, [], ◌∷◌, ◌++◌, map, All, Option, none, some, ok, traverse,
}
use httpsig_rs.Error.{HttpSigError}
use httpsig_rs.Sfv.{Sfv, BareItem, InnerList, ListEntry, Parameters}
use httpsig_rs.Util.Unique.{Distinct, has_unique_elements_iff}
use httpsig_rs.Component.Id.{HttpMessageComponentId, id_beq, id_to_string, id_try_from}
use httpsig_rs.Component.Id.Laws.{IsValid}
use httpsig_rs.Component.Id.Written.{id_field, IsNamed, ReadsId, id_try_from-id_to_string}
use httpsig_rs.Params.{
  HttpSignatureParams, with_components, set_param, set_params, to_u64, params_try_from_entry,
}

-- The inner list that the text of parameters stands for.
abbrev pub int_field : String → Option ℕ → Parameters
int_field label none = []
int_field label (some n) = (label, BareItem.integer (pos n)) ∷ []

abbrev pub text_field : String → Option String → Parameters
text_field label none = []
text_field label (some s) = (label, BareItem.string s) ∷ []

abbrev pub params_field : HttpSignatureParams → InnerList
params_field p = record {
  items = map id_field p.covered_components;
  params =
      int_field "created" p.created
      ++ (int_field "expires" p.expires
          ++ (text_field "nonce" p.nonce
              ++ (text_field "alg" p.alg
                  ++ (text_field "keyid" p.keyid ++ text_field "tag" p.tag))));
}

-- Parameters cover distinct components, each with parameters that its name takes.
pub record IsWellFormed (p : HttpSignatureParams) : Type 0 where
  pub valid : All IsValid p.covered_components
  pub named : All (λ id. IsNamed id.name) p.covered_components
  pub distinct : Distinct id_beq p.covered_components

-- The crate writes the structured field of each id as the id is written, and reads it back.
pub record ReadsIds (sfv : Sfv) (ids : List HttpMessageComponentId) : Type 0 where
  pub written : All (λ id. Sfv.serialize_item sfv (id_field id) ≡ id_to_string id) ids
  pub read : All (ReadsId sfv) ids

traverse-id_field :
    (sfv : Sfv) (ids : List HttpMessageComponentId)
    → All IsValid ids
    → All (λ id. IsNamed id.name) ids
    → All (λ id. Sfv.serialize_item sfv (id_field id) ≡ id_to_string id) ids
    → All (ReadsId sfv) ids
    → traverse (λ v. id_try_from sfv (Sfv.serialize_item sfv v)) (map id_field ids) ≡ ok ids
traverse-id_field sfv [] valid named written read = refl
traverse-id_field sfv (id ∷ ids) valid named written read =
    rw
      (
        written.0,
        id_try_from-id_to_string sfv id valid.0 named.0 read.0,
        traverse-id_field sfv ids valid.1 named.1 written.1 read.1,
      )
      refl

-- One lemma for each attribute: what its field sets, in front of the attributes that follow.
module _ (p : HttpSignatureParams) (rest : Parameters) where
  set_params-created :
      (o : Option ℕ)
      → set_params {E = HttpSigError} (int_field "created" o ++ rest) (record p { created = none })
        ≡ set_params rest (record p { created = o })
  unfolding set_params set_param to_u64
  set_params-created none = refl
  set_params-created (some n) = refl

  set_params-expires :
      (o : Option ℕ)
      → set_params {E = HttpSigError} (int_field "expires" o ++ rest) (record p { expires = none })
        ≡ set_params rest (record p { expires = o })
  unfolding set_params set_param to_u64
  set_params-expires none = refl
  set_params-expires (some n) = refl

  set_params-nonce :
      (o : Option String)
      → set_params {E = HttpSigError} (text_field "nonce" o ++ rest) (record p { nonce = none })
        ≡ set_params rest (record p { nonce = o })
  unfolding set_params set_param
  set_params-nonce none = refl
  set_params-nonce (some s) = refl

  set_params-alg :
      (o : Option String)
      → set_params {E = HttpSigError} (text_field "alg" o ++ rest) (record p { alg = none })
        ≡ set_params rest (record p { alg = o })
  unfolding set_params set_param
  set_params-alg none = refl
  set_params-alg (some s) = refl

  set_params-keyid :
      (o : Option String)
      → set_params {E = HttpSigError} (text_field "keyid" o ++ rest) (record p { keyid = none })
        ≡ set_params rest (record p { keyid = o })
  unfolding set_params set_param
  set_params-keyid none = refl
  set_params-keyid (some s) = refl

set_params-tag :
    (p : HttpSignatureParams) (o : Option String)
    → set_params {E = HttpSigError} (text_field "tag" o) (record p { tag = none })
      ≡ ok (record p { tag = o })
unfolding set_params set_param
set_params-tag p none = refl
set_params-tag p (some s) = refl

set_params-params_field :
    (p : HttpSignatureParams)
    → set_params {E = HttpSigError}
        ((params_field p).params)
        (with_components none p.covered_components)
      ≡ ok p
set_params-params_field p =
    let at_created = with_components none p.covered_components in
    let at_expires = record at_created { created = p.created } in
    let at_nonce = record at_expires { expires = p.expires } in
    let at_alg = record at_nonce { nonce = p.nonce } in
    let at_keyid = record at_alg { alg = p.alg } in
    let at_tag = record at_keyid { keyid = p.keyid } in
    set_params-created at_created _ p.created
    ∙ set_params-expires at_expires _ p.expires
    ∙ set_params-nonce at_nonce _ p.nonce
    ∙ set_params-alg at_alg _ p.alg
    ∙ set_params-keyid at_keyid _ p.keyid
    ∙ set_params-tag at_tag p.tag

-- Well-formed parameters are read back from the inner list that their text stands for, every
-- attribute and the covered components in order, where the crate writes and reads the structured
-- field of each component as the code writes the component.
pub params_try_from_entry-params_field :
    (sfv : Sfv) (p : HttpSignatureParams)
    → IsWellFormed p
    → ReadsIds sfv p.covered_components
    → params_try_from_entry sfv (ListEntry.inner_list (params_field p)) ≡ ok p
unfolding params_try_from_entry
params_try_from_entry-params_field sfv p formed reads =
    rw
      (
        traverse-id_field sfv p.covered_components (IsWellFormed.valid formed)
            (IsWellFormed.named formed) (ReadsIds.written reads) (ReadsIds.read reads),
        (has_unique_elements_iff id_beq p.covered_components).1 (IsWellFormed.distinct formed),
      )
      (set_params-params_field p)
