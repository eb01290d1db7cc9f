-- ===== src/Params/Covered.antt =====
-- The covered components of accepted parameters, for signature_params.rs.
use httpsig_rs.Base.{
  ◌≡◌, sym, ◌∙◌, ◌↔◌, ◌⊎◌, inl, inr, String, List, [], ◌∷◌, none, some, ℕ, negsuc, ok, panic,
  ensure-eq-ok, >>=-eq-ok, ok-injective, traverse, Traversed, traverse-eq-ok, arith, string_eq,
}
use httpsig_rs.Error.{HttpSigError}
use httpsig_rs.Sfv.{Sfv, BareItem, Item, InnerList, ListEntry, Parameters}
use httpsig_rs.Util.{has_unique_elements}
use httpsig_rs.Util.Unique.{Distinct, has_unique_elements_iff}
use httpsig_rs.Component.Id.{HttpMessageComponentId, id_beq, id_try_from}
use httpsig_rs.Params.{
  HttpSignatureParams, with_components, try_new, set_param, set_params, to_u64,
  params_try_from_entry,
}

-- Fresh parameters are made exactly for components of which no two are equal; they then hold the
-- current time as `created`, the components, and nothing else.
pub try_new_iff :
    (now : ℕ) (ids : List HttpMessageComponentId) (p : HttpSignatureParams)
    → (try_new now ids ≡ ok p) ↔ (Distinct id_beq ids × (p ≡ with_components (some now) ids))
unfolding try_new
try_new_iff now ids p = (
  λ h.
      let (unique, e) = ensure-eq-ok (has_unique_elements id_beq ids) _ _ h in
      ((has_unique_elements_iff id_beq ids).0 unique, sym (ok-injective e)),
  λ k. rw ((has_unique_elements_iff id_beq ids).1 k.0, k.1),
)

set_param-covered :
    (kv : String × BareItem) (p q : HttpSignatureParams)
    → set_param {E = HttpSigError} kv p ≡ ok q
    → q.covered_components ≡ p.covered_components
unfolding set_param to_u64
set_param-covered (k, item) p q h = ground arith

pub set_params-covered :
    (kvs : Parameters) (p q : HttpSignatureParams)
    → set_params {E = HttpSigError} kvs p ≡ ok q
    → q.covered_components ≡ p.covered_components
unfolding set_params
set_params-covered [] p q h = cc
set_params-covered (kv ∷ kvs) p q h =
    let (r, e, h') = >>=-eq-ok (set_param kv p) _ h in
    set_params-covered kvs r q h' ∙ set_param-covered kv p r e

-- The parameters that an inner list is read as cover one component for each of its items, in order,
-- the one that the item's text is read as, and no two of them are equal.
pub params_try_from_entry-covered :
    (sfv : Sfv) (l : InnerList) (p : HttpSignatureParams)
    → params_try_from_entry sfv (ListEntry.inner_list l) ≡ ok p
    → Traversed (λ v. id_try_from sfv (Sfv.serialize_item sfv v)) l.items p.covered_components
      × Distinct id_beq p.covered_components
unfolding params_try_from_entry
params_try_from_entry-covered sfv l p h =
    let (ids, e, h') =
      >>=-eq-ok (traverse (λ v. id_try_from sfv (Sfv.serialize_item sfv v)) l.items) _ h in
    let (unique, h'') = ensure-eq-ok (has_unique_elements id_beq ids) _ _ h' in
    rw (set_params-covered l.params (with_components none ids) p h'')
      (traverse-eq-ok _ l.items ids e, (has_unique_elements_iff id_beq ids).0 unique)

set_params-negative :
    (n : ℕ) (k : String) (rest : Parameters) (p : HttpSignatureParams)
    → (k ≡ "created") ⊎ (k ≡ "expires")
    → set_params {E = HttpSigError} ((k, BareItem.integer (negsuc n)) ∷ rest) p
      ≡ panic "called `Result::unwrap()` on an `Err` value"
unfolding set_params set_param to_u64
set_params-negative n k rest p (inl e) = rw e
set_params-negative n k rest p (inr e) = rw e

-- An inner list whose items are read as distinct components and whose first attribute is a
-- `created` or `expires` that is a negative integer stops the program: the conversion panics,
-- whatever attributes follow.
pub negative_timestamp-panic :
    (sfv : Sfv) (items : List Item) (ids : List HttpMessageComponentId) (n : ℕ) (k : String)
    (rest : Parameters)
    → traverse (λ v. id_try_from sfv (Sfv.serialize_item sfv v)) items ≡ ok ids
    → Distinct id_beq ids
    → (k ≡ "created") ⊎ (k ≡ "expires")
    → params_try_from_entry sfv (
        ListEntry.inner_list
          (record { items = items; params = (k, BareItem.integer (negsuc n)) ∷ rest }))
      ≡ panic "called `Result::unwrap()` on an `Err` value"
unfolding params_try_from_entry
negative_timestamp-panic sfv items ids n k rest e d h =
    rw (e, (has_unique_elements_iff id_beq ids).1 d)
      (set_params-negative n k rest (with_components none ids) h)
