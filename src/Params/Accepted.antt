-- ===== src/Params/Accepted.antt =====
-- That accepted parameters are well formed, for signature_params.rs.
use httpsig_rs.Base.{
  ◌≡◌, subst, String, Bool-cases, inl, inr, List, [], ◌∷◌, All, All-map, ok, >>=-eq-ok,
  map_ok-eq-ok, ok-injective, Traversed, trim, starts_with_char, string_eq,
}
use httpsig_rs.Error.{HttpSigError}
use httpsig_rs.Sfv.{Sfv, BareItem, Item, ListEntry, or_error}
use httpsig_rs.Component.Name.{HttpMessageComponentName, name_try_from, derived_from_str}
use httpsig_rs.Component.Param.{params_try_from}
use httpsig_rs.Component.Id.{HttpMessageComponentId, id_try_from, quoted}
use httpsig_rs.Component.Id.Laws.{IsValid, id_try_from-IsValid, check_id_inversion}
use httpsig_rs.Component.Id.Written.{IsNamed}
use httpsig_rs.Params.{HttpSignatureParams, params_try_from_entry}
use httpsig_rs.Params.Covered.{params_try_from_entry-covered}
use httpsig_rs.Params.Written.{IsWellFormed}

-- The id was read from some text.
abbrev pub IsAccepted : Sfv → HttpMessageComponentId → Type 0
IsAccepted sfv id = (text : String) × (id_try_from sfv text ≡ ok id)

name_try_from-IsNamed :
    (sfv : Sfv) (item : BareItem) (n : HttpMessageComponentName)
    → name_try_from sfv item ≡ ok n
    → IsNamed n
unfolding name_try_from
name_try_from-IsNamed sfv (BareItem.string s) n e = elim (Bool-cases (starts_with_char b'@' s)) [
  | inl at ↦
      let (d, _, same) =
        map_ok-eq-ok HttpMessageComponentName.derived (derived_from_str s) (rw at at e) in
      subst IsNamed same tt
  | inr plain ↦ subst IsNamed (ok-injective (rw plain at e)) plain
]
name_try_from-IsNamed sfv (BareItem.integer _) n e = cc
name_try_from-IsNamed sfv (BareItem.byte_sequence _) n e = cc
name_try_from-IsNamed sfv (BareItem.other _) n e = cc

id_try_from-IsNamed :
    (sfv : Sfv) (text : String) (id : HttpMessageComponentId)
    → id_try_from sfv text ≡ ok id
    → IsNamed id.name
unfolding id_try_from
id_try_from-IsNamed sfv text id h =
    let (item, _, h₁) =
      >>=-eq-ok {A = Item}
        (or_error HttpSigError.parse_sfv_error (Sfv.parse_item sfv (quoted (trim text)))) _ h in
    let (name, named, h₂) = >>=-eq-ok (name_try_from sfv item.bare_item) _ h₁ in
    let (params, _, h₃) = >>=-eq-ok (params_try_from item.params) _ h₂ in
    let (same, _, _) = check_id_inversion (record { name = name; params = params }) id h₃ in
    rw same (name_try_from-IsNamed sfv item.bare_item name named)

module _ (sfv : Sfv) where
  pub All-IsValid : (ids : List HttpMessageComponentId) → All (IsAccepted sfv) ids → All IsValid ids
  All-IsValid = All-map (λ id a. id_try_from-IsValid sfv a.0 id a.1)

  pub All-IsNamed :
      (ids : List HttpMessageComponentId)
      → All (IsAccepted sfv) ids
      → All (λ id. IsNamed id.name) ids
  All-IsNamed = All-map (λ id a. id_try_from-IsNamed sfv a.0 id a.1)

  Traversed-IsAccepted :
      (items : List Item) (ids : List HttpMessageComponentId)
      → Traversed (λ v. id_try_from sfv (Sfv.serialize_item sfv v)) items ids
      → All (IsAccepted sfv) ids
  Traversed-IsAccepted [] [] t = tt
  Traversed-IsAccepted [] (id ∷ ids) t = absurd t
  Traversed-IsAccepted (v ∷ items) [] t = absurd t
  Traversed-IsAccepted (v ∷ items) (id ∷ ids) t =
      ((Sfv.serialize_item sfv v, t.0), Traversed-IsAccepted items ids t.1)

  -- Whatever the parser made of a header, parameters that are accepted are well formed.
  pub params_try_from_entry-IsWellFormed :
      (entry : ListEntry) (p : HttpSignatureParams)
      → params_try_from_entry sfv entry ≡ ok p
      → IsWellFormed p
  unfolding params_try_from_entry
  params_try_from_entry-IsWellFormed (ListEntry.item _) p e = cc
  params_try_from_entry-IsWellFormed (ListEntry.inner_list l) p e =
      let (read, distinct) = params_try_from_entry-covered sfv l p e in
      let accepted = Traversed-IsAccepted l.items p.covered_components read in
      record {
        valid = All-IsValid p.covered_components accepted;
        named = All-IsNamed p.covered_components accepted;
        distinct = distinct;
      }
