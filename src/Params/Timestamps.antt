-- ===== src/Params/Timestamps.antt =====
-- That timestamps stay in the range of their type, for signature_params.rs.
use httpsig_rs.Base.{
  ◌≡◌, subst, ℕ, ◌<◌, ◌^◌, pos, negsuc, String, false, Bool-cases, inl, inr, [], ◌∷◌, All, Option,
  none, some, ok, >>=-eq-ok, ok-injective, traverse, string_eq, ◌==◌, ensure-eq-ok, arith,
}
use httpsig_rs.Error.{HttpSigError}
use httpsig_rs.Sfv.{Sfv, BareItem, ListEntry, Parameters, as_integer}
use httpsig_rs.Component.Id.{id_beq, id_try_from}
use httpsig_rs.Params.{
  HttpSignatureParams, with_components, u64_mod, set_param, set_params, to_u64,
  params_try_from_entry,
}
use httpsig_rs.Util.{has_unique_elements}

-- A timestamp fits into a `u64`.
abbrev pub IsU64 : Option ℕ → Type 0
IsU64 none = Unit
IsU64 (some n) = n < u64_mod

-- The integers of structured fields have at most fifteen digits.
abbrev pub InRange : String × BareItem → Type 0
InRange (_, BareItem.integer (pos n)) = n < 10 ^ 15
InRange _ = Unit

abbrev pub AreInRange : ListEntry → Type 0
AreInRange (ListEntry.item _) = Unit
AreInRange (ListEntry.inner_list l) = All InRange l.params

abbrev pub AreU64 : HttpSignatureParams → Type 0
AreU64 p = IsU64 p.created × IsU64 p.expires

to_u64-IsU64 :
    (k : String) (item : BareItem) (v : Option ℕ)
    → to_u64 {E = HttpSigError} (as_integer item) ≡ ok v
    → InRange (k, item)
    → IsU64 v
unfolding to_u64
to_u64-IsU64 k (BareItem.integer (pos n)) v e r = subst IsU64 (ok-injective e) (below n r)
  where
    below : (n : ℕ) → n < 10 ^ 15 → n < u64_mod
    below n r = omega arith
to_u64-IsU64 k (BareItem.integer (negsuc n)) v e r = cc
to_u64-IsU64 k (BareItem.string s) v e r = subst IsU64 (ok-injective e) tt
to_u64-IsU64 k (BareItem.byte_sequence s) v e r = subst IsU64 (ok-injective e) tt
to_u64-IsU64 k (BareItem.other s) v e r = subst IsU64 (ok-injective e) tt

set_param-kept :
    (k : String) (item : BareItem) (p q : HttpSignatureParams)
    → (k == "created") ≡ false
    → (k == "expires") ≡ false
    → set_param {E = HttpSigError} (k, item) p ≡ ok q
    → (q.created ≡ p.created) × (q.expires ≡ p.expires)
unfolding set_param
set_param-kept k item p q c x e = ground arith

set_param-AreU64 :
    (k : String) (item : BareItem) (p q : HttpSignatureParams)
    → set_param {E = HttpSigError} (k, item) p ≡ ok q
    → InRange (k, item)
    → AreU64 p
    → AreU64 q
unfolding set_param
set_param-AreU64 k item p q e r u = elim (Bool-cases (k == "created")) [
  | inl created ↦
      let (v, read, set) = >>=-eq-ok (to_u64 (as_integer item)) _ (rw created at e) in
      subst AreU64 (ok-injective set) (to_u64-IsU64 k item v read r, u.1)
  | inr other ↦ elim (Bool-cases (k == "expires")) [
    | inl expires ↦
        let (v, read, set) = >>=-eq-ok (to_u64 (as_integer item)) _ (rw (other, expires) at e) in
        subst AreU64 (ok-injective set) (u.0, to_u64-IsU64 k item v read r)
    | inr neither ↦ let (c, x) = set_param-kept k item p q other neither e in rw (c, x) u
  ]
]

set_params-AreU64 :
    (kvs : Parameters) (p q : HttpSignatureParams)
    → set_params {E = HttpSigError} kvs p ≡ ok q
    → All InRange kvs
    → AreU64 p
    → AreU64 q
unfolding set_params
set_params-AreU64 [] p q e r u = subst AreU64 (ok-injective e) u
set_params-AreU64 ((k, item) ∷ kvs) p q e r u =
    let (next, set, rest) = >>=-eq-ok (set_param (k, item) p) _ e in
    set_params-AreU64 kvs next q rest r.1 (set_param-AreU64 k item p next set r.0 u)

pub params_try_from_entry-AreU64 :
    (sfv : Sfv) (entry : ListEntry) (p : HttpSignatureParams)
    → params_try_from_entry sfv entry ≡ ok p
    → AreInRange entry
    → AreU64 p
unfolding params_try_from_entry
params_try_from_entry-AreU64 sfv (ListEntry.item _) p e r = cc
params_try_from_entry-AreU64 sfv (ListEntry.inner_list l) p e r =
    let (ids, _, h) =
      >>=-eq-ok (traverse (λ v. id_try_from sfv (Sfv.serialize_item sfv v)) l.items) _ e in
    let (_, h') = ensure-eq-ok (has_unique_elements id_beq ids) _ _ h in
    set_params-AreU64 l.params (with_components none ids) p h' r (tt, tt)
