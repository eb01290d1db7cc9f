-- ===== src/Params.antt =====
-- httpsig/src/signature_params.rs
pub mod Expiry
pub mod Covered
pub mod Written
pub mod Plain
pub mod Serializable
pub mod Canonical
pub mod Accepted
pub mod Timestamps
pub mod Reachable
use httpsig_rs.Base.{
  ℕ, ◌+◌, ◌^◌, ◌%◌, ℤ, pos, negsuc, String, Bool, false, List, [], ◌∷◌, Option, none, some, Outcome,
  ok, err, panic, ◌>>=◌, ◌>>◌, ensure, traverse, ◌<>◌, ◌==◌, string_eq, print_nat, ltb,
  if◌then◌else◌,
}
use httpsig_rs.Error.{HttpSigError}
use httpsig_rs.Sfv.{Sfv, BareItem, ListEntry, Parameters, or_error, as_string, as_integer}
use httpsig_rs.Util.{has_unique_elements}
use httpsig_rs.Crypto.{AlgorithmName, alg_as_str, Bytes, SigningKey}
use httpsig_rs.Component.Id.{HttpMessageComponentId, id_beq, id_to_string, id_try_from}

abbrev pub default_duration : ℕ
default_duration = 300

-- Timestamps are `u64`.
abbrev pub u64_mod : ℕ
u64_mod = 2 ^ 64

pub record HttpSignatureParams : Type 0 where
  pub created : Option ℕ
  pub expires : Option ℕ
  pub nonce : Option String
  pub alg : Option String
  pub keyid : Option String
  pub tag : Option String
  pub covered_components : List HttpMessageComponentId

abbrev pub with_components : Option ℕ → List HttpMessageComponentId → HttpSignatureParams
with_components created covered_components = record {
  created = created;
  expires = none;
  nonce = none;
  alg = none;
  keyid = none;
  tag = none;
  covered_components = covered_components;
}

-- `now` is the clock, in seconds since the epoch.
unfoldable pub try_new : ℕ → List HttpMessageComponentId → Outcome HttpSigError HttpSignatureParams
unfolding has_unique_elements id_beq
try_new now covered_components = do
  ensure (has_unique_elements id_beq covered_components)
      (HttpSigError.invalid_signature_params "duplicate covered component ids")
  ok (with_components (some now) covered_components)

unfoldable pub set_created : ℕ → HttpSignatureParams → HttpSignatureParams
set_created created p = record p { created = some created }

unfoldable pub set_expires : ℕ → HttpSignatureParams → HttpSignatureParams
set_expires expires p = record p { expires = some expires }

unfoldable pub set_nonce : String → HttpSignatureParams → HttpSignatureParams
set_nonce nonce p = record p { nonce = some nonce }

unfoldable pub set_alg : AlgorithmName → HttpSignatureParams → HttpSignatureParams
unfolding alg_as_str
set_alg alg p = record p { alg = some (alg_as_str alg) }

unfoldable pub set_keyid : String → HttpSignatureParams → HttpSignatureParams
set_keyid keyid p = record p { keyid = some keyid }

unfoldable pub set_tag : String → HttpSignatureParams → HttpSignatureParams
set_tag tag p = record p { tag = some tag }

unfoldable pub set_key_info : SigningKey → HttpSignatureParams → HttpSignatureParams
unfolding alg_as_str
set_key_info key p = record p { keyid = some key.key_id; alg = some (alg_as_str key.alg) }

-- `random` is the 32 bytes drawn, and `encode` the encoder of the base64 crate.
unfoldable pub set_random_nonce :
    (Bytes → String) → Bytes → HttpSignatureParams → HttpSignatureParams
set_random_nonce encode random p = record p { nonce = some (encode random) }

abbrev pub unwrap_or : Option ℕ → ℕ → ℕ
unwrap_or none d = d
unwrap_or (some n) d = n

-- The assertion on `created` panics, and the sum wraps around as in a release build.
unfoldable pub set_expires_with_duration :
    {E : Type 0} → Option ℕ → HttpSignatureParams → Outcome E HttpSignatureParams
set_expires_with_duration duration_secs p = elim (p.created) [
  | none ↦ panic "created timestamp is not set"
  | some created ↦
      ok (record p {
        expires = some ((created + unwrap_or duration_secs default_duration) % u64_mod);
      })
]

unfoldable pub is_expired : ℕ → HttpSignatureParams → Bool
is_expired now p = elim (p.expires) [ none ↦ false | some exp ↦ ltb exp now ]

-- The fold of `Display` over the covered components.
pub join_components : String → List HttpMessageComponentId → String
unfolding id_to_string ◌<>◌
join_components acc [] = acc
join_components acc (v ∷ vs) =
    join_components (if acc == "" then id_to_string v else acc <> " " <> id_to_string v) vs

pub print_int : String → Option ℕ → String
unfolding print_nat ◌<>◌
print_int label none = ""
print_int label (some n) = ";" <> label <> "=" <> print_nat n

pub print_text : String → Option String → String
unfolding ◌<>◌
print_text label none = ""
print_text label (some s) = ";" <> label <> "=\"" <> s <> "\""

unfoldable pub signature_params_to_string : HttpSignatureParams → String
unfolding join_components print_int print_text ◌<>◌
signature_params_to_string p =
    "("
    <> join_components "" p.covered_components
    <> ")"
    <> print_int "created" p.created
    <> print_int "expires" p.expires
    <> print_text "nonce" p.nonce
    <> print_text "alg" p.alg
    <> print_text "keyid" p.keyid
    <> print_text "tag" p.tag

-- `bare_item.as_integer().map(|v| v.try_into().unwrap())`: a negative integer panics.
to_u64 : {E : Type 0} → Option ℤ → Outcome E (Option ℕ)
to_u64 none = ok none
to_u64 (some (pos n)) = ok (some n)
to_u64 (some (negsuc n)) = panic "called `Result::unwrap()` on an `Err` value"

-- One round of the loop over the parameters; an unknown key is logged and passed over.
pub set_param :
    {E : Type 0} → String × BareItem → HttpSignatureParams → Outcome E HttpSignatureParams
unfolding to_u64
set_param (key, item) p =
    if key == "created"
    then (do v ← to_u64 (as_integer item); ok (record p { created = v }))
    else if key == "expires"
    then (do v ← to_u64 (as_integer item); ok (record p { expires = v }))
    else if key == "nonce"
    then ok (record p { nonce = as_string item })
    else if key == "alg"
    then ok (record p { alg = as_string item })
    else if key == "keyid"
    then ok (record p { keyid = as_string item })
    else if key == "tag"
    then ok (record p { tag = as_string item })
    else ok p

pub set_params : {E : Type 0} → Parameters → HttpSignatureParams → Outcome E HttpSignatureParams
set_params [] p = ok p
set_params (kv ∷ rest) p = set_param kv p >>= set_params rest

-- `TryFrom<&ListEntry>`
unfoldable pub params_try_from_entry : Sfv → ListEntry → Outcome HttpSigError HttpSignatureParams
unfolding set_params set_param id_try_from has_unique_elements id_beq
params_try_from_entry sfv (ListEntry.item _) =
    err (HttpSigError.invalid_signature_params "Invalid signature params")
params_try_from_entry sfv (ListEntry.inner_list l) = do
  covered_components ← traverse (λ v. id_try_from sfv (Sfv.serialize_item sfv v)) l.items
  ensure (has_unique_elements id_beq covered_components)
      (HttpSigError.invalid_signature_params "duplicate covered component ids")
  set_params l.params (with_components none covered_components)

single_entry : Sfv → List ListEntry → Outcome HttpSigError HttpSignatureParams
unfolding params_try_from_entry
single_entry sfv (ListEntry.inner_list l ∷ []) = params_try_from_entry sfv (ListEntry.inner_list l)
single_entry sfv _ = err (HttpSigError.invalid_signature_params "Invalid signature params")

-- `TryFrom<&str>`
unfoldable pub params_try_from_str : Sfv → String → Outcome HttpSigError HttpSignatureParams
unfolding single_entry
params_try_from_str sfv value = do
  sfv_parsed ← or_error HttpSigError.parse_sfv_error (Sfv.parse_list sfv value)
  single_entry sfv sfv_parsed
