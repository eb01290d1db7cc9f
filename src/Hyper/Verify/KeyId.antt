-- ===== src/Hyper/Verify/KeyId.antt =====
-- The key id that a caller of the verification asks for, for hyper_http.rs.
use httpsig_rs.Base.{
  ◌≡◌, refl, ap, ◌↔◌, String, true, false, Bool-cases, inl, inr, Option, none, some, string_eq,
  eq_iff, option_beq,
}
use httpsig_rs.Signature.{HttpSignatureBase, base_keyid}
use httpsig_rs.Hyper.Verify.{has_keyid}

-- The signature parameters of the base have the key id asked for, if one is.
abbrev pub HasKeyId : Option String → HttpSignatureBase → Type 0
HasKeyId none base = Unit
HasKeyId (some key_id) base = base.signature_params.keyid ≡ some key_id

option_beq_iff : (o : Option String) (s : String) → (option_beq o (some s) ≡ true) ↔ (o ≡ some s)
option_beq_iff none s = (λ h. cc, λ h. cc)
option_beq_iff (some t) s = (λ h. ap some ((eq_iff t s).0 h), λ h. (eq_iff t s).1 cc)

pub has_keyid_iff :
    (key_id : Option String) (base : HttpSignatureBase)
    → (has_keyid key_id base ≡ true) ↔ HasKeyId key_id base
unfolding has_keyid base_keyid
has_keyid_iff none base = (λ h. tt, λ h. refl)
has_keyid_iff (some key_id) base = option_beq_iff base.signature_params.keyid key_id

pub has_keyid_not_iff :
    (key_id : Option String) (base : HttpSignatureBase)
    → (has_keyid key_id base ≡ false) ↔ (HasKeyId key_id base → ⊥)
has_keyid_not_iff key_id base = (
  λ h has. cc (h, (has_keyid_iff key_id base).1 has),
  λ not_has. elim (Bool-cases (has_keyid key_id base)) [
    | inl h ↦ absurd (not_has ((has_keyid_iff key_id base).0 h))
    | inr h ↦ h
  ],
)
