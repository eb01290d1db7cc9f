-- ===== src/Hyper/Verify/Verdict.antt =====
-- What verifying with one key promises, and that the code does it, for hyper_http.rs.
use httpsig_rs.Base.{
  ◌≡◌, refl, ap, sym, ◌∙◌, subst, ◌⊎◌, ◌↔◌, inl, inr, ℕ, String, true, false, Bool-cases, [], ◌∷◌,
  ◌++◌, Option, Outcome, ok, err, NoPanic, All, Any, Outcome-cases,
}
use httpsig_rs.Error.{HttpSigError, HyperSigError}
use httpsig_rs.Crypto.{VerifyingKey}
use httpsig_rs.Hyper.Verify.{SignatureMap, has_keyid, verify_one}
use httpsig_rs.Hyper.Verify.KeyId.{HasKeyId, has_keyid_iff, has_keyid_not_iff}
use httpsig_rs.Hyper.Verify.Complete.{
  Entry, check_entry, IsPassedOver, verify_one_first, verify_one_refused, verify_one_missing,
}

-- The signature does not count: it has another key id than the one asked for, or the key refuses it.
abbrev pub IsPassedBy : ℕ → VerifyingKey → Option String → Entry → Type 0
IsPassedBy now key key_id x =
    (HasKeyId key_id x.1.0 → ⊥) ⊎ ((error : HttpSigError) × (check_entry now key x ≡ err error))

-- The specification, as a relation between the signatures of a message and an answer: the signatures
-- are gone through in the order of the headers, and the first one with the key id asked for that the
-- key accepts is named; if the key refuses all with that key id, the signature is invalid, and if
-- none has it, there is nothing to verify.
pub data Verdict (now : ℕ) (key : VerifyingKey) (key_id : Option String) (m : SignatureMap)
    : Outcome HyperSigError String → Type 0 where
  accepted :
      (front : SignatureMap) (x : Entry) (rest : SignatureMap)
      → m ≡ front ++ (x ∷ rest)
      → All (IsPassedBy now key key_id) front
      → HasKeyId key_id x.1.0
      → check_entry now key x ≡ ok tt
      → Verdict now key key_id m (ok x.0)
  refused :
      Any (λ x. HasKeyId key_id x.1.0) m
      → All (IsPassedBy now key key_id) m
      → Verdict now key key_id m
          (err (HyperSigError.invalid_signature "Invalid signature for the verifying key"))
  missing :
      All (λ x. HasKeyId key_id x.1.0 → ⊥) m
      → Verdict now key key_id m (
          err (
            HyperSigError.no_signature_headers
              "No signature as appropriate target for verification"))

All-map : {P Q : Entry → Type 0} (m : SignatureMap) → ((x : Entry) → P x → Q x) → All P m → All Q m
All-map [] f h = tt
All-map (x ∷ m) f h = (f x h.0, All-map m f h.1)

Any-map : {P Q : Entry → Type 0} (m : SignatureMap) → ((x : Entry) → P x → Q x) → Any P m → Any Q m
Any-map [] f h = absurd h
Any-map (x ∷ m) f (inl here) = inl (f x here)
Any-map (x ∷ m) f (inr there) = inr (Any-map m f there)

IsPassedOver-IsPassedBy :
    (now : ℕ) (key : VerifyingKey) (key_id : Option String) (x : Entry)
    → IsPassedOver now key key_id x ↔ IsPassedBy now key key_id x
IsPassedOver-IsPassedBy now key key_id x = (
  λ p. elim p [
    | inl other ↦ inl ((has_keyid_not_iff key_id x.1.0).0 other)
    | inr refuses ↦ inr refuses
  ],
  λ p. elim p [
    | inl other ↦ inl ((has_keyid_not_iff key_id x.1.0).1 other)
    | inr refuses ↦ inr refuses
  ],
)

module _ (now : ℕ) (key : VerifyingKey) (key_id : Option String) where
  -- How far the signatures are passed over.
  data Scan (m : SignatureMap) : Type 0 where
    found :
        (front : SignatureMap) (x : Entry) (rest : SignatureMap)
        → m ≡ front ++ (x ∷ rest)
        → All (IsPassedOver now key key_id) front
        → has_keyid key_id x.1.0 ≡ true
        → check_entry now key x ≡ ok tt
        → Scan m
    all_passed : All (IsPassedOver now key key_id) m → Scan m

  Scan-passed :
      (x : Entry) (m : SignatureMap) → IsPassedOver now key key_id x → Scan m → Scan (x ∷ m)
  Scan-passed x m p (found front y rest parts passed has checked) =
      found (x ∷ front) y rest (ap (λ l. x ∷ l) parts) (p, passed) has checked
  Scan-passed x m p (all_passed passed) = all_passed (p, passed)

  scan : (m : SignatureMap) → All (λ x. NoPanic (check_entry now key x)) m → Scan m
  scan [] calm = all_passed tt
  scan (x ∷ m) calm = elim (Bool-cases (has_keyid key_id x.1.0)) [
    | inr other ↦ Scan-passed x m (inl other) (scan m calm.1)
    | inl asked ↦ elim (Outcome-cases (check_entry now key x)) [
      | inl (_, accepts) ↦ found [] x m refl tt asked accepts
      | inr (inl (e, refuses)) ↦ Scan-passed x m (inr (e, refuses)) (scan m calm.1)
      | inr (inr (t, panics)) ↦ absurd (calm.0 t panics)
    ]
  ]

  Any-or-none :
      (m : SignatureMap)
      → Any (λ x. has_keyid key_id x.1.0 ≡ true) m ⊎ All (λ x. has_keyid key_id x.1.0 ≡ false) m
  Any-or-none [] = inr tt
  Any-or-none (x ∷ m) = elim (Bool-cases (has_keyid key_id x.1.0)) [
    | inl asked ↦ inl (inl asked)
    | inr other ↦ elim (Any-or-none m) [
      | inl later ↦ inl (inr later)
      | inr none_later ↦ inr (other, none_later)
    ]
  ]

  All-behind :
      (P : Entry → Type 0) (front : SignatureMap) (x : Entry) (rest : SignatureMap)
      → All P (front ++ (x ∷ rest))
      → All P rest
  All-behind P [] x rest h = h.1
  All-behind P (y ∷ front) x rest h = All-behind P front x rest h.1

  module _ (m : SignatureMap) (calm : All (λ x. NoPanic (check_entry now key x)) m) where
    -- The code does what a verdict says.
    verify_one_of_Verdict :
        {r : Outcome HyperSigError String}
        → Verdict now key key_id m r
        → verify_one now m (key, key_id) ≡ r
    verify_one_of_Verdict (accepted front x rest parts passed has checked) =
        ap (λ l. verify_one now l (key, key_id)) parts
        ∙ verify_one_first now key key_id front rest x
            (All-map front (λ y. (IsPassedOver-IsPassedBy now key key_id y).1) passed)
            ((has_keyid_iff key_id x.1.0).1 has) checked
            (All-behind _ front x rest (subst (All _) parts calm))
    verify_one_of_Verdict (refused some_asked passed) =
        verify_one_refused now key key_id m
          (Any-map m (λ y. (has_keyid_iff key_id y.1.0).1) some_asked)
          (All-map m (λ y. (IsPassedOver-IsPassedBy now key key_id y).1) passed)
    verify_one_of_Verdict (missing others) =
        verify_one_missing now key key_id m
          (All-map m (λ y. (has_keyid_not_iff key_id y.1.0).1) others)

    -- There is a verdict on all signatures.
    verdict : (r : Outcome HyperSigError String) × Verdict now key key_id m r
    verdict = elim (scan m calm) [
      | found front x rest parts passed has checked ↦ (
        ok x.0,
        accepted front x rest parts
            (All-map front (λ y. (IsPassedOver-IsPassedBy now key key_id y).0) passed)
            ((has_keyid_iff key_id x.1.0).0 has) checked,
      )
      | all_passed passed ↦ elim (Any-or-none m) [
        | inl asked ↦ (
          _,
          refused (Any-map m (λ y. (has_keyid_iff key_id y.1.0).0) asked)
              (All-map m (λ y. (IsPassedOver-IsPassedBy now key key_id y).0) passed),
        )
        | inr others ↦ (_, missing (All-map m (λ y. (has_keyid_not_iff key_id y.1.0).0) others))
      ]
    ]

    -- Where the key panics at no signature of the message, the answer of the verification is that
    -- of the specification, and no other: the first signature with the key id asked for that the
    -- key accepts is named; if the key refuses every signature with this key id, the error is an
    -- invalid signature; if there is none, the error says so.
    pub verify_one_iff :
        (r : Outcome HyperSigError String)
        → (verify_one now m (key, key_id) ≡ r) ↔ Verdict now key key_id m r
    verify_one_iff r = (
      λ e.
          let (s, v) = verdict in
          subst (Verdict now key key_id m) (sym (verify_one_of_Verdict v) ∙ e) v,
      verify_one_of_Verdict,
    )
