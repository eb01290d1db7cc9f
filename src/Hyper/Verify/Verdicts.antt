-- ===== src/Hyper/Verify/Verdicts.antt =====
-- Verifying with several keys against the specification of verifying with one, for hyper_http.rs.
use httpsig_rs.Base.{
  ◌≡◌, refl, ap, sym, ◌∙◌, subst, ◌↔◌, ℕ, String, List, [], ◌∷◌, map, Option, Outcome, ok, NoPanic,
  All, ok-injective,
}
use httpsig_rs.Error.{HyperSigError}
use httpsig_rs.Crypto.{VerifyingKey}
use httpsig_rs.Hyper.Verify.{SignatureMap, verify_one, verify_message_signatures_inner}
use httpsig_rs.Hyper.Verify.Complete.{check_entry, verify_message_signatures_inner-map}
use httpsig_rs.Hyper.Verify.Verdict.{Verdict, verify_one_iff}

-- A verdict for each of the keys, in their order.
abbrev pub Verdicts :
    ℕ
    → SignatureMap
    → List (VerifyingKey × Option String)
    → List (Outcome HyperSigError String)
    → Type 0
Verdicts now m [] [] = Unit
Verdicts now m (k ∷ ks) (r ∷ rs) = Verdict now (k.0) (k.1) m r × Verdicts now m ks rs
Verdicts now m _ _ = ⊥

-- The keys that panic at no signature of the message.
abbrev pub AreCalm : ℕ → SignatureMap → List (VerifyingKey × Option String) → Type 0
AreCalm now m = All (λ k. All (λ x. NoPanic (check_entry now (k.0) x)) m)

Verdict-NoPanic :
    {now : ℕ} {key : VerifyingKey} {key_id : Option String} {m : SignatureMap}
    {r : Outcome HyperSigError String}
    → Verdict now key key_id m r
    → NoPanic r
Verdict-NoPanic (Verdict.accepted front x rest parts passed has checked) = λ t e. cc
Verdict-NoPanic (Verdict.refused some_asked passed) = λ t e. cc
Verdict-NoPanic (Verdict.missing others) = λ t e. cc

module _ (now : ℕ) (m : SignatureMap) where
  Verdicts-map :
      (ks : List (VerifyingKey × Option String))
      → AreCalm now m ks
      → Verdicts now m ks (map (verify_one now m) ks)
  Verdicts-map [] calm = tt
  Verdicts-map (k ∷ ks) calm =
      ((verify_one_iff now (k.0) (k.1) m calm.0 _).0 refl, Verdicts-map ks calm.1)

  verify_one-NoPanic :
      (ks : List (VerifyingKey × Option String))
      → AreCalm now m ks
      → All (λ k. NoPanic (verify_one now m k)) ks
  verify_one-NoPanic [] calm = tt
  verify_one-NoPanic (k ∷ ks) calm = (
    Verdict-NoPanic ((verify_one_iff now (k.0) (k.1) m calm.0 _).0 refl),
    verify_one-NoPanic ks calm.1,
  )

  map-of_Verdicts :
      (ks : List (VerifyingKey × Option String)) (rs : List (Outcome HyperSigError String))
      → AreCalm now m ks
      → Verdicts now m ks rs
      → map (verify_one now m) ks ≡ rs
  map-of_Verdicts [] [] calm v = refl
  map-of_Verdicts [] (r ∷ rs) calm v = absurd v
  map-of_Verdicts (k ∷ ks) [] calm v = absurd v
  map-of_Verdicts (k ∷ ks) (r ∷ rs) calm v =
      rw ((verify_one_iff now (k.0) (k.1) m calm.0 r).1 (v.0), map-of_Verdicts ks rs calm.1 v.1)
        refl

  -- Where no key panics at a signature of the message, verifying with several keys succeeds, and the
  -- list of its results is the one that the specification of verifying with one key gives for each
  -- key in turn, with the key id asked for with it: the failure of one key touches no other key.
  pub verify_message_signatures_inner_iff :
      (ks : List (VerifyingKey × Option String)) (rs : List (Outcome HyperSigError String))
      → AreCalm now m ks
      → (verify_message_signatures_inner now m ks ≡ ok rs) ↔ Verdicts now m ks rs
  verify_message_signatures_inner_iff ks rs calm =
      let mapped = verify_message_signatures_inner-map now m ks (verify_one-NoPanic ks calm) in
      (
        λ e. subst (Verdicts now m ks) (ok-injective (sym mapped ∙ e)) (Verdicts-map ks calm),
        λ v. mapped ∙ ap ok (map-of_Verdicts ks rs calm v),
      )
