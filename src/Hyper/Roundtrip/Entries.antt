-- ===== src/Hyper/Roundtrip/Entries.antt =====
-- The signatures found in a message that has been signed, for hyper_http.rs.
use httpsig_rs.Base.{
  ◌≡◌, refl, ap, ◌∙◌, inl, ℕ, String, true, false, Bool, List, [], ◌∷◌, ◌++◌, map, All, Option,
  none, some, ok, keys, option_beq, string_eq, filter_ok, filter_ok-ok, map_ok, NoPanic,
  >>=-NoPanic, ensure-NoPanic,
}
use httpsig_rs.Error.{HyperSigError}
use httpsig_rs.Http.{Http, Request, same_header}
use httpsig_rs.Sfv.{Sfv}
use httpsig_rs.Crypto.{Bytes, VerifyingKey}
use httpsig_rs.Params.{HttpSignatureParams}
use httpsig_rs.Params.Expiry.{IsCurrent}
use httpsig_rs.Params.Written.{IsWellFormed}
use httpsig_rs.Signature.{
  HttpSignatureBase, HttpSignatureHeaders, name_or_default, base_as_bytes, verify_signature_headers,
}
use httpsig_rs.Signature.Verify.{Accepts, verify_signature_headers_iff}
use httpsig_rs.Hyper.{RequestOrResponse, headers}
use httpsig_rs.Hyper.Unsigned.{IsUntouched, with_headers, build_signature_base-changed}
use httpsig_rs.Hyper.Extract.Total.{build_signature_base-ids}
use httpsig_rs.Hyper.Sign.{ParamsKeyName}
use httpsig_rs.Hyper.Sign.Made.{AreMadeFor, IsMadeFor}
use httpsig_rs.Hyper.Verify.{SignatureMap, has_keyid, signature_entry}
use httpsig_rs.Hyper.Verify.Complete.{Entry, check_entry, IsPassedOver}
use httpsig_rs.Hyper.Roundtrip.Lines.{named, names}

-- The parameters have the key id that the verifier asks for, if it asks for one.
abbrev pub has_key_id : Option String → HttpSignatureParams → Bool
has_key_id none p = true
has_key_id (some key_id) p = option_beq p.keyid (some key_id)

has_keyid-params :
    (key_id : Option String) (base : HttpSignatureBase)
    → has_keyid key_id base ≡ has_key_id key_id base.signature_params
unfolding has_keyid
has_keyid-params none base = refl
has_keyid-params (some k) base = refl

-- The key does not panic, if there are signatures that are checked behind the one that it accepts.
abbrev pub IsSteady : VerifyingKey → List ParamsKeyName → Type 0
IsSteady vk [] = Unit
IsSteady vk (_ ∷ _) =
    (message signature : Bytes) → NoPanic (VerifyingKey.verify vk message signature)

-- The name that is asked for, or the default one.
abbrev pub asked_name : ParamsKeyName → String
asked_name x = name_or_default x.2

module _ {h : Http} (sfv : Sfv) (msg : RequestOrResponse h) (asked : Option (Request h)) where
  -- The signatures that were made, with their bases.
  pub entries :
      (xs : List ParamsKeyName) (ss : List HttpSignatureHeaders)
      → AreMadeFor sfv msg asked xs ss
      → SignatureMap
  entries [] [] a = []
  entries [] (s ∷ ss) a = absurd a
  entries (x ∷ xs) [] a = absurd a
  entries (x ∷ xs) (s ∷ ss) a = (s.signature_name, (a.0.0, s)) ∷ entries xs ss a.1

  pub keys-entries :
      (xs : List ParamsKeyName) (ss : List HttpSignatureHeaders)
      (a : AreMadeFor sfv msg asked xs ss)
      → keys (entries xs ss a) ≡ names ss
  unfolding entries
  keys-entries [] [] a = refl
  keys-entries [] (s ∷ ss) a = absurd a
  keys-entries (x ∷ xs) [] a = absurd a
  keys-entries (x ∷ xs) (s ∷ ss) a = ap (λ l. s.signature_name ∷ l) (keys-entries xs ss a.1)

  pub names-asked :
      (xs : List ParamsKeyName) (ss : List HttpSignatureHeaders)
      → AreMadeFor sfv msg asked xs ss
      → names ss ≡ map asked_name xs
  names-asked [] [] a = refl
  names-asked [] (s ∷ ss) a = absurd a
  names-asked (x ∷ xs) [] a = absurd a
  names-asked (x ∷ xs) (s ∷ ss) a = cc (a.0.3, names-asked xs ss a.1)

  pub made-IsWellFormed :
      (xs : List ParamsKeyName) (ss : List HttpSignatureHeaders)
      → AreMadeFor sfv msg asked xs ss
      → All (λ x. IsWellFormed x.0) xs
      → All (λ s. IsWellFormed s.signature_params) ss
  made-IsWellFormed [] [] a w = tt
  made-IsWellFormed [] (s ∷ ss) a w = absurd a
  made-IsWellFormed (x ∷ xs) [] a w = absurd a
  made-IsWellFormed (x ∷ xs) (s ∷ ss) a w = (rw (a.0.4) (w.0), made-IsWellFormed xs ss a.1 w.1)

  module _ (m : h.HeaderMap)
      (same : (j : String)
        → same_header "signature-input" j ≡ false
        → same_header "signature" j ≡ false
        → h.get_all m j ≡ h.get_all (headers msg) j) where
    signature_entry-made :
        (x : ParamsKeyName) (s : HttpSignatureHeaders) (made : IsMadeFor sfv msg asked x s)
        → All IsUntouched ((x.0).covered_components)
        → signature_entry sfv (with_headers msg m) asked (named s)
          ≡ ok (s.signature_name, (made.0, s))
    unfolding signature_entry
    signature_entry-made x s made untouched =
        rw (made.4, build_signature_base-changed sfv msg m same (x.0) asked untouched ∙ made.1) refl

    -- Every signature's base is built again in the signed message.
    pub filter_ok-made :
        (xs : List ParamsKeyName) (ss : List HttpSignatureHeaders)
        (a : AreMadeFor sfv msg asked xs ss)
        → All (λ x. All IsUntouched ((x.0).covered_components)) xs
        → filter_ok {F = HyperSigError}
            (signature_entry sfv (with_headers msg m) asked)
            (map named ss)
          ≡ ok (entries xs ss a)
    unfolding entries
    filter_ok-made [] [] a u = refl
    filter_ok-made [] (s ∷ ss) a u = absurd a
    filter_ok-made (x ∷ xs) [] a u = absurd a
    filter_ok-made (x ∷ xs) (s ∷ ss) a u =
        filter_ok-ok (signature_entry sfv (with_headers msg m) asked) (named s) (map named ss)
          (s.signature_name, (a.0.0, s)) (signature_entry-made x s a.0 u.0)
        ∙ ap (map_ok (λ es. (s.signature_name, (a.0.0, s)) ∷ es)) (filter_ok-made xs ss a.1 u.1)

  has_keyid-made :
      (key_id : Option String) (x : ParamsKeyName) (s : HttpSignatureHeaders)
      (made : IsMadeFor sfv msg asked x s)
      → has_keyid key_id (made.0) ≡ has_key_id key_id (x.0)
  has_keyid-made key_id x s made =
      has_keyid-params key_id (made.0)
      ∙ ap (has_key_id key_id) (build_signature_base-ids sfv msg (x.0) asked (made.0) made.1).1

  module _ (now : ℕ) (vk : VerifyingKey) (key_id : Option String) where
    check_entry-NoPanic :
        ((message signature : Bytes) → NoPanic (vk.verify message signature))
        → (e : Entry) → NoPanic (check_entry now vk e)
    unfolding verify_signature_headers
    check_entry-NoPanic steady e =
        >>=-NoPanic _ _ (ensure-NoPanic _ _) (λ _. steady (base_as_bytes e.1.0) e.1.1.signature)

    entries-NoPanic :
        (xs : List ParamsKeyName) (ss : List HttpSignatureHeaders)
        (a : AreMadeFor sfv msg asked xs ss)
        → IsSteady vk xs
        → All (λ e. NoPanic (check_entry now vk e)) (entries xs ss a)
    unfolding entries
    entries-NoPanic [] [] a steady = tt
    entries-NoPanic [] (s ∷ ss) a steady = absurd a
    entries-NoPanic (x ∷ xs) [] a steady = absurd a
    entries-NoPanic (x ∷ []) (s ∷ ss) a steady =
        (check_entry-NoPanic steady (s.signature_name, (a.0.0, s)), entries-NoPanic [] ss a.1 tt)
    entries-NoPanic (x ∷ y ∷ xs) (s ∷ ss) a steady = (
      check_entry-NoPanic steady (s.signature_name, (a.0.0, s)),
      entries-NoPanic (y ∷ xs) ss a.1 steady,
    )

    -- The place of a signature among those of the message.
    pub record IsPlaced (x : ParamsKeyName) (es : SignatureMap) : Type 0 where
      pub front : SignatureMap
      pub own : Entry
      pub back : SignatureMap
      pub parts : es ≡ front ++ (own ∷ back)
      pub passed : All (IsPassedOver now vk key_id) front
      pub has : has_keyid key_id own.1.0 ≡ true
      pub checked : check_entry now vk own ≡ ok tt
      pub calm : All (λ e. NoPanic (check_entry now vk e)) back
      pub called : own.0 ≡ asked_name x

    -- With a key that accepts what the signing key signs, the signature of `x` is found behind
    -- signatures of other key ids.
    pub entries-IsPlaced :
        (front : List ParamsKeyName) (x : ParamsKeyName) (back : List ParamsKeyName)
        (ss : List HttpSignatureHeaders) (a : AreMadeFor sfv msg asked (front ++ (x ∷ back)) ss)
        → All (λ y. has_key_id key_id y.0 ≡ false) front
        → has_key_id key_id (x.0) ≡ true
        → Accepts (x.1) vk
        → IsCurrent now ((x.0).expires)
        → IsSteady vk back
        → IsPlaced x (entries (front ++ (x ∷ back)) ss a)
    unfolding entries
    entries-IsPlaced [] x back [] a others has accepts current steady = absurd a
    entries-IsPlaced (y ∷ front) x back [] a others has accepts current steady = absurd a
    entries-IsPlaced [] x back (s ∷ ss) a others has accepts current steady = record {
      front = [];
      own = (s.signature_name, (a.0.0, s));
      back = entries back ss a.1;
      parts = refl;
      passed = tt;
      has = has_keyid-made key_id x s a.0 ∙ has;
      checked =
          (verify_signature_headers_iff now (a.0.0) vk s).1
            (rw (a.0.4) current, accepts (base_as_bytes (a.0.0)) s.signature (a.0.2));
      calm = entries-NoPanic back ss a.1 steady;
      called = a.0.3;
    }
    entries-IsPlaced (y ∷ front) x back (s ∷ ss) a others has accepts current steady =
        let later = entries-IsPlaced front x back ss a.1 others.1 has accepts current steady in
        record {
          front = (s.signature_name, (a.0.0, s)) ∷ IsPlaced.front later;
          own = IsPlaced.own later;
          back = IsPlaced.back later;
          parts = ap (λ es. (s.signature_name, (a.0.0, s)) ∷ es) (IsPlaced.parts later);
          passed = (inl (has_keyid-made key_id y s a.0 ∙ others.0), IsPlaced.passed later);
          has = IsPlaced.has later;
          checked = IsPlaced.checked later;
          calm = IsPlaced.calm later;
          called = IsPlaced.called later;
        }
