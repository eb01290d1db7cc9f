-- ===== src/Hyper/Verify/Complete.antt =====
-- Which name a verification returns, and which error, for hyper_http.rs.
use httpsig_rs.Base.{
  ◌≡◌, refl, ap, ◌∙◌, ◌⊎◌, inl, inr, ℕ, String, true, false, Bool-cases, List, [], ◌∷◌, ◌++◌,
  Option, some, Outcome, ok, err, first, collect_set, contains, is_empty, filter, map_ok, filter_ok,
  filter_ok-ok, filter_ok-err, filter_ok-total, map_ok-NoPanic, NoPanic, All, Any, string_eq, ◌>>=◌,
  map, join_all, Outcome-cases,
}
use httpsig_rs.Error.{HttpSigError, HyperSigError}
use httpsig_rs.Crypto.{VerifyingKey}
use httpsig_rs.Signature.{HttpSignatureBase, HttpSignatureHeaders, verify_signature_headers}
use httpsig_rs.Hyper.Verify.{
  SignatureMap, has_keyid, candidates, successful_names, first_or_invalid, verify_one,
  verify_message_signatures_inner,
}

abbrev pub Entry : Type 0
Entry = String × (HttpSignatureBase × HttpSignatureHeaders)

-- What the key says of an entry.
abbrev pub check_entry : ℕ → VerifyingKey → Entry → Outcome HttpSigError (Unit {0})
check_entry now key e = verify_signature_headers now e.1.0 key e.1.1

-- The entry is passed over: it has another key id than the one asked for, or is refused.
abbrev pub IsPassedOver : ℕ → VerifyingKey → Option String → Entry → Type 0
IsPassedOver now key key_id e =
    (has_keyid key_id e.1.0 ≡ false)
    ⊎ ((error : HttpSigError) × (check_entry now key e ≡ err error))

first-collect_set : (x : String) (ys xs : List String) → first (collect_set (x ∷ ys) xs) ≡ some x
first-collect_set x ys [] = refl
first-collect_set x ys (a ∷ xs) = elim (Bool-cases (contains (x ∷ ys) a)) [
  | inl old ↦ rw old (first-collect_set x ys xs)
  | inr new ↦ rw new (first-collect_set x (ys ++ (a ∷ [])) xs)
]

first_or_invalid-cons : (x : String) (xs : List String) → first_or_invalid (x ∷ xs) ≡ ok x
unfolding first_or_invalid
first_or_invalid-cons x xs = rw (first_or_invalid, first-collect_set x [] xs)

module _ (now : ℕ) (key : VerifyingKey) (key_id : Option String) where
  abbrev name_of : Entry → Outcome HttpSigError String
  name_of x = map_ok (λ _. x.0) (check_entry now key x)

  abbrev names_in : SignatureMap → Outcome HyperSigError (List String)
  names_in m = filter_ok name_of (filter (λ e. has_keyid key_id e.1.0) m)

  -- A passed over entry in front changes nothing.
  names_in-cons :
      (x : Entry) (m : SignatureMap) → IsPassedOver now key key_id x → names_in (x ∷ m) ≡ names_in m
  names_in-cons x m (inl other) = rw other
  names_in-cons x m (inr (e, refused)) = elim (Bool-cases (has_keyid key_id x.1.0)) [
    | inl asked ↦ rw asked (
        filter_ok-err name_of x (filter (λ e. has_keyid key_id e.1.0) m) e
          (ap (map_ok (λ _. x.0)) refused))
    | inr other ↦ rw other
  ]

  names_in-passed : (m : SignatureMap) → All (IsPassedOver now key key_id) m → names_in m ≡ ok []
  names_in-passed [] h = refl
  names_in-passed (x ∷ m) h = names_in-cons x m h.0 ∙ names_in-passed m h.1

  names_in-total :
      (m : SignatureMap)
      → All (λ x. NoPanic (check_entry now key x)) m
      → (names : List String) × (names_in m ≡ ok names)
  names_in-total [] h = ([], refl)
  names_in-total (x ∷ m) h =
      let (names, e) = names_in-total m h.1 in
      elim (Bool-cases (has_keyid key_id x.1.0)) [
        | inl asked ↦ rw asked (
            filter_ok-total name_of x (filter (λ e. has_keyid key_id e.1.0) m) names
              (map_ok-NoPanic (λ _. x.0) (check_entry now key x) h.0) e)
        | inr other ↦ (names, rw other e)
      ]

  names_in-first :
      (front rest : SignatureMap) (x : Entry)
      → All (IsPassedOver now key key_id) front
      → has_keyid key_id x.1.0 ≡ true
      → check_entry now key x ≡ ok tt
      → All (λ y. NoPanic (check_entry now key y)) rest
      → (names : List String) × (names_in (front ++ (x ∷ rest)) ≡ ok (x.0 ∷ names))
  names_in-first [] rest x h asked verified k =
      let (names, e) = names_in-total rest k in
      (
        names,
        rw asked (
            filter_ok-ok name_of x (filter (λ y. has_keyid key_id y.1.0) rest) x.0
              (ap (map_ok (λ _. x.0)) verified)
            ∙ ap (map_ok (λ ns. x.0 ∷ ns)) e),
      )
  names_in-first (y ∷ front) rest x h asked verified k =
      let (names, e) = names_in-first front rest x h.1 asked verified k in
      (names, names_in-cons y (front ++ (x ∷ rest)) h.0 ∙ e)

  has_candidate :
      (m : SignatureMap)
      → Any (λ e. has_keyid key_id e.1.0 ≡ true) m
      → is_empty (candidates m key_id) ≡ false
  unfolding candidates
  has_candidate [] h = absurd h
  has_candidate (x ∷ m) h = elim (Bool-cases (has_keyid key_id x.1.0)) [
    | inl asked ↦ rw asked
    | inr other ↦ elim h [ inl here ↦ cc | inr there ↦ rw other (has_candidate m there) ]
  ]

Any-middle :
    (P : Entry → Type 0) (front rest : SignatureMap) (x : Entry) → P x → Any P (front ++ (x ∷ rest))
Any-middle P [] rest x p = inl p
Any-middle P (y ∷ front) rest x p = inr (Any-middle P front rest x p)

-- The first signature in the order of the headers that has the key id asked for and that the key
-- accepts is the one whose name is returned: those in front of it may be refused, with any error,
-- or have another key id, and those behind it must only be checked without a panic.
pub verify_one_first :
    (now : ℕ) (key : VerifyingKey) (key_id : Option String) (front rest : SignatureMap) (x : Entry)
    → All (IsPassedOver now key key_id) front
    → has_keyid key_id x.1.0 ≡ true
    → check_entry now key x ≡ ok tt
    → All (λ y. NoPanic (check_entry now key y)) rest
    → verify_one now (front ++ (x ∷ rest)) (key, key_id) ≡ ok x.0
unfolding verify_one successful_names candidates
verify_one_first now key key_id front rest x h asked verified k =
    let (names, e) = names_in-first now key key_id front rest x h asked verified k in
    rw
      (has_candidate now key key_id (front ++ (x ∷ rest))
        (Any-middle (λ y. has_keyid key_id y.1.0 ≡ true) front rest x asked))
      (ap (λ r. r >>= first_or_invalid) e ∙ first_or_invalid-cons x.0 names)

-- If there is a signature with the key id asked for, and the key refuses every such signature, the
-- verification fails as an invalid signature.
pub verify_one_refused :
    (now : ℕ) (key : VerifyingKey) (key_id : Option String) (m : SignatureMap)
    → Any (λ x. has_keyid key_id x.1.0 ≡ true) m
    → All (IsPassedOver now key key_id) m
    → verify_one now m (key, key_id)
      ≡ err (HyperSigError.invalid_signature "Invalid signature for the verifying key")
unfolding verify_one successful_names candidates
verify_one_refused now key key_id m some_asked h =
    rw (has_candidate now key key_id m some_asked)
      (ap (λ r. r >>= first_or_invalid) (names_in-passed now key key_id m h))

no_candidate :
    (key_id : Option String) (m : SignatureMap)
    → All (λ x. has_keyid key_id x.1.0 ≡ false) m
    → candidates m key_id ≡ []
unfolding candidates
no_candidate key_id [] h = refl
no_candidate key_id (x ∷ m) h = rw (h.0) (no_candidate key_id m h.1)

-- If no signature has the key id asked for, no key is tried: the error says that there is none.
pub verify_one_missing :
    (now : ℕ) (key : VerifyingKey) (key_id : Option String) (m : SignatureMap)
    → All (λ x. has_keyid key_id x.1.0 ≡ false) m
    → verify_one now m (key, key_id)
      ≡ err
          (HyperSigError.no_signature_headers "No signature as appropriate target for verification")
unfolding verify_one
verify_one_missing now key key_id m h = rw (no_candidate key_id m h)

join_all_of_NoPanic :
    {K : Type 0} (f : K → Outcome HyperSigError String) (ks : List K)
    → All (λ k. NoPanic (f k)) ks
    → join_all {F = HyperSigError} (map f ks) ≡ ok (map f ks)
join_all_of_NoPanic f [] h = refl
join_all_of_NoPanic f (k ∷ ks) h = elim (Outcome-cases (f k)) [
  | inl (a, e) ↦ rw (e, join_all_of_NoPanic f ks h.1)
  | inr (inl (d, e)) ↦ rw (e, join_all_of_NoPanic f ks h.1)
  | inr (inr (t, e)) ↦ absurd (h.0 t e)
]

pub verify_message_signatures_inner-map :
    (now : ℕ) (m : SignatureMap) (ks : List (VerifyingKey × Option String))
    → All (λ k. NoPanic (verify_one now m k)) ks
    → verify_message_signatures_inner now m ks ≡ ok (map (verify_one now m) ks)
unfolding verify_message_signatures_inner
verify_message_signatures_inner-map now m ks h = join_all_of_NoPanic (verify_one now m) ks h
