-- ===== src/Signature/Headers/Matching.antt =====
-- That the two header dictionaries match, for signature_base.rs.
use httpsig_rs.Base.{
  ◌≡◌, refl, ap, sym, ◌∙◌, subst, inl, inr, String, suc, Bool, true, false, Bool-cases, bool_ext,
  and-eq-true, ◌||◌, ◌≤◌, List, [], ◌∷◌, some, Option-cases, PartialEq, ◌==◌, nat_eq, string_eq,
  nat_beq_iff, length, all, All, All-of_all, All-map, All-zip, >>=-NoPanic_from, contains, keys,
  values, lookup, Outcome, ok, NoPanic, >>=-NoPanic, map_ok-NoPanic, traverse, ensure-eq-ok, arith,
  if◌then◌else◌,
}
use httpsig_rs.Crypto.{Bytes}
use httpsig_rs.Sfv.{Sfv, ListEntry, Dictionary, parsed, or_error, or_error-NoPanic, or_error-eq-ok}
use httpsig_rs.Util.Unique.{IsSetOf}
use httpsig_rs.Params.{params_try_from_entry}
use httpsig_rs.Signature.Headers.{
  has_key, bytes_of, is_bytes, signature_bytes, headers_entry, check_dictionaries,
  headers_try_parse,
}

later : (p q : Bool) → (p || q) ≡ true → p ≡ false → q ≡ true
later p q h k = ground arith

module _ {A : Type 0} ⦃e : PartialEq A⦄ where
  -- Without the first element that equals the given one.
  abbrev remove : A → List A → List A
  remove a [] = []
  remove a (x ∷ xs) = let rest = remove a xs in if a == x then xs else x ∷ rest

  beq_sym : (a b : A) → (a == b) ≡ (b == a)
  beq_sym a b =
      bool_ext (a == b) (b == a)
        (λ h. (PartialEq.eq_test_iff e b a).1 (sym ((PartialEq.eq_test_iff e a b).0 h)))
        (λ h. (PartialEq.eq_test_iff e a b).1 (sym ((PartialEq.eq_test_iff e b a).0 h)))

  contains-cons : (xs : List A) (x a : A) → contains xs a ≡ true → contains (x ∷ xs) a ≡ true
  contains-cons xs x a h = ground arith

  length-remove :
      (a : A) (xs : List A) → contains xs a ≡ true → length xs ≡ suc (length (remove a xs))
  length-remove a [] h = cc
  length-remove a (x ∷ xs) h = elim (Bool-cases (a == x)) [
    | inl same ↦ rw same
    | inr other ↦
        rw other
          (ap suc (length-remove a xs (later (x == a) (contains xs a) h (beq_sym x a ∙ other))))
  ]

  contains-remove :
      (a b : A) (xs : List A)
      → contains xs b ≡ true
      → (a == b) ≡ false
      → contains (remove a xs) b ≡ true
  contains-remove a b [] h k = cc
  contains-remove a b (x ∷ xs) h k = elim (Bool-cases (a == x)) [
    | inl same ↦ rw same (
        later (x == b) (contains xs b) h
          (subst (λ z. (z == b) ≡ false) ((PartialEq.eq_test_iff e a x).0 same) k))
    | inr other ↦ rw other (elim (Bool-cases (x == b)) [
      | inl here ↦ rw here
      | inr elsewhere ↦
          rw elsewhere (contains-remove a b xs (later (x == b) (contains xs b) h elsewhere) k)
    ])
  ]

  -- As many elements, distinct and all among the others, are all of them.
  contains-All :
      (xs ys : List A)
      → IsSetOf xs
      → All (λ x. contains ys x ≡ true) xs
      → length ys ≤ length xs
      → (y : A) → contains ys y ≡ true
      → contains xs y ≡ true
  contains-All [] [] d h k y m = m
  contains-All [] (z ∷ ys) d h k y m = absurd (omega arith)
  contains-All (x ∷ xs) ys d h k y m = elim (Bool-cases (x == y)) [
    | inl same ↦ rw same
    | inr other ↦ rw other (
        contains-All xs (remove x ys) (d.1) (kept x xs ys (d.0) (h.1))
          (omega (arith, length-remove x ys (h.0))) y (contains-remove x y ys m other))
  ]
    where
      kept :
          (a : A) (zs ws : List A)
          → All (λ z. (a == z) ≡ false) zs
          → All (λ z. contains ws z ≡ true) zs
          → All (λ z. contains (remove a ws) z ≡ true) zs
      kept a [] ws p q = tt
      kept a (z ∷ zs) ws p q = (contains-remove a z ws q.0 p.0, kept a zs ws p.1 q.1)

bytes_of-is_bytes :
    (v : ListEntry) → is_bytes v ≡ true → (bytes : Bytes) × (bytes_of v ≡ some bytes)
bytes_of-is_bytes v h = elim (Option-cases (bytes_of v)) [
  | inl nothing ↦ cc (rw (is_bytes, nothing) at h)
  | inr found ↦ found
]

-- A key of a dictionary has an entry.
lookup_of_key :
    (d : Dictionary) (k : String)
    → contains (keys d) k ≡ true
    → all is_bytes (values d) ≡ true
    → (v : ListEntry) × (lookup k d ≡ some v) × (is_bytes v ≡ true)
lookup_of_key [] k h b = cc
lookup_of_key ((j, v) ∷ d) k h b = elim (Bool-cases (j == k)) [
  | inl here ↦ (v, rw (lookup, here) refl, (and-eq-true (is_bytes v) _ b).0)
  | inr elsewhere ↦
      rw (lookup, elsewhere)
        (lookup_of_key d k (later (j == k) _ h elsewhere) (and-eq-true (is_bytes v) _ b).1)
]

signature_bytes_of_key :
    (d : Dictionary) (k : String)
    → contains (keys d) k ≡ true
    → all is_bytes (values d) ≡ true
    → (bytes : Bytes) × (signature_bytes d k ≡ ok bytes)
unfolding signature_bytes
signature_bytes_of_key d k h b =
    let (v, there, passed) = lookup_of_key d k h b in
    let (bytes, found) = bytes_of-is_bytes v passed in
    (bytes, rw (signature_bytes, there, found) refl)

has_key-contains : (d : Dictionary) (k : String) → has_key d k ≡ contains (keys d) k
has_key-contains [] k = refl
has_key-contains ((j, v) ∷ d) k = elim (Bool-cases (j == k)) [
  | inl here ↦ rw (has_key, lookup, here) refl
  | inr elsewhere ↦ rw (has_key, lookup, elsewhere) (has_key-contains d k)
]

length-keys : (d : Dictionary) → length (keys d) ≡ length d
length-keys [] = refl
length-keys ((k, v) ∷ d) = ap suc (length-keys d)

keys-All :
    {P : String → Type 0} (d : Dictionary)
    → ((k : String) → contains (keys d) k ≡ true → P k)
    → All (λ e. P e.0) d
keys-All [] f = tt
keys-All ((k, v) ∷ d) f = (
  f k (rw ((PartialEq.eq_test_iff string_eq k k).1 refl)),
  keys-All d (λ j h. f j (contains-cons (keys d) k j h)),
)

-- Dictionaries that pass the four tests have the same keys: since no key stands twice in the
-- signatures, each key of the inputs has signature bytes.
signature_bytes_found :
    (signature input : Dictionary)
    → IsSetOf (keys signature)
    → check_dictionaries signature input ≡ ok tt
    → All (λ e. (bytes : Bytes) × (signature_bytes signature e.0 ≡ ok bytes)) input
unfolding check_dictionaries
signature_bytes_found signature input d h =
    let (same_length, h1) = ensure-eq-ok (length signature == length input) _ _ h in
    let (known, h2) = ensure-eq-ok (all (has_key input) (keys signature)) _ _ h1 in
    let (byte_values, _) = ensure-eq-ok (all is_bytes (values signature)) _ _ h2 in
    let lengths = (nat_beq_iff _ _).0 same_length in
    let among =
      All-map (λ k m. sym (has_key-contains input k) ∙ m) (keys signature)
        (All-of_all (has_key input) (keys signature) known) in
    keys-All input (λ k m.
      signature_bytes_of_key signature k
        (contains-All (keys signature) (keys input) d among
          (omega (arith, lengths, length-keys signature, length-keys input)) k m)
        byte_values)

headers_entry-NoPanic :
    (sfv : Sfv) (signature : Dictionary) (e : String × ListEntry)
    → NoPanic (params_try_from_entry sfv (e.1))
    → (bytes : Bytes) × (signature_bytes signature (e.0) ≡ ok bytes)
    → NoPanic (headers_entry sfv signature e)
unfolding headers_entry
headers_entry-NoPanic sfv signature e h (bytes, found) =
    >>=-NoPanic (params_try_from_entry sfv (e.1)) _ h
      (λ p. >>=-NoPanic (signature_bytes signature (e.0)) _ (λ t q. cc (found, q)) (λ b t q. cc))

check_dictionaries-NoPanic :
    (signature input : Dictionary) → NoPanic (check_dictionaries signature input)
unfolding check_dictionaries
check_dictionaries-NoPanic signature input t e = ground arith

traverse-All-NoPanic :
    {E A B : Type 0} (f : A → Outcome E B) (xs : List A)
    → All (λ x. NoPanic (f x)) xs
    → NoPanic (traverse f xs)
traverse-All-NoPanic f [] h = λ t e. cc
traverse-All-NoPanic f (x ∷ xs) h =
    >>=-NoPanic (f x) _ (h.0)
      (λ y. map_ok-NoPanic _ (traverse f xs) (traverse-All-NoPanic f xs h.1))

-- The arm of the parser that is marked unreachable is never reached: on any two header values, if
-- the dictionary of signatures has no key twice, as an index map has none, the parser can panic only
-- where the parameters of an entry are read.
pub headers_try_parse-NoPanic :
    (sfv : Sfv) (signature_header signature_input_header : String)
    → ((signature : Dictionary)
        → Sfv.parse_dictionary sfv signature_header ≡ parsed signature
        → IsSetOf (keys signature))
    → ((input : Dictionary)
        → Sfv.parse_dictionary sfv signature_input_header ≡ parsed input
        → All (λ e. NoPanic (params_try_from_entry sfv e.1)) input)
    → NoPanic (headers_try_parse sfv signature_header signature_input_header)
unfolding headers_try_parse
headers_try_parse-NoPanic sfv s i d h =
    >>=-NoPanic_from (or_error _ (Sfv.parse_dictionary sfv i)) _ (or_error-NoPanic _ _)
      (λ input input_parsed.
        >>=-NoPanic_from (or_error _ (Sfv.parse_dictionary sfv s)) _ (or_error-NoPanic _ _)
          (λ signature signature_parsed.
            >>=-NoPanic_from (check_dictionaries signature input) _
              (check_dictionaries-NoPanic signature input)
              (λ _ checked. map_ok-NoPanic _ (traverse (headers_entry sfv signature) input) (
                traverse-All-NoPanic (headers_entry sfv signature) input (
                  All-zip (headers_entry-NoPanic sfv signature) input
                    (h input (or_error-eq-ok _ _ input_parsed))
                    (signature_bytes_found signature input
                      (d signature (or_error-eq-ok _ _ signature_parsed)) checked))))))
