-- ===== src/Hyper/Roundtrip/Maps.antt =====
-- Maps whose keys are distinct, for the dictionaries and maps of signature_base.rs and hyper_http.rs.
use mathlib.Core.List.{append-nil, append_assoc}
use httpsig_rs.Base.{
  ◌≡◌, refl, ap, sym, ◌∙◌, String, false, List, [], ◌∷◌, ◌++◌, All, some, ◌==◌, string_eq, lookup,
  insert_entry, collect_map, keys, PartialEq,
}
use httpsig_rs.Util.Unique.{IsSetOf}

module _ {V : Type 0} where
  -- No key of the map is the one given.
  abbrev IsFresh : String → List (String × V) → Type 0
  IsFresh k m = All (λ e. (e.0 == k) ≡ false) m

  insert_entry-fresh :
      (k : String) (v : V) (m : List (String × V))
      → IsFresh k m
      → insert_entry k v m ≡ m ++ ((k, v) ∷ [])
  insert_entry-fresh k v [] h = refl
  insert_entry-fresh k v ((j, w) ∷ m) h =
      rw (h.0) (ap (λ l. (j, w) ∷ l) (insert_entry-fresh k v m h.1))

  IsFresh-concat :
      (k j : String) (v : V) (m : List (String × V))
      → IsFresh k m
      → (j == k) ≡ false
      → IsFresh k (m ++ ((j, v) ∷ []))
  IsFresh-concat k j v [] h e = (e, tt)
  IsFresh-concat k j v (x ∷ m) h e = (h.0, IsFresh-concat k j v m h.1 e)

  All-IsFresh-concat :
      (j : String) (v : V) (m xs : List (String × V))
      → All (λ e. IsFresh e.0 m) xs
      → All (λ k. (j == k) ≡ false) (keys xs)
      → All (λ e. IsFresh e.0 (m ++ ((j, v) ∷ []))) xs
  All-IsFresh-concat j v m [] h d = tt
  All-IsFresh-concat j v m ((k, w) ∷ xs) h d =
      (IsFresh-concat k j v m h.0 d.0, All-IsFresh-concat j v m xs h.1 d.1)

  collect_map-append :
      (m xs : List (String × V))
      → All (λ e. IsFresh e.0 m) xs
      → IsSetOf (keys xs)
      → collect_map m xs ≡ m ++ xs
  collect_map-append m [] h d = sym (append-nil m)
  collect_map-append m ((k, v) ∷ xs) h d = rw (insert_entry-fresh k v m h.0) (
      collect_map-append (m ++ ((k, v) ∷ [])) xs (All-IsFresh-concat k v m xs h.1 d.0) d.1
      ∙ append_assoc m ((k, v) ∷ []) xs)

  All-IsFresh-nil : (xs : List (String × V)) → All (λ e. IsFresh e.0 []) xs
  All-IsFresh-nil [] = tt
  All-IsFresh-nil (x ∷ xs) = (tt, All-IsFresh-nil xs)

  -- Pairs with distinct keys are collected as they are.
  pub collect_map-distinct : (xs : List (String × V)) → IsSetOf (keys xs) → collect_map [] xs ≡ xs
  collect_map-distinct xs d = collect_map-append [] xs (All-IsFresh-nil xs) d

  lookup-first : (k : String) (v : V) (m : List (String × V)) → lookup k ((k, v) ∷ m) ≡ some v
  lookup-first k v m = rw ((PartialEq.eq_test_iff string_eq k k).1 refl) refl

  lookup-later :
      (j k : String) (v : V) (m : List (String × V))
      → (j == k) ≡ false
      → lookup k ((j, v) ∷ m) ≡ lookup k m
  lookup-later j k v m e = rw e refl

  -- Every pair is found under its key.
  abbrev pub AreFound : List (String × V) → List (String × V) → Type 0
  AreFound m xs = All (λ e. lookup e.0 m ≡ some e.1) xs

  AreFound-later :
      (j : String) (v : V) (m xs : List (String × V))
      → All (λ k. (j == k) ≡ false) (keys xs)
      → AreFound m xs
      → AreFound ((j, v) ∷ m) xs
  AreFound-later j v m [] d h = tt
  AreFound-later j v m ((k, w) ∷ xs) d h =
      (lookup-later j k v m d.0 ∙ h.0, AreFound-later j v m xs d.1 h.1)

  pub AreFound-distinct : (xs : List (String × V)) → IsSetOf (keys xs) → AreFound xs xs
  AreFound-distinct [] d = tt
  AreFound-distinct ((k, v) ∷ xs) d =
      (lookup-first k v xs, AreFound-later k v xs xs d.0 (AreFound-distinct xs d.1))
