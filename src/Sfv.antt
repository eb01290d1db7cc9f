-- ===== src/Sfv.antt =====
-- The `sfv` crate (structured field values), which the sources call and do not contain: its values
-- and, as a parameter, its parser and its serialisers.
pub mod Canonical
use httpsig_rs.Base.{String, ℕ, ℤ, List, Option, Outcome, ok, err, NoPanic, ◌≡◌, ap, ok-injective}

-- The bare items that the program looks into; any other is kept as its serialised text.
pub data BareItem : Type 0 where
  string : String → BareItem
  integer : ℤ → BareItem
  byte_sequence : List ℕ → BareItem
  other : String → BareItem

-- An `IndexMap` from keys to bare items.
abbrev pub Parameters : Type 0
Parameters = List (String × BareItem)

pub record Item : Type 0 where
  pub bare_item : BareItem
  pub params : Parameters

pub record InnerList : Type 0 where
  pub items : List Item
  pub params : Parameters

pub data ListEntry : Type 0 where
  item : Item → ListEntry
  inner_list : InnerList → ListEntry

abbrev pub SfvList : Type 0
SfvList = List ListEntry

-- An `IndexMap` from keys to members.
abbrev pub Dictionary : Type 0
Dictionary = List (String × ListEntry)

-- A `Result` of the parser; an error is known by its text.
pub data Parsed (A : Type 0) : Type 0 where
  parsed : A → Parsed A
  failed : String → Parsed A

pub record Sfv : Type 0 where
  pub parse_item : String → Parsed Item
  pub parse_list : String → Parsed SfvList
  pub parse_dictionary : String → Parsed Dictionary
  pub serialize_item : Item → String
  pub serialize_list : SfvList → Option String
  pub serialize_dictionary : Dictionary → Option String
  pub debug_bare_item : BareItem → String

-- `parse().map_err(|e| error(e.to_string()))`
abbrev pub or_error : {E A : Type 0} → (String → E) → Parsed A → Outcome E A
or_error f (parsed a) = ok a
or_error f (failed e) = err (f e)

abbrev pub as_string : BareItem → Option String
as_string (BareItem.string s) = Option.some s
as_string _ = Option.none

abbrev pub as_integer : BareItem → Option ℤ
as_integer (BareItem.integer i) = Option.some i
as_integer _ = Option.none

pub or_error-NoPanic : {E A : Type 0} (f : String → E) (p : Parsed A) → NoPanic (or_error f p)
or_error-NoPanic f (parsed a) = λ t p. cc
or_error-NoPanic f (failed e) = λ t p. cc

pub or_error-eq-ok :
    {E A : Type 0} (f : String → E) (m : Parsed A) {a : A} → or_error f m ≡ ok a → m ≡ parsed a
or_error-eq-ok f (parsed a) h = ap parsed (ok-injective h)
or_error-eq-ok f (failed t) h = cc

pub parsed-injective : {A : Type 0} {a b : A} → parsed a ≡ parsed b → a ≡ b
parsed-injective h = cc
