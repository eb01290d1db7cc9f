-- ===== src/Hyper/Roundtrip/Lines.antt =====
-- The header lines of signatures are read back as those signatures, for signature_base.rs.
use httpsig_rs.Base.{
  ◌≡◌, refl, ap, String, true, string_eq, nat_eq, List, [], ◌∷◌, map, All, some, ok, lookup, length,
  all, keys, values, traverse, join, nat_beq_iff,
}
use httpsig_rs.Sfv.{Sfv, BareItem, ListEntry, Dictionary, parsed}
use httpsig_rs.Util.Unique.{IsSetOf}
use httpsig_rs.Crypto.{Bytes}
use httpsig_rs.Params.Written.{
  params_field, IsWellFormed, ReadsIds, params_try_from_entry-params_field,
}
use httpsig_rs.Signature.{HttpSignatureHeaders}
use httpsig_rs.Signature.Headers.{
  headers_try_parse, check_dictionaries, headers_entry, signature_bytes, has_key, is_bytes,
  is_inner_list, signature_header_value, signature_input_header_value,
}
use httpsig_rs.Hyper.Roundtrip.Maps.{collect_map-distinct, AreFound, AreFound-distinct}

-- What the two header lines of a signature stand for.
abbrev bytes_field : HttpSignatureHeaders → String × ListEntry
bytes_field s = (
  s.signature_name,
  ListEntry.item (record { bare_item = BareItem.byte_sequence s.signature; params = [] }),
)

abbrev input_field : HttpSignatureHeaders → String × ListEntry
input_field s = (s.signature_name, ListEntry.inner_list (params_field s.signature_params))

abbrev pub named : HttpSignatureHeaders → String × HttpSignatureHeaders
named s = (s.signature_name, s)

abbrev pub names : List HttpSignatureHeaders → List String
names ss = map (λ s. s.signature_name) ss

-- The crate `sfv` reads the header lines of the signatures, joined by commas, as the dictionaries
-- they stand for, and likewise each component id that the parameters cover.
pub record ReadsBack (sfv : Sfv) (encode : Bytes → String) (ss : List HttpSignatureHeaders)
    : Type 0 where
  pub inputs :
      Sfv.parse_dictionary sfv (join ", " (map signature_input_header_value ss))
      ≡ parsed (map input_field ss)
  pub signatures :
      Sfv.parse_dictionary sfv (join ", " (map (signature_header_value encode) ss))
      ≡ parsed (map bytes_field ss)
  pub ids : All (λ s. ReadsIds sfv s.signature_params.covered_components) ss

keys-bytes_field : (ss : List HttpSignatureHeaders) → keys (map bytes_field ss) ≡ names ss
keys-bytes_field [] = refl
keys-bytes_field (s ∷ ss) = ap (λ l. s.signature_name ∷ l) (keys-bytes_field ss)

keys-input_field : (ss : List HttpSignatureHeaders) → keys (map input_field ss) ≡ names ss
keys-input_field [] = refl
keys-input_field (s ∷ ss) = ap (λ l. s.signature_name ∷ l) (keys-input_field ss)

keys-named : (ss : List HttpSignatureHeaders) → keys (map named ss) ≡ names ss
keys-named [] = refl
keys-named (s ∷ ss) = ap (λ l. s.signature_name ∷ l) (keys-named ss)

length-fields :
    (ss : List HttpSignatureHeaders) → length (map bytes_field ss) ≡ length (map input_field ss)
length-fields [] = refl
length-fields (s ∷ ss) = cc (length-fields ss)

all-is_bytes : (ss : List HttpSignatureHeaders) → all is_bytes (values (map bytes_field ss)) ≡ true
all-is_bytes [] = refl
all-is_bytes (s ∷ ss) = all-is_bytes ss

all-is_inner_list :
    (ss : List HttpSignatureHeaders) → all is_inner_list (values (map input_field ss)) ≡ true
all-is_inner_list [] = refl
all-is_inner_list (s ∷ ss) = all-is_inner_list ss

all-has_key :
    (d : Dictionary) (ss : List HttpSignatureHeaders)
    → AreFound d (map input_field ss)
    → all (has_key d) (names ss) ≡ true
all-has_key d [] found = refl
all-has_key d (s ∷ ss) found = rw (has_key, found.0) (all-has_key d ss found.1)

check_dictionaries-fields :
    (ss : List HttpSignatureHeaders)
    → IsSetOf (names ss)
    → check_dictionaries (map bytes_field ss) (map input_field ss) ≡ ok tt
unfolding check_dictionaries
check_dictionaries-fields ss distinct =
    let found = AreFound-distinct (map input_field ss) (rw (keys-input_field ss) distinct) in
    rw
      (
        (nat_beq_iff _ _).1 (length-fields ss),
        keys-bytes_field ss,
        all-has_key (map input_field ss) ss found,
        all-is_bytes ss,
        all-is_inner_list ss,
      )
      refl

signature_bytes-found :
    (d : Dictionary) (s : HttpSignatureHeaders)
    → lookup s.signature_name d ≡ some (bytes_field s).1
    → signature_bytes d s.signature_name ≡ ok s.signature
unfolding signature_bytes
signature_bytes-found d s found = rw (signature_bytes, found) refl

headers_entry-field :
    (sfv : Sfv) (d : Dictionary) (s : HttpSignatureHeaders)
    → lookup s.signature_name d ≡ some (bytes_field s).1
    → IsWellFormed s.signature_params
    → ReadsIds sfv s.signature_params.covered_components
    → headers_entry sfv d (input_field s) ≡ ok (named s)
unfolding headers_entry
headers_entry-field sfv d s found formed reads =
    rw
      (
        params_try_from_entry-params_field sfv s.signature_params formed reads,
        signature_bytes-found d s found,
      )
      refl

traverse-fields :
    (sfv : Sfv) (d : Dictionary) (ss : List HttpSignatureHeaders)
    → AreFound d (map bytes_field ss)
    → All (λ s. IsWellFormed s.signature_params) ss
    → All (λ s. ReadsIds sfv s.signature_params.covered_components) ss
    → traverse (headers_entry sfv d) (map input_field ss) ≡ ok (map named ss)
traverse-fields sfv d [] found formed reads = refl
traverse-fields sfv d (s ∷ ss) found formed reads =
    rw
      (
        headers_entry-field sfv d s found.0 formed.0 reads.0,
        traverse-fields sfv d ss found.1 formed.1 reads.1,
      )
      refl

-- The two header values that are written for signatures with distinct names and well-formed
-- parameters are read back as these signatures, each under its name and in order: parameters and
-- bytes are put together by the name.
pub headers_try_parse-written :
    (sfv : Sfv) (encode : Bytes → String) (ss : List HttpSignatureHeaders)
    → IsSetOf (names ss)
    → All (λ s. IsWellFormed s.signature_params) ss
    → ReadsBack sfv encode ss
    → headers_try_parse sfv
        (join ", " (map (signature_header_value encode) ss))
        (join ", " (map signature_input_header_value ss))
      ≡ ok (map named ss)
unfolding headers_try_parse
headers_try_parse-written sfv encode ss distinct formed reads =
    let found = AreFound-distinct (map bytes_field ss) (rw (keys-bytes_field ss) distinct) in
    rw
      (
        ReadsBack.inputs reads,
        ReadsBack.signatures reads,
        check_dictionaries-fields ss distinct,
        traverse-fields sfv (map bytes_field ss) ss found formed (ReadsBack.ids reads),
        collect_map-distinct (map named ss) (rw (keys-named ss) distinct),
      )
      refl
