-- ===== src/Signature/Headers.antt =====
-- `HttpSignatureHeaders` of httpsig/src/signature_base.rs
pub mod Matching
use mathlib.Core.Option
use httpsig_rs.Base.{
  String, Bool, true, false, List, [], Option, none, some, ◌==◌, nat_eq, string_eq, length, all,
  keys, values, lookup, collect_map, ◌<>◌, Outcome, ok, panic, map_ok, traverse, ◌>>=◌, ◌>>◌,
  ensure,
}
use httpsig_rs.Error.{HttpSigError}
use httpsig_rs.Crypto.{Bytes}
use httpsig_rs.Sfv.{Sfv, BareItem, ListEntry, Dictionary, or_error}
use httpsig_rs.Params.{params_try_from_entry, signature_params_to_string}
use httpsig_rs.Signature.{HttpSignature, HttpSignatureHeaders}

-- `IndexMap<String, HttpSignatureHeaders>`
abbrev pub HttpSignatureHeadersMap : Type 0
HttpSignatureHeadersMap = List (String × HttpSignatureHeaders)

abbrev pub has_key : Dictionary → String → Bool
has_key d k = elim (lookup k d) [ none ↦ false | some _ ↦ true ]

abbrev pub bytes_of_item : BareItem → Option Bytes
bytes_of_item (BareItem.byte_sequence v) = some v
bytes_of_item _ = none

-- The bytes of `ListEntry::Item(Item { bare_item: BareItem::ByteSequence(v), .. })`.
abbrev pub bytes_of : ListEntry → Option Bytes
bytes_of (ListEntry.item i) = bytes_of_item i.bare_item
bytes_of (ListEntry.inner_list _) = none

abbrev pub is_bytes : ListEntry → Bool
is_bytes v = elim (bytes_of v) [ none ↦ false | some _ ↦ true ]

abbrev pub is_inner_list : ListEntry → Bool
is_inner_list (ListEntry.inner_list _) = true
is_inner_list (ListEntry.item _) = false

unfoldable pub signature_bytes : Dictionary → String → Outcome HttpSigError Bytes
unfolding Option.bind
signature_bytes signature k = elim (Option.bind (lookup k signature) bytes_of) [
  | some v ↦ ok v
  | none ↦ panic "internal error: entered unreachable code"
]

-- One entry of the result.
unfoldable pub headers_entry :
    Sfv → Dictionary → String × ListEntry → Outcome HttpSigError (String × HttpSignatureHeaders)
unfolding params_try_from_entry signature_bytes
headers_entry sfv signature (k, v) = do
  signature_params ← params_try_from_entry sfv v
  bytes ← signature_bytes signature k
  ok (k, record { signature_name = k; signature = bytes; signature_params = signature_params })

-- The four tests on the two dictionaries.
unfoldable pub check_dictionaries : Dictionary → Dictionary → Outcome HttpSigError (Unit {0})
check_dictionaries signature signature_input = do
  ensure (length signature == length signature_input) (
      HttpSigError.build_signature_header_error
        "The number of signature and signature-input headers are not the same")
  ensure (all (has_key signature_input) (keys signature)) (
      HttpSigError.build_signature_header_error
        "The signature and signature-input headers are not the same")
  ensure (all is_bytes (values signature))
      (HttpSigError.build_signature_header_error "The signature header is not a dictionary")
  ensure (all is_inner_list (values signature_input))
      (HttpSigError.build_signature_header_error "The signature-input header is not a dictionary")

unfoldable pub headers_try_parse :
    Sfv → String → String → Outcome HttpSigError HttpSignatureHeadersMap
unfolding check_dictionaries headers_entry
headers_try_parse sfv signature_header signature_input_header = do
  signature_input ←
      or_error HttpSigError.parse_sfv_error (Sfv.parse_dictionary sfv signature_input_header)
  signature ← or_error HttpSigError.parse_sfv_error (Sfv.parse_dictionary sfv signature_header)
  check_dictionaries signature signature_input
  map_ok (collect_map []) (traverse (headers_entry sfv signature) signature_input)

-- `encode` is the encoder of the base64 crate.
unfoldable pub signature_to_string : (Bytes → String) → HttpSignature → String
signature_to_string encode signature = encode signature

unfoldable pub signature_header_value : (Bytes → String) → HttpSignatureHeaders → String
unfolding signature_to_string ◌<>◌
signature_header_value encode h =
    h.signature_name <> "=:" <> signature_to_string encode h.signature <> ":"

unfoldable pub signature_input_header_value : HttpSignatureHeaders → String
unfolding signature_params_to_string ◌<>◌
signature_input_header_value h =
    h.signature_name <> "=" <> signature_params_to_string h.signature_params
