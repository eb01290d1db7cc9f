-- ===== src/Tests/Env.antt =====
-- Small models of the crates that the program calls, for the examples.
use httpsig_rs.Base.{
  refl, sym, String, not, List, [], ◌∷◌, ◌++◌, none, some, ◌==◌, string_eq, is_empty, first,
  to_ascii_lowercase, as_bytes, Outcome, ok, err, if◌then◌else◌,
}
use httpsig_rs.Error.{HttpSigError}
use httpsig_rs.Sfv.{Sfv, BareItem, Item, ListEntry, Dictionary, Parsed, parsed, failed}
use httpsig_rs.Http.{Http, IsLawful, Uri, Request, Response}
use httpsig_rs.Crypto.{AlgorithmName, Bytes, SigningKey, VerifyingKey}
use httpsig_rs.Digest.{is_equal_digest}

-- Header maps from lower-case names to values.
abbrev pub toy_http : Http
toy_http = record {
  HeaderMap = String → List String;
  HeaderValue = String;
  get_all = λ m k. m (to_ascii_lowercase k);
  get = λ m k. first (m (to_ascii_lowercase k));
  contains_key = λ m k. not (is_empty (m (to_ascii_lowercase k)));
  append = λ m k v j. if to_ascii_lowercase k == j then m j ++ (v ∷ []) else m j;
  insert = λ m k v j. if to_ascii_lowercase k == j then v ∷ [] else m j;
  to_str = parsed;
  parse = parsed;
}

pub toy_http-IsLawful : IsLawful toy_http
toy_http-IsLawful = record {
  get-eq-first = λ m k. refl;
  contains_key-eq = λ m k. refl;
  get_all-append = λ m k j v. refl;
  get_all-insert = λ m k j v. refl;
  to_str-parse = λ s v e. sym e;
}

abbrev pub plain : String → Item
plain s = record { bare_item = BareItem.string s; params = [] }

abbrev pub bytes_entry : Bytes → ListEntry
bytes_entry b = ListEntry.item (record { bare_item = BareItem.byte_sequence b; params = [] })

-- The text that signing the header `date: Tue` alone signs.
abbrev pub date_base : String
date_base = "\"date\": Tue\n\"@signature-params\": (\"date\")"

abbrev pub date_list : ListEntry
date_list = ListEntry.inner_list (record { items = plain "date" ∷ []; params = [] })

-- A parser that knows the texts of the examples.
toy_item : String → Parsed Item
toy_item s =
    if s == "\"date\""
    then parsed (plain "date")
    else if s == "\"@method\";req"
    then parsed (record {
      bare_item = BareItem.string "@method";
      params = ("req", BareItem.other "?1") ∷ [];
    })
    else failed "item"

toy_dictionary : String → Parsed Dictionary
unfolding as_bytes
toy_dictionary s =
    if s == "sig=(\"date\")"
    then parsed (("sig", date_list) ∷ [])
    else if s == "sig=:MAC:"
    then parsed (("sig", bytes_entry (as_bytes date_base)) ∷ [])
    else failed "dictionary"

toy_serialized : BareItem → String
toy_serialized (BareItem.string s) = if s == "date" then "\"date\"" else "\"other\""
toy_serialized _ = "other"

unfoldable pub toy_sfv : Sfv
unfolding toy_item toy_dictionary toy_serialized
toy_sfv = record {
  parse_item = toy_item;
  parse_list = λ s. failed "list";
  parse_dictionary = toy_dictionary;
  serialize_item = λ i. toy_serialized i.bare_item;
  serialize_list = λ l. some "list";
  serialize_dictionary = λ d. some "dictionary";
  debug_bare_item = λ b. "bare item";
}

-- A key whose signature of a message is the message.
abbrev pub toy_signer : SigningKey
toy_signer = record { sign = ok; key_id = "toy"; alg = AlgorithmName.ed25519 }

unfoldable pub toy_verify : Bytes → Bytes → Outcome HttpSigError (Unit {0})
unfolding is_equal_digest
toy_verify message signature =
    if is_equal_digest message signature then ok tt else err (HttpSigError.invalid_signature "toy")

unfoldable pub toy_verifier : VerifyingKey
unfolding toy_verify
toy_verifier = record { verify = toy_verify; key_id = "toy"; alg = AlgorithmName.ed25519 }

-- A key that refuses every signature.
abbrev pub refusing : VerifyingKey
refusing = record {
  verify = λ m s. err (HttpSigError.invalid_signature "no");
  key_id = "no";
  alg = AlgorithmName.ed25519;
}

abbrev pub toy_uri : Uri
toy_uri = record {
  text = "/a?b=c";
  authority = none;
  scheme_str = none;
  path_and_query = some "/a?b=c";
  path = "/a";
  query = some "b=c";
}

abbrev pub dated : String → List String
dated j = if j == "date" then "Tue" ∷ [] else []

abbrev pub signed_headers : String → List String
signed_headers j =
    if j == "date"
    then "Tue" ∷ []
    else if j == "signature-input"
    then "sig=(\"date\")" ∷ []
    else if j == "signature"
    then "sig=:MAC:" ∷ []
    else []

abbrev pub request_with : (String → List String) → Request toy_http
request_with m = record { method = "GET"; uri = toy_uri; headers = m; body = parsed (1 ∷ 2 ∷ []) }

abbrev pub response_with : (String → List String) → Response toy_http
response_with m = record { status = "200"; headers = m; body = parsed (1 ∷ 2 ∷ []) }
