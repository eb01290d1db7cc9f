-- ===== src/Http.antt =====
-- The `http` crate, which the sources call and do not contain: header maps as a parameter with the
-- laws that it documents, and the parts of a message that the program reads.
use httpsig_rs.Base.{
  String, Bool, List, [], ◌∷◌, ◌++◌, Option, ◌≡◌, ◌==◌, string_eq, is_empty, first, not,
  to_ascii_lowercase, if◌then◌else◌,
}
use httpsig_rs.Crypto.{Bytes}
use httpsig_rs.Sfv.{Parsed, parsed}

pub record Http : Type 1 where
  pub HeaderMap : Type 0
  pub HeaderValue : Type 0
  pub get_all : HeaderMap → String → List HeaderValue
  pub get : HeaderMap → String → Option HeaderValue
  pub contains_key : HeaderMap → String → Bool
  pub append : HeaderMap → String → HeaderValue → HeaderMap
  pub insert : HeaderMap → String → HeaderValue → HeaderMap
  pub to_str : HeaderValue → Parsed String
  -- `str::parse::<HeaderValue>`
  pub parse : String → Parsed HeaderValue

-- Header names are compared without regard to ASCII case.
abbrev pub same_header : String → String → Bool
same_header a b = to_ascii_lowercase a == to_ascii_lowercase b

-- What the documentation of `HeaderMap` and `HeaderValue` says.
pub record IsLawful (h : Http) : Type 0 where
  pub get-eq-first : (m : h.HeaderMap) (k : String) → h.get m k ≡ first (h.get_all m k)
  pub contains_key-eq :
      (m : h.HeaderMap) (k : String) → h.contains_key m k ≡ not (is_empty (h.get_all m k))
  pub get_all-append :
      (m : h.HeaderMap) (k j : String) (v : h.HeaderValue)
      → h.get_all (h.append m k v) j
        ≡ (if same_header k j then h.get_all m j ++ (v ∷ []) else h.get_all m j)
  pub get_all-insert :
      (m : h.HeaderMap) (k j : String) (v : h.HeaderValue)
      → h.get_all (h.insert m k v) j ≡ (if same_header k j then v ∷ [] else h.get_all m j)
  pub to_str-parse : (s : String) (v : h.HeaderValue) → h.parse s ≡ parsed v → h.to_str v ≡ parsed s

-- What the accessors of `http::Uri` return.
pub record Uri : Type 0 where
  pub text : String
  pub authority : Option String
  pub scheme_str : Option String
  pub path_and_query : Option String
  pub path : String
  pub query : Option String

-- A body is what reading it to its end returns. A method and a status are known by their texts.
pub record Request (h : Http) : Type 0 where
  pub method : String
  pub uri : Uri
  pub headers : h.HeaderMap
  pub body : Parsed Bytes

pub record Response (h : Http) : Type 0 where
  pub status : String
  pub headers : h.HeaderMap
  pub body : Parsed Bytes
