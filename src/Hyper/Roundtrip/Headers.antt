-- ===== src/Hyper/Roundtrip/Headers.antt =====
-- What is read from the headers of a message that bears its own signatures alone, for hyper_http.rs.
use httpsig_rs.Hyper.Roundtrip.Lines.{ReadsBack}
use httpsig_rs.Base.{
  ◌≡◌, refl, ap, ◌∙◌, ◌++◌, String, true, false, not, List, [], ◌∷◌, map, All, Option, ok, traverse,
  is_empty, string_eq,
}
use httpsig_rs.Error.{HyperSigError}
use httpsig_rs.Http.{Http, IsLawful, Request}
use httpsig_rs.Sfv.{Sfv, Parsed, parsed, or_error}
use httpsig_rs.Util.Unique.{IsSetOf}
use httpsig_rs.Crypto.{Bytes}
use httpsig_rs.Params.Written.{IsWellFormed}
use httpsig_rs.Signature.{HttpSignatureHeaders}
use httpsig_rs.Signature.Headers.{signature_header_value, signature_input_header_value}
use httpsig_rs.Hyper.{RequestOrResponse, headers}
use httpsig_rs.Hyper.Sign.{ParamsKeyName}
use httpsig_rs.Hyper.Sign.Appended.{texts}
use httpsig_rs.Hyper.Sign.Made.{AreMadeFor}
use httpsig_rs.Hyper.Verify.{
  has_message_signature_inner, header_strings, extract_signature_headers_with_name,
}
use httpsig_rs.Hyper.Roundtrip.Lines.{names, named, headers_try_parse-written}

-- Header values that are the texts given.
module _ {V A : Type 0} (f : V → Parsed String) (error : String → HyperSigError)
    (g : A → String) where
  values_read :
      (vs : List V) (xs : List A)
      → map f vs ≡ map (λ x. parsed (g x)) xs
      → (traverse (λ v. or_error error (f v)) vs ≡ ok (map g xs)) × (is_empty vs ≡ is_empty xs)
  values_read [] [] e = (refl, refl)
  values_read [] (x ∷ xs) e = cc
  values_read (v ∷ vs) [] e = cc
  values_read (v ∷ vs) (x ∷ xs) e =
      let (later, _) = values_read vs xs (cc) in
      let here : f v ≡ parsed (g x) = cc in (rw (here, later) refl, refl)

module _ {h : Http} (sfv : Sfv) (encode : Bytes → String) (lawful : IsLawful h) where
  -- What verification finds in the headers of a message that bears the header lines of `ss` alone.
  pub extract_signature_headers_with_name-own :
      (msg : RequestOrResponse h) (ss : List HttpSignatureHeaders)
      → is_empty ss ≡ false
      → texts h encode (headers msg) "signature-input"
        ≡ map (λ s. parsed (signature_input_header_value s)) ss
      → texts h encode (headers msg) "signature"
        ≡ map (λ s. parsed (signature_header_value encode s)) ss
      → IsSetOf (names ss)
      → All (λ s. IsWellFormed s.signature_params) ss
      → ReadsBack sfv encode ss
      → (has_message_signature_inner h (headers msg) ≡ true)
        × (extract_signature_headers_with_name sfv msg ≡ ok (map named ss))
  unfolding extract_signature_headers_with_name has_message_signature_inner header_strings
  extract_signature_headers_with_name-own msg ss filled input signature distinct formed reads =
      let (input_texts, has_input) =
        values_read h.to_str HyperSigError.failed_to_str_signature_headers
          signature_input_header_value (h.get_all (headers msg) "signature-input") ss input in
      let (signature_texts, has_signature) =
        values_read h.to_str HyperSigError.failed_to_str_signature_headers
          (signature_header_value encode) (h.get_all (headers msg) "signature") ss signature in
      let input_key =
        IsLawful.contains_key-eq lawful (headers msg) "signature-input"
        ∙ ap not (has_input ∙ filled) in
      let signature_key =
        IsLawful.contains_key-eq lawful (headers msg) "signature"
        ∙ ap not (has_signature ∙ filled) in
      (
        rw (signature_key, input_key) refl,
        rw
            (
              input_key,
              signature_key,
              input_texts,
              signature_texts,
              headers_try_parse-written sfv encode ss distinct formed reads,
            )
            refl,
      )

  pub made-filled :
      (msg : RequestOrResponse h) (asked : Option (Request h)) (front : List ParamsKeyName)
      (x : ParamsKeyName) (back : List ParamsKeyName) (ss : List HttpSignatureHeaders)
      → AreMadeFor sfv msg asked (front ++ (x ∷ back)) ss
      → is_empty ss ≡ false
  made-filled msg asked [] x back [] a = absurd a
  made-filled msg asked (y ∷ front) x back [] a = absurd a
  made-filled msg asked front x back (s ∷ ss) a = refl

  pub appended_alone :
      (m : h.HeaderMap) (k : String) (vs : List (Parsed String))
      → h.get_all m k ≡ []
      → texts h encode m k ++ vs ≡ vs
  appended_alone m k vs empty = ap (λ l. map h.to_str l ++ vs) empty
