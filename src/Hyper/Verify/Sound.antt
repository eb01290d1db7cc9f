-- ===== src/Hyper/Verify/Sound.antt =====
-- What a verified signature name stands for, for hyper_http.rs.
use httpsig_rs.Base.{
  ◌≡◌, refl, sym, ◌∙◌, inl, inr, ℕ, String, [], ◌∷◌, Option, none, Outcome, ok, err, panic,
  >>=-eq-ok, map_ok-eq-ok, ensure-eq-ok, ok-injective, Any, Any-filter_ok, Any-collect_map,
  filter_ok, string_eq, ◌>>=◌, ensure, join_all, subst,
}
use httpsig_rs.Error.{HyperSigError}
use httpsig_rs.Http.{Http, Request, Response}
use httpsig_rs.Sfv.{Sfv}
use httpsig_rs.Crypto.{VerifyingKey}
use httpsig_rs.Params.Expiry.{IsCurrent}
use httpsig_rs.Signature.{HttpSignatureBase, HttpSignatureHeaders, base_as_bytes}
use httpsig_rs.Signature.Headers.{HttpSignatureHeadersMap}
use httpsig_rs.Hyper.{RequestOrResponse, headers}
use httpsig_rs.Hyper.Extract.{build_signature_base}
use httpsig_rs.Hyper.Verify.{
  SignatureMap, verify_one, extract_signature_headers_with_name, signature_entry,
  extract_signatures_inner, verify_signatures, verify_message_signatures_inner, pop_result,
  has_message_signature_inner, request_verify_message_signature, request_verify_message_signatures,
  response_verify_message_signature, response_verify_message_signatures,
}
use httpsig_rs.Hyper.Verify.KeyId.{HasKeyId, has_keyid_iff}
use httpsig_rs.Hyper.Verify.Accepted.{IsVerified, verify_one_sound}

pop-join_all : (r : Outcome HyperSigError String) → (join_all (r ∷ []) >>= pop_result) ≡ r
unfolding pop_result
pop-join_all (ok a) = refl
pop-join_all (err e) = refl
pop-join_all (panic t) = refl

pop-single :
    (test : Outcome HyperSigError (Unit {0})) (m : Outcome HyperSigError SignatureMap)
    (f : SignatureMap → Outcome HyperSigError String)
    → ((test >>= λ _. m >>= λ found. join_all (f found ∷ [])) >>= pop_result)
      ≡ (test >>= λ _. m >>= f)
pop-single (ok a) (ok found) f = pop-join_all (f found)
pop-single (ok a) (err e) f = refl
pop-single (ok a) (panic t) f = refl
pop-single (err e) m f = refl
pop-single (panic t) m f = refl

-- What verifying with one key comes to, in a message of either kind.
abbrev pub verify_single :
    {h : Http}
    → Sfv
    → String
    → ℕ
    → RequestOrResponse h
    → Option (Request h)
    → VerifyingKey × Option String
    → Outcome HyperSigError String
verify_single {h} sfv missing now m req k =
    ensure (has_message_signature_inner h (headers m)) (HyperSigError.no_signature_headers missing)
    >>= λ _. extract_signatures_inner sfv m req >>= λ found. verify_one now found k

module _ {h : Http} (sfv : Sfv) where
  verify_signatures-single :
      (missing : String) (now : ℕ) (m : RequestOrResponse h) (req : Option (Request h))
      (k : VerifyingKey × Option String)
      → (verify_signatures sfv missing now m req (k ∷ []) >>= pop_result)
        ≡ verify_single sfv missing now m req k
  unfolding verify_signatures verify_message_signatures_inner
  verify_signatures-single missing now m req k =
      pop-single (ensure (has_message_signature_inner h (headers m)) _)
        (extract_signatures_inner sfv m req) (λ found. verify_one now found k)

  -- An entry of the headers whose signature is verified, with the base built for its parameters.
  abbrev pub IsSignedEntry :
      ℕ
      → RequestOrResponse h
      → Option (Request h)
      → VerifyingKey
      → Option String
      → String
      → String × HttpSignatureHeaders
      → Type 0
  IsSignedEntry now m req key key_id name e =
      (base : HttpSignatureBase) × (build_signature_base sfv m e.1.signature_params req ≡ ok base)
      × (e.0 ≡ name)
      × HasKeyId key_id base
      × IsCurrent now e.1.signature_params.expires
      × (key.verify (base_as_bytes base) e.1.signature ≡ ok tt)

  IsSignedEntry-of_IsVerified :
      (now : ℕ) (m : RequestOrResponse h) (req : Option (Request h)) (key : VerifyingKey)
      (key_id : Option String) (name : String) (x : String × HttpSignatureHeaders)
      (y : String × (HttpSignatureBase × HttpSignatureHeaders))
      → signature_entry sfv m req x ≡ ok y
      → IsVerified now key key_id name y
      → IsSignedEntry now m req key key_id name x
  unfolding signature_entry
  IsSignedEntry-of_IsVerified now m req key key_id name x y e v =
      let (base, built, same) =
        map_ok-eq-ok (λ b. (x.0, (b, x.1))) (build_signature_base sfv m x.1.signature_params req)
          e in
      let w = subst (IsVerified now key key_id name) (sym same) v in
      (base, built, w.0, (has_keyid_iff key_id base).0 w.1, w.2, w.3)

  verify_single_sound :
      (missing : String) (now : ℕ) (m : RequestOrResponse h) (req : Option (Request h))
      (key : VerifyingKey) (key_id : Option String) (name : String)
      → verify_single sfv missing now m req (key, key_id) ≡ ok name
      → (found : HttpSignatureHeadersMap) × (extract_signature_headers_with_name sfv m ≡ ok found)
        × Any (IsSignedEntry now m req key key_id name) found
  unfolding extract_signatures_inner
  verify_single_sound missing now m req key key_id name e =
      let (_, e') = ensure-eq-ok (has_message_signature_inner h (headers m)) _ _ e in
      let (signatures, extracted, verified) = >>=-eq-ok (extract_signatures_inner sfv m req) _ e' in
      let (found, parsed_headers, rest) =
        >>=-eq-ok (extract_signature_headers_with_name sfv m) _ extracted in
      let (entries, filtered, collected) =
        >>=-eq-ok (filter_ok (signature_entry sfv m req) found) _ rest in
      let in_map =
        rw (sym (ok-injective collected)) at
          (verify_one_sound now signatures key key_id name verified) in
      (
        found,
        parsed_headers,
        elim (Any-collect_map (IsVerified now key key_id name) [] entries in_map) [
          | inl none_yet ↦ absurd none_yet
          | inr there ↦
              Any-filter_ok (IsSignedEntry now m req key key_id name)
                (IsVerified now key key_id name) (signature_entry sfv m req)
                (IsSignedEntry-of_IsVerified now m req key key_id name) found entries filtered there
        ],
      )

  -- Verification of a response with one key is the test for the headers, the extraction of the
  -- signatures and the verification of that key, in this order: taking the only result never fails.
  pub response_verify_message_signature_single :
      (now : ℕ) (res : Response h) (key : VerifyingKey) (key_id : Option String)
      (req : Option (Request h))
      → response_verify_message_signature sfv now res key key_id req
        ≡ verify_single sfv "The response does not have signature and signature-input headers" now
            (RequestOrResponse.response res)
            req
            (key, key_id)
  unfolding response_verify_message_signature response_verify_message_signatures
  response_verify_message_signature_single now res key key_id req =
      verify_signatures-single _ now (RequestOrResponse.response res) req (key, key_id)

  pub request_verify_message_signature_single :
      (now : ℕ) (req : Request h) (key : VerifyingKey) (key_id : Option String)
      → request_verify_message_signature sfv now req key key_id
        ≡ verify_single sfv "The request does not have signature and signature-input headers" now
            (RequestOrResponse.request req)
            none
            (key, key_id)
  unfolding request_verify_message_signature request_verify_message_signatures
  request_verify_message_signature_single now req key key_id =
      verify_signatures-single _ now (RequestOrResponse.request req) none (key, key_id)

  -- Success for a request means that its headers hold an entry of the name returned which has the
  -- key id asked for, has not expired, and whose signature the key accepts for the bytes of the
  -- base that is built from the request with that entry's parameters.
  pub request_verify_message_signature_sound :
      (now : ℕ) (req : Request h) (key : VerifyingKey) (key_id : Option String) (name : String)
      → request_verify_message_signature sfv now req key key_id ≡ ok name
      → (found : HttpSignatureHeadersMap) × (extract_signature_headers_with_name sfv
            (RequestOrResponse.request req)
          ≡ ok found)
        × Any (IsSignedEntry now (RequestOrResponse.request req) none key key_id name) found
  unfolding request_verify_message_signature request_verify_message_signatures
  request_verify_message_signature_sound now req key key_id name e =
      verify_single_sound _ now (RequestOrResponse.request req) none key key_id name (
        sym (verify_signatures-single _ now (RequestOrResponse.request req) none (key, key_id)) ∙ e)

  -- Success for a response means that its headers hold an entry of the name returned which has the
  -- key id asked for, has not expired, and whose signature the key accepts for the bytes of the base
  -- that is built from the response, and from the request given, with that entry's parameters.
  pub response_verify_message_signature_sound :
      (now : ℕ) (res : Response h) (key : VerifyingKey) (key_id : Option String)
      (req : Option (Request h)) (name : String)
      → response_verify_message_signature sfv now res key key_id req ≡ ok name
      → (found : HttpSignatureHeadersMap) × (extract_signature_headers_with_name sfv
            (RequestOrResponse.response res)
          ≡ ok found)
        × Any (IsSignedEntry now (RequestOrResponse.response res) req key key_id name) found
  response_verify_message_signature_sound now res key key_id req name e =
      verify_single_sound _ now (RequestOrResponse.response res) req key key_id name
        (sym (response_verify_message_signature_single now res key key_id req) ∙ e)
