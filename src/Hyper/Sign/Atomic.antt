-- ===== src/Hyper/Sign/Atomic.antt =====
-- Signing several times where one of them fails, for hyper_http.rs.
use httpsig_rs.Base.{
  ◌≡◌, refl, ap, ◌∙◌, ◌⊎◌, inl, inr, All, String, List, [], ◌∷◌, Option, none, Outcome, ok, err,
  panic, ◌>>=◌,
}
use httpsig_rs.Error.{HyperSigError}
use httpsig_rs.Http.{Http, Request}
use httpsig_rs.Sfv.{Sfv, Parsed, parsed, failed}
use httpsig_rs.Crypto.{Bytes}
use httpsig_rs.Signature.{HttpSignatureHeaders}
use httpsig_rs.Signature.Headers.{signature_header_value, signature_input_header_value}
use httpsig_rs.Hyper.{RequestOrResponse, headers}
use httpsig_rs.Hyper.Sign.{
  ParamsKeyName, Signed, sign_bases, append_signature, and_then, append_signatures, signature_bases,
  set_signatures, request_set_message_signatures,
}
use httpsig_rs.Hyper.Sign.Made.{AreMadeFor, AreMadeFor-of_signed, finish}

module _ (h : Http) (encode : Bytes → String) where
  -- Both texts of the signature are header values.
  abbrev pub IsWritable : HttpSignatureHeaders → Type 0
  IsWritable s =
      ((v : h.HeaderValue) × (h.parse (signature_input_header_value s) ≡ parsed v))
      × ((w : h.HeaderValue) × (h.parse (signature_header_value encode s) ≡ parsed w))

  append_signature-of_writable :
      (s : HttpSignatureHeaders) (m : h.HeaderMap)
      → IsWritable s
      → (r : h.HeaderMap) × (append_signature h encode s m ≡ (r, ok tt))
  unfolding append_signature
  append_signature-of_writable s m ((v, input), (w, signature)) = (
    h.append (h.append m "signature-input" v) "signature" w,
    step (h.parse (signature_input_header_value s)) (h.parse (signature_header_value encode s))
        input signature,
  )
    where
      step :
          (p q : Parsed h.HeaderValue)
          → p ≡ parsed v
          → q ≡ parsed w
          → ◌≡◌ {A = Signed h}
              (elim p [
                | failed t ↦ (m, err (HyperSigError.invalid_header_value t))
                | parsed x ↦ elim q [
                  | failed t ↦
                      (h.append m "signature-input" x, err (HyperSigError.invalid_header_value t))
                  | parsed y ↦ (h.append (h.append m "signature-input" x) "signature" y, ok tt)
                ]
              ])
              (h.append (h.append m "signature-input" v) "signature" w, ok tt)
      step p q a b = rw (a, b) refl

  append_signatures-of_writable :
      (ss : List HttpSignatureHeaders) (m : h.HeaderMap)
      → All IsWritable ss
      → (append_signatures h encode ss m).1 ≡ ok tt
  unfolding append_signatures
  append_signatures-of_writable [] m writable = refl
  append_signatures-of_writable (s ∷ ss) m writable =
      let (r, appended) = append_signature-of_writable s m writable.0 in
      ap (λ x. (and_then h encode x (append_signatures h encode ss)).1) appended
      ∙ append_signatures-of_writable ss r writable.1

  finish-atomic :
      (o : Outcome HyperSigError (List HttpSignatureHeaders)) (m : h.HeaderMap)
      → ((ss : List HttpSignatureHeaders) → o ≡ ok ss → All IsWritable ss)
      → ((finish h encode o m).1 ≡ ok tt) ⊎ ((finish h encode o m).0 ≡ m)
  finish-atomic (ok ss) m writable = inl (append_signatures-of_writable ss m (writable ss refl))
  finish-atomic (err d) m writable = inr refl
  finish-atomic (panic t) m writable = inr refl

module _ {h : Http} (encode : Bytes → String) (sfv : Sfv) where
  -- The signatures that can be made of a message, all of them with texts that are header values.
  abbrev pub AreWritable : RequestOrResponse h → Option (Request h) → List ParamsKeyName → Type 0
  AreWritable m req ps =
      (ss : List HttpSignatureHeaders) → AreMadeFor sfv m req ps ss → All (IsWritable h encode) ss

  set_signatures-atomic :
      (m : RequestOrResponse h) (req : Option (Request h)) (ps : List ParamsKeyName)
      → AreWritable m req ps
      → ((set_signatures h encode sfv m req ps).1 ≡ ok tt)
        ⊎ ((set_signatures h encode sfv m req ps).0 ≡ headers m)
  unfolding set_signatures
  set_signatures-atomic m req ps writable =
      finish-atomic h encode (signature_bases h encode sfv m req ps >>= sign_bases) (headers m)
        (λ ss e. writable ss (AreMadeFor-of_signed encode sfv m req ps ss e))

  -- Where the texts of all signatures that can be made of the request are header values, signing it
  -- with several keys is all or nothing: it succeeds, or the request is as it was, whichever of the
  -- bases cannot be built and whichever of the keys does not sign, or panics.
  pub request_set_message_signatures-atomic :
      (req : Request h) (ps : List ParamsKeyName)
      → AreWritable (RequestOrResponse.request req) none ps
      → ((request_set_message_signatures h encode sfv req ps).1 ≡ ok tt)
        ⊎ ((request_set_message_signatures h encode sfv req ps).0 ≡ req)
  unfolding request_set_message_signatures headers
  request_set_message_signatures-atomic req ps writable =
      elim (set_signatures-atomic (RequestOrResponse.request req) none ps writable) [
        | inl done ↦ inl done
        | inr same ↦ inr (ap (λ m. record req { headers = m }) same)
      ]
