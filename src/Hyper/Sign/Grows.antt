-- ===== src/Hyper/Sign/Grows.antt =====
-- What signing leaves as it was, whether it succeeds or fails midway, for hyper_http.rs.
use mathlib.Core.List.{append-nil, append_assoc}
use httpsig_rs.Base.{
  ◌≡◌, refl, ap, sym, ◌∙◌, inl, inr, Bool-cases, String, false, List, [], ◌∷◌, ◌++◌, Outcome, ok,
  err, panic,
}
use httpsig_rs.Error.{HyperSigError}
use httpsig_rs.Http.{Http, IsLawful, same_header, Request}
use httpsig_rs.Sfv.{Sfv, parsed, failed, Parsed}
use httpsig_rs.Crypto.{Bytes}
use httpsig_rs.Signature.{HttpSignatureHeaders}
use httpsig_rs.Signature.Headers.{signature_header_value, signature_input_header_value}
use httpsig_rs.Digest.{content_digest_header}
use httpsig_rs.Hyper.{headers}
use httpsig_rs.Hyper.Sign.{
  ParamsKeyName, Signed, append_signature, and_then, append_signatures, set_signatures,
  request_set_message_signatures,
}

module _ (h : Http) where
  -- Lines are only added, behind the old ones, and in no header but the signature headers; but the
  -- content digest may be replaced.
  pub record Grows (m r : h.HeaderMap) : Type 0 where
    pub lines :
        (j : String)
        → same_header content_digest_header j ≡ false
        → (vs : List h.HeaderValue) × (h.get_all r j ≡ h.get_all m j ++ vs)
    pub others :
        (j : String)
        → same_header content_digest_header j ≡ false
        → same_header "signature-input" j ≡ false
        → same_header "signature" j ≡ false
        → h.get_all r j ≡ h.get_all m j

  pub Grows-refl : (m : h.HeaderMap) → Grows m m
  Grows-refl m = record {
    lines = λ j _. ([], sym (append-nil (h.get_all m j)));
    others = λ j _ _ _. refl;
  }

  pub Grows-trans : (m r s : h.HeaderMap) → Grows m r → Grows r s → Grows m s
  Grows-trans m r s a b = record {
    lines = λ j d.
        let (vs, first) = Grows.lines a j d in
        let (ws, then_) = Grows.lines b j d in
        (vs ++ ws, then_ ∙ ap (λ l. l ++ ws) first ∙ append_assoc (h.get_all m j) vs ws);
    others = λ j d i g. Grows.others b j d i g ∙ Grows.others a j d i g;
  }

  module _ (lawful : IsLawful h) where
    append-lines :
        (m : h.HeaderMap) (k j : String) (v : h.HeaderValue)
        → (vs : List h.HeaderValue) × (h.get_all (h.append m k v) j ≡ h.get_all m j ++ vs)
    append-lines m k j v = elim (Bool-cases (same_header k j)) [
      | inl same ↦ (v ∷ [], IsLawful.get_all-append lawful m k j v ∙ rw same refl)
      | inr other ↦
          ([], IsLawful.get_all-append lawful m k j v ∙ rw other (sym (append-nil (h.get_all m j))))
    ]

    append-other :
        (m : h.HeaderMap) (k j : String) (v : h.HeaderValue)
        → same_header k j ≡ false
        → h.get_all (h.append m k v) j ≡ h.get_all m j
    append-other m k j v other = IsLawful.get_all-append lawful m k j v ∙ rw other refl

    append_input-Grows :
        (m : h.HeaderMap) (v : h.HeaderValue) → Grows m (h.append m "signature-input" v)
    append_input-Grows m v = record {
      lines = λ j _. append-lines m "signature-input" j v;
      others = λ j _ i _. append-other m "signature-input" j v i;
    }

    append_bytes-Grows : (m : h.HeaderMap) (v : h.HeaderValue) → Grows m (h.append m "signature" v)
    append_bytes-Grows m v = record {
      lines = λ j _. append-lines m "signature" j v;
      others = λ j _ _ g. append-other m "signature" j v g;
    }

    pub insert_digest-Grows :
        (m : h.HeaderMap) (v : h.HeaderValue) → Grows m (h.insert m content_digest_header v)
    insert_digest-Grows m v = record {
      lines = λ j d. (
        [],
        IsLawful.get_all-insert lawful m content_digest_header j v
            ∙ rw d (sym (append-nil (h.get_all m j))),
      );
      others = λ j d _ _. IsLawful.get_all-insert lawful m content_digest_header j v ∙ rw d refl;
    }

    module _ (encode : Bytes → String) where
      -- The two lines, once their texts have been read as header values or not.
      abbrev add_lines : h.HeaderMap → Parsed h.HeaderValue → Parsed h.HeaderValue → Signed h
      add_lines m i g = elim i [
        | failed e ↦ (m, err (HyperSigError.invalid_header_value e))
        | parsed v ↦ elim g [
          | failed e ↦ (h.append m "signature-input" v, err (HyperSigError.invalid_header_value e))
          | parsed w ↦ (h.append (h.append m "signature-input" v) "signature" w, ok tt)
        ]
      ]

      both_parsed-Grows :
          (m : h.HeaderMap) (i g : Parsed h.HeaderValue) → Grows m ((add_lines m i g).0)
      both_parsed-Grows m (failed e) g = Grows-refl m
      both_parsed-Grows m (parsed v) (failed e) = append_input-Grows m v
      both_parsed-Grows m (parsed v) (parsed w) =
          Grows-trans m (h.append m "signature-input" v) _ (append_input-Grows m v)
            (append_bytes-Grows (h.append m "signature-input" v) w)

      append_signature-Grows :
          (s : HttpSignatureHeaders) (m : h.HeaderMap) → Grows m ((append_signature h encode s m).0)
      unfolding append_signature
      append_signature-Grows s m =
          both_parsed-Grows m (h.parse (signature_input_header_value s))
            (h.parse (signature_header_value encode s))

      and_then-Grows :
          (m : h.HeaderMap) (x : Signed h) (f : h.HeaderMap → Signed h)
          → Grows m (x.0)
          → ((r : h.HeaderMap) → Grows r ((f r).0))
          → Grows m ((and_then h encode x f).0)
      and_then-Grows m (r, ok _) f g k = Grows-trans m r ((f r).0) g (k r)
      and_then-Grows m (r, err e) f g k = g
      and_then-Grows m (r, panic e) f g k = g

      append_signatures-Grows :
          (ss : List HttpSignatureHeaders) (m : h.HeaderMap)
          → Grows m ((append_signatures h encode ss m).0)
      unfolding append_signatures
      append_signatures-Grows [] m = Grows-refl m
      append_signatures-Grows (s ∷ ss) m =
          and_then-Grows m (append_signature h encode s m) (append_signatures h encode ss)
            (append_signature-Grows s m) (append_signatures-Grows ss)

      abbrev finish : Outcome HyperSigError (List HttpSignatureHeaders) → h.HeaderMap → Signed h
      finish o m = elim o [
        | ok ss ↦ append_signatures h encode ss m
        | err e ↦ (m, err e)
        | panic t ↦ (m, panic t)
      ]

      finish-Grows :
          (o : Outcome HyperSigError (List HttpSignatureHeaders)) (m : h.HeaderMap)
          → Grows m ((finish o m).0)
      finish-Grows (ok ss) m = append_signatures-Grows ss m
      finish-Grows (err e) m = Grows-refl m
      finish-Grows (panic t) m = Grows-refl m

      -- Whatever signing a request returns, its headers have at most grown.
      pub request_set_message_signatures-Grows :
          (sfv : Sfv) (req : Request h) (ps : List ParamsKeyName)
          → Grows req.headers ((request_set_message_signatures h encode sfv req ps).0.headers)
      unfolding request_set_message_signatures set_signatures headers
      request_set_message_signatures-Grows sfv req ps = finish-Grows _ req.headers
