-- ===== src/Hyper/Sign/Appended.antt =====
-- What signing writes into a message, for hyper_http.rs.
use httpsig_rs.Base.{
  ◌≡◌, refl, ap, sym, ◌∙◌, subst, String, false, List, [], ◌∷◌, ◌++◌, map, ok, err, panic,
  to_ascii_lowercase,
}
use httpsig_rs.Error.{HyperSigError}
use httpsig_rs.Http.{Http, IsLawful, same_header}
use httpsig_rs.Sfv.{Parsed, parsed, failed}
use httpsig_rs.Crypto.{Bytes}
use httpsig_rs.Signature.{HttpSignatureHeaders}
use httpsig_rs.Signature.Headers.{signature_header_value, signature_input_header_value}
use httpsig_rs.Hyper.Sign.{Signed, append_signature, and_then, append_signatures}

map-concat :
    {A B : Type 0} (f : A → B) (xs : List A) (x : A)
    → map f (xs ++ (x ∷ [])) ≡ map f xs ++ (f x ∷ [])
map-concat f [] x = refl
map-concat f (y ∷ xs) x = ap (λ l. f y ∷ l) (map-concat f xs x)

concat-cons :
    {A : Type 0} (xs : List A) (x : A) (ys : List A) → (xs ++ (x ∷ [])) ++ ys ≡ xs ++ (x ∷ ys)
concat-cons [] x ys = refl
concat-cons (y ∷ xs) x ys = ap (λ l. y ∷ l) (concat-cons xs x ys)

concat-nil : {A : Type 0} (xs : List A) → xs ++ [] ≡ xs
concat-nil [] = refl
concat-nil (x ∷ xs) = ap (λ l. x ∷ l) (concat-nil xs)

module _ (h : Http) (encode : Bytes → String) where
  -- The values of a header as texts.
  abbrev pub texts : h.HeaderMap → String → List (Parsed String)
  texts m k = map h.to_str (h.get_all m k)

  -- The header lines of the signatures are behind those that were there, and no other header has
  -- changed.
  pub record IsAppended (m r : h.HeaderMap) (ss : List HttpSignatureHeaders) : Type 0 where
    pub inputs :
        texts r "signature-input"
        ≡ texts m "signature-input" ++ map (λ s. parsed (signature_input_header_value s)) ss
    pub signatures :
        texts r "signature"
        ≡ texts m "signature" ++ map (λ s. parsed (signature_header_value encode s)) ss
    pub others :
        (j : String)
        → same_header "signature-input" j ≡ false
        → same_header "signature" j ≡ false
        → h.get_all r j ≡ h.get_all m j

  IsAppended-nil : (m : h.HeaderMap) → IsAppended m m []
  IsAppended-nil m = record {
    inputs = sym (concat-nil (texts m "signature-input"));
    signatures = sym (concat-nil (texts m "signature"));
    others = λ j a b. refl;
  }

  module _ (lawful : IsLawful h) where
    abbrev both : h.HeaderMap → h.HeaderValue → h.HeaderValue → h.HeaderMap
    both m v w = h.append (h.append m "signature-input" v) "signature" w

    both-inputs :
        (m : h.HeaderMap) (v w : h.HeaderValue)
        → h.get_all (both m v w) "signature-input" ≡ h.get_all m "signature-input" ++ (v ∷ [])
    unfolding to_ascii_lowercase
    both-inputs m v w =
        rw
          (
            IsLawful.get_all-append lawful (h.append m "signature-input" v) "signature"
                "signature-input" w,
            IsLawful.get_all-append lawful m "signature-input" "signature-input" v,
          )
          refl

    both-signatures :
        (m : h.HeaderMap) (v w : h.HeaderValue)
        → h.get_all (both m v w) "signature" ≡ h.get_all m "signature" ++ (w ∷ [])
    unfolding to_ascii_lowercase
    both-signatures m v w =
        rw
          (
            IsLawful.get_all-append lawful (h.append m "signature-input" v) "signature" "signature"
                w,
            IsLawful.get_all-append lawful m "signature-input" "signature" v,
          )
          refl

    both-others :
        (m : h.HeaderMap) (v w : h.HeaderValue) (j : String)
        → same_header "signature-input" j ≡ false
        → same_header "signature" j ≡ false
        → h.get_all (both m v w) j ≡ h.get_all m j
    both-others m v w j a b =
        rw
          (
            IsLawful.get_all-append lawful (h.append m "signature-input" v) "signature" j w,
            b,
            IsLawful.get_all-append lawful m "signature-input" j v,
            a,
          )
          refl

    append_signature-eq-ok :
        (s : HttpSignatureHeaders) (m r : h.HeaderMap)
        → append_signature h encode s m ≡ (r, ok tt)
        → (v : h.HeaderValue) × (w : h.HeaderValue) × (h.parse (signature_input_header_value s)
            ≡ parsed v)
          × (h.parse (signature_header_value encode s) ≡ parsed w)
          × (r ≡ both m v w)
    unfolding append_signature
    append_signature-eq-ok s m r e =
        step (h.parse (signature_input_header_value s)) (h.parse (signature_header_value encode s))
          e
      where
        step :
            (p q : Parsed h.HeaderValue)
            → ◌≡◌ {A = Signed h}
                (elim p [
                  | failed t ↦ (m, err (HyperSigError.invalid_header_value t))
                  | parsed v ↦ elim q [
                    | failed t ↦
                        (h.append m "signature-input" v, err (HyperSigError.invalid_header_value t))
                    | parsed w ↦ (both m v w, ok tt)
                  ]
                ])
                (r, ok tt)
            → (v : h.HeaderValue) × (w : h.HeaderValue) × (p ≡ parsed v)
              × (q ≡ parsed w)
              × (r ≡ both m v w)
        step (failed t) q k = cc (ap (λ x. x.1) k)
        step (parsed v) (failed t) k = cc (ap (λ x. x.1) k)
        step (parsed v) (parsed w) k = (v, w, refl, refl, ap (λ x. x.0) (sym k))

    IsAppended-one :
        (s : HttpSignatureHeaders) (m r : h.HeaderMap)
        → append_signature h encode s m ≡ (r, ok tt)
        → IsAppended m r (s ∷ [])
    IsAppended-one s m r e =
        let (v, w, input, signature, made) = append_signature-eq-ok s m r e in
        record {
          inputs =
              ap (λ x. texts x "signature-input") made
              ∙ ap (map h.to_str) (both-inputs m v w)
              ∙ map-concat h.to_str (h.get_all m "signature-input") v
              ∙ ap (λ x. texts m "signature-input" ++ (x ∷ []))
                  (IsLawful.to_str-parse lawful _ v input);
          signatures =
              ap (λ x. texts x "signature") made
              ∙ ap (map h.to_str) (both-signatures m v w)
              ∙ map-concat h.to_str (h.get_all m "signature") w
              ∙ ap (λ x. texts m "signature" ++ (x ∷ []))
                  (IsLawful.to_str-parse lawful _ w signature);
          others = λ j a b. ap (λ x. h.get_all x j) made ∙ both-others m v w j a b;
        }

    IsAppended-cons :
        (s : HttpSignatureHeaders) (ss : List HttpSignatureHeaders) (m n r : h.HeaderMap)
        → IsAppended m n (s ∷ [])
        → IsAppended n r ss
        → IsAppended m r (s ∷ ss)
    IsAppended-cons s ss m n r a b = record {
      inputs =
          IsAppended.inputs b
          ∙ ap (λ l. l ++ map (λ x. parsed (signature_input_header_value x)) ss)
              (IsAppended.inputs a)
          ∙ concat-cons (texts m "signature-input") _ _;
      signatures =
          IsAppended.signatures b
          ∙ ap (λ l. l ++ map (λ x. parsed (signature_header_value encode x)) ss)
              (IsAppended.signatures a)
          ∙ concat-cons (texts m "signature") _ _;
      others = λ j p q. IsAppended.others b j p q ∙ IsAppended.others a j p q;
    }

    and_then-eq-ok :
        (x : Signed h) (f : h.HeaderMap → Signed h) (r : h.HeaderMap)
        → and_then h encode x f ≡ (r, ok tt)
        → (n : h.HeaderMap) × (x ≡ (n, ok tt)) × (f n ≡ (r, ok tt))
    and_then-eq-ok (m, ok _) f r e = (m, refl, e)
    and_then-eq-ok (m, err _) f r e = cc (ap (λ x. x.1) e)
    and_then-eq-ok (m, panic _) f r e = cc (ap (λ x. x.1) e)

    pub append_signatures-IsAppended :
        (ss : List HttpSignatureHeaders) (m r : h.HeaderMap)
        → append_signatures h encode ss m ≡ (r, ok tt)
        → IsAppended m r ss
    unfolding append_signatures
    append_signatures-IsAppended [] m r e =
        subst (λ x. IsAppended m x []) (ap (λ x. x.0) e) (IsAppended-nil m)
    append_signatures-IsAppended (s ∷ ss) m r e =
        let (n, one, rest) = and_then-eq-ok (append_signature h encode s m) _ r e in
        IsAppended-cons s ss m n r (IsAppended-one s m n one)
          (append_signatures-IsAppended ss n r rest)
