-- ===== src/Hyper/Sign.antt =====
-- httpsig-hyper/src/hyper_http.rs: signing a message
pub mod Appended
pub mod Made
pub mod Atomic
pub mod Grows
pub mod Steps
use httpsig_rs.Base.{
  String, List, [], ◌∷◌, map, Option, none, Outcome, ok, err, panic, ◌>>=◌, map_err, map_ok,
  traverse, join_all,
}
use httpsig_rs.Error.{HyperSigError}
use httpsig_rs.Http.{Http, Request, Response}
use httpsig_rs.Sfv.{Sfv, parsed, failed}
use httpsig_rs.Crypto.{Bytes, SigningKey}
use httpsig_rs.Params.{HttpSignatureParams}
use httpsig_rs.Signature.{HttpSignatureBase, HttpSignatureHeaders, build_signature_headers}
use httpsig_rs.Signature.Headers.{signature_header_value, signature_input_header_value}
use httpsig_rs.Hyper.{RequestOrResponse, headers}
use httpsig_rs.Hyper.Extract.{build_signature_base}

-- A request for a signature: parameters, key and name.
abbrev pub ParamsKeyName : Type 0
ParamsKeyName = HttpSignatureParams × SigningKey × Option String

-- The headers as they are when the loop ends, with what it returned: those appended in front of an
-- error stay.
abbrev pub Signed : Http → Type 0
Signed h = h.HeaderMap × Outcome HyperSigError (Unit {0})

-- `build_signature_headers` for each base, all of them run.
unfoldable pub sign_bases :
    List (HttpSignatureBase × SigningKey × Option String)
    → Outcome HyperSigError (List HttpSignatureHeaders)
unfolding build_signature_headers
sign_bases bases = do
  results ←
      join_all (
        map (λ b. map_err HyperSigError.http_sig_error (build_signature_headers b.0 b.1 b.2)) bases)
  traverse (λ r. r) results

module _ (h : Http) (encode : Bytes → String) where
  -- One round of the last loop: the two header lines of a signature.
  append_signature : HttpSignatureHeaders → h.HeaderMap → Signed h
  unfolding signature_header_value signature_input_header_value
  append_signature s m = elim (h.parse (signature_input_header_value s)) [
    | failed e ↦ (m, err (HyperSigError.invalid_header_value e))
    | parsed v ↦ elim (h.parse (signature_header_value encode s)) [
      | failed e ↦ (h.append m "signature-input" v, err (HyperSigError.invalid_header_value e))
      | parsed w ↦ (h.append (h.append m "signature-input" v) "signature" w, ok tt)
    ]
  ]

  abbrev and_then : Signed h → (h.HeaderMap → Signed h) → Signed h
  and_then (m, ok _) f = f m
  and_then (m, err e) f = (m, err e)
  and_then (m, panic e) f = (m, panic e)

  pub append_signatures : List HttpSignatureHeaders → h.HeaderMap → Signed h
  unfolding append_signature
  append_signatures [] m = (m, ok tt)
  append_signatures (s ∷ rest) m = and_then (append_signature s m) (append_signatures rest)

  module _ (sfv : Sfv) where
    unfoldable pub signature_bases :
        RequestOrResponse h
        → Option (Request h)
        → List ParamsKeyName
        → Outcome HyperSigError (List (HttpSignatureBase × SigningKey × Option String))
    unfolding build_signature_base
    signature_bases m req_for_param =
        traverse
          (λ r. map_ok (λ base. (base, r.1, r.2)) (build_signature_base sfv m r.0 req_for_param))

    -- The two implementations of `set_message_signatures`.
    set_signatures : RequestOrResponse h → Option (Request h) → List ParamsKeyName → Signed h
    unfolding signature_bases sign_bases append_signatures headers
    set_signatures m req_for_param params_key_name =
        elim (signature_bases m req_for_param params_key_name >>= sign_bases) [
          | ok vec_signature_headers ↦ append_signatures vec_signature_headers (headers m)
          | err e ↦ (headers m, err e)
          | panic e ↦ (headers m, panic e)
        ]

    unfoldable pub request_set_message_signatures :
        Request h → List ParamsKeyName → Request h × Outcome HyperSigError (Unit {0})
    unfolding set_signatures
    request_set_message_signatures req params_key_name =
        let (m, result) = set_signatures (RequestOrResponse.request req) none params_key_name in
        (record req { headers = m }, result)

    unfoldable pub response_set_message_signatures :
        Response h
        → List ParamsKeyName
        → Option (Request h)
        → Response h × Outcome HyperSigError (Unit {0})
    unfolding set_signatures
    response_set_message_signatures res params_key_name req_for_param =
        let (m, result) =
          set_signatures (RequestOrResponse.response res) req_for_param params_key_name in
        (record res { headers = m }, result)

    unfoldable pub request_set_message_signature :
        Request h
        → HttpSignatureParams
        → SigningKey
        → Option String
        → Request h × Outcome HyperSigError (Unit {0})
    unfolding request_set_message_signatures
    request_set_message_signature req signature_params signing_key signature_name =
        request_set_message_signatures req ((signature_params, signing_key, signature_name) ∷ [])

    unfoldable pub response_set_message_signature :
        Response h
        → HttpSignatureParams
        → SigningKey
        → Option String
        → Option (Request h)
        → Response h × Outcome HyperSigError (Unit {0})
    unfolding response_set_message_signatures
    response_set_message_signature res signature_params signing_key signature_name req_for_param =
        response_set_message_signatures res ((signature_params, signing_key, signature_name) ∷ [])
          req_for_param
