-- ===== src/Hyper/Keyed.antt =====
-- Signing a request with a secret key and verifying it with the public key that its key id names, for
-- hyper_http.rs, signature_params.rs and asymmetric.rs.
use httpsig_rs.Base.{
  ◌≡◌, refl, ap, ◌∙◌, ℕ, String, true, List, [], ◌∷◌, All, Option, none, some, ok, eq_iff,
  string_eq,
}
use httpsig_rs.Http.{Http, IsLawful, Request}
use httpsig_rs.Sfv.{Sfv}
use httpsig_rs.Crypto.{AlgorithmName, alg_as_str, Bytes, SigningKey}
use httpsig_rs.Crypto.Laws.{alg_from_str_iff}
use httpsig_rs.Crypto.Asymmetric.{AsymmetricCrypto, SecretKey}
use httpsig_rs.Crypto.Asymmetric.Public.{public_key_id, public_alg}
use httpsig_rs.Crypto.Asymmetric.Secret.{public_key, secret_signing_key, public_verifying_key}
use httpsig_rs.Crypto.Asymmetric.Signs.{IsSound, secret_signing_key-Accepts}
use httpsig_rs.Params.{HttpSignatureParams, set_key_info}
use httpsig_rs.Params.Expiry.{IsCurrent}
use httpsig_rs.Params.Written.{IsWellFormed}
use httpsig_rs.Signature.{HttpSignatureHeaders, name_or_default}
use httpsig_rs.Hyper.{RequestOrResponse}
use httpsig_rs.Hyper.Unsigned.{IsUntouched}
use httpsig_rs.Hyper.Sign.{request_set_message_signature}
use httpsig_rs.Hyper.Sign.Made.{AreMadeFor}
use httpsig_rs.Hyper.Verify.{known_alg, request_verify_message_signature}
use httpsig_rs.Hyper.Api.{request_get_alg_key_ids}
use httpsig_rs.Hyper.Listed.{request_get_alg_key_ids-signed}
use httpsig_rs.Hyper.Roundtrip.{ReadsBack, has_key_id, request_set_message_signature-verifies}

known_alg-alg_as_str : (alg : AlgorithmName) → known_alg (some (alg_as_str alg)) ≡ some alg
unfolding known_alg
known_alg-alg_as_str alg = rw (known_alg, (alg_from_str_iff (alg_as_str alg) alg).1 refl) refl

IsWellFormed-set_key_info :
    (key : SigningKey) (p : HttpSignatureParams)
    → IsWellFormed p
    → IsWellFormed (set_key_info key p)
unfolding set_key_info
IsWellFormed-set_key_info key p formed = record {
  valid = IsWellFormed.valid formed;
  named = IsWellFormed.named formed;
  distinct = IsWellFormed.distinct formed;
}

has_key_id-set_key_info :
    (key : SigningKey) (p : HttpSignatureParams)
    → has_key_id (some key.key_id) (set_key_info key p) ≡ true
unfolding set_key_info
has_key_id-set_key_info key p = (eq_iff key.key_id key.key_id).1 refl

module _ {h : Http} (sfv : Sfv) (encode : Bytes → String) (lawful : IsLawful h)
    (c : AsymmetricCrypto) where
  -- Where header maps are lawful and the crates of the signature schemes sound, a request that bears
  -- no signature, and is signed with a secret key whose key id and algorithm have been set in the
  -- parameters, tells of one signature, with the algorithm and the key id of the public key; and the
  -- request is verified with this public key, asked for by this key id, until the parameters expire,
  -- whatever random bytes signing draws. It is supposed that the parameters are well formed and cover
  -- neither signature header, and that the parser of structured fields reads the texts that are
  -- written of ids, parameters and signature as the structures they stand for.
  pub request_set_message_signature-key_info :
      (now : ℕ) (req r : Request h) (p : HttpSignatureParams) (sk : SecretKey c)
      (random : Bytes → Bytes) (name : Option String)
      → IsSound c
      → IsCurrent now p.expires
      → IsWellFormed p
      → All IsUntouched p.covered_components
      → h.get_all req.headers "signature-input" ≡ []
      → h.get_all req.headers "signature" ≡ []
      → ((ss : List HttpSignatureHeaders)
          → AreMadeFor sfv
              (RequestOrResponse.request req)
              none
              ((
                set_key_info (secret_signing_key c random sk) p,
                secret_signing_key c random sk,
                name,
              )
                ∷ [])
              ss
          → ReadsBack sfv encode ss)
      → request_set_message_signature h encode sfv req
          (set_key_info (secret_signing_key c random sk) p)
          (secret_signing_key c random sk)
          name
        ≡ (r, ok tt)
      → (request_get_alg_key_ids sfv r
          ≡ ok (
              (
                name_or_default name,
                (some (public_alg c (public_key c sk)), some (public_key_id c (public_key c sk))),
              )
              ∷ []))
        × (request_verify_message_signature sfv now r
              (public_verifying_key c (public_key c sk))
              (some (public_key_id c (public_key c sk)))
            ≡ ok (name_or_default name))
  unfolding secret_signing_key set_key_info request_set_message_signature
  request_set_message_signature-key_info now req r p sk random name sound current formed untouched
        no_input no_signature reads e =
      let key = secret_signing_key c random sk in
      let filled = set_key_info key p in
      let formed_still = IsWellFormed-set_key_info key p formed in
      let (_, listed, _) =
        request_get_alg_key_ids-signed sfv encode lawful req r (filled, key, name) [] (tt, tt)
          (formed_still, tt) no_input no_signature reads e in
      (
        listed
            ∙ ap
                (λ a.
                  ok ((name_or_default name, (a, some (public_key_id c (public_key c sk)))) ∷ []))
                (known_alg-alg_as_str (public_alg c (public_key c sk))),
        request_set_message_signature-verifies sfv encode lawful now req r filled key
            (public_verifying_key c (public_key c sk)) name
            (some (public_key_id c (public_key c sk)))
            (secret_signing_key-Accepts c sk random sound).0 current (has_key_id-set_key_info key p)
            formed_still untouched no_input no_signature reads e,
      )
