-- ===== src/Tests/Verdicts.antt =====
-- Examples of verdicts, and of a message through several calls.
use httpsig_rs.Base.{◌≡◌, ◌↔◌, List, [], ◌∷◌, none, ok, err, NoPanic}
use httpsig_rs.Error.{HyperSigError}
use httpsig_rs.Signature.{verify_signature_headers}
use httpsig_rs.Digest.{ContentDigestType}
use httpsig_rs.Hyper.Sign.{ParamsKeyName, request_set_message_signatures}
use httpsig_rs.Hyper.Sign.Steps.{Step, Reaches, Keeps, Reaches-Keeps}
use httpsig_rs.Hyper.Verify.{verify_one, verify_message_signatures_inner}
use httpsig_rs.Hyper.Verify.Complete.{check_entry}
use httpsig_rs.Hyper.Verify.Verdict.{Verdict, verify_one_iff}
use httpsig_rs.Hyper.Verify.Verdicts.{Verdicts, verify_message_signatures_inner_iff}
use httpsig_rs.Tests.Env.{toy_http, toy_http-IsLawful, toy_verifier, refusing}
use httpsig_rs.Tests.Messages.{date_params, forged, good, good_accepted, forged_not_panicking}
use httpsig_rs.Tests.Digests.{digest_crypto, digest_sfv, plain_request, digested, setting}
use httpsig_rs.Tests.OneByte.{encode, one_byte}

good_not_panicking : NoPanic (check_entry 5 toy_verifier good)
good_not_panicking t e = cc (good_accepted, e)

verify_one_iff_example :
    (verify_one 5 (forged ∷ good ∷ []) (toy_verifier, none) ≡ ok "b")
    ↔ Verdict 5 toy_verifier none (forged ∷ good ∷ []) (ok "b")
verify_one_iff_example =
    verify_one_iff 5 toy_verifier none (forged ∷ good ∷ [])
      (forged_not_panicking, (good_not_panicking, tt)) (ok "b")

-- With a second key, which refuses the signature.
refusing_calmly : NoPanic (check_entry 5 refusing good)
unfolding verify_signature_headers
refusing_calmly t e = cc

verify_message_signatures_inner_iff_example :
    (verify_message_signatures_inner 5 (good ∷ []) ((toy_verifier, none) ∷ (refusing, none) ∷ [])
      ≡ ok (
          ok "b"
          ∷ err (HyperSigError.invalid_signature "Invalid signature for the verifying key")
          ∷ []))
    ↔ Verdicts 5 (good ∷ []) ((toy_verifier, none) ∷ (refusing, none) ∷ []) (
        ok "b"
        ∷ err (HyperSigError.invalid_signature "Invalid signature for the verifying key")
        ∷ [])
verify_message_signatures_inner_iff_example =
    verify_message_signatures_inner_iff 5 (good ∷ []) ((toy_verifier, none) ∷ (refusing, none) ∷ [])
      (ok "b"
        ∷ err (HyperSigError.invalid_signature "Invalid signature for the verifying key")
        ∷ [])
      ((good_not_panicking, tt), ((refusing_calmly, tt), tt))

-- A request whose digest is set and which is then signed.
abbrev asked_once : List ParamsKeyName
asked_once = (date_params, one_byte, none) ∷ []

Reaches-Keeps_example :
    Keeps toy_http encode digest_crypto digest_sfv plain_request
      ((request_set_message_signatures toy_http encode digest_sfv digested asked_once).0)
Reaches-Keeps_example =
    Reaches-Keeps toy_http encode digest_crypto digest_sfv toy_http-IsLawful plain_request
      ((request_set_message_signatures toy_http encode digest_sfv digested asked_once).0)
      (Reaches.next plain_request digested _
        (Reaches.next plain_request plain_request digested (Reaches.start plain_request)
          (Step.digested plain_request digested ContentDigestType.sha512 setting))
        (Step.signed digested asked_once))
