-- ===== src/Signature.antt =====
-- httpsig/src/signature_base.rs
pub mod Headers
pub mod Ids
pub mod Unambiguous
pub mod Verify
use httpsig_rs.Base.{
  ℕ, String, Bool, true, false, not, ◌&&◌, List, [], ◌∷◌, Option, none, some, ◌==◌, nat_eq, length,
  ◌<>◌, as_bytes, Outcome, ok, err, panic, ◌>>=◌, ◌>>◌, ensure,
}
use httpsig_rs.Error.{HttpSigError}
use httpsig_rs.Crypto.{Bytes, SigningKey, VerifyingKey}
use httpsig_rs.Component.Id.{HttpMessageComponentId, id_beq}
use httpsig_rs.Component.Build.{HttpMessageComponent, component_to_string}
use httpsig_rs.Params.{HttpSignatureParams, is_expired, signature_params_to_string}

abbrev pub default_signature_name : String
default_signature_name = "sig"

-- `HttpSignature`: the raw bytes.
abbrev pub HttpSignature : Type 0
HttpSignature = Bytes

pub record HttpSignatureHeaders : Type 0 where
  pub signature_name : String
  pub signature : HttpSignature
  pub signature_params : HttpSignatureParams

pub record HttpSignatureBase : Type 0 where
  pub component_lines : List HttpMessageComponent
  pub signature_params : HttpSignatureParams

-- `zip(…).all(…)` over the lines and the covered components
same_ids : List HttpMessageComponent → List HttpMessageComponentId → Bool
unfolding id_beq
same_ids (line ∷ lines) (id ∷ ids) = id_beq line.id id && same_ids lines ids
same_ids _ _ = true

unfoldable pub base_try_new :
    List HttpMessageComponent → HttpSignatureParams → Outcome HttpSigError HttpSignatureBase
unfolding same_ids
base_try_new component_lines signature_params = do
  ensure (length component_lines == length signature_params.covered_components) (
      HttpSigError.build_signature_base_error
        "The number of component lines is not the same as the number of covered message component ids")
  ensure (same_ids component_lines signature_params.covered_components) (
      HttpSigError.build_signature_base_error
        "The order of component lines is not the same as the order of covered message component ids")
  ok (record { component_lines = component_lines; signature_params = signature_params })

-- The lines, each with its line feed, in front of the rest.
render_lines : List HttpMessageComponent → String → String
unfolding component_to_string ◌<>◌
render_lines [] rest = rest
render_lines (line ∷ lines) rest = component_to_string line <> "\n" <> render_lines lines rest

unfoldable pub base_to_string : HttpSignatureBase → String
unfolding render_lines signature_params_to_string ◌<>◌
base_to_string base =
    render_lines base.component_lines
      ("\"@signature-params\": " <> signature_params_to_string base.signature_params)

unfoldable pub base_as_bytes : HttpSignatureBase → Bytes
unfolding base_to_string as_bytes
base_as_bytes base = as_bytes (base_to_string base)

unfoldable pub build_raw_signature : HttpSignatureBase → SigningKey → Outcome HttpSigError Bytes
unfolding base_as_bytes
build_raw_signature base signing_key = signing_key.sign (base_as_bytes base)

abbrev pub name_or_default : Option String → String
name_or_default none = default_signature_name
name_or_default (some name) = name

unfoldable pub build_signature_headers :
    HttpSignatureBase → SigningKey → Option String → Outcome HttpSigError HttpSignatureHeaders
unfolding build_raw_signature
build_signature_headers base signing_key signature_name = do
  signature ← build_raw_signature base signing_key
  ok (record {
    signature_name = name_or_default signature_name;
    signature = signature;
    signature_params = base.signature_params;
  })

-- `now` is the clock.
unfoldable pub verify_signature_headers :
    ℕ → HttpSignatureBase → VerifyingKey → HttpSignatureHeaders → Outcome HttpSigError (Unit {0})
unfolding is_expired base_as_bytes
verify_signature_headers now base verifying_key signature_headers = do
  ensure (not (is_expired now signature_headers.signature_params))
      (HttpSigError.expired_signature_params "Signature params is expired")
  verifying_key.verify (base_as_bytes base) signature_headers.signature

unfoldable pub base_keyid : HttpSignatureBase → Option String
base_keyid base = base.signature_params.keyid

unfoldable pub base_alg : HttpSignatureBase → Option String
base_alg base = base.signature_params.alg

unfoldable pub base_nonce : HttpSignatureBase → Option String
base_nonce base = base.signature_params.nonce

unfoldable pub base_covered_components : HttpSignatureBase → List HttpMessageComponentId
base_covered_components base = base.signature_params.covered_components
