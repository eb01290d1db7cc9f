-- ===== src/Params/Canonical.antt =====
-- The texts of signature parameters against RFC 8941, for signature_params.rs.
use httpsig_rs.Base.{
  inl, inr, true, ◌≡◌, refl, ap, sym, ◌↔◌, inl, inr, Bool-cases, ℕ, String, List, [], ◌∷◌, ◌++◌,
  map, All, Option, none, some, string_eq, ◌<>◌, <>-nil, <>-cancel_left, <>-cancel_right,
}
use httpsig_rs.Sfv.{BareItem, Parameters}
use httpsig_rs.Sfv.Canonical.{
  IsPlain, is_key, all_visible, is_serializable_parameter, serialize_parameter,
  serialize_inner_list, escaped, escaped-plain, escaped_iff, bare_item, parameter, parameters, item,
  inner_list,
}
use httpsig_rs.Component.Id.{HttpMessageComponentId, id_to_string}
use httpsig_rs.Component.Id.Written.{id_field}
use httpsig_rs.Params.{HttpSignatureParams, print_int, print_text, signature_params_to_string}
use httpsig_rs.Params.Written.{int_field, text_field, params_field}
use httpsig_rs.Params.Plain.{
  IsPlainId, IsPlainText, HasPlainTexts, id_to_string-item, join_components-join,
}
use httpsig_rs.Params.Serializable.{params_field-IsSerializable}

some-injective : {A : Type 0} {a b : A} → some a ≡ some b → a ≡ b
some-injective e = cc

module _ (encode : List ℕ → String) where
  map-item :
      (vs : List HttpMessageComponentId)
      → All IsPlainId vs
      → map id_to_string vs ≡ map (item encode) (map id_field vs)
  map-item [] h = refl
  map-item (v ∷ vs) h = cc (id_to_string-item encode v h.0, map-item vs h.1)

  -- In front of further attributes.
  int_in_front :
      (label : String) (o : Option ℕ) (rest : Parameters)
      → parameters encode (int_field label o ++ rest) ≡ print_int label o <> parameters encode rest
  unfolding print_int parameters parameter bare_item ◌<>◌
  int_in_front label none rest = refl
  int_in_front label (some n) rest = refl

  text_in_front :
      (label : String) (o : Option String) (rest : Parameters)
      → IsPlainText o
      → parameters encode (text_field label o ++ rest)
        ≡ print_text label o <> parameters encode rest
  unfolding print_text parameters parameter bare_item ◌<>◌
  text_in_front label none rest h = refl
  text_in_front label (some s) rest h = rw (escaped-plain s h.0) refl

  text_alone :
      (label : String) (o : Option String)
      → IsPlainText o
      → parameters encode (text_field label o) ≡ print_text label o
  unfolding parameters print_text bare_item parameter
  text_alone label none h = refl
  text_alone label (some s) h = rw (<>-nil, escaped-plain s h.0) refl

  signature_params_to_string-text :
      (p : HttpSignatureParams)
      → HasPlainTexts p
      → inner_list encode (params_field p) ≡ signature_params_to_string p
  unfolding signature_params_to_string inner_list
  signature_params_to_string-text p plain =
      rw
        (
          int_in_front "created" p.created,
          int_in_front "expires" p.expires,
          text_in_front "nonce" p.nonce _ (HasPlainTexts.nonce plain),
          text_in_front "alg" p.alg _ (HasPlainTexts.alg plain),
          text_in_front "keyid" p.keyid _ (HasPlainTexts.keyid plain),
          text_alone "tag" p.tag (HasPlainTexts.tag plain),
          sym (map-item p.covered_components (HasPlainTexts.ids plain)),
          sym (join_components-join p.covered_components),
        )
        refl

  -- Parameters whose texts are of visible ASCII characters without double quote and backslash, and
  -- whose timestamps have at most fifteen digits, are written as RFC 8941 writes the inner list of
  -- their components with their attributes, in this order, as its parameters: its serialization does
  -- not fail and gives the same text.
  pub signature_params_to_string-inner_list :
      (p : HttpSignatureParams)
      → HasPlainTexts p
      → serialize_inner_list encode (params_field p) ≡ some (signature_params_to_string p)
  unfolding serialize_inner_list
  signature_params_to_string-inner_list p plain =
      rw (params_field-IsSerializable p plain) (ap some (signature_params_to_string-text p plain))

  -- With a label that is a key, RFC 8941 writes a text attribute, and as it is written here, exactly
  -- if it is of visible ASCII characters without double quote and backslash: the two are never
  -- escaped, and texts that have no serialization are written too.
  pub print_text_iff :
      (label s : String)
      → is_key label ≡ true
      → (serialize_parameter encode (label, BareItem.string s) ≡ some (print_text label (some s)))
        ↔ IsPlain s
  unfolding serialize_parameter is_serializable_parameter print_text parameter bare_item
  print_text_iff label s key = (
    λ e. elim (Bool-cases (all_visible s)) [
      | inl visible ↦ (
        (escaped_iff s).0 (
            <>-cancel_right (escaped s) s _ (
              <>-cancel_left "=\"" _ _ (
                <>-cancel_left label _ _
                  (<>-cancel_left ";" _ _ (some-injective (rw (key, visible) at e)))))),
        visible,
      )
      | inr hidden ↦ cc (rw (key, hidden) at e)
    ],
    λ plain. rw (key, plain.1, escaped-plain s (plain.0)) refl,
  )
