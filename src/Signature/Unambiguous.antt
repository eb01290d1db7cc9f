-- ===== src/Signature/Unambiguous.antt =====
-- The text that is signed determines what it was made of, for signature_base.rs.
use httpsig_rs.Base.{
  ◌≡◌, refl, ap, sym, ◌∙◌, false, String, List, [], ◌∷◌, map, All, Option, some, ◌<>◌,
  contains_char, split_once, split_once-<>, split_once-none,
}
use httpsig_rs.Component.Build.{HttpMessageComponent, component_to_string}
use httpsig_rs.Params.{signature_params_to_string}
use httpsig_rs.Signature.{HttpSignatureBase, render_lines, base_to_string}

-- A text of one line.
abbrev pub IsOneLine : String → Type 0
IsOneLine s = contains_char 10 s ≡ false

-- The texts of a base's lines and of its parameters.
pub record HasOneLineTexts (b : HttpSignatureBase) : Type 0 where
  pub lines : All (λ c. IsOneLine (component_to_string c)) b.component_lines
  pub params : IsOneLine (signature_params_to_string b.signature_params)

-- The first line, and what follows it.
first_line : (t rest : String) → IsOneLine t → split_once 10 (t <> "\n" <> rest) ≡ some (t, rest)
unfolding ◌<>◌
first_line t rest h = split_once-<> 10 t rest _ refl h

no_line : (t rest p : String) → IsOneLine t → IsOneLine p → p ≡ t <> "\n" <> rest → ⊥
no_line t rest p h k e = cc (first_line t rest h, split_once-none 10 p k, ap (split_once 10) e)

first_line-injective :
    (s t p q : String)
    → IsOneLine s
    → IsOneLine t
    → s <> "\n" <> p ≡ t <> "\n" <> q
    → (s ≡ t) × (p ≡ q)
first_line-injective s t p q h k e =
    let same : ◌≡◌ {A = Option (String × String)} (some (s, p)) (some (t, q)) =
      sym (first_line s p h) ∙ ap (split_once 10) e ∙ first_line t q k in
    (cc, cc)

render_lines-injective :
    (cs ds : List HttpMessageComponent) (p q : String)
    → All (λ c. IsOneLine (component_to_string c)) cs
    → All (λ c. IsOneLine (component_to_string c)) ds
    → IsOneLine p
    → IsOneLine q
    → render_lines cs p ≡ render_lines ds q
    → (map component_to_string cs ≡ map component_to_string ds) × (p ≡ q)
unfolding render_lines
render_lines-injective [] [] p q _ _ _ _ e = (refl, e)
render_lines-injective [] (d ∷ ds) p q _ kd hp hq e =
    absurd (no_line (component_to_string d) (render_lines ds q) p kd.0 hp e)
render_lines-injective (c ∷ cs) [] p q kc _ hp hq e =
    absurd (no_line (component_to_string c) (render_lines cs p) q kc.0 hq (sym e))
render_lines-injective (c ∷ cs) (d ∷ ds) p q kc kd hp hq e =
    let (same, rest) =
      first_line-injective (component_to_string c) (component_to_string d) _ _ kc.0 kd.0 e in
    let (lines, params) = render_lines-injective cs ds p q kc.1 kd.1 hp hq rest in (cc, params)

-- Two bases of texts without line feeds that are signed as one text have the same lines, in order,
-- and the same parameters, as texts: no line can be passed off as another or moved to another place.
pub base_to_string-injective :
    (a b : HttpSignatureBase)
    → HasOneLineTexts a
    → HasOneLineTexts b
    → base_to_string a ≡ base_to_string b
    → (map component_to_string a.component_lines ≡ map component_to_string b.component_lines)
      × (signature_params_to_string a.signature_params
          ≡ signature_params_to_string b.signature_params)
unfolding base_to_string ◌<>◌ contains_char
base_to_string-injective a b h k e =
    let (lines, params) =
      render_lines-injective a.component_lines b.component_lines _ _ h.lines k.lines h.params
        k.params e in
    (lines, cc)
