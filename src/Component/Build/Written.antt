-- ===== src/Component/Build/Written.antt =====
-- A component line that is written is read back, for component.rs.
use Prim.Native.String.{[], ◌∷◌}
use Prim.Native.Char.{Char}
use httpsig_rs.Base.{
  ◌≡◌, refl, ap, ◌∙◌, String, Bool, true, false, List, map, some, ok, ◌||◌, nat_eq, ◌<>◌, <>_assoc,
  contains_char, contains_str, has_prefix, starts_with_char, ends_with_char, split_once,
  split_once-<>, trim, join, arith,
}
use httpsig_rs.Sfv.{Sfv}
use httpsig_rs.Component.Name.{HttpMessageComponentName, name_to_string, derived_as_ref}
use httpsig_rs.Component.Param.{HttpMessageComponentParams, params_to_string, param_to_string}
use httpsig_rs.Component.Id.{HttpMessageComponentId, id_to_string}
use httpsig_rs.Component.Id.Laws.{IsValid}
use httpsig_rs.Component.Id.Written.{IsNamed, ReadsId, trim-id_to_string, id_try_from-id_to_string}
use httpsig_rs.Component.Value.{value_from_str, value_to_string}
use httpsig_rs.Component.Build.{component_to_string, component_try_from_str, is_wrapped}

has_prefix-own : (p t : String) → has_prefix p (p <> t) ≡ true
unfolding has_prefix ◌<>◌
has_prefix-own [] t = refl
has_prefix-own (c ∷ p) t = ground (arith, has_prefix-own p t)

contains_str-front : (c : Char) (p t : String) → contains_str (c ∷ p) ((c ∷ p) <> t) ≡ true
unfolding contains_str ◌<>◌
contains_str-front c p t = rw (has_prefix-own (c ∷ p) t) refl

contains_str-<> : (c : Char) (p s t : String) → contains_str (c ∷ p) (s <> (c ∷ p) <> t) ≡ true
unfolding contains_str ◌<>◌
contains_str-<> c p [] t = contains_str-front c p t
contains_str-<> c p (d ∷ s) t = rw (contains_str-<> c p s t) (ground arith)

ends_with_char-<> : (s : String) → ends_with_char b'"' (s <> "\"") ≡ true
unfolding ends_with_char ◌<>◌
ends_with_char-<> [] = refl
ends_with_char-<> (c ∷ []) = refl
ends_with_char-<> (c ∷ d ∷ s) = ends_with_char-<> (d ∷ s)

or_true : (b : Bool) → (b || true) ≡ true
or_true true = refl
or_true false = refl

-- The test on the text of an id: it ends in its closing quote, or parameters follow it.
wrapped_text :
    (name : String) (ps : HttpMessageComponentParams)
    → is_wrapped ("\"" <> name <> "\"" <> params_to_string ps) ≡ true
unfolding is_wrapped params_to_string ◌<>◌ starts_with_char
wrapped_text name List.[] =
    ap (λ b. b || contains_str "\";" (name <> "\"")) (ends_with_char-<> ("\"" <> name))
wrapped_text name (List.◌∷◌ p ps) =
    let rest = join ";" (map param_to_string (List.◌∷◌ p ps)) in
    ap (λ b. ends_with_char b'"' ("\"" <> name <> "\";" <> rest) || b)
      (contains_str-<> _ ";" name rest)
    ∙ or_true (ends_with_char b'"' ("\"" <> name <> "\";" <> rest))

is_wrapped-id_to_string : (id : HttpMessageComponentId) → is_wrapped (id_to_string id) ≡ true
unfolding id_to_string name_to_string ◌<>◌
is_wrapped-id_to_string id = by_name id.name id.params
  where
    by_name :
        (n : HttpMessageComponentName) (ps : HttpMessageComponentParams)
        → is_wrapped (name_to_string n <> params_to_string ps) ≡ true
    by_name (HttpMessageComponentName.http_field val) ps =
        ap (λ t. is_wrapped ("\"" <> t)) (<>_assoc val "\"" (params_to_string ps))
        ∙ wrapped_text val ps
    by_name (HttpMessageComponentName.derived d) ps =
        ap (λ t. is_wrapped ("\"" <> t)) (<>_assoc (derived_as_ref d) "\"" (params_to_string ps))
        ∙ wrapped_text (derived_as_ref d) ps

-- A component whose id is valid, its field name not beginning with `@`, whose id has no colon in its
-- text, and whose value is a text without white space around it, is read back from its line, by a
-- parser that reads the text of the id as the structured field that it stands for.
pub component_try_from_str-component_to_string :
    (sfv : Sfv) (id : HttpMessageComponentId) (value : String)
    → IsValid id
    → IsNamed id.name
    → ReadsId sfv id
    → contains_char b':' (id_to_string id) ≡ false
    → trim value ≡ value
    → component_try_from_str sfv
        (component_to_string (record { id = id; value = value_from_str value }))
      ≡ ok (record { id = id; value = value_from_str value })
unfolding component_try_from_str component_to_string value_to_string ◌<>◌ trim
component_try_from_str-component_to_string sfv id value valid named reads no_colon trimmed =
    let parts : split_once b':' (id_to_string id <> ": " <> value)
        ≡ some (id_to_string id, " " <> value) =
      split_once-<> b':' (id_to_string id) (" " <> value) _ refl no_colon in
    rw
      (
        component_try_from_str,
        parts,
        trim-id_to_string id,
        is_wrapped-id_to_string id,
        id_try_from-id_to_string sfv id valid named reads,
      )
      (ap (λ t. ok (record { id = id; value = value_from_str t })) trimmed)
