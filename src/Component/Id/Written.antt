-- ===== src/Component/Id/Written.antt =====
-- A component id that is written is read back, for component_id.rs.
use mathlib.Core.List.{append-nil, append_assoc}
use httpsig_rs.Base.{
  ◌≡◌, ◌≢◌, refl, ap, sym, ◌∙◌, String, false, List, [], ◌∷◌, ◌++◌, map, All, contains, collect_set,
  PartialEq, ◌==◌, starts_with_char, ok, traverse, ◌<>◌, <>-nil, trim, trim_end, trim_kept,
  trim_end-<>, <>-filled, is_whitespace, join, arith,
}
use httpsig_rs.Sfv.{Sfv, BareItem, Item, parsed}
use httpsig_rs.Util.Unique.{IsSetOf}
use httpsig_rs.Component.Name.{
  HttpMessageComponentName, derived_as_ref, name_try_from, name_to_string,
}
use httpsig_rs.Component.Name.Laws.{name_try_from-text}
use httpsig_rs.Component.Param.{
  HttpMessageComponentParam, HttpMessageComponentParams, param_eq, param_to_string, param_try_from,
  params_try_from, params_to_string,
}
use httpsig_rs.Component.Id.{HttpMessageComponentId, id_to_string, id_try_from, quoted}
use httpsig_rs.Component.Id.Laws.{IsValid, check_id_complete}

-- The structured field that the text of an id stands for: a string with parameters. A parameter that
-- is written as a bare key has the Boolean true for its value.
abbrev pub bare_key : BareItem
bare_key = BareItem.other "?1"

abbrev pub param_field : HttpMessageComponentParam → String × BareItem
param_field HttpMessageComponentParam.sf = ("sf", bare_key)
param_field (HttpMessageComponentParam.key val) = ("key", BareItem.string val)
param_field HttpMessageComponentParam.bs = ("bs", bare_key)
param_field HttpMessageComponentParam.tr = ("tr", bare_key)
param_field HttpMessageComponentParam.req = ("req", bare_key)
param_field (HttpMessageComponentParam.name val) = ("name", BareItem.string val)

abbrev pub name_text : HttpMessageComponentName → String
name_text (HttpMessageComponentName.http_field val) = val
name_text (HttpMessageComponentName.derived d) = derived_as_ref d

abbrev pub id_field : HttpMessageComponentId → Item
id_field id = record {
  bare_item = BareItem.string (name_text id.name);
  params = map param_field id.params;
}

-- A field name does not begin with `@`.
abbrev pub IsNamed : HttpMessageComponentName → Type 0
IsNamed (HttpMessageComponentName.http_field val) = starts_with_char b'@' val ≡ false
IsNamed (HttpMessageComponentName.derived _) = Unit

name_try_from-name_text :
    (sfv : Sfv) (n : HttpMessageComponentName)
    → IsNamed n
    → name_try_from sfv (BareItem.string (name_text n)) ≡ ok n
unfolding name_try_from
name_try_from-name_text sfv (HttpMessageComponentName.http_field val) h = rw h
name_try_from-name_text sfv (HttpMessageComponentName.derived d) h = name_try_from-text sfv d

param_try_from-param_field : (p : HttpMessageComponentParam) → param_try_from (param_field p) ≡ ok p
unfolding param_try_from
param_try_from-param_field HttpMessageComponentParam.sf = refl
param_try_from-param_field _ = refl

traverse-param_field :
    (ps : HttpMessageComponentParams) → traverse param_try_from (map param_field ps) ≡ ok ps
traverse-param_field [] = refl
traverse-param_field (p ∷ ps) = rw (param_try_from-param_field p, traverse-param_field ps) refl

-- Collecting what has no element twice keeps it as it is.
module _ {A : Type 0} ⦃e : PartialEq A⦄ where
  contains-concat :
      (s : List A) (x a : A)
      → contains s a ≡ false
      → (x == a) ≡ false
      → contains (s ++ (x ∷ [])) a ≡ false
  contains-concat [] x a h k = rw k
  contains-concat (y ∷ s) x a h k = ground (arith, contains-concat s x a (ground arith) k)

  All-contains-concat :
      (s : List A) (x : A) (xs : List A)
      → All (λ a. contains s a ≡ false) xs
      → All (λ a. (x == a) ≡ false) xs
      → All (λ a. contains (s ++ (x ∷ [])) a ≡ false) xs
  All-contains-concat s x [] h k = tt
  All-contains-concat s x (a ∷ xs) h k =
      (contains-concat s x a h.0 k.0, All-contains-concat s x xs h.1 k.1)

  collect_set-append :
      (s xs : List A) → All (λ a. contains s a ≡ false) xs → IsSetOf xs → collect_set s xs ≡ s ++ xs
  collect_set-append s [] h d = sym (append-nil s)
  collect_set-append s (x ∷ xs) h d = rw (h.0) (
      collect_set-append (s ++ (x ∷ [])) xs (All-contains-concat s x xs h.1 d.0) d.1
      ∙ append_assoc s (x ∷ []) xs)

  None-contained : (xs : List A) → All (λ a. contains [] a ≡ false) xs
  None-contained [] = tt
  None-contained (x ∷ xs) = (refl, None-contained xs)

  pub collect_set-of_set : (xs : List A) → IsSetOf xs → collect_set [] xs ≡ xs
  collect_set-of_set xs d = collect_set-append [] xs (None-contained xs) d

params_try_from-param_field :
    (ps : HttpMessageComponentParams) → IsSetOf ps → params_try_from (map param_field ps) ≡ ok ps
unfolding params_try_from
params_try_from-param_field ps d = rw (traverse-param_field ps) (ap ok (collect_set-of_set ps d))

-- The text of an id ends in a character that is no white space.
param_to_string-trimmed :
    (p : HttpMessageComponentParam)
    → (trim_end (param_to_string p) ≡ param_to_string p) × (param_to_string p ≢ "")
unfolding param_to_string trim_end ◌<>◌
param_to_string-trimmed (HttpMessageComponentParam.key val) =
    (trim_end-<> ("key=\"" <> val) "\"" (λ e. cc) refl, λ e. cc)
param_to_string-trimmed (HttpMessageComponentParam.name val) =
    (trim_end-<> ("name=\"" <> val) "\"" (λ e. cc) refl, λ e. cc)
param_to_string-trimmed HttpMessageComponentParam.sf = (refl, λ e. cc)
param_to_string-trimmed _ = (refl, λ e. cc)

join-trimmed :
    (p : HttpMessageComponentParam) (ps : HttpMessageComponentParams)
    → (trim_end (join ";" (map param_to_string (p ∷ ps))) ≡ join ";" (map param_to_string (p ∷ ps)))
      × (join ";" (map param_to_string (p ∷ ps)) ≢ "")
unfolding join
join-trimmed p [] = param_to_string-trimmed p
join-trimmed p (q ∷ ps) =
    let (later, filled) = join-trimmed q ps in
    let rest = join ";" (map param_to_string (q ∷ ps)) in
    let tail_filled = <>-filled ";" rest filled in
    (
      trim_end-<> (param_to_string p) (";" <> rest) tail_filled (trim_end-<> ";" rest filled later),
      <>-filled (param_to_string p) (";" <> rest) tail_filled,
    )

name_to_string-trimmed :
    (n : HttpMessageComponentName) → trim_end (name_to_string n) ≡ name_to_string n
unfolding name_to_string trim_end ◌<>◌
name_to_string-trimmed (HttpMessageComponentName.http_field val) =
    trim_end-<> ("\"" <> val) "\"" (λ e. cc) refl
name_to_string-trimmed (HttpMessageComponentName.derived d) =
    trim_end-<> ("\"" <> derived_as_ref d) "\"" (λ e. cc) refl

id_to_string-trimmed_end :
    (n : HttpMessageComponentName) (ps : HttpMessageComponentParams)
    → trim_end (name_to_string n <> params_to_string ps) ≡ name_to_string n <> params_to_string ps
unfolding params_to_string
id_to_string-trimmed_end n [] = rw <>-nil (name_to_string-trimmed n)
id_to_string-trimmed_end n (p ∷ ps) =
    let (later, filled) = join-trimmed p ps in
    let rest = join ";" (map param_to_string (p ∷ ps)) in
    trim_end-<> (name_to_string n) (";" <> rest) (<>-filled ";" rest filled)
      (trim_end-<> ";" rest filled later)

id_to_string-quoted :
    (n : HttpMessageComponentName) (ps : HttpMessageComponentParams)
    → let text = name_to_string n <> params_to_string ps in quoted (trim text) ≡ text
unfolding name_to_string quoted ◌<>◌ starts_with_char is_whitespace
id_to_string-quoted (HttpMessageComponentName.http_field val) ps =
    rw (trim_kept _ _ refl (id_to_string-trimmed_end (HttpMessageComponentName.http_field val) ps))
      refl
id_to_string-quoted (HttpMessageComponentName.derived d) ps =
    rw (trim_kept _ _ refl (id_to_string-trimmed_end (HttpMessageComponentName.derived d) ps)) refl

-- The text of an id has no white space around it.
pub trim-id_to_string : (id : HttpMessageComponentId) → trim (id_to_string id) ≡ id_to_string id
unfolding id_to_string name_to_string ◌<>◌ is_whitespace
trim-id_to_string id = trimmed id.name id.params
  where
    trimmed :
        (n : HttpMessageComponentName) (ps : HttpMessageComponentParams)
        → trim (name_to_string n <> params_to_string ps) ≡ name_to_string n <> params_to_string ps
    trimmed (HttpMessageComponentName.http_field val) ps =
        trim_kept _ _ refl (id_to_string-trimmed_end (HttpMessageComponentName.http_field val) ps)
    trimmed (HttpMessageComponentName.derived d) ps =
        trim_kept _ _ refl (id_to_string-trimmed_end (HttpMessageComponentName.derived d) ps)

-- The parser reads the text of an id as the structured field it stands for.
abbrev pub ReadsId : Sfv → HttpMessageComponentId → Type 0
ReadsId sfv id = Sfv.parse_item sfv (id_to_string id) ≡ parsed (id_field id)

-- An id whose parameters its name takes, none of them twice, and whose field name does not begin
-- with `@` is read back from its text, by a parser that reads the text as the string and parameters
-- that it stands for.
pub id_try_from-id_to_string :
    (sfv : Sfv) (id : HttpMessageComponentId)
    → IsValid id
    → IsNamed id.name
    → ReadsId sfv id
    → id_try_from sfv (id_to_string id) ≡ ok id
unfolding id_try_from id_to_string
id_try_from-id_to_string sfv id valid named reads =
    rw
      (
        id_to_string-quoted id.name id.params,
        reads,
        name_try_from-name_text sfv id.name named,
        params_try_from-param_field id.params (IsValid.once valid),
      )
      (check_id_complete id (IsValid.allowed valid))
