-- ===== src/Signature/Ids.antt =====
-- When a signature base exists, for signature_base.rs.
use httpsig_rs.Base.{
  ◌≡◌, refl, sym, ◌↔◌, true, and-eq-true, List, [], ◌∷◌, length, ◌==◌, nat_eq, nat_beq_iff, arith,
  ok, ensure-eq-ok, ok-injective,
}
use httpsig_rs.Component.Id.{HttpMessageComponentId, id_beq}
use httpsig_rs.Component.Build.{HttpMessageComponent}
use httpsig_rs.Params.{HttpSignatureParams}
use httpsig_rs.Signature.{HttpSignatureBase, same_ids, base_try_new}

-- Line by line, the component is that of the covered id.
abbrev pub Covers : List HttpMessageComponent → List HttpMessageComponentId → Type 0
Covers [] [] = Unit
Covers (line ∷ lines) (id ∷ ids) = (id_beq line.id id ≡ true) × Covers lines ids
Covers _ _ = ⊥

Covers-of_tests :
    (lines : List HttpMessageComponent) (ids : List HttpMessageComponentId)
    → length lines ≡ length ids
    → same_ids lines ids ≡ true
    → Covers lines ids
unfolding same_ids
Covers-of_tests [] [] h k = tt
Covers-of_tests [] (id ∷ ids) h k = absurd (omega arith)
Covers-of_tests (line ∷ lines) [] h k = absurd (omega arith)
Covers-of_tests (line ∷ lines) (id ∷ ids) h k =
    let (e, later) = and-eq-true (id_beq line.id id) _ k in
    (e, Covers-of_tests lines ids (omega arith) later)

length-Covers :
    (lines : List HttpMessageComponent) (ids : List HttpMessageComponentId)
    → Covers lines ids
    → length lines ≡ length ids
length-Covers [] [] h = refl
length-Covers [] (id ∷ ids) h = absurd h
length-Covers (line ∷ lines) [] h = absurd h
length-Covers (line ∷ lines) (id ∷ ids) h = omega (arith, length-Covers lines ids h.1)

same_ids-Covers :
    (lines : List HttpMessageComponent) (ids : List HttpMessageComponentId)
    → Covers lines ids
    → same_ids lines ids ≡ true
unfolding same_ids
same_ids-Covers [] [] h = refl
same_ids-Covers [] (id ∷ ids) h = absurd h
same_ids-Covers (line ∷ lines) [] h = absurd h
same_ids-Covers (line ∷ lines) (id ∷ ids) h = rw (h.0) (same_ids-Covers lines ids h.1)

-- A base is made exactly of lines that cover the parameters' components one by one and in order,
-- and it keeps both as they are.
pub base_try_new_iff :
    (lines : List HttpMessageComponent) (p : HttpSignatureParams) (b : HttpSignatureBase)
    → (base_try_new lines p ≡ ok b) ↔ (
        Covers lines p.covered_components
        × (b ≡ record { component_lines = lines; signature_params = p }))
unfolding base_try_new
base_try_new_iff lines p b = (
  λ h.
      let (same_length, h') = ensure-eq-ok (length lines == length p.covered_components) _ _ h in
      let (same, h'') = ensure-eq-ok (same_ids lines p.covered_components) _ _ h' in
      (
        Covers-of_tests lines p.covered_components ((nat_beq_iff _ _).0 same_length) same,
        sym (ok-injective h''),
      ),
  λ k. rw (
    (nat_beq_iff (length lines) (length p.covered_components)).1
        (length-Covers lines p.covered_components k.0),
    same_ids-Covers lines p.covered_components k.0,
    k.1,
  ),
)
