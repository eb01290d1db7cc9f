-- ===== src/Digest/Verified.antt =====
-- When a content digest is verified, for hyper_content_digest.rs.
use httpsig_rs.Base.{
  ◌≡◌, refl, ap, sym, ◌∙◌, ◌↔◌, inl, inr, Bool, true, false, Bool-cases, and-eq-true, [], ◌∷◌, ◌==◌,
  nat_eq, nat_beq_iff, string_eq, length, Outcome, ok, err, >>=-eq-ok, ok-injective, if◌then◌else◌,
}
use httpsig_rs.Crypto.{Bytes}
use httpsig_rs.Http.{Http, Request}
use httpsig_rs.Sfv.{Sfv, Parsed, parsed, or_error, or_error-eq-ok}
use httpsig_rs.Digest.{
  ContentDigestType, DigestCrypto, ct_eq, is_equal_digest, derive_digest, extract_content_digest,
  verify_digest, request_verify_content_digest,
}

ct_eq_sound : (a b : Bytes) → ct_eq a b ≡ true → a ≡ b
unfolding ct_eq
ct_eq_sound [] [] h = refl
ct_eq_sound [] (y ∷ b) h = cc
ct_eq_sound (x ∷ a) [] h = cc
ct_eq_sound (x ∷ a) (y ∷ b) h =
    let (e, k) = and-eq-true (x == y) _ h in cc ((nat_beq_iff x y).0 e, ct_eq_sound a b k)

ct_eq_refl : (a : Bytes) → ct_eq a a ≡ true
unfolding ct_eq
ct_eq_refl [] = refl
ct_eq_refl (x ∷ a) = rw ((nat_beq_iff x x).1 refl) (ct_eq_refl a)

-- Two digests are taken for equal exactly if they are the same bytes.
pub is_equal_digest_iff : (a b : Bytes) → (is_equal_digest a b ≡ true) ↔ (a ≡ b)
unfolding is_equal_digest
is_equal_digest_iff a b = (
  λ h. elim (Bool-cases (length a == length b)) [
    | inl same ↦ ct_eq_sound a b (rw same at h)
    | inr other ↦ cc (rw other at h)
  ],
  λ e. rw (e, (nat_beq_iff (length b) (length b)).1 refl) (ct_eq_refl b),
)

test-eq-ok :
    {E A : Type 0} (b : Bool) (a r : A) (e : E)
    → ◌≡◌ {A = Outcome E A} (if b then ok a else err e) (ok r)
    → (b ≡ true) × (a ≡ r)
test-eq-ok true a r e h = (refl, ok-injective h)
test-eq-ok false a r e h = cc

module _ (c : DigestCrypto) (sfv : Sfv) (h : Http) where
  -- Verification gives the bytes of the body back exactly if it can be read and the one digest in
  -- the header is that of these bytes.
  pub verify_digest_iff :
      (headers : h.HeaderMap) (body : Parsed Bytes) (bytes : Bytes)
      → (verify_digest c sfv h headers body ≡ ok bytes) ↔ (
          (body ≡ parsed bytes)
          × ((t : ContentDigestType) × (extract_content_digest c sfv h headers
                ≡ ok (t, derive_digest c bytes t))))
  unfolding verify_digest
  verify_digest_iff headers body bytes = (
    λ e.
        let (d, extracted, e') = >>=-eq-ok (extract_content_digest c sfv h headers) _ e in
        let (read, body_read, e'') = >>=-eq-ok (or_error _ body) _ e' in
        let (same, result) =
          test-eq-ok (is_equal_digest (derive_digest c read (d.0)) (d.1)) read bytes _ e'' in
        let digest = (is_equal_digest_iff (derive_digest c read (d.0)) (d.1)).0 same in
        (
          or_error-eq-ok _ body body_read ∙ ap parsed result,
          (
            d.0,
            extracted
                ∙ ap (λ x. ok (d.0, x)) (sym digest ∙ ap (λ x. derive_digest c x (d.0)) result),
          ),
        ),
    λ k. rw (k.0, k.1.1, (is_equal_digest_iff (derive_digest c bytes (k.1.0)) _).1 refl) refl,
  )

  -- A request passes verification exactly if its body can be read and the one digest in its header
  -- is that of the body's bytes; it then comes back as it was.
  pub request_verify_content_digest_iff :
      (req r : Request h)
      → (request_verify_content_digest c sfv h req ≡ ok r) ↔ (
          (bytes : Bytes) × (req.body ≡ parsed bytes)
          × ((t : ContentDigestType) × (extract_content_digest c sfv h req.headers
                ≡ ok (t, derive_digest c bytes t)))
          × (r ≡ req))
  unfolding request_verify_content_digest
  request_verify_content_digest_iff req r = (
    λ e.
        let (bytes, verified, result) =
          >>=-eq-ok (verify_digest c sfv h req.headers req.body) _ e in
        let (read, digest) = (verify_digest_iff req.headers req.body bytes).0 verified in
        (
          bytes,
          read,
          digest,
          sym (ok-injective result) ∙ ap (λ b. record req { body = b }) (sym read),
        ),
    λ (bytes, read, digest, same).
        rw ((verify_digest_iff req.headers req.body bytes).1 (read, digest), same)
          (ap (λ b. ok (record req { body = b })) (sym read)),
  )
