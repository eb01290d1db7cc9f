-- ===== src/Params/Expiry.antt =====
-- Expiry of signature parameters, for signature_params.rs.
use httpsig_rs.Base.{
  ◌≡◌, refl, ◌↔◌, true, false, ℕ, ◌+◌, ◌%◌, ◌≤◌, ◌<◌, ltb, Option, none, some, ok, arith,
}
use httpsig_rs.Error.{HttpSigError}
use httpsig_rs.Params.{
  HttpSignatureParams, is_expired, set_expires_with_duration, unwrap_or, u64_mod,
}

-- No `expires`, or one that is not in the past.
abbrev pub IsCurrent : ℕ → Option ℕ → Type 0
IsCurrent now none = Unit
IsCurrent now (some exp) = now ≤ exp

IsCurrent-of_test :
    (now : ℕ) (p : HttpSignatureParams) (o : Option ℕ)
    → is_expired now (record p { expires = o }) ≡ false
    → IsCurrent now o
unfolding is_expired
IsCurrent-of_test now p none h = tt
IsCurrent-of_test now p (some exp) h = ground arith

test_of_IsCurrent :
    (now : ℕ) (p : HttpSignatureParams) (o : Option ℕ)
    → IsCurrent now o
    → is_expired now (record p { expires = o }) ≡ false
unfolding is_expired
test_of_IsCurrent now p none h = refl
test_of_IsCurrent now p (some exp) h = ground arith

pub is_expired_iff :
    (now : ℕ) (p : HttpSignatureParams) → (is_expired now p ≡ false) ↔ IsCurrent now p.expires
is_expired_iff now p = (IsCurrent-of_test now p p.expires, test_of_IsCurrent now p p.expires)

pub is_expired_of_late :
    (now exp : ℕ) (p : HttpSignatureParams)
    → p.expires ≡ some exp
    → exp < now
    → is_expired now p ≡ true
unfolding is_expired
is_expired_of_late now exp p e late = rw e (ground arith)

no_wrap : (n : ℕ) → n < u64_mod → n % u64_mod ≡ n
no_wrap n h = omega arith

-- With `created` and a duration, 300 seconds if none is given, whose sum is a `u64`, the parameters
-- count as expired exactly after `created` plus the duration.
pub set_expires_with_duration-expiry :
    (now created : ℕ) (duration : Option ℕ) (p : HttpSignatureParams)
    → p.created ≡ some created
    → created + unwrap_or duration 300 < u64_mod
    → (q : HttpSignatureParams) × (set_expires_with_duration {E = HttpSigError} duration p ≡ ok q)
      × (is_expired now q ≡ ltb (created + unwrap_or duration 300) now)
unfolding set_expires_with_duration is_expired
set_expires_with_duration-expiry now created duration p e fits = (
  record p { expires = some (created + unwrap_or duration 300) },
  ground (arith, no_wrap (created + unwrap_or duration 300) fits),
  refl,
)

wraps_below :
    (created d now : ℕ)
    → d < u64_mod
    → created < u64_mod
    → u64_mod ≤ created + d
    → created ≤ now
    → (created + d) % u64_mod < now
wraps_below created d now small fits over later = omega arith

-- With `created` and a duration, 300 seconds if none is given, both a `u64`, whose sum is none, the addition wraps around in a
-- build without overflow checks, and the parameters count as expired from `created` on.
pub set_expires_with_duration-overflow :
    (now created : ℕ) (duration : Option ℕ) (p : HttpSignatureParams)
    → p.created ≡ some created
    → created < u64_mod
    → unwrap_or duration 300 < u64_mod
    → u64_mod ≤ created + unwrap_or duration 300
    → created ≤ now
    → (q : HttpSignatureParams) × (set_expires_with_duration {E = HttpSigError} duration p ≡ ok q)
      × (is_expired now q ≡ true)
unfolding set_expires_with_duration
set_expires_with_duration-overflow now created duration p e fits small over later =
    let sum = created + unwrap_or duration 300 in
    let q = record p { expires = some (sum % u64_mod) } in
    (
      q,
      rw e refl,
      is_expired_of_late now (sum % u64_mod) q refl
          (wraps_below created (unwrap_or duration 300) now small fits over later),
    )
