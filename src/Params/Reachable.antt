-- ===== src/Params/Reachable.antt =====
-- Signature parameters as calls can make them, for signature_params.rs.
use httpsig_rs.Base.{
  ◌≡◌, refl, sym, subst, ℕ, ◌+◌, ◌<◌, ◌%◌, String, List, All, Option, none, some, ok, ok-injective,
  string_eq, arith,
}
use httpsig_rs.Error.{HttpSigError}
use httpsig_rs.Sfv.{Sfv, ListEntry}
use httpsig_rs.Crypto.{AlgorithmName, Bytes, SigningKey}
use httpsig_rs.Component.Id.{HttpMessageComponentId}
use httpsig_rs.Params.{
  HttpSignatureParams, unwrap_or, default_duration, u64_mod, try_new, set_created, set_expires,
  set_nonce, set_alg, set_keyid, set_tag, set_key_info, set_random_nonce, set_expires_with_duration,
  params_try_from_entry,
}
use httpsig_rs.Params.Covered.{try_new_iff}
use httpsig_rs.Params.Written.{IsWellFormed}
use httpsig_rs.Params.Accepted.{
  IsAccepted, All-IsValid, All-IsNamed, params_try_from_entry-IsWellFormed,
}
use httpsig_rs.Params.Timestamps.{IsU64, AreInRange, AreU64, params_try_from_entry-AreU64}

-- Parameters that a program can hold: made of components that were read from texts, or read from
-- the entry of a header, and changed by any calls.
pub data IsReachable (sfv : Sfv) : HttpSignatureParams → Type 0 where
  made :
      (now : ℕ) (ids : List HttpMessageComponentId) (p : HttpSignatureParams)
      → now < u64_mod
      → All (IsAccepted sfv) ids
      → try_new now ids ≡ ok p
      → IsReachable sfv p
  read :
      (entry : ListEntry) (p : HttpSignatureParams)
      → AreInRange entry
      → params_try_from_entry sfv entry ≡ ok p
      → IsReachable sfv p
  created :
      (n : ℕ) (p : HttpSignatureParams)
      → n < u64_mod
      → IsReachable sfv p
      → IsReachable sfv (set_created n p)
  expires :
      (n : ℕ) (p : HttpSignatureParams)
      → n < u64_mod
      → IsReachable sfv p
      → IsReachable sfv (set_expires n p)
  nonce :
      (s : String) (p : HttpSignatureParams) → IsReachable sfv p → IsReachable sfv (set_nonce s p)
  random_nonce :
      (encode : Bytes → String) (random : Bytes) (p : HttpSignatureParams)
      → IsReachable sfv p
      → IsReachable sfv (set_random_nonce encode random p)
  alg :
      (a : AlgorithmName) (p : HttpSignatureParams)
      → IsReachable sfv p
      → IsReachable sfv (set_alg a p)
  keyid :
      (s : String) (p : HttpSignatureParams) → IsReachable sfv p → IsReachable sfv (set_keyid s p)
  tag : (s : String) (p : HttpSignatureParams) → IsReachable sfv p → IsReachable sfv (set_tag s p)
  key_info :
      (key : SigningKey) (p : HttpSignatureParams)
      → IsReachable sfv p
      → IsReachable sfv (set_key_info key p)
  duration :
      (secs : Option ℕ) (p q : HttpSignatureParams)
      → IsReachable sfv p
      → set_expires_with_duration {E = HttpSigError} secs p ≡ ok q
      → IsReachable sfv q

wrapped : (n : ℕ) → n % u64_mod < u64_mod
wrapped n = omega arith

set_expires_with_duration-keeps :
    (secs : Option ℕ) (p q : HttpSignatureParams) (c : Option ℕ)
    → p.created ≡ c
    → set_expires_with_duration {E = HttpSigError} secs p ≡ ok q
    → IsWellFormed p
    → AreU64 p
    → IsWellFormed q × AreU64 q
unfolding set_expires_with_duration
set_expires_with_duration-keeps secs p q none at e formed u = cc
set_expires_with_duration-keeps secs p q (some c) at e formed u =
    subst (λ r. IsWellFormed r × AreU64 r) (ok-injective (rw at at e))
      (
        record {
          valid = IsWellFormed.valid formed;
          named = IsWellFormed.named formed;
          distinct = IsWellFormed.distinct formed;
        },
        (subst IsU64 at u.0, wrapped (c + unwrap_or secs default_duration)),
      )

try_new-IsWellFormed :
    (sfv : Sfv) (now : ℕ) (ids : List HttpMessageComponentId) (p : HttpSignatureParams)
    → now < u64_mod
    → All (IsAccepted sfv) ids
    → try_new now ids ≡ ok p
    → IsWellFormed p × AreU64 p
try_new-IsWellFormed sfv now ids p fits accepted e =
    let (distinct, same) = (try_new_iff now ids p).0 e in
    subst (λ r. IsWellFormed r × AreU64 r) (sym same)
      (
        record {
          valid = All-IsValid sfv ids accepted;
          named = All-IsNamed sfv ids accepted;
          distinct = distinct;
        },
        (fits, tt),
      )

same_components :
    (p q : HttpSignatureParams)
    → q.covered_components ≡ p.covered_components
    → IsWellFormed p
    → IsWellFormed q
same_components p q e w = record {
  valid = rw e (IsWellFormed.valid w);
  named = rw e (IsWellFormed.named w);
  distinct = rw e (IsWellFormed.distinct w);
}

-- However parameters came about, by `try_new` from ids that were read from texts or from a header
-- whose integers have at most fifteen digits, and through whatever sequence of the methods that set
-- an attribute: they cover distinct components, each with parameters that its name takes and none of
-- them twice, and their timestamps are in the range of `u64`.
pub IsReachable-IsWellFormed :
    {sfv : Sfv} {p : HttpSignatureParams} → IsReachable sfv p → IsWellFormed p × AreU64 p
unfolding set_created set_expires set_nonce set_random_nonce set_alg set_keyid set_tag set_key_info
IsReachable-IsWellFormed {sfv} (made now ids p fits accepted e) =
    try_new-IsWellFormed sfv now ids p fits accepted e
IsReachable-IsWellFormed {sfv} (read entry p r e) =
    (params_try_from_entry-IsWellFormed sfv entry p e, params_try_from_entry-AreU64 sfv entry p e r)
IsReachable-IsWellFormed (created n p fits reached) =
    let (w, u) = IsReachable-IsWellFormed reached in (same_components p _ refl w, (fits, u.1))
IsReachable-IsWellFormed (expires n p fits reached) =
    let (w, u) = IsReachable-IsWellFormed reached in (same_components p _ refl w, (u.0, fits))
IsReachable-IsWellFormed (nonce s p reached) =
    let (w, u) = IsReachable-IsWellFormed reached in (same_components p _ refl w, u)
IsReachable-IsWellFormed (random_nonce encode random p reached) =
    let (w, u) = IsReachable-IsWellFormed reached in (same_components p _ refl w, u)
IsReachable-IsWellFormed (alg a p reached) =
    let (w, u) = IsReachable-IsWellFormed reached in (same_components p _ refl w, u)
IsReachable-IsWellFormed (keyid s p reached) =
    let (w, u) = IsReachable-IsWellFormed reached in (same_components p _ refl w, u)
IsReachable-IsWellFormed (tag s p reached) =
    let (w, u) = IsReachable-IsWellFormed reached in (same_components p _ refl w, u)
IsReachable-IsWellFormed (key_info key p reached) =
    let (w, u) = IsReachable-IsWellFormed reached in (same_components p _ refl w, u)
IsReachable-IsWellFormed (duration secs p q reached e) =
    let (w, u) = IsReachable-IsWellFormed reached in
    set_expires_with_duration-keeps secs p q p.created refl e w u
