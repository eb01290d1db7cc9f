-- ===== src/Tests.antt =====
-- Examples: the theorems at concrete messages, keys and parsers.
mod Env
mod Messages
mod OneByte
mod Signing
mod Signatures
mod Components
mod Keys
mod Keyed
mod Digests
mod Roundtrip
mod Written
mod Verdicts
mod Bodies
mod Targets
