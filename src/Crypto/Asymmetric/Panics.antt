-- ===== src/Crypto/Asymmetric/Panics.antt =====
-- Private keys at which the reader panics, for httpsig/src/crypto/asymmetric.rs.
use httpsig_rs.Base.{nat_eq, string_eq}
