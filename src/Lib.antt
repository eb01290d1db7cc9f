-- ===== src/Lib.antt =====
-- Models and theorems for httpsig-rs, an implementation of HTTP message signatures (RFC 9421): the
-- crate `httpsig` (httpsig/src) and its use with hyper messages, `httpsig-hyper` (httpsig-hyper/src).
--
-- The parts, from the bottom. A component (`"date": Tue`) is one line of the text that is signed. Its
-- id is a name, an http field's or one of ten derived names, and a set of parameters; it is read from
-- text by the parser of structured fields, and built from the field values of a message.
-- Signature parameters list the ids covered and the attributes; a signature base is the lines and
-- the parameters, and its text is signed with a key. `httpsig-hyper` takes the lines from a request
-- or a response, signs the base and writes the headers `signature-input` and `signature`; to verify,
-- it reads both headers, builds the base again and asks the key. The content digest is a header of
-- its own, set and verified against the body.
--
-- Files.
--   Error       httpsig/src/error.rs, httpsig-hyper/src/error.rs: the error types
--   Util        httpsig/src/util.rs: `has_unique_elements`; Util/Unique: when it holds
--   Component   httpsig/src/message_component: Name (component_name.rs), Param (component_param.rs),
--               Id (component_id.rs), Value (component_value.rs), Build (component.rs), each with Laws;
--               Param/Hash (the `Hash` implementation and the order of parameters),
--               Id/Written (an id as the structured field that its text stands for), Build/Written
--   Crypto      httpsig/src/crypto: mod.rs, Symmetric (symmetric.rs), Asymmetric (asymmetric.rs) with
--               Secret (`SecretKey`) and Public (`PublicKey`); Consistent (the algorithm of a key
--               that is read), Panics (keys at which reading panics), Signs (verifying what a key signed)
--   Params      httpsig/src/signature_params.rs: Expiry, Covered, Written (parameters as the inner
--               list that their text stands for), Accepted and Timestamps (what is read), Reachable
--               (what any calls can make of parameters), Plain, Serializable and
--               Canonical (their text and RFC 8941)
--   Signature   httpsig/src/signature_base.rs; Signature/Headers: `HttpSignatureHeaders`
--   Hyper       httpsig-hyper/src/hyper_http.rs: Derived (`extract_derived_component`), Extract
--               (`build_signature_base`), Sign (`set_message_signatures`) and Verify
--               (`verify_message_signatures`), Api (the other methods, and the blocking ones);
--               Sign/Made (what signing makes), Sign/Grows and Sign/Steps (what it leaves as it was,
--               over any sequence of calls), Sign/Atomic (signing that fails), Verify/Verdict and
--               Verify/Verdicts (the specification of verifying with one key and with
--               several), Verify/KeyId; Hyper/Roundtrip, with its children, joins signing and verifying;
--               Digested and Body join the signature and the content digest; Listed (what
--               `get_alg_key_ids` and `get_signature_params` tell), Keyed (secret and public keys in
--               use), Target (`@request-target`);
--               Traits and Instances (the traits and which function is which method)
--   Digest      httpsig-hyper/src/hyper_content_digest.rs and the digest types of its lib.rs
--   Sfv, Http   what the code calls of the crates `sfv` and `http`, as parameters; Sfv/Canonical: the
--               writing of structured fields as RFC 8941 has it, for comparison
--   Base        shared helpers: results, lists, texts, equality
--   Tests       examples, on small models of the crates
--
-- A function keeps its name, with the type's in front where several types have it (`id_try_from`,
-- `base_as_bytes`, `request_set_message_signatures`). A function of Rust that returns a Result is a
-- function to `Outcome`, which is `ok`, `err` or `panic`; so a panic (`unwrap`, `unreachable!`, a
-- slice out of range) is a result that theorems speak of. A method that changes its receiver returns
-- the new one; where it fails midway, what has been changed is returned with the error. Maps and sets
-- in insertion order are lists. Texts are sequences of characters, encoded as UTF-8 to be signed.
-- A hash is known by what the hasher is fed. A timestamp is a number under 2^64. The clock and random
-- bytes are arguments, those that signing draws as well. Futures run one after another: `join_all`
-- gives the results in order, and a panic in one of them is a panic of all.
--
-- Parameters, with the laws that their documentation states as hypotheses: the parser and serialisers
-- of structured fields (`Sfv`), header maps and values (`Http`, `IsLawful`), base64, the hashes,
-- HMAC, the signature schemes (`IsSound`) and the key encodings. All recursion is on the structure of
-- lists and texts, so that no function has fuel.
--
-- Not modelled: logging, the examples and the tests.
pub mod Base
pub mod Error
pub mod Sfv
pub mod Util
pub mod Component
pub mod Crypto
pub mod Params
pub mod Signature
pub mod Http
pub mod Hyper
pub mod Digest
pub mod Tests
