-- ===== src/Lib.antt =====
-- pq-enclave-binding: a post-quantum root key is generated in a Nitro enclave, bound to the
-- enclave's attestation document together with a Merkle tree of subkeys, and timestamped. This
-- library models the crates that build and check these artifacts.
--
-- Parts, from the bottom up, by path from the repository's root:
--   Merkle  crates/pq-merkle/src/lib.rs   `subkey_leaf`, `merkle_root`, `merkle_proof`,
--           `verify_membership`; the loops are `reduce`, `proof_loop` and `climb`.
--   Core    crates/pq-core/src/lib.rs     the signed payloads, the NSM commitment, the root keypair
--           and dual signatures by ML-DSA-65 and SLH-DSA-SHAKE-128f.
--   Bundle  crates/pq-bundle/src/lib.rs   the published bundle and `verify`, by its stages
--           `decode_fields`, `check_timestamp`, `check_pcrs` and `check_payload`.
--   Subkey  crates/pq-subkey/src/lib.rs   certificates: `signing_bytes`, `issue`, `verify`.
--   Ots     crates/pq-ots/src/lib.rs      OpenTimestamps proofs: `verify`, `pending_calendars`, `stamp`.
--   Quote   crates/pq-quote/src/lib.rs    the Nitro quote verifier that Bundle's `verify` is given.
--   Enclave crates/pq-enclave/src/lib.rs  the NSM interface, its mock, and `attest_bundle_payload`.
--   Derive  crates/pq-derive/src/lib.rs   keypairs from a mnemonic and a derivation path.
--   Ceremony crates/pq-ceremony/src/lib.rs `run_ceremony`, which calls all of the above to make a
--           bundle and a tree of subkeys, and the signing oracle `sign_with_subkey`.
--   Ceremony/Request, Ceremony/Server, Ceremony/Start  crates/pq-ceremony/src/main.rs: the loop of
--           `handle` that reads a request, its routes and replies with `serve`, and `main`. A
--           connection is the list of the results of its reads.
--   Ots/Http crates/pq-ots/src/http.rs    the HTTP calendar and the Esplora header source.
--   Cli     crates/pq-cli/src/main.rs     the header sources; Cli/Steps has `verify_bundle_steps`,
--           Cli/Commands the commands `inspect`, `verify`, `stamp` and `verify-subkey` (the
--           function `verify_subkey`), Cli/Run their dispatch. `check_bundle` is what `cmd_verify`
--           and `verify_subkey` have in common.
-- Base has the shared helpers, External the crates that are called and not part of the repository,
-- and Tests concrete runs.
--
-- Conventions. A byte is a native number, with `IsByte` where its bound matters, and a digest is a
-- byte list. A `Result` is an `Outcome`: a value, an error or a panic. `expect`, out-of-range
-- indexing and `assert!` are panics. A function that returns no `Result` but can panic is an
-- `Outcome` of any error type. What a random generator yields is an argument. An error of another
-- crate is the text that it displays. Unchecked arithmetic wraps around, as in a release build; a
-- debug build panics there.
--
-- Fuel. The loops of the Merkle tree halve the level, so that they run for as many rounds as there
-- are leaves at most, the fuel that they are given; Merkle/Levels has the lemmas. Displaying a
-- number n takes n + 1 rounds at most.
--
-- Cryptography. Nothing is assumed of SHA-256 but its output of 32 bytes: a security theorem
-- concludes with an alternative that names two different texts of one digest among the texts which
-- its runs hash (Merkle/Texts lists those of the tree and of a path), or, where a ceremony without
-- subkeys publishes 32 zero bytes as its root, a text of the path with that digest. What attestation promises is
-- the record Genuine of Cli/Commands/Issued for a verifier that trusts a root and an enclave image,
-- and the record Attests of Ceremony/EndToEnd for an honest module and verifier. The signature crates have the
-- laws that generated keys decode and sign what their public keys accept, and keyfork those of
-- KeyforkLaws in Ceremony/Total, for hardened indices of 31 bits.
--
-- Not modelled: what the two binaries print to the console besides a verdict, and how they parse
-- their arguments; the size of a read buffer and what a stalled connection blocks; the randomness of
-- a key; side channels.
pub mod Base
pub mod External
pub mod Merkle
pub mod Core
pub mod Bundle
pub mod Subkey
pub mod Ots
pub mod Quote
pub mod Enclave
pub mod Derive
pub mod Ceremony
pub mod Cli
pub mod Tests
