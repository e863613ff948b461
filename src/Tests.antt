-- ===== src/Tests.antt =====
-- Runs of the model with concrete stand-ins for the crates that the workspace calls.
mod Doubles
mod MerkleRuns
mod CoreRuns
mod BundleRuns
mod OtsRuns
mod CeremonyRuns
mod CliRuns
mod SubkeyRuns
mod HttpRuns
mod ServerRuns
mod IssuedRuns
mod EndToEndRuns
