-- ===== src/Cli/Run.antt =====
-- crates/pq-cli/src/main.rs: the commands with their options, and what `main` makes of their results.
use pq_enclave_binding.Base.{
  ℕ, List, [], ◌∷◌, Option, Bytes, String, Outcome, ok, err, panic, ◌>>=◌,
}
use pq_enclave_binding.Cli.{Error}
use pq_enclave_binding.Cli.Commands
use pq_enclave_binding.Cli.Commands.{
  World, Verdict, SubkeyVerdict, Options, cmd_inspect, cmd_verify, cmd_stamp,
}

pub data Command : Type 0 where
  inspect : String → Command
  -- The paths of the bundle, the proof and the root certificate.
  verify : String → String → String → Options → Command
  -- The paths of the bundle and of the output, and the calendars.
  stamp : String → String → List String → Command
  -- The paths of the bundle and the subkey, the message, and the paths of proof and certificate.
  verify_subkey :
      String → String → Option String → Option String → Option String → Options → Command

abbrev pub default_calendars : List String
default_calendars =
    "https://alice.btc.calendar.opentimestamps.org" ∷ "https://bob.btc.calendar.opentimestamps.org"
    ∷ "https://finney.calendar.eternitywall.com" ∷ []

-- What a command prints at its end.
pub data Printed : Type 0 where
  inspected : ℕ × ℕ × ℕ × String → Printed
  bundle : Verdict → Printed
  stamped : String × Bytes → Printed
  subkey : SubkeyVerdict → Printed

module _ {Op : Type 0} (w : World Op) where
  unfoldable pub run : Command → Outcome Error Printed
  unfolding cmd_inspect cmd_verify cmd_stamp Commands.verify_subkey
  run (inspect path) = do x ← cmd_inspect w path; ok (inspected x)
  run (verify bundle_path ots_path root_path o) = do
    v ← cmd_verify w bundle_path ots_path root_path o
    ok (bundle v)
  run (stamp bundle_path out calendars) = do
    x ← cmd_stamp w bundle_path out calendars
    ok (stamped x)
  run (verify_subkey bundle_path subkey_path message_hex ots_path root_path o) = do
    v ← Commands.verify_subkey w bundle_path subkey_path message_hex ots_path root_path o
    ok (subkey v)

  -- The exit status of `main`; a panic ends a Rust program with 101.
  unfoldable pub main : Command → ℕ
  unfolding run
  main command = elim (run command) [ ok printed ↦ 0 | err e ↦ 1 | panic ↦ 101 ]
