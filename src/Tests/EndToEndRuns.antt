-- ===== src/Tests/EndToEndRuns.antt =====
-- Runs of the ceremony to its end, and of the command line on what it publishes and signs, under an
-- attestation library that accepts every quote of the test module.
use pq_enclave_binding.Base.{
  ◌+◌, ◌<◌, u32_mod, ℕ, ◌≡◌, refl, sym, subst, ok-injective, arith, Bool, true, List, [], ◌∷◌,
  Option, none, some, Bytes, String, as_bytes, Outcome, ok, err, ◌⊎◌, length,
}
use pq_enclave_binding.External.{Json}
use pq_enclave_binding.Merkle.{merkle_proof}
use pq_enclave_binding.Core.{DualSignature}
use pq_enclave_binding.Bundle.{PqRootBundle}
use pq_enclave_binding.Ots
use pq_enclave_binding.Ots.{DetachedTimestampFile, step, attestation, pending, nil}
use pq_enclave_binding.Ots.Tree.{Attested, here, below}
use pq_enclave_binding.Enclave.{NsmError}
use pq_enclave_binding.Quote.{FromCose, at_unix_secs, verify_quote}
use pq_enclave_binding.Ceremony.{nsm, CeremonyState, run_ceremony, sign_with_subkey}
use pq_enclave_binding.Ceremony.EndToEnd.{Attests}
use pq_enclave_binding.Ceremony.Finishes.{NsmReturns, Refuses, run_ceremony-finishes}
use pq_enclave_binding.Ceremony.Server.{Reply, config_from_env}
use pq_enclave_binding.Ceremony.Server.Total.{handled}
use pq_enclave_binding.Ceremony.Start.{ceremony_failed, main}
use pq_enclave_binding.Ceremony.Start.Serves.{main-handled}
use pq_enclave_binding.Cli.{HeaderSource, load_bundle}
use pq_enclave_binding.Cli.Commands.{
  World, Verdict, SubkeyResponse, choose_source, cmd_stamp, cmd_verify,
}
use pq_enclave_binding.Cli.Commands.Served.{response}
use pq_enclave_binding.Cli.Commands.Stamped.{OnlyPending, cmd_verify-cmd_stamp}
use pq_enclave_binding.Cli.Commands.EndToEnd.{HonestFiles}
use pq_enclave_binding.Tests.Doubles.{
  test_sha, test_codec, test_fips, test_fips_laws, test_json, fill, length-fill,
}
use pq_enclave_binding.Tests.CeremonyRuns.{
  test_keyfork, test_keyfork_laws, config, third, open_nsm, open_nsm-Attests, guarded, all_bytes,
  open_run,
}
use pq_enclave_binding.Tests.CliRuns.{holds}
use pq_enclave_binding.Tests.OtsRuns.{single, single_laws}
use pq_enclave_binding.Tests.HttpRuns.{server}
use pq_enclave_binding.Tests.ServerRuns.{req, render, incoming, incoming-Arrives, parsers}
use pq_enclave_binding.Tests.IssuedRuns.{published, document_of, disk, options}

open_nsm-NsmReturns : NsmReturns open_nsm
open_nsm-NsmReturns = record {
  attest-NoPanic = λ shown h. returns (all_bytes shown) shown h;
  describe_pcr-NoPanic = λ i h. cc h;
}
  where
    returns : (b : Bool) (shown : Bytes) → guarded b shown ≡ Outcome.panic → ⊥
    returns true shown h = cc h
    returns Bool.false shown h = cc h

run_ceremony-finishes_example :
    ((state : CeremonyState test_keyfork) × (run_ceremony test_keyfork test_sha test_fips test_codec
          test_codec open_nsm
          (1 ∷ [])
          config
          (fill 32 [])
          []
          []
        ≡ ok state)
      × (length state.subkeys ≡ 3))
    ⊎ ((e : NsmError) × Refuses open_nsm e
        × (run_ceremony test_keyfork test_sha test_fips test_codec test_codec open_nsm
              (1 ∷ [])
              config
              (fill 32 [])
              []
              []
            ≡ err (nsm e)))
run_ceremony-finishes_example =
    run_ceremony-finishes test_keyfork test_keyfork_laws test_sha test_fips test_fips_laws
      test_codec test_codec open_nsm (1 ∷ []) config (fill 32 []) [] [] open_nsm-NsmReturns
      (length-fill 32 []) (omega arith) (omega arith) (omega arith)

-- A start without a configuration in the environment.
abbrev no_env : String → Option String
no_env name = none

no_env_small : (config_from_env no_env).auth_count + (config_from_env no_env).enc_count < u32_mod
unfolding config_from_env
no_env_small = omega arith

main-handled_example :
    ((state : CeremonyState test_keyfork) × (finished : run_ceremony test_keyfork test_sha test_fips
          test_codec test_codec open_nsm
          (1 ∷ [])
          (config_from_env no_env)
          (fill 32 [])
          []
          []
        ≡ ok state)
      × (text : String) × (◌≡◌ {A = Outcome String String} (ok "{}") (ok text))
      × (main test_keyfork test_sha test_fips test_codec test_codec
            (test_json PqRootBundle)
            (holds req)
            render
            open_nsm
            (ok (1 ∷ []))
            no_env
            (fill 32 [])
            []
            []
            (ok incoming)
          ≡ ok (
              handled test_keyfork test_sha test_fips test_fips_laws test_codec test_codec
                (holds req)
                render
                parsers
                open_nsm
                (1 ∷ [])
                (config_from_env no_env)
                (fill 32 [])
                []
                []
                state
                no_env_small
                finished
                text
                incoming)))
    ⊎ ((e : NsmError) × Refuses open_nsm e
        × (main test_keyfork test_sha test_fips test_codec test_codec
              (test_json PqRootBundle)
              (holds req)
              render
              open_nsm
              (ok (1 ∷ []))
              no_env
              (fill 32 [])
              []
              []
              (ok incoming)
            ≡ err (ceremony_failed (nsm e))))
unfolding config_from_env
main-handled_example =
    main-handled test_keyfork test_keyfork_laws test_sha test_fips test_fips_laws test_codec
      test_codec (test_json PqRootBundle) (holds req) render parsers open_nsm (ok (1 ∷ [])) (1 ∷ [])
      no_env (fill 32 []) [] [] (ok incoming) incoming open_nsm-NsmReturns refl (length-fill 32 [])
      (omega arith) (omega arith) no_env_small (λ bundle. ("{}", refl)) refl incoming-Arrives

abbrev open_quotes : FromCose
open_quotes quote root at = ok (document_of quote)

open_quotes-Attests : Attests open_nsm (verify_quote open_quotes (at_unix_secs (1 ∷ []) 1000))
unfolding verify_quote
open_quotes-Attests = record {
  accepts = λ shown quote h. open_nsm-Attests.accepts shown quote h;
  describe_pcr-IsByte = open_nsm-Attests.describe_pcr-IsByte;
  not_debug = open_nsm-Attests.not_debug;
}

abbrev signed :
    (a : DualSignature × List Bytes) × (sign_with_subkey test_keyfork test_sha test_fips {E = Reply}
        open_run.0 2
        (1 ∷ 2 ∷ [])
        []
        []
      ≡ ok (some a))
unfolding sign_with_subkey open_run merkle_proof
signed = (_, refl)

abbrev world_with : Json SubkeyResponse → World Bool
world_with responses = record {
  hex = test_codec;
  base64 = test_codec;
  sha = test_sha;
  fips = test_fips;
  from_cose = open_quotes;
  crate = single;
  ureq = server;
  files = disk;
  now = 1000;
  bundle_json = holds published;
  headers_json = holds [];
  subkey_json = responses;
}

abbrev world : World Bool
world = world_with (holds (response (world_with (test_json _)) third signed.0.0 signed.0.1))

files : HonestFiles world published (1 ∷ []) "bundle.json.ots" "root.der" options 1000 (true, none)
unfolding Ots.verify choose_source as_bytes
files = record {
  ots_bytes = fill 32 (123 ∷ 125 ∷ []);
  text = "{}";
  chosen = HeaderSource.map [] [];
  ots_read = refl;
  root_read = refl;
  written = refl;
  source_chosen = refl;
  timed = (refl, refl, refl);
}

waits : OnlyPending world single_laws (fill 32 (123 ∷ 125 ∷ []))
waits file read height committed a = nowhere height committed (
    subst {A = DetachedTimestampFile Bool}
      (λ f. Attested Bool height committed f.timestamp.first_step) (sym (ok-injective String read))
      a)
  where
    nowhere :
        (height : ℕ) (committed : Bytes)
        → Attested Bool height committed (step (attestation (pending "")) [] nil)
        → ⊥
    nowhere height committed (here e o) = cc e
    nowhere height committed (below a) = elim a [ ]

cmd_verify-cmd_stamp_example :
    cmd_verify world "bundle.json" "bundle.json.ots" "root.der" options ≡ ok Verdict.partial
unfolding load_bundle choose_source cmd_stamp
cmd_verify-cmd_stamp_example =
    cmd_verify-cmd_stamp world single_laws test_fips_laws test_keyfork open_nsm (1 ∷ []) config
      (3 ∷ []) [] [] open_run.0 "bundle.json" "bundle.json.ots" "root.der" ("a" ∷ "b" ∷ []) options
      "b" (fill 32 (123 ∷ 125 ∷ [])) (HeaderSource.map [] []) (omega arith) open_run.1
      open_quotes-Attests refl refl refl refl refl waits
