-- ===== src/Ceremony/Start/Serves.antt =====
-- crates/pq-ceremony/src/main.rs: the enclave's binary from its start to its answers.
use pq_enclave_binding.Base.{
  ◌+◌, ◌^◌, ◌≤◌, ◌<◌, ◌≡◌, ◌⊎◌, inl, inr, List, Option, Bytes, String, Outcome, ok, err, All,
  length, u32_mod,
}
use pq_enclave_binding.External.{Sha256, TextCodec, Json, Fips, FipsLaws}
use pq_enclave_binding.Bundle
use pq_enclave_binding.Bundle.{PqRootBundle}
use pq_enclave_binding.Enclave.{Nsm, NsmError}
use pq_enclave_binding.Derive.{Keyfork}
use pq_enclave_binding.Ceremony.{nsm, CeremonyState, run_ceremony}
use pq_enclave_binding.Ceremony.Total.{KeyforkLaws}
use pq_enclave_binding.Ceremony.Finishes.{NsmReturns, Refuses, run_ceremony-finishes}
use pq_enclave_binding.Ceremony.Server.{Req, Render, TcpStream, config_from_env}
use pq_enclave_binding.Ceremony.Server.Total.{Parsers, Arrives, handled, serve-handled}
use pq_enclave_binding.Ceremony.Start.{Error, ceremony_failed, main}

module _ (k : Keyfork) (keyfork_laws : KeyforkLaws k) (sha : Sha256) (fips : Fips)
    (fips_laws : FipsLaws fips) (hex base64 : TextCodec) (serde : Json PqRootBundle)
    (requests : Json Req) (render : Render) (parsers : Parsers hex requests) where
  -- The binary, started with a root certificate that is read, 32 bytes of entropy, an environment
  -- that asks for at most `2 ^ 31` subkeys in each lane and a `u32` sum, and an address that is
  -- bound, does one of two things: it finishes a ceremony, and handles every connection that is
  -- accepted, in order, with this ceremony's state and bundle; or the NSM refuses a request of the
  -- ceremony, and its error is the binary's. The crates obey their laws, bundles serialize, and the
  -- calls of the NSM and of sockets return.
  pub main-handled :
      (n : Nsm) (root_ca : Outcome String Bytes) (root_ca_der : Bytes)
      (env : String → Option String) (entropy ml_drawn slh_drawn : Bytes)
      (listener : Outcome String (List (Outcome String TcpStream)))
      (incoming : List (Outcome String TcpStream))
      → NsmReturns n
      → root_ca ≡ ok root_ca_der
      → length entropy ≡ 32
      → (config_from_env env).auth_count ≤ 2 ^ 31
      → (config_from_env env).enc_count ≤ 2 ^ 31
      → (small : (config_from_env env).auth_count + (config_from_env env).enc_count < u32_mod)
      → ((bundle : PqRootBundle) → (text : String) × (serde.to_string_pretty bundle ≡ ok text))
      → listener ≡ ok incoming
      → All Arrives incoming
      → ((state : CeremonyState k) × (finished : run_ceremony k sha fips hex base64 n root_ca_der
              (config_from_env env)
              entropy
              ml_drawn
              slh_drawn
            ≡ ok state)
          × (text : String) × (serde.to_string_pretty state.bundle ≡ ok text)
          × (main k sha fips hex base64 serde requests render n root_ca env entropy ml_drawn
                slh_drawn listener
              ≡ ok (
                  handled k sha fips fips_laws hex base64 requests render parsers n root_ca_der
                    (config_from_env env)
                    entropy
                    ml_drawn
                    slh_drawn
                    state
                    small
                    finished
                    text
                    incoming)))
        ⊎ ((e : NsmError) × Refuses n e
            × (main k sha fips hex base64 serde requests render n root_ca env entropy ml_drawn
                  slh_drawn listener
                ≡ err (ceremony_failed (nsm e))))
  unfolding main Bundle.to_json
  main-handled n root_ca root_ca_der env entropy ml_drawn slh_drawn listener incoming returns read
        size auth enc small written bound arrive =
      elim (run_ceremony-finishes k keyfork_laws sha fips fips_laws hex base64 n root_ca_der
        (config_from_env env) entropy ml_drawn slh_drawn returns size auth enc small) [
          | inl (state, finished, all) ↦
              let (text, wrote) = written state.bundle in
              inl (
                state,
                finished,
                text,
                wrote,
                rw (read, finished, wrote, bound)
                    (serve-handled k sha fips fips_laws hex base64 requests render parsers n
                      root_ca_der (config_from_env env) entropy ml_drawn slh_drawn state small
                      finished Error text incoming arrive),
              )
          | inr (e, refuses, ends) ↦ inr (e, refuses, rw (read, ends))
        ]
