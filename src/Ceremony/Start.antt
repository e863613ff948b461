-- ===== src/Ceremony/Start.antt =====
-- crates/pq-ceremony/src/main.rs: the start of the enclave's binary.
pub mod Serves
use pq_enclave_binding.Base.{List, Option, Bytes, String, Outcome, ◌>>=◌, map_err}
use pq_enclave_binding.External.{Sha256, TextCodec, Json, Fips}
use pq_enclave_binding.Bundle
use pq_enclave_binding.Bundle.{PqRootBundle}
use pq_enclave_binding.Enclave.{Nsm}
use pq_enclave_binding.Derive.{Keyfork}
use pq_enclave_binding.Ceremony.{CeremonyError, run_ceremony}
use pq_enclave_binding.Ceremony.Server.{Req, Render, TcpStream, config_from_env, serve}

pub data Error : Type 0 where
  reading_root_ca : String → Error
  ceremony_failed : CeremonyError → Error
  serializing_bundle : Bundle.Error → Error
  server_failed : String → Error

-- The root certificate as it is read, the environment, what the generator yields to the ceremony,
-- and the connections that come in where the address can be bound.
unfoldable pub main :
    (k : Keyfork)
    → Sha256
    → Fips
    → TextCodec
    → TextCodec
    → Json PqRootBundle
    → Json Req
    → Render
    → Nsm
    → Outcome String Bytes
    → (String → Option String)
    → Bytes
    → Bytes
    → Bytes
    → Outcome String (List (Outcome String TcpStream))
    → Outcome Error (List (Outcome String Bytes))
unfolding run_ceremony Bundle.to_json config_from_env serve
main k sha fips hex base64 serde requests render nsm root_ca env entropy ml_drawn slh_drawn
      listener =
    do
      root_ca_der ← map_err reading_root_ca root_ca
      state ← map_err ceremony_failed (
          run_ceremony k sha fips hex base64 nsm root_ca_der (config_from_env env) entropy ml_drawn
            slh_drawn)
      bundle_json ← map_err serializing_bundle (Bundle.to_json serde state.bundle)
      incoming ← map_err server_failed listener
      serve k sha fips hex requests render state bundle_json incoming
