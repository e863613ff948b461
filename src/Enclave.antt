-- ===== src/Enclave.antt =====
-- crates/pq-enclave/src/lib.rs: the NSM interface, the mock, and the attestation of a payload. The
-- hardware implementation is the driver's answer, translated.
pub mod Mock
use pq_enclave_binding.Base.{
  ℕ, ◌+◌, ◌/◌, ◌%◌, ◌<◌, List, [], ◌∷◌, Option, none, some, Bytes, String, ◌<>◌, as_bytes, Outcome,
  ok, err, replicate, unwrap_or, ltb, ◌==◌, if◌then◌else◌,
}
use pq_enclave_binding.External.{Sha256}
use pq_enclave_binding.Core.{user_data_commitment}

pub data NsmError : Type 0 where
  unexpected_response : NsmError
  nsm_error : String → NsmError

-- The trait `Nsm`: `attest` takes user data, nonce and public key.
pub record Nsm : Type 0 where
  pub attest : Bytes → Option Bytes → Option Bytes → Outcome NsmError Bytes
  pub describe_pcr : ℕ → Outcome NsmError Bytes

-- `{b:02x}`: a byte as two digits.
hex_digit : ℕ → String
hex_digit d =
    if d == 0
    then "0"
    else (if d == 1
        then "1"
        else (if d == 2
            then "2"
            else (if d == 3
                then "3"
                else (if d == 4
                    then "4"
                    else (if d == 5
                        then "5"
                        else (if d == 6
                            then "6"
                            else (if d == 7
                                then "7"
                                else (if d == 8
                                    then "8"
                                    else (if d == 9
                                        then "9"
                                        else (if d == 10
                                            then "a"
                                            else (if d == 11
                                                then "b"
                                                else (if d == 12
                                                    then "c"
                                                    else (if d == 13
                                                        then "d"
                                                        else (if d == 14
                                                            then "e"
                                                            else "f"))))))))))))))

unfoldable pub hex_encode : Bytes → String
unfolding hex_digit
hex_encode [] = ""
hex_encode (b ∷ bytes) = hex_digit (b / 16) <> (hex_digit (b % 16) <> hex_encode bytes)

-- `option.as_deref().map(hex_encode).unwrap_or_default()`
unfoldable pub hex_or_empty : Option Bytes → String
unfolding hex_encode
hex_or_empty none = ""
hex_or_empty (some b) = hex_encode b

unfoldable pub mock_attest : Bytes → Option Bytes → Option Bytes → Outcome NsmError Bytes
unfolding hex_encode hex_or_empty as_bytes
mock_attest user_data nonce public_key = ok (
    as_bytes (
      "{\"mock\":true,\"user_data\":\""
      <> (hex_encode user_data
          <> ("\",\"nonce\":\""
              <> (hex_or_empty nonce
                  <> ("\",\"public_key\":\"" <> (hex_or_empty public_key <> "\"}")))))))

-- `u8::try_from(index % 251).unwrap_or(0).wrapping_add(1)`, 48 times.
unfoldable pub mock_describe_pcr : ℕ → Outcome NsmError Bytes
mock_describe_pcr i =
    let byte = (if ltb (i % 251) 256 then i % 251 else 0) in ok (replicate 48 ((byte + 1) % 256))

unfoldable pub mock_nsm : Nsm
unfolding mock_attest mock_describe_pcr
mock_nsm = record { attest = mock_attest; describe_pcr = mock_describe_pcr }

-- The answers of the driver that the hardware implementation tells apart.
pub data Response : Type 0 where
  attestation : Bytes → Response
  describe_pcr : Bytes → Response
  error : String → Response
  other : Response

pub data Request : Type 0 where
  attestation : Bytes → Option Bytes → Option Bytes → Request
  describe_pcr : ℕ → Request

unfoldable pub read_attestation : Response → Outcome NsmError Bytes
read_attestation (Response.attestation document) = ok document
read_attestation (Response.describe_pcr content) = err unexpected_response
read_attestation (error e) = err (nsm_error e)
read_attestation other = err unexpected_response

unfoldable pub read_pcr : Response → Outcome NsmError Bytes
read_pcr (Response.attestation document) = err unexpected_response
read_pcr (Response.describe_pcr content) = ok content
read_pcr (error e) = err (nsm_error e)
read_pcr other = err unexpected_response

-- `NitroNsm` over the driver's `nsm_process_request`.
unfoldable pub nitro_nsm : (Request → Response) → Nsm
unfolding read_attestation read_pcr
nitro_nsm process = record {
  attest = λ user_data nonce public_key.
      read_attestation (process (Request.attestation user_data nonce public_key));
  describe_pcr = λ i. read_pcr (process (Request.describe_pcr i));
}

unfoldable pub attest_bundle_payload : Sha256 → Nsm → Bytes → Outcome NsmError Bytes
attest_bundle_payload sha nsm payload_bytes =
    Nsm.attest nsm (user_data_commitment sha payload_bytes) none none
