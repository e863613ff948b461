-- ===== src/Tests/ServerRuns.antt =====
-- Runs of the enclave's server after the ceremony of the other runs.
use pq_enclave_binding.Base.{
  ◌≡◌, refl, arith, Bool, [], ◌∷◌, ◌++◌, List, Bytes, String, Outcome, NoPanic, All, as_bytes, ok,
  err, from_utf8_lossy, lines, split_whitespace, trim_start_matches,
}
use pq_enclave_binding.Ceremony.Request.{find_subslice, content_length, read_request}
use pq_enclave_binding.Ceremony.Request.Chunks.{Chunks, reads, read_request-reads}
use pq_enclave_binding.Ceremony.Server.{Req, Render, TcpStream, serve}
use pq_enclave_binding.Ceremony.Server.Total.{Arrives, Parsers, Sound, handled, serve-handled}
use pq_enclave_binding.Cli.Commands.{World}
use pq_enclave_binding.Tests.Doubles.{
  test_sha, test_codec, test_fips, test_fips_laws, test_json, read-NoPanic,
}
use pq_enclave_binding.Tests.CeremonyRuns.{test_keyfork, config, open_nsm, open_run}
use pq_enclave_binding.Tests.OtsRuns.{single, accept}
use pq_enclave_binding.Tests.HttpRuns.{server}
use pq_enclave_binding.Tests.CliRuns.{holds, disk}

lossy_runs :
    (from_utf8_lossy (0x47 ∷ 0xC3 ∷ 0xA9 ∷ 0xE2 ∷ 0x82 ∷ 0xAC ∷ 0xF0 ∷ 0x9F ∷ 0x98 ∷ 0x80 ∷ [])
      ≡ "Gé€😀")
    × (from_utf8_lossy (0xE2 ∷ 0x82 ∷ 0x41 ∷ 0xFF ∷ 0xED ∷ 0xA0 ∷ []) ≡ "�A���")
unfolding from_utf8_lossy
lossy_runs = (refl, refl)

lines_runs :
    (lines "GET / HTTP/1.1\r\nHost: a\r\n\nlast\r"
      ≡ "GET / HTTP/1.1" ∷ "Host: a" ∷ "" ∷ "last\r" ∷ [])
    × (split_whitespace " GET  /a b " ≡ "GET" ∷ "/a" ∷ "b" ∷ [])
    × (trim_start_matches "/s/" "/s//s/7/s/" ≡ "7/s/")
unfolding lines split_whitespace trim_start_matches
lines_runs = (refl, refl, refl)

-- A request with a body of two bytes, in three reads, the first of which ends inside the mark.
abbrev head : Bytes
unfolding as_bytes
head = as_bytes "POST /sign HTTP/1.1\r\nContent-Length: 2"

abbrev request : Bytes
request = head ++ (13 ∷ 10 ∷ 13 ∷ 10 ∷ 7 ∷ 8 ∷ [])

abbrev chunks : Chunks
unfolding head as_bytes
chunks = (80, rest head) ∷ (10, 13 ∷ 10 ∷ 7 ∷ []) ∷ (8, []) ∷ []
  where
    rest : Bytes → Bytes
    rest [] = []
    rest (b ∷ bs) = bs ++ (13 ∷ [])

read_request-reads_example : read_request [] (reads chunks (err "reset" ∷ [])) ≡ ok (request, 38)
unfolding find_subslice content_length head as_bytes chunks from_utf8_lossy
read_request-reads_example =
    read_request-reads request 38 chunks (err "reset" ∷ []) refl refl (omega arith) refl

abbrev pub render : Render
render = record { object = λ fields. "{}"; array = λ objects. "[]" }

abbrev pub req : Req
req = record { index = 2; message_hex = "1.11." }

abbrev world : World Bool
world = record {
  hex = test_codec;
  base64 = test_codec;
  sha = test_sha;
  fips = test_fips;
  from_cose = accept;
  crate = single;
  ureq = server;
  files = disk;
  now = 1000;
  bundle_json = holds open_run.0.bundle;
  headers_json = holds [];
  subkey_json = test_json _;
}

-- Three connections: a health check, one whose read fails, and one that is not accepted.
abbrev pub stream_of : List (Outcome String Bytes) → TcpStream
stream_of results = record {
  reads = results;
  ml_drawn = [];
  slh_drawn = [];
  write_all = λ b. ok tt;
  flush = ok tt;
}

abbrev pub incoming : List (Outcome String TcpStream)
unfolding as_bytes
incoming =
    ok (stream_of (ok (as_bytes "GET /health HTTP/1.1\r\n\r\n") ∷ []))
    ∷ ok (stream_of (err "reset" ∷ []))
    ∷ err "too many files"
    ∷ []

pub parsers : Parsers test_codec (holds req)
parsers = record { hex_decodes = read-NoPanic 0; json_parses = λ s h. cc h }

pub incoming-Arrives : All Arrives incoming
unfolding incoming
incoming-Arrives = (sound _ ((λ h. cc h), tt), (sound _ ((λ h. cc h), tt), (tt, tt)))
  where
    sound :
        (results : List (Outcome String Bytes)) → All NoPanic results → Sound (stream_of results)
    sound results all = record { reads = all; writes = λ b h. cc h; flushes = λ h. cc h }

serve-handled_example :
    serve test_keyfork test_sha test_fips test_codec
      (holds req)
      render
      open_run.0
      {E = String}
      "{}"
      incoming
    ≡ ok (
        handled test_keyfork test_sha test_fips test_fips_laws test_codec test_codec
          (holds req)
          render
          parsers
          open_nsm
          (1 ∷ [])
          config
          (3 ∷ [])
          []
          []
          open_run.0
          (omega arith)
          open_run.1
          "{}"
          incoming)
unfolding incoming
serve-handled_example =
    serve-handled test_keyfork test_sha test_fips test_fips_laws test_codec test_codec (holds req)
      render parsers open_nsm (1 ∷ []) config (3 ∷ []) [] [] open_run.0 (omega arith) open_run.1
      String "{}" incoming incoming-Arrives
