-- ===== src/Tests/HttpRuns.antt =====
-- Runs of the HTTP clients against a server of texts.
use pq_enclave_binding.Base.{
  ℕ, ◌≡◌, ◌↔◌, ◌<◌, refl, [], ◌∷◌, reverse, Option, some, Bytes, String, ◌<>◌, ok, err, length,
  u64_mod, str_eq, if◌then◌else◌,
}
use pq_enclave_binding.Ots.Http
use pq_enclave_binding.Ots.Http.{Ureq, EsploraHeaderSource, json_str_field, block_json}
use pq_enclave_binding.Ots.Http.Headers.{Fetched, Shows, merkle_root_iff, esplora_bounds}
use pq_enclave_binding.Tests.Doubles.{test_codec, fill}

abbrev root : Bytes
root = 3 ∷ fill 31 (2 ∷ 1 ∷ [])

abbrev block : String
block = "{\"merkle_root\":\"" <> (test_codec.encode root <> "\",\"timestamp\":1700000000}")

-- Block 7 has the hash `ab`; the calendar at `b` answers.
abbrev pub server : Ureq
server = record {
  get = λ url.
      if str_eq url "e/block-height/7"
      then ok (ok " ab\n")
      else (if str_eq url "e/block/ab" then ok (ok block) else err "404");
  post = λ url headers body. if str_eq url "b/digest" then ok (ok body) else err "503";
  quoted = λ s. s;
}

abbrev esplora : EsploraHeaderSource
esplora = record { base_url = "e" }

merkle_root_iff_example : (Http.merkle_root server test_codec esplora 7 ≡ ok (reverse root)) ↔ (
    (body : String) × (shown : String) × (bytes : Bytes) × Fetched server esplora 7 body
    × Shows server body "merkle_root" shown
    × (test_codec.decode shown ≡ ok bytes)
    × (length bytes ≡ 32)
    × (reverse root ≡ reverse bytes))
merkle_root_iff_example = merkle_root_iff server test_codec esplora 7 (reverse root)

esplora_bounds_example :
    ((root : Bytes) → Http.merkle_root server test_codec esplora 7 ≡ ok root → length root ≡ 32)
    × ((time : Option ℕ)
        → Http.block_time server esplora 7 ≡ ok time
        → (n : ℕ) × (time ≡ some n) × (n < u64_mod))
esplora_bounds_example = esplora_bounds server test_codec esplora 7

-- The server's block 7 is read.
block_7 :
    (Http.merkle_root server test_codec esplora 7 ≡ ok (reverse root))
    × (Http.block_time server esplora 7 ≡ ok (some 1700000000))
unfolding Http.merkle_root Http.block_time
block_7 = (refl, refl)
