-- ===== src/Ots/Http.antt =====
-- crates/pq-ots/src/http.rs: the calendar and the Bitcoin header source that are reached over HTTP.
-- The requests are those of the `ureq` crate, a parameter.
pub mod Fields
pub mod Headers
use pq_enclave_binding.Base.{
  ℕ, Bool, not, List, [], ◌∷◌, reverse, Option, none, some, Bytes, String, ◌<>◌, Outcome, ok, err,
  ◌>>=◌, ◌>>◌, map_err, ok_or, fail_if, length, ◌==◌, display, trim, after_first, before_char,
  digit_prefix, parse, u64_mod,
}
use pq_enclave_binding.External.{TextCodec}
use pq_enclave_binding.Ots.{BitcoinHeaderSource, CalendarClient}

-- A request can fail, and so can reading the body of its response.
pub record Ureq : Type 0 where
  pub get : String → Outcome String (Outcome String String)
  pub post : String → List (String × String) → Bytes → Outcome String (Outcome String Bytes)
  -- `{:?}` of a text, in messages.
  pub quoted : String → String

pub record HttpCalendar : Type 0 where
  pub base_url : String

pub record EsploraHeaderSource : Type 0 where
  pub base_url : String

unfoldable pub json_str_field : String → String → Outcome String String
unfolding after_first before_char
json_str_field body name = do
  rest ←
      ok_or (after_first ("\"" <> (name <> "\":\"")) body) ("no " <> (name <> " in block response"))
  ok_or (before_char b'"' rest) ("malformed " <> (name <> " field"))

module _ (ureq : Ureq) where
  unfoldable pub submit : HttpCalendar → CalendarClient
  submit calendar digest = do
    let url = calendar.base_url <> "/digest"
    let headers : List (String × String) =
        ("Accept", "application/vnd.opentimestamps.v1")
        ∷ ("Content-Type", "application/x-www-form-urlencoded")
        ∷ []
    response ← map_err (λ e. "POST " <> (url <> (": " <> e))) (ureq.post url headers digest)
    map_err (λ e. "reading calendar response: " <> e) response

  unfoldable pub block_json : EsploraHeaderSource → ℕ → Outcome String String
  unfolding display trim
  block_json esplora height = do
    let hash_url = esplora.base_url <> ("/block-height/" <> display height)
    response ← map_err (λ e. "GET " <> (hash_url <> (": " <> e))) (ureq.get hash_url)
    block_hash ← map_err (λ e. "reading block hash: " <> e) response
    let block_url = esplora.base_url <> ("/block/" <> trim block_hash)
    response ← map_err (λ e. "GET " <> (block_url <> (": " <> e))) (ureq.get block_url)
    map_err (λ e. "reading block: " <> e) response

  unfoldable pub json_u64_field : String → String → Outcome String ℕ
  unfolding after_first digit_prefix parse
  json_u64_field body name = do
    rest ←
        ok_or (after_first ("\"" <> (name <> "\":")) body) ("no " <> (name <> " in block response"))
    let digits = digit_prefix rest
    map_err (λ e. "bad " <> (name <> (" number " <> (ureq.quoted digits <> (": " <> e)))))
        (parse u64_mod digits)

  unfoldable pub merkle_root : TextCodec → EsploraHeaderSource → ℕ → Outcome String Bytes
  unfolding block_json json_str_field
  merkle_root hex esplora height = do
    body ← block_json esplora height
    display_hex ← json_str_field body "merkle_root"
    bytes ←
        map_err (λ e. "bad merkle_root hex " <> (ureq.quoted display_hex <> (": " <> e)))
          (hex.decode display_hex)
    fail_if (not (length bytes == 32))
        ("merkle_root is " <> (display (length bytes) <> " bytes, expected 32"))
    ok (reverse bytes)

  unfoldable pub block_time : EsploraHeaderSource → ℕ → Outcome String (Option ℕ)
  unfolding block_json json_u64_field
  block_time esplora height = do
    body ← block_json esplora height
    time ← json_u64_field body "timestamp"
    ok (some time)

  unfoldable pub header_source : TextCodec → EsploraHeaderSource → BitcoinHeaderSource
  unfolding merkle_root block_time
  header_source hex esplora = record {
    merkle_root = merkle_root hex esplora;
    block_time = block_time esplora;
  }
