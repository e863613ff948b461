-- ===== src/Ceremony/Server.antt =====
-- crates/pq-ceremony/src/main.rs: the enclave's HTTP server over a finished ceremony. What is printed
-- to the console is left out. A signature is given what the platform generator yields to it.
pub mod Oracle
pub mod Answers
pub mod Total
use pq_enclave_binding.Base.{
  ℕ, Bool, true, false, List, [], ◌∷◌, map, Option, none, some, Bytes, String, str_eq, ◌<>◌,
  as_bytes, Outcome, ok, err, panic, ◌>>=◌, ◌>>◌, map_err, ok_or, unwrap_or, length, if◌then◌else◌,
  display, strip_prefix, parse, trim_start_matches, u32_mod,
}
use pq_enclave_binding.External.{Sha256, TextCodec, Json, Fips}
use pq_enclave_binding.Core.{DualSignature}
use pq_enclave_binding.Derive.{Keyfork}
use pq_enclave_binding.Ceremony.{
  CeremonyConfig, SubkeyRecord, CeremonyState, find_subkey, proof, sign_with_subkey,
}
use pq_enclave_binding.Ceremony.Request.{Request, read_request, parse_request}

-- `env::var(k).ok().and_then(|v| v.parse().ok()).unwrap_or(d)`
unfoldable pub count_from_env : Option String → ℕ → ℕ
unfolding parse
count_from_env none d = d
count_from_env (some v) d = elim (parse u32_mod v) [ ok n ↦ n | err e ↦ d | panic ↦ d ]

-- The environment is what `env::var(k).ok()` is at each name.
unfoldable pub config_from_env : (String → Option String) → CeremonyConfig
unfolding count_from_env
config_from_env env = record {
  auth_count = count_from_env (env "PQ_SUBKEYS_AUTH") 4;
  enc_count = count_from_env (env "PQ_SUBKEYS_ENC") 0;
}

pub record Req : Type 0 where
  pub index : ℕ
  pub message_hex : String

-- The values that `serde_json::json!` builds here: objects of numbers, texts and lists of texts.
pub data Field : Type 0 where
  number : ℕ → Field
  text : String → Field
  texts : List String → Field

abbrev pub Object : Type 0
Object = List (String × Field)

-- `to_string` of an object and of a list of objects.
pub record Render : Type 0 where
  pub object : Object → String
  pub array : List Object → String

-- Status and body.
abbrev pub Reply : Type 0
Reply = String × String

abbrev pub bad_request : Reply
bad_request = ("400 Bad Request", "{\"error\":\"bad request\"}")

abbrev pub bad_message : Reply
bad_message = ("400 Bad Request", "{\"error\":\"bad message_hex\"}")

abbrev pub unknown_index : Reply
unknown_index = ("404 Not Found", "{\"error\":\"unknown subkey index\"}")

-- A reply that returns early is an error of the steps before it.
abbrev pub replied {ℓ} : {E : Type ℓ} → Outcome Reply Reply → Outcome E Reply
replied (ok r) = ok r
replied (err r) = ok r
replied panic = panic

-- One connection: its reads, what the two signers draw, and what writing and flushing come to.
pub record TcpStream : Type 0 where
  pub reads : List (Outcome String Bytes)
  pub ml_drawn : Bytes
  pub slh_drawn : Bytes
  pub write_all : Bytes → Outcome String (Unit {0})
  pub flush : Outcome String (Unit {0})

-- Status, content type and body.
unfoldable pub http_response : String × String × String → Bytes
unfolding display as_bytes
http_response (status, content_type, body_out) = as_bytes (
    "HTTP/1.1 "
    <> (status
        <> ("\r\nContent-Type: "
            <> (content_type
                <> ("\r\nContent-Length: "
                    <> (display (length (as_bytes body_out))
                        <> ("\r\nConnection: close\r\n\r\n" <> body_out)))))))

unfoldable pub send : TcpStream → Bytes → Outcome String Bytes
send stream response = do stream.write_all response; stream.flush; ok response

module _ (k : Keyfork) (sha : Sha256) (fips : Fips) (hex : TextCodec) (requests : Json Req)
    (render : Render) where
  abbrev pub public_fields : SubkeyRecord → List Bytes → Object
  public_fields r path =
      ("index", number r.global_index)
      ∷ ("purpose_tag", number r.purpose_tag)
      ∷ ("ml_dsa_pk", text (hex.encode r.ml_dsa_pk))
      ∷ ("slh_dsa_pk", text (hex.encode r.slh_dsa_pk))
      ∷ ("merkle_proof", texts (map hex.encode path))
      ∷ []

  abbrev pub signed_fields : SubkeyRecord → DualSignature → List Bytes → Object
  signed_fields r sig path =
      ("index", number r.global_index)
      ∷ ("purpose_tag", number r.purpose_tag)
      ∷ ("ml_dsa_pk", text (hex.encode r.ml_dsa_pk))
      ∷ ("slh_dsa_pk", text (hex.encode r.slh_dsa_pk))
      ∷ ("ml_dsa_sig", text (hex.encode sig.ml_dsa))
      ∷ ("slh_dsa_sig", text (hex.encode sig.slh_dsa))
      ∷ ("merkle_proof", texts (map hex.encode path))
      ∷ []

  module _ (state : CeremonyState k) where
    unfoldable pub sign_response {ℓ} : {E : Type ℓ} → String → Bytes → Bytes → Outcome E Reply
    unfolding sign_with_subkey find_subkey
    sign_response body ml_drawn slh_drawn = replied (do
      req ← map_err (λ e. bad_request) (requests.from_str body)
      message ← map_err (λ e. bad_message) (hex.decode req.message_hex)
      r ← ok_or (find_subkey state.subkeys req.index) unknown_index
      signed ← sign_with_subkey k sha fips state req.index message ml_drawn slh_drawn
      (sig, path) ← ok_or signed unknown_index
      ok ("200 OK", render.object (signed_fields r sig path)))

    -- `state.proof(i).unwrap_or_default()`, in the object of a record.
    unfoldable pub public_object {ℓ} : {E : Type ℓ} → SubkeyRecord → Outcome E Object
    unfolding proof
    public_object r = do
      path ← proof k sha fips state r.global_index
      ok (public_fields r (unwrap_or path []))

    unfoldable pub public_objects {ℓ} : {E : Type ℓ} → List SubkeyRecord → Outcome E (List Object)
    unfolding public_object
    public_objects [] = ok []
    public_objects (r ∷ rs) = do
      object ← public_object r
      objects ← public_objects rs
      ok (object ∷ objects)

    unfoldable pub subkeys_list_response {ℓ} : {E : Type ℓ} → Outcome E Reply
    unfolding public_objects
    subkeys_list_response = do
      objects ← public_objects state.subkeys
      ok ("200 OK", render.array objects)

    -- The proof is that of the index asked for, which is the record's.
    unfoldable pub subkey_response {ℓ} : {E : Type ℓ} → ℕ → Outcome E Reply
    unfolding find_subkey proof
    subkey_response index = replied (do
      r ← ok_or (find_subkey state.subkeys index) unknown_index
      path ← proof k sha fips state index
      ok ("200 OK", render.object (public_fields r (unwrap_or path []))))

    -- `match … .parse::<u32>()` behind "/subkey/".
    unfoldable pub route_subkey : Outcome String ℕ → Outcome String (String × String × String)
    unfolding subkey_response
    route_subkey (ok i) = do
      (status, body) ← subkey_response i
      ok (status, "application/json", body)
    route_subkey (err e) = ok ("400 Bad Request", "text/plain", "bad index\n")
    route_subkey panic = panic

    -- Status, content type and body, for a method that is GET: the arms of `match` in order.
    unfoldable pub route_get : String → String → Outcome String (String × String × String)
    unfolding subkeys_list_response route_subkey strip_prefix trim_start_matches parse
    route_get path bundle_json =
        if str_eq path "/bundle.json"
        then ok ("200 OK", "application/json", bundle_json)
        else (if str_eq path "/health"
            then ok ("200 OK", "text/plain", "ok\n")
            else (if str_eq path "/"
                then ok ("200 OK", "text/plain", "ok\n")
                else (if str_eq path "/subkeys"
                    then (do
                      (status, body) ← subkeys_list_response
                      ok (status, "application/json", body))
                    else (elim (strip_prefix "/subkey/" path) [
                      | some rest ↦
                          route_subkey (parse u32_mod (trim_start_matches "/subkey/" path))
                      | none ↦ ok ("404 Not Found", "text/plain", "not found\n")
                    ]))))

    unfoldable pub route_post :
        String → String → Bytes → Bytes → Outcome String (String × String × String)
    unfolding sign_response
    route_post path body ml_drawn slh_drawn =
        if str_eq path "/sign"
        then (do
          (status, out) ← sign_response body ml_drawn slh_drawn
          ok (status, "application/json", out))
        else ok ("404 Not Found", "text/plain", "not found\n")

    unfoldable pub route :
        String → Request → Bytes → Bytes → Outcome String (String × String × String)
    unfolding route_get route_post
    route bundle_json request ml_drawn slh_drawn =
        if str_eq request.method "GET"
        then route_get request.path bundle_json
        else (if str_eq request.method "POST"
            then route_post request.path request.body ml_drawn slh_drawn
            else ok ("404 Not Found", "text/plain", "not found\n"))

    -- What is written, when all of it is.
    unfoldable pub handle : String → TcpStream → Outcome String Bytes
    unfolding read_request parse_request route http_response send
    handle bundle_json stream = do
      (buf, header_end) ← read_request [] stream.reads
      reply ← route bundle_json (parse_request buf header_end) stream.ml_drawn stream.slh_drawn
      send stream (http_response reply)

    -- The connections in order; a failed one does not stop the loop, a panic does.
    unfoldable pub serve {ℓ} :
        {E : Type ℓ}
        → String
        → List (Outcome String TcpStream)
        → Outcome E (List (Outcome String Bytes))
    unfolding handle
    serve bundle_json [] = ok []
    serve bundle_json (err e ∷ incoming) = serve bundle_json incoming
    serve bundle_json (panic ∷ incoming) = panic
    serve bundle_json (ok stream ∷ incoming) = elim (handle bundle_json stream) [
      | ok written ↦ (do rest ← serve bundle_json incoming; ok (ok written ∷ rest))
      | err e ↦ (do rest ← serve bundle_json incoming; ok (err e ∷ rest))
      | panic ↦ panic
    ]
