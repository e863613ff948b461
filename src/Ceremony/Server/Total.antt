-- ===== src/Ceremony/Server/Total.antt =====
-- crates/pq-ceremony/src/main.rs: no request to the server of a finished ceremony panics.
use pq_enclave_binding.Base.{
  ℕ, ◌+◌, ◌<◌, ◌≡◌, refl, sym, ap, ◌∙◌, inl, inr, List, [], ◌∷◌, Option-cases, some, Bytes, String,
  str_eq, Outcome, Outcome-cases, ok, err, panic, ◌>>◌, NoPanic, ok-NoPanic, ok_or-NoPanic,
  if-NoPanic, >>=-NoPanic, map_err-NoPanic, parse-NoPanic, All, ok_or, strip_prefix,
  trim_start_matches, parse, u32_mod,
}
use pq_enclave_binding.External.{Sha256, TextCodec, Json, Fips, FipsLaws}
use pq_enclave_binding.Enclave.{Nsm}
use pq_enclave_binding.Derive.{Keyfork}
use pq_enclave_binding.Ceremony.{
  CeremonyConfig, SubkeyRecord, CeremonyState, run_ceremony, find_subkey, sign_with_subkey,
}
use pq_enclave_binding.Ceremony.Request.{Request, parse_request}
use pq_enclave_binding.Ceremony.Request.Panics.{read_request-NoPanic}
use pq_enclave_binding.Ceremony.Server.{
  Req, Render, Reply, TcpStream, sign_response, route_subkey, route_get, route_post, route,
  http_response, send, handle, serve, unknown_index,
}
use pq_enclave_binding.Ceremony.Server.Oracle.{run_ceremony-Signed}
use pq_enclave_binding.Ceremony.Server.Answers.{
  replied-NoPanic, find_subkey-eq-some, subkeys_list_response-NoPanic, subkey_response-NoPanic,
}

-- The crates' parsers return, for every text.
pub record Parsers (hex : TextCodec) (requests : Json Req) : Type 0 where
  pub hex_decodes : (s : String) → NoPanic (hex.decode s)
  pub json_parses : (s : String) → NoPanic (requests.from_str s)

-- The reads and the writes of a connection return.
pub record Sound (stream : TcpStream) : Type 0 where
  pub reads : All NoPanic stream.reads
  pub writes : (b : Bytes) → NoPanic (stream.write_all b)
  pub flushes : NoPanic stream.flush

-- A connection is accepted or not, and its reads and writes return.
abbrev pub Arrives : Outcome String TcpStream → Type 0
Arrives (ok stream) = Sound stream
Arrives (err e) = Unit
Arrives panic = ⊥

module _ (k : Keyfork) (sha : Sha256) (fips : Fips) (laws : FipsLaws fips) (hex base64 : TextCodec)
    (requests : Json Req) (render : Render) (parsers : Parsers hex requests) (n : Nsm)
    (root_ca_der : Bytes) (config : CeremonyConfig) (entropy ml_drawn slh_drawn : Bytes)
    (state : CeremonyState k) (small : config.auth_count + config.enc_count < u32_mod)
    (finished : run_ceremony k sha fips hex base64 n root_ca_der config entropy ml_drawn slh_drawn
      ≡ ok state) where
  -- The oracle does not panic at an index that is found.
  sign_with_subkey-NoPanic :
      (i : ℕ) (r : SubkeyRecord) (message ml slh : Bytes)
      → find_subkey state.subkeys i ≡ some r
      → NoPanic (sign_with_subkey k sha fips {E = Reply} state i message ml slh)
  sign_with_subkey-NoPanic i r message ml slh hit =
      let (j, at, index) = find_subkey-eq-some state.subkeys i r hit in
      let (_, s) =
        run_ceremony-Signed k sha fips laws hex base64 n root_ca_der config entropy ml_drawn
          slh_drawn state j r message ml slh small finished at in
      let answered =
        ap (λ i. sign_with_subkey k sha fips {E = Reply} state i message ml slh) (sym index)
        ∙ s.answered in
      λ h. (let bad = sym answered ∙ h in cc)

  sign_response-NoPanic {ℓ} :
      (E : Type ℓ) (body : String) (ml slh : Bytes)
      → NoPanic (sign_response k sha fips hex requests render state {E = E} body ml slh)
  unfolding sign_response
  sign_response-NoPanic E body ml slh = replied-NoPanic _ (
      >>=-NoPanic _ _ (map_err-NoPanic _ (requests.from_str body) (parsers.json_parses body))
        (λ req e₁.
          >>=-NoPanic _ _
            (map_err-NoPanic _ (hex.decode req.message_hex) (parsers.hex_decodes req.message_hex))
            (λ message e₂.
              let found = find_subkey state.subkeys req.index in
              elim (Option-cases found) [
                | inl miss ↦ λ h. (let bad = rw miss at h in cc)
                | inr (r, hit) ↦
                    >>=-NoPanic (ok_or found unknown_index) _ (ok_or-NoPanic found unknown_index)
                      (λ r' e₃.
                        >>=-NoPanic (sign_with_subkey k sha fips state req.index message ml slh) _
                          (sign_with_subkey-NoPanic req.index r message ml slh hit)
                          (λ signed e₄.
                            >>=-NoPanic (ok_or signed unknown_index) _
                              (ok_or-NoPanic signed unknown_index) (λ x e₅. ok-NoPanic _)))
              ])))

  route_subkey-NoPanic :
      (m : Outcome String ℕ)
      → NoPanic m
      → NoPanic (route_subkey k sha fips hex requests render state m)
  unfolding route_subkey
  route_subkey-NoPanic (ok i) p =
      >>=-NoPanic _ _ (subkey_response-NoPanic k sha fips hex requests render state String i)
        (λ x e. ok-NoPanic _)
  route_subkey-NoPanic (err e) p = ok-NoPanic _
  route_subkey-NoPanic panic p = absurd (p refl)

  route_get-NoPanic :
      (path bundle_json : String)
      → NoPanic (route_get k sha fips hex requests render state path bundle_json)
  unfolding route_get
  route_get-NoPanic path bundle_json = if-NoPanic (str_eq path "/bundle.json") _ _ (ok-NoPanic _) (
      if-NoPanic (str_eq path "/health") _ _ (ok-NoPanic _) (
        if-NoPanic (str_eq path "/") _ _ (ok-NoPanic _) (
          if-NoPanic (str_eq path "/subkeys") _ _
            (>>=-NoPanic _ _
              (subkeys_list_response-NoPanic k sha fips hex requests render state String)
              (λ x e. ok-NoPanic _))
            (elim (Option-cases (strip_prefix "/subkey/" path)) [
              | inl miss ↦ λ h. (let bad = rw miss at h in cc)
              | inr (rest, hit) ↦ λ h.
                  route_subkey-NoPanic (parse u32_mod (trim_start_matches "/subkey/" path))
                    (parse-NoPanic u32_mod (trim_start_matches "/subkey/" path)) (rw hit at h)
            ]))))

  route-NoPanic :
      (bundle_json : String) (request : Request) (ml slh : Bytes)
      → NoPanic (route k sha fips hex requests render state bundle_json request ml slh)
  unfolding route route_post
  route-NoPanic bundle_json request ml slh =
      if-NoPanic (str_eq request.method "GET") _ _ (route_get-NoPanic request.path bundle_json) (
        if-NoPanic (str_eq request.method "POST") _ _
          (if-NoPanic (str_eq request.path "/sign") _ _
            (>>=-NoPanic _ _ (sign_response-NoPanic String request.body ml slh)
              (λ x e. ok-NoPanic _))
            (ok-NoPanic _))
          (ok-NoPanic _))

  handle-NoPanic :
      (bundle_json : String) (stream : TcpStream)
      → Sound stream
      → NoPanic (handle k sha fips hex requests render state bundle_json stream)
  unfolding handle send
  handle-NoPanic bundle_json stream s =
      >>=-NoPanic _ _ (read_request-NoPanic [] stream.reads s.reads) (λ (buf, header_end) e₁.
        >>=-NoPanic _ (λ reply. send stream (http_response reply))
          (route-NoPanic bundle_json (parse_request buf header_end) stream.ml_drawn
            stream.slh_drawn)
          (λ reply e₂.
            >>=-NoPanic (stream.write_all (http_response reply))
              (λ u. stream.flush >> ok (http_response reply)) (s.writes (http_response reply))
              (λ u e₃.
                >>=-NoPanic stream.flush (λ u. ok (http_response reply)) s.flushes
                  (λ u e₄. ok-NoPanic (http_response reply)))))

  -- What the accepted connections come to, in their order.
  abbrev pub handled : String → List (Outcome String TcpStream) → List (Outcome String Bytes)
  handled bundle_json [] = []
  handled bundle_json (ok stream ∷ incoming) =
      handle k sha fips hex requests render state bundle_json stream ∷ handled bundle_json incoming
  handled bundle_json (err e ∷ incoming) = handled bundle_json incoming
  handled bundle_json (panic ∷ incoming) = handled bundle_json incoming

  -- Behind a ceremony that finishes, with counts whose sum is a `u32`, the loop over the connections
  -- handles every one that is accepted, in order, whatever is requested on the others: none panics,
  -- and no error ends the loop. The parsers, and the reads and writes of sockets, do not panic.
  pub serve-handled {ℓ} :
      (E : Type ℓ) (bundle_json : String) (incoming : List (Outcome String TcpStream))
      → All Arrives incoming
      → serve k sha fips hex requests render state {E = E} bundle_json incoming
        ≡ ok (handled bundle_json incoming)
  unfolding serve
  serve-handled E bundle_json [] all = refl
  serve-handled E bundle_json (err e ∷ incoming) all = serve-handled E bundle_json incoming all.1
  serve-handled E bundle_json (panic ∷ incoming) all = absurd all.0
  serve-handled E bundle_json (ok stream ∷ incoming) all =
      let rest = serve-handled E bundle_json incoming all.1 in
      let safe = handle-NoPanic bundle_json stream all.0 in
      elim (Outcome-cases (handle k sha fips hex requests render state bundle_json stream)) [
        | inl (written, e) ↦ rw (serve, e, rest)
        | inr (inl (x, e)) ↦ rw (serve, e, rest)
        | inr (inr e) ↦ absurd (safe e)
      ]
