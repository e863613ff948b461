-- ===== src/Cli/Sources.antt =====
-- crates/pq-cli/src/main.rs: what the header source of a file answers.
use pq_enclave_binding.Base.{
  ℕ, ◌≡◌, ◌↔◌, refl, sym, ap, ◌∙◌, subst, arith, not, List, [], ◌∷◌, Option, none, some,
  some-injective, Bytes, String, ok, >>=-eq-ok, ok-injective, map_err, map_err-eq-ok, fail_if,
  fail_unless-eq-ok, length, ◌==◌, ==_iff, if◌then◌else◌, Bool-cases, inl, inr, get, insert,
  get-insert, IsMap, get-Above,
}
use pq_enclave_binding.External.{TextCodec, Json}
use pq_enclave_binding.Ots.{BitcoinHeaderSource}
use pq_enclave_binding.Ots.Http.{Ureq}
use pq_enclave_binding.Cli.{
  Error, bad_root_hex, root_not_32_bytes, Files, BlockInfo, HeaderSource, map, source_of, note_time,
  load_entries, load_header_file,
}

abbrev time_or : Option ℕ → Option ℕ → Option ℕ
time_or none before = before
time_or (some t) before = some t

get-note_time :
    (k i : ℕ) (t : Option ℕ) (times : List (ℕ × ℕ))
    → get (note_time k t times) i ≡ (if k == i then time_or t (get times i) else get times i)
unfolding note_time
get-note_time k i none times = ground arith
get-note_time k i (some t) times = get-insert k i t times

module _ (hex : TextCodec) where
  -- What the maps answer at a height, by the file's entry there and by what they answered before.
  abbrev Loaded : Option BlockInfo → Option Bytes → Option ℕ → Option Bytes → Option ℕ → Type 0
  Loaded none root₀ time₀ root time = (root ≡ root₀) × (time ≡ time₀)
  Loaded (some info) root₀ time₀ root time =
      (b : Bytes) × (hex.decode info.merkle_root ≡ ok b)
      × (length b ≡ 32)
      × (root ≡ some b)
      × (time ≡ time_or info.time time₀)

  load_entries-eq-ok :
      (entries : List (ℕ × BlockInfo)) (roots : List (ℕ × Bytes)) (times : List (ℕ × ℕ))
      (s : HeaderSource)
      → IsMap entries
      → load_entries hex entries roots times ≡ ok s
      → (roots' : List (ℕ × Bytes)) × (times' : List (ℕ × ℕ)) × (map roots' times' ≡ s)
        × ((i : ℕ)
            → Loaded (get entries i) (get roots i) (get times i) (get roots' i) (get times' i))
  unfolding load_entries
  load_entries-eq-ok [] roots times s is h = (roots, times, ok-injective Error h, λ i. (refl, refl))
  load_entries-eq-ok ((k, info) ∷ rest) roots times s (above, is) h =
      let (b, e₁, h₁) = >>=-eq-ok (map_err (bad_root_hex k) (hex.decode info.merkle_root)) _ h in
      let (_, e₂, h₂) = >>=-eq-ok (fail_if (not (length b == 32)) (root_not_32_bytes k)) _ h₁ in
      let decoded = map_err-eq-ok (bad_root_hex k) (hex.decode info.merkle_root) e₁ in
      let size = (==_iff _ _).0 (fail_unless-eq-ok _ (root_not_32_bytes k) e₂) in
      let (roots', times', same, answers) =
        load_entries-eq-ok rest (insert k b roots) (note_time k info.time times) s is h₂ in
      (roots', times', same, λ i. at i b (get roots' i) (get times' i) decoded size (answers i))
    where
      at :
          (i : ℕ) (b : Bytes) (root : Option Bytes) (time : Option ℕ)
          → hex.decode info.merkle_root ≡ ok b
          → length b ≡ 32
          → Loaded
              (get rest i)
              (get (insert k b roots) i)
              (get (note_time k info.time times) i)
              root
              time
          → Loaded (if k == i then some info else get rest i) (get roots i) (get times i) root time
      at i b root time decoded size l = elim (Bool-cases (k == i)) [
        | inl here ↦
            let k_is : k ≡ i = (==_iff k i).0 here in
            let fresh : get rest i ≡ none =
              subst {A = ℕ} (λ n. get rest n ≡ none) k_is (get-Above k rest above) in
            let (r, t) : (root ≡ get (insert k b roots) i)
                × (time ≡ get (note_time k info.time times) i) =
              rw fresh at l in
            let root_is = r ∙ get-insert k i b roots in
            let time_is = t ∙ get-note_time k i info.time times in
            rw here (b, decoded, size, (rw here at root_is), (rw here at time_is))
        | inr other ↦
            let before = (rw (get-insert k i b roots, get-note_time k i info.time times) at l) in
            rw other (rw other at before)
      ]

  -- A header file that loads and parses to a map answers a root at a height exactly if the map has
  -- an entry there whose root is, in hexadecimal, these 32 bytes; and as the block's time it
  -- answers the entry's time, or that there is none.
  pub load_header_file_lem :
      (ureq : Ureq) (serde : Json (List (ℕ × BlockInfo))) (files : Files) (path raw : String)
      (parsed : List (ℕ × BlockInfo)) (s : HeaderSource)
      → files.read_to_string path ≡ ok raw
      → serde.from_str raw ≡ ok parsed
      → IsMap parsed
      → load_header_file hex serde files path ≡ ok s
      → (height : ℕ) (root : Bytes)
      → ((BitcoinHeaderSource.merkle_root (source_of ureq hex s) height ≡ ok root) ↔ (
          (info : BlockInfo) × (get parsed height ≡ some info)
          × (hex.decode info.merkle_root ≡ ok root)
          × (length root ≡ 32)))
        × (BitcoinHeaderSource.block_time (source_of ureq hex s) height
            ≡ ok (elim (get parsed height) [ some info ↦ info.time | none ↦ none ]))
  unfolding load_header_file source_of
  load_header_file_lem ureq serde files path raw parsed s found json is h height root =
      let loads : load_entries hex parsed [] [] ≡ ok s = rw (found, json) at h in
      let (roots, times, same, answers) = load_entries-eq-ok parsed [] [] s is loads in
      subst {A = HeaderSource} Answers same (cases (get parsed height) roots times (answers height))
    where
      Says : Option BlockInfo → HeaderSource → Type 0
      Says entry s =
          ((BitcoinHeaderSource.merkle_root (source_of ureq hex s) height ≡ ok root) ↔ (
            (info : BlockInfo) × (entry ≡ some info)
            × (hex.decode info.merkle_root ≡ ok root)
            × (length root ≡ 32)))
          × (BitcoinHeaderSource.block_time (source_of ureq hex s) height
              ≡ ok (elim entry [ some info ↦ info.time | none ↦ none ]))

      Answers : HeaderSource → Type 0
      Answers = Says (get parsed height)

      time_or-none : (t : Option ℕ) → time_or t none ≡ t
      time_or-none none = refl
      time_or-none (some t) = refl

      cases :
          (entry : Option BlockInfo) (roots : List (ℕ × Bytes)) (times : List (ℕ × ℕ))
          → Loaded entry none none (get roots height) (get times height)
          → Says entry (map roots times)
      cases none roots times (r, t) =
          ((λ e. absurd (let bad = rw r at e in cc), λ (info, e, _, _). absurd (cc e)), ap ok t)
      cases (some info) roots times (b, decoded, size, r, t) = (
        (
          λ e.
              let same : b ≡ root = ok-injective String (rw r at e) in
              (info, refl, decoded ∙ ap ok same, sym (ap length same) ∙ size),
          λ (info', e, decoded', _).
              let here : info ≡ info' = some-injective _ _ e in
              rw r (sym decoded ∙ ap (λ i. hex.decode (BlockInfo.merkle_root i)) here ∙ decoded'),
        ),
        ap ok (t ∙ time_or-none info.time),
      )
