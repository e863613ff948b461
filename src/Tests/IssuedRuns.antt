-- ===== src/Tests/IssuedRuns.antt =====
-- Runs of the command line on the bundle of a ceremony of the tests, under an attestation library
-- that accepts the quote of this ceremony alone.
use pq_enclave_binding.Base.{
  ◌≡◌, refl, sym, ap, ◌∙◌, subst, arith, Bool, true, false, List, [], ◌∷◌, Option, none, some, map,
  Bytes, String, Outcome, ok, err, ok-injective, ◌⊎◌, All, IsByte, bytes_eq, bytes_eq→eq, str_eq,
  if◌then◌else◌,
}
use pq_enclave_binding.Bundle.Tamper.{PayloadsCollide}
use pq_enclave_binding.Bundle
use pq_enclave_binding.Bundle.{PqRootBundle}
use pq_enclave_binding.Ots
use pq_enclave_binding.Merkle.{merkle_proof, verify_membership}
use pq_enclave_binding.Core.{verify_dual}
use pq_enclave_binding.Enclave.{NsmError}
use pq_enclave_binding.Quote.{AttestationDoc, FromCose, at_unix_secs, root_sha256_hex, verify_quote}
use pq_enclave_binding.Ceremony.{CeremonyError, proof}
use pq_enclave_binding.Ceremony.Born.{SameContent}
use pq_enclave_binding.Cli.{Files, load_bundle}
use pq_enclave_binding.Cli.Commands.{
  World, SubkeyVerdict, Options, SubkeyResponse, check_bundle, verify_subkey,
}
use pq_enclave_binding.Cli.Commands.Issued.{
  Issued, Genuine, IsRecord, ForgedRecord, check_bundle-SameContent, verify_subkey-IsRecord,
}
use pq_enclave_binding.Tests.Doubles.{test_sha, test_codec, test_fips, test_fips_laws, fill}
use pq_enclave_binding.Tests.CeremonyRuns.{
  test_keyfork, config, open_nsm, open_run, guarded, all_bytes, all_bytes-IsByte,
}
use pq_enclave_binding.Tests.CliRuns.{holds}
use pq_enclave_binding.Tests.OtsRuns.{single}
use pq_enclave_binding.Tests.HttpRuns.{server}

abbrev pub published : PqRootBundle
published = open_run.0.bundle

abbrev or_empty : Outcome String Bytes → Bytes
or_empty (ok b) = b
or_empty (err e) = []
or_empty Outcome.panic = []

abbrev issued_quote : Bytes
issued_quote = or_empty (test_codec.decode published.nsm_quote)

abbrev pub document_of : Bytes → AttestationDoc
document_of quote = record {
  pcrs = (0, 1 ∷ []) ∷ (1, 1 ∷ []) ∷ (2, 1 ∷ []) ∷ [];
  user_data = some quote;
}

abbrev opened : Bool → Bytes → Outcome String AttestationDoc
opened true quote = ok (document_of quote)
opened false quote = err "signature"

abbrev open_quote : FromCose
open_quote quote root at = opened (bytes_eq quote issued_quote) quote

-- The proof file commits to the bundle's digest; every other file that is read is the certificate.
abbrev pub disk : Files
disk = record {
  read =
      λ path. if str_eq path "bundle.json.ots" then ok (fill 32 (123 ∷ 125 ∷ [])) else ok (1 ∷ []);
  read_to_string = λ path. ok "{}";
  write = λ path b. ok tt;
}

abbrev path_of : Outcome CeremonyError (Option (List Bytes)) → List Bytes
path_of (ok (some path)) = path
path_of (ok none) = []
path_of (err e) = []
path_of Outcome.panic = []

abbrev third_response : SubkeyResponse
unfolding proof open_run
third_response = record {
  index = 2;
  purpose_tag = 2;
  ml_dsa_pk = ".";
  slh_dsa_pk = ".";
  ml_dsa_sig = none;
  slh_dsa_sig = none;
  merkle_proof =
      map test_codec.encode (path_of (proof test_keyfork test_sha test_fips open_run.0 2));
}

abbrev world : World Bool
world = record {
  hex = test_codec;
  base64 = test_codec;
  sha = test_sha;
  fips = test_fips;
  from_cose = open_quote;
  crate = single;
  ureq = server;
  files = disk;
  now = 1000;
  bundle_json = holds published;
  headers_json = holds [];
  subkey_json = holds third_response;
}

abbrev pub options : Options
options = record { headers = none; esplora = none; quote_time_unix = none }

accepts :
    verify_subkey world "bundle.json" "third.json" none
      (some "bundle.json.ots")
      (some "root.der")
      options
    ≡ ok SubkeyVerdict.partial
unfolding verify_subkey check_bundle open_run Ots.verify root_sha256_hex at_unix_secs Bundle.verify
    verify_quote verify_dual verify_membership third_response merkle_proof
accepts = refl

passes : check_bundle world published "bundle.json.ots" "root.der" options ≡ ok (true, none)
unfolding check_bundle open_run Ots.verify root_sha256_hex at_unix_secs Bundle.verify verify_quote
    verify_dual
passes = refl

issued_here : Issued world test_keyfork open_nsm issued_quote
unfolding open_run
issued_here = record {
  root_ca_der = 1 ∷ [];
  config = config;
  entropy = 3 ∷ [];
  ml_drawn = [];
  slh_drawn = [];
  state = open_run.0;
  small = omega arith;
  finished = open_run.1;
  carried = refl;
}

genuine : Genuine world test_keyfork open_nsm (1 ∷ []) (1 ∷ []) (1 ∷ []) (1 ∷ [])
genuine = record {
  issued = λ quote at doc h a b c.
      subst {A = Bytes} (Issued world test_keyfork open_nsm)
        (sym (accepted (bytes_eq quote issued_quote) quote doc (bytes_eq→eq quote issued_quote) h))
        issued_here;
  faithful = λ shown quote at doc attested h.
      shows (bytes_eq quote issued_quote) (all_bytes shown) shown quote doc attested h;
  attest-IsByte =
      λ shown quote h. attested-IsByte (all_bytes shown) shown quote (all_bytes-IsByte shown) h;
}
  where
    accepted :
        (b : Bool) (quote : Bytes) (doc : AttestationDoc)
        → (b ≡ true → quote ≡ issued_quote)
        → opened b quote ≡ ok doc
        → quote ≡ issued_quote
    accepted true quote doc same h = same refl
    accepted false quote doc same h = absurd (cc h)

    shows :
        (b c : Bool) (shown quote : Bytes) (doc : AttestationDoc)
        → guarded c shown ≡ ok quote
        → opened b quote ≡ ok doc
        → doc.user_data ≡ some shown
    shows b false shown quote doc attested h = absurd (cc attested)
    shows false true shown quote doc attested h = absurd (cc h)
    shows true true shown quote doc attested h =
        sym (ap AttestationDoc.user_data (ok-injective String h))
        ∙ ap some (sym (ok-injective NsmError attested))

    attested-IsByte :
        (b : Bool) (shown quote : Bytes)
        → (b ≡ true → All IsByte shown)
        → guarded b shown ≡ ok quote
        → All IsByte quote
    attested-IsByte false shown quote bytes h = absurd (cc h)
    attested-IsByte true shown quote bytes h =
        subst {A = Bytes} (All IsByte) (ok-injective NsmError h) (bytes refl)

check_bundle-SameContent_example :
    (quote : Bytes) × (i : Issued world test_keyfork open_nsm quote) × (test_codec.decode
        published.nsm_quote
      ≡ ok quote)
    × (SameContent test_codec published i.state.bundle
        ⊎ PayloadsCollide test_codec test_sha published i.state.bundle)
unfolding open_run
check_bundle-SameContent_example =
    check_bundle-SameContent world test_keyfork open_nsm test_fips_laws published "bundle.json.ots"
      "root.der" options (true, none) (1 ∷ []) (1 ∷ []) (1 ∷ []) (1 ∷ []) genuine refl refl refl
      refl (omega arith) passes

verify_subkey-IsRecord_example :
    (quote : Bytes) × (i : Issued world test_keyfork open_nsm quote) × (test_codec.decode
        published.nsm_quote
      ≡ ok quote)
    × (IsRecord world test_keyfork open_nsm i.state.subkeys third_response
        ⊎ (ForgedRecord world test_keyfork open_nsm i.state.subkeys third_response
            ⊎ PayloadsCollide test_codec test_sha published i.state.bundle))
unfolding open_run load_bundle third_response
verify_subkey-IsRecord_example =
    verify_subkey-IsRecord world test_keyfork open_nsm test_fips_laws "bundle.json" "third.json"
      none "bundle.json.ots" "root.der" options SubkeyVerdict.partial published "{}" third_response
      (1 ∷ []) (1 ∷ []) (1 ∷ []) (1 ∷ []) genuine refl refl refl refl refl refl refl (omega arith)
      (omega arith) (omega arith) accepts
