-- ===== src/Catalog/Store/Examples.antt =====
-- The catalog file of crates/cli/src/sync/state_catalog.rs at concrete catalogs.
use attached.Common.{
  and-eq-true, ℕ, ◌≤◌, Bool, true, false, ◌&&◌, leb, if◌then◌else◌, List, [], ◌∷◌, ◌++◌, length,
  Option, none, some, Bytes, bytes_eq, bytes_eq_iff, Result, ok, err, ◌≡◌, refl, sym, ap, ◌∙◌,
  arith,
}
use attached.Api.Sequence.{is_less}
use attached.Maps.{get, contains_key, insert, remove}
use attached.Descriptor.Model.{validate_host_label, ticket_length_is_invalid, is_ascii}
use attached.Descriptor.Small.{outside}
use attached.Sealing.Small.{tag}
use attached.LocalEncryption.{
  envelope_bytes, seal, open_secret, stored_limit, is_envelope, aad, associated_data,
  maximum_length,
}
use attached.LocalEncryption.Examples.{aead, laws, key, nonce}
use attached.Catalog.Model.{
  CatalogError, exceeds_limit, CatalogRecord, Catalog, empty, is_whole, is_publication,
  validate_catalog_record, contains, validate_records, validate_catalog,
}
use attached.Catalog.Merge.{
  Baseline, in_baseline, next_generation, collect_onto, into_values, select, is_skipped, rest_of,
  push, merge, unknown, insert_record, sort_records, extended, reconcile, reconciled,
}
use attached.Catalog.Examples.{account, id_of, record_of, catalog_of}
use attached.Catalog.Store.{
  Files, and_then, present, encode_catalog, sealed, installed, store_encrypted, write_catalog,
  plaintext_of, parse_catalog, migrate, read_stored, read_catalog, or_empty, load,
  current_or_corrupt, is_stored, save_reconciled, save_refresh,
}
use attached.Catalog.Store.Writing.{FileLaws}
use attached.Catalog.Store.Stored.{save_refresh-load}

-- The text of a catalog without records is its generation; others have none.
abbrev text_of : Bool → ℕ → List (CatalogRecord outside) → Option Bytes
text_of true generation [] = some (generation ∷ [])
text_of true generation (r ∷ records) = none
text_of false generation records = none

abbrev is_ours : Catalog outside → Bool
is_ours c =
    bytes_eq c.account_id account.account_id && bytes_eq c.service_origin account.service_origin

abbrev catalog_from : Bytes → Option (Catalog outside)
catalog_from [] = none
catalog_from (generation ∷ text) = some (catalog_of generation [])

abbrev read_up_to : ℕ → Option Bytes → Result CatalogError (Option Bytes)
read_up_to limit none = ok none
read_up_to limit (some bytes) =
    if leb (length bytes) limit then ok (some bytes) else err exceeds_limit

abbrev created : Bytes → Option Bytes → Option Bytes × Result CatalogError Bool
created bytes none = (some bytes, ok true)
created bytes (some other) = (some other, ok false)

-- One file, one key and one nonce
abbrev files : Files outside
files = record {
  W = Option Bytes;
  read_secret_optional_bounded = λ limit file. (file, read_up_to limit file);
  atomic_replace = λ bytes file. (some bytes, ok tt);
  create_noclobber = created;
  load_or_create = λ create file. (file, ok key);
  random_nonce = λ file. (file, some nonce);
  to_writer = λ c. text_of (is_ours c) c.generation c.records;
  from_slice = catalog_from;
}

read_up_to_lem :
    (file : Option Bytes) (bytes : Bytes) (limit : ℕ)
    → file ≡ some bytes
    → length bytes ≤ limit
    → read_up_to limit file ≡ ok (some bytes)
read_up_to_lem none bytes limit e h = absurd cc
read_up_to_lem (some b) bytes limit e h = ground arith

created_lem :
    (file file' : Option Bytes) (bytes : Bytes)
    → created bytes file ≡ (file', ok true)
    → file' ≡ some bytes
created_lem none file' bytes h = sym (ap (λ x. x.0) h)
created_lem (some b) file' bytes h = absurd cc

catalog_from_text :
    (c : Catalog outside) (ours : Bool) (records : List (CatalogRecord outside)) (text : Bytes)
    → is_ours c ≡ ours
    → c.records ≡ records
    → text_of ours c.generation records ≡ some text
    → catalog_from text ≡ some c
catalog_from_text c true [] text e f h =
    let (id, origin) =
      and-eq-true (bytes_eq c.account_id account.account_id)
        (bytes_eq c.service_origin account.service_origin) e in
    let is_id = (bytes_eq_iff c.account_id account.account_id).0 id in
    let is_origin = (bytes_eq_iff c.service_origin account.service_origin).0 origin in
    let written : text ≡ c.generation ∷ [] = cc in
    ap catalog_from written
    ∙ ap some λ i. record {
      account_id = sym is_id i;
      service_origin = sym is_origin i;
      generation = c.generation;
      records = sym f i;
    }
catalog_from_text c true (r ∷ records) text e f h = absurd cc
catalog_from_text c false records text e f h = absurd cc

file_laws : FileLaws files
file_laws = record {
  IsUnlocked = λ k file. k ≡ key;
  Holds = λ k bytes file. (k ≡ key) × (file ≡ some bytes);
  unlocked = λ create file file' k e. cc;
  drawn = λ file k u. u;
  nonce_len = λ file n e. let same : nonce ≡ n = cc in ap length (sym same);
  replaced = λ file file' k bytes u e. (u, sym (ap (λ x. x.0) e));
  created = λ file file' k bytes u e. (u, created_lem file file' bytes e);
  reads = λ file k bytes limit h short.
      (file, ap (λ r. (file, r)) (read_up_to_lem file bytes limit h.1 short), h);
  opens = λ file k bytes h. (file, ap (λ k. (file, ok k)) (sym h.0));
  parses = λ a c text valid e. catalog_from_text c (is_ours c) c.records text refl refl e;
}

-- The file has a catalog of generation 5 without records; the refresh started from generation 4 with
-- the record 1, which is gone since.
abbrev file_of : ℕ → Option Bytes
unfolding envelope_bytes
file_of generation = some (envelope_bytes nonce ((generation ∷ []) ++ tag))

abbrev baseline : Baseline
baseline = (id_of 1, 1) ∷ []

abbrev refreshed : Catalog outside
refreshed = catalog_of 4 (record_of 1 2 ∷ [])

saved : save_refresh files aead account baseline refreshed (file_of 5) ≡ (file_of 6, ok tt)
unfolding save_refresh save_reconciled read_catalog read_stored plaintext_of parse_catalog migrate
    write_catalog encode_catalog sealed store_encrypted installed and_then present
    current_or_corrupt is_stored or_empty seal open_secret stored_limit is_envelope associated_data
    aad maximum_length envelope_bytes reconciled next_generation reconcile merge is_skipped
    contains_key get rest_of remove collect_onto insert select push extended unknown into_values
    in_baseline sort_records insert_record validate_catalog validate_records validate_catalog_record
    contains is_whole is_publication validate_host_label ticket_length_is_invalid is_ascii empty
    bytes_eq is_less
saved = refl

save_refresh-load_example :
    (found : Option (Catalog outside) × Bool) × (next : Catalog outside) × ((current_or_corrupt
        files aead
        (read_catalog files aead account false (file_of 5))).1
      ≡ ok found)
    × (reconciled account baseline (or_empty files aead account found.0) refreshed ≡ ok next)
    × ((load files aead account (file_of 6)).1 ≡ ok next)
save_refresh-load_example =
    save_refresh-load file_laws laws account baseline refreshed (file_of 5) (file_of 6) saved
