-- ===== src/Worker/Storage/Small.antt =====
-- A small account in the tables of crates/session-sync-worker/src/storage.rs.
use attached.Common.{ℕ, ◌+◌, true, [], ◌∷◌, ◌++◌, refl, arith, Bytes, some}
use attached.Api.Envelope.{Envelope}
use attached.Worker.Account.{StoredAccount, UuidCrate}
use attached.Api.Sequence.{is_less}
use attached.Worker.Account.Encoding.{HasLengths}
use attached.Worker.Records.{StoredRecord}
use attached.Worker.Storage.Session.{Storage}
use attached.Worker.Storage.Reading.{IsValid}

abbrev pub uuid : UuidCrate
uuid = record {
  is_sort_rand = λ _. true;
  is_rfc4122 = λ _. true;
  parse_str = λ s. some s;
  hyphenated = λ s. s;
}

abbrev pub eight : ℕ → Bytes
eight b = b ∷ b ∷ b ∷ b ∷ b ∷ b ∷ b ∷ b ∷ []

abbrev pub account : ℕ → StoredAccount
account b = record {
  account_id = eight b ++ eight b;
  publish_api_token_hash = eight b ++ eight b ++ eight b ++ eight b;
  download_api_token_hash = eight (b + 1) ++ eight b ++ eight b ++ eight b;
}

pub account_lengths : (b : ℕ) → HasLengths (account b)
account_lengths b = record { id = refl; publish_hash = refl; download_hash = refl }

abbrev pub key : ℕ → Bytes
key b = eight b ++ eight 0

abbrev pub envelope : ℕ → Envelope
envelope b = record {
  envelope_version = 1;
  nonce = eight b ++ eight b ++ eight b;
  ciphertext = b ∷ [];
}

abbrev pub row : ℕ → StoredRecord
row b = record {
  revision = 4;
  envelope_nonce = eight b ++ eight b ++ eight b;
  envelope_ciphertext = b ∷ [];
}

abbrev pub filled : Storage
filled = record {
  tables = record {
    schema = true;
    account_state = some (account 1);
    records = (key 2, row 2) ∷ (key 5, row 5) ∷ [];
  };
  outages = [];
}

pub filled-IsValid : IsValid filled.tables
unfolding is_less
filled-IsValid = record {
  schema = refl;
  account = refl;
  at_most = omega arith;
  rows = (
    record { id_len = refl; nonce_len = refl; storable = omega arith },
    (record { id_len = refl; nonce_len = refl; storable = omega arith }, tt),
  );
  sorted = ((refl, tt), (tt, tt));
}
