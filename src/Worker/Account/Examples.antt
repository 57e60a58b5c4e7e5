-- ===== src/Worker/Account/Examples.antt =====
-- An account like that of the tests of crates/session-sync-worker/src/model.rs.
use attached.Common.{
  ℕ, ◌/◌, ◌==◌, [], ◌∷◌, ◌++◌, ◌≡◌, ◌↔◌, refl, false, Bytes, get_elem?, some, none, ok, err,
  bytes_eq,
}
use attached.Worker.Account.{
  StoredAccount, UuidCrate, download, invalid_storage, authenticate, encode, zeros, copy_at,
  is_uuid_v7, validate_account, new_account, decode,
}
use attached.Worker.Account.Encoding.{HasLengths, decode_account_iff}

-- The version and the variant as RFC 9562 places them.
abbrev uuid : UuidCrate
uuid = record {
  is_sort_rand = λ id. elim (get_elem? id 6) [ none ↦ false | some b ↦ b / 16 == 7 ];
  is_rfc4122 = λ id. elim (get_elem? id 8) [ none ↦ false | some b ↦ b / 64 == 2 ];
  parse_str = λ s. some s;
  hyphenated = λ s. s;
}

abbrev id : Bytes
id = 1 ∷ 139 ∷ 207 ∷ 229 ∷ 104 ∷ 0 ∷ 0x70 ∷ 0 ∷ 0x80 ∷ 0 ∷ 0 ∷ 0 ∷ 0 ∷ 0 ∷ 0 ∷ 0 ∷ []

abbrev eight : ℕ → Bytes
eight b = b ∷ b ∷ b ∷ b ∷ b ∷ b ∷ b ∷ b ∷ []

abbrev hash : ℕ → Bytes
hash b = eight b ++ eight b ++ eight b ++ eight b

abbrev account : StoredAccount
account = record {
  account_id = id;
  publish_api_token_hash = hash 1;
  download_api_token_hash = hash 2;
}

test_encoding : encode account ≡ id ++ hash 1 ++ hash 2
unfolding encode zeros copy_at
test_encoding = refl

test_decoding : decode uuid (id ++ hash 1 ++ hash 2) ≡ ok account
unfolding decode new_account validate_account is_uuid_v7 bytes_eq
test_decoding = refl

test_truncated : decode uuid (id ++ hash 1) ≡ err invalid_storage
unfolding decode
test_truncated = refl

test_same_hashes : decode uuid (id ++ hash 1 ++ hash 1) ≡ err invalid_storage
unfolding decode new_account validate_account is_uuid_v7 bytes_eq
test_same_hashes = refl

test_scopes : authenticate account (hash 1) download ≡ false
unfolding authenticate bytes_eq
test_scopes = refl

decode_account_iff_example : (decode uuid (id ++ hash 1 ++ hash 2) ≡ ok account) ↔ (
    HasLengths account
    × (encode account ≡ id ++ hash 1 ++ hash 2)
    × (validate_account uuid account ≡ ok tt))
decode_account_iff_example = decode_account_iff uuid (id ++ hash 1 ++ hash 2) account
