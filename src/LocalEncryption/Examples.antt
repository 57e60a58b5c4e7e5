-- ===== src/LocalEncryption/Examples.antt =====
-- The local secrets of crates/cli/src/local_encryption.rs at concrete secrets, passwords and salts.
use attached.Common.{
  Option, ◌+◌, ◌^◌, ◌<◌, ◌++◌, true, length, length-append, [], ◌∷◌, none, some, Bytes, ok, ◌≡◌,
  ◌↔◌, sym, ap, ◌∙◌, arith,
}
use attached.Descriptor.Small.{eight}
use attached.Sealing.Small.{tag, cipher, cipher_laws}
use attached.LocalEncryption.{Aead, sync_catalog, envelope_bytes, seal, open_secret, stored_limit}
use attached.LocalEncryption.Opening.{AeadLaws, open_secret_iff_seal}
use attached.LocalEncryption.Keys.{World, Store, load_or_create, load_or_create_kdf_salt}
use attached.LocalEncryption.Keys.Cached.{IsKept, Ends, IsDerived, load_or_create-Ends}

abbrev pub aead : Aead
aead = record {
  encrypt_in_place = cipher.encrypt_in_place;
  decrypt_in_place = cipher.decrypt_in_place;
}

ciphertext_len : (p c : Bytes) → some (p ++ tag) ≡ some c → length c ≡ length p + 16
ciphertext_len p c h = let same : p ++ tag ≡ c = cc in ap length (sym same) ∙ length-append p tag

pub laws : AeadLaws aead
laws = record {
  decrypts_iff = cipher_laws.decrypts_iff;
  tag_len = λ key nonce aad p c. ciphertext_len p c;
}

abbrev pub key : Bytes
key = eight 1 ++ eight 2 ++ eight 3 ++ eight 4

abbrev pub nonce : Bytes
nonce = eight 5 ++ 6 ∷ 7 ∷ 8 ∷ 9 ∷ []

abbrev envelope : Bytes
unfolding envelope_bytes
envelope = envelope_bytes nonce (eight 10 ++ tag)

fits : stored_limit 1024 < 2 ^ 64
unfolding stored_limit
fits = omega arith

open_secret_iff_seal_example : (open_secret aead key sync_catalog envelope 1024 ≡ ok (eight 10)) ↔ (
    (random : Bytes) × (length random ≡ 12)
    × (seal aead (some random) key sync_catalog (eight 10) 1024 ≡ ok envelope))
open_secret_iff_seal_example =
    open_secret_iff_seal laws key sync_catalog 1024 envelope (eight 10) fits

-- The operator types a password of eight bytes at each prompt; there is no salt yet.
abbrev world : World Unit
world = record {
  State = Unit {0};
  read_password = λ prompt s. (s, ok (eight b'p'));
  read_salt = λ s. (s, ok none);
  read_salt_again = λ s. (s, ok (eight 1 ++ eight 2));
  create_salt = λ salt s. (s, ok true);
  random_salt = λ s. (s, ok (eight 3 ++ eight 4));
}

abbrev hash : Bytes → Bytes → Option Bytes
hash password salt = some (password ++ salt ++ eight 0)

abbrev locked : Store world
locked = record { world = tt; password = none; cached_key = none }

locked-IsKept : IsKept world hash locked locked
locked-IsKept = record {
  password_valid = λ p e. absurd cc;
  key_derived = λ k e. absurd cc;
  stays = λ p e. e;
}

load_or_create-Ends_example :
    Ends world hash locked
      (λ key s.
        (salt : Bytes) × ((load_or_create_kdf_salt world true locked).1 ≡ ok salt)
        × IsDerived world hash locked salt key s)
      (load_or_create world hash true locked)
load_or_create-Ends_example = load_or_create-Ends world hash true locked locked-IsKept
