-- ===== src/Sealing/Small.antt =====
-- A cipher that stands for the ones of crates/session-sync-protocol/src/crypto.rs and
-- crates/cli/src/local_encryption.rs: it adds a tag.
use attached.Common.{
  ◌-◌, Bool, true, false, ◌++◌, length, length-append, take, take-append, Option, none, some, Bytes,
  bytes_eq, bytes_eq_iff, bytes_eq_refl, if◌then◌else◌, ◌≡◌, refl, sym, ap, ◌∙◌, arith,
}
use attached.Descriptor.Small.{eight}
use attached.Sealing.{Cipher}
use attached.Sealing.Making.{CipherLaws}

abbrev pub tag : Bytes
tag = eight 7 ++ eight 9

abbrev pub untagged : Bytes → Option Bytes
untagged ciphertext =
    let plaintext = take (length ciphertext - 16) ciphertext in
    if bytes_eq (plaintext ++ tag) ciphertext then some plaintext else none

-- It needs no key to open: the laws do not say that it is secret.
abbrev pub cipher : Cipher
cipher = record {
  expand = λ salt key info. some key;
  encrypt_in_place = λ key nonce aad plaintext. some (plaintext ++ tag);
  decrypt_in_place = λ key nonce aad ciphertext. untagged ciphertext;
}

untagged-eq-some : (p c : Bytes) → untagged c ≡ some p → some (p ++ tag) ≡ some c
untagged-eq-some p c h = by_test (bytes_eq (take (length c - 16) c ++ tag) c) refl h
  where
    by_test :
        (same : Bool)
        → bytes_eq (take (length c - 16) c ++ tag) c ≡ same
        → (if same then some (take (length c - 16) c) else none) ≡ some p
        → some (p ++ tag) ≡ some c
    by_test false e h = cc
    by_test true e h =
        let q : take (length c - 16) c ≡ p = cc in
        ap some (ap (λ (x : Bytes). x ++ tag) (sym q) ∙ (bytes_eq_iff _ c).0 e)

untagged-tag : (p : Bytes) → untagged (p ++ tag) ≡ some p
untagged-tag p =
    let n : length (p ++ tag) - 16 ≡ length p = omega (arith, length-append p tag) in
    rw (n, take-append p tag, bytes_eq_refl (p ++ tag)) refl

tagged : (p c : Bytes) → some (p ++ tag) ≡ some c → untagged c ≡ some p
tagged p c h = let q : p ++ tag ≡ c = cc in ap untagged (sym q) ∙ untagged-tag p

pub cipher_laws : CipherLaws cipher
cipher_laws = record {
  decrypts_iff = λ key nonce aad p c. (untagged-eq-some p c, tagged p c);
  encrypts = λ key nonce aad p _. (p ++ tag, refl, length-append p tag);
}
