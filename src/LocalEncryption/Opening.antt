-- ===== src/LocalEncryption/Opening.antt =====
-- crates/cli/src/local_encryption.rs: what opens is what was sealed, for the same purpose.
use mathlib.Core.Path.{subst}
use attached.Common.{
  ℕ, zero, suc, ◌+◌, ◌^◌, ◌≤◌, ◌<◌, true, leb, le→leb, ==→eq, bytes_eq, bytes_eq_iff, List, [], ◌∷◌,
  ◌++◌, length, get_elem?, take, drop, take-append-drop, length-take, length-append, take-append,
  drop-append, Option, none, some, Bytes, ok, ensure, bind-eq-ok, ensure-eq-ok, ◌≡◌, ◌↔◌, refl, sym,
  ap, ◌∙◌, arith,
}
use attached.LocalEncryption.{
  is_envelope, SecretError, size_limit_invalid, exceeds_limit, truncated, invalid_format,
  unsupported_version, authentication_failed, plaintext_exceeds_limit, encryption_failed, Purpose,
  associated_data, stored_limit, Aead, context, maximum_length, has_version, envelope_bytes, seal,
  open_secret, magic, version,
}

-- What chacha20poly1305 documents: a ciphertext is determined by the plaintext, is 16 bytes longer,
-- and decrypts to it; what is no such ciphertext is refused.
pub record AeadLaws (aead : Aead) : Type 0 where
  pub decrypts_iff :
      (key nonce aad plaintext ciphertext : Bytes)
      → (aead.decrypt_in_place key nonce aad ciphertext ≡ some plaintext)
        ↔ (aead.encrypt_in_place key nonce aad plaintext ≡ some ciphertext)
  pub tag_len :
      (key nonce aad plaintext ciphertext : Bytes)
      → aead.encrypt_in_place key nonce aad plaintext ≡ some ciphertext
      → length ciphertext ≡ length plaintext + 16

context-eq-ok :
    {A : Type 0} (x : Option A) (e : SecretError) (a : A) → context x e ≡ ok a → x ≡ some a
context-eq-ok (some b) e a h = ground arith
context-eq-ok none e a h = cc

get-drop : (n : ℕ) (xs : Bytes) (v : ℕ) → get_elem? xs n ≡ some v → drop n xs ≡ v ∷ drop (suc n) xs
get-drop n [] v h = cc
get-drop zero (x ∷ xs) v h = ground arith
get-drop (suc n) (x ∷ xs) v h = get-drop n xs v h

drop-nil : (n : ℕ) → Path (List ℕ) (drop n []) []
drop-nil zero = refl
drop-nil (suc n) = refl

drop-drop : (m n : ℕ) (xs : Bytes) → drop n (drop m xs) ≡ drop (m + n) xs
drop-drop zero n xs = ap (λ (k : ℕ). drop k xs) (omega arith)
drop-drop (suc m) n [] = drop-nil n ∙ sym (drop-nil (suc m + n))
drop-drop (suc m) n (x ∷ xs) =
    let sum : suc (m + n) ≡ suc m + n = omega arith in
    drop-drop m n xs ∙ ap (λ (k : ℕ). drop k (x ∷ xs)) sum

has_version-eq : (v : Option ℕ) → has_version v ≡ true → v ≡ some 1
has_version-eq none h = cc
has_version-eq (some v) h = ap some (==→eq v 1 h)

-- An envelope with the magic and the version is put together again from its parts.
parts :
    (envelope : Bytes)
    → take 8 envelope ≡ magic
    → get_elem? envelope 8 ≡ some 1
    → envelope ≡ envelope_bytes (take 12 (drop 9 envelope)) (drop 21 envelope)
unfolding envelope_bytes
parts envelope start v =
    sym (take-append-drop 8 envelope)
    ∙ ap (λ (x : Bytes). x ++ drop 8 envelope) start
    ∙ ap (λ (x : Bytes). magic ++ x)
        (get-drop 8 envelope 1 v
          ∙ ap (λ (x : Bytes). version ∷ x)
              (sym (take-append-drop 12 (drop 9 envelope))
                ∙ ap (λ (x : Bytes). take 12 (drop 9 envelope) ++ x) (drop-drop 9 12 envelope)))

maximum_eq : (limit m : ℕ) → maximum_length limit ≡ some m → (m ≡ stored_limit limit) × (m < 2 ^ 64)
unfolding maximum_length stored_limit
maximum_eq limit m h = ground arith

maximum_some : (limit : ℕ) → stored_limit limit < 2 ^ 64 → maximum_length limit ≡ some (limit + 37)
unfolding maximum_length stored_limit
maximum_some limit h = ground arith

-- What makes an envelope of a secret.
record Seals (aead : Aead) (key : Bytes) (purpose : Purpose) (plaintext envelope : Bytes)
    (limit : ℕ) : Type 0 where
  nonce : Bytes
  ciphertext : Bytes
  encrypted : aead.encrypt_in_place key nonce (associated_data purpose) plaintext ≡ some ciphertext
  whole : envelope ≡ envelope_bytes nonce ciphertext
  short : length plaintext ≤ limit

module _ {aead : Aead} (laws : AeadLaws aead) (key : Bytes) (purpose : Purpose) (limit : ℕ) where
  opened :
      (envelope plaintext : Bytes)
      → open_secret aead key purpose envelope limit ≡ ok plaintext
      → (nonce : Bytes) × (length nonce ≡ 12)
        × (seal aead (some nonce) key purpose plaintext limit ≡ ok envelope)
        × (stored_limit limit < 2 ^ 64)
  unfolding open_secret seal stored_limit
  opened envelope plaintext h =
      let nonce = take 12 (drop 9 envelope) in
      let (m, bound, h₁) = bind-eq-ok (context (maximum_length limit) size_limit_invalid) _ h in
      let (_, _, h₂) = bind-eq-ok (ensure (leb (length envelope) m) exceeds_limit) _ h₁ in
      let (_, long, h₃) = bind-eq-ok (ensure (leb 37 (length envelope)) truncated) _ h₂ in
      let (_, start, h₄) =
        bind-eq-ok (ensure (bytes_eq (take 8 envelope) magic) invalid_format) _ h₃ in
      let (_, v, h₅) =
        bind-eq-ok (ensure (has_version (get_elem? envelope 8)) unsupported_version) _ h₄ in
      let (p, plain, h₆) =
        bind-eq-ok
          (context (aead.decrypt_in_place key nonce (associated_data purpose) (drop 21 envelope))
            authentication_failed)
          _ h₅ in
      let (_, short, h₇) =
        bind-eq-ok (ensure (leb (length p) limit) plaintext_exceeds_limit) _ h₆ in
      let same : p ≡ plaintext = ground arith in
      let whole =
        parts envelope ((bytes_eq_iff _ magic).0 (ensure-eq-ok _ invalid_format start))
          (has_version-eq _ (ensure-eq-ok _ unsupported_version v)) in
      let encrypted =
        (laws.decrypts_iff key nonce _ p (drop 21 envelope)).0
          (context-eq-ok _ authentication_failed p plain) in
      let sum = maximum_eq limit m (context-eq-ok _ size_limit_invalid m bound) in
      let long' = at_least (length envelope) (ensure-eq-ok _ truncated long) in
      let here : length (take 12 (drop 9 envelope)) ≡ 12 = length-take 12 (drop 9 envelope) (
        room (length (take 9 envelope)) (length (drop 9 envelope)) (length envelope)
          (length-take 9 envelope (omega arith))
          (sym (length-append (take 9 envelope) (drop 9 envelope))
            ∙ ap length (take-append-drop 9 envelope))
          long') in
      (
        nonce,
        here,
        subst (λ q. seal aead (some nonce) key purpose q limit ≡ ok envelope) same
            (rw (ensure-eq-ok _ plaintext_exceeds_limit short, encrypted) (ap ok (sym whole))),
        omega (arith, sum),
      )
    where
      at_least : (n : ℕ) → leb 37 n ≡ true → 37 ≤ n
      at_least n h = ground arith

      room : (a b n : ℕ) → a ≡ 9 → a + b ≡ n → 37 ≤ n → 12 ≤ b
      room a b n p q r = omega arith

  take-nonce : (nonce rest : Bytes) → length nonce ≡ 12 → take 12 (nonce ++ rest) ≡ nonce
  take-nonce nonce rest len =
      ap (λ (k : ℕ). take k (nonce ++ rest)) (sym len) ∙ take-append nonce rest

  drop-nonce : (nonce rest : Bytes) → length nonce ≡ 12 → drop 12 (nonce ++ rest) ≡ rest
  drop-nonce nonce rest len =
      ap (λ (k : ℕ). drop k (nonce ++ rest)) (sym len) ∙ drop-append nonce rest

  laid :
      (nonce ciphertext plaintext : Bytes)
      → length nonce ≡ 12
      → stored_limit limit < 2 ^ 64
      → length ciphertext ≡ length plaintext + 16
      → length plaintext ≤ limit
      → aead.decrypt_in_place key nonce (associated_data purpose) ciphertext ≡ some plaintext
      → open_secret aead key purpose (envelope_bytes nonce ciphertext) limit ≡ ok plaintext
  unfolding open_secret envelope_bytes bytes_eq
  laid nonce ciphertext plaintext len fits tag within plain =
      let total = length-append nonce ciphertext in
      rw
        (
          maximum_some limit fits,
          le→leb (length (envelope_bytes nonce ciphertext)) (limit + 37) (omega arith),
          le→leb 37 (length (envelope_bytes nonce ciphertext)) (omega arith),
          take-nonce nonce ciphertext len,
          drop-nonce nonce ciphertext len,
          plain,
          le→leb (length plaintext) limit within,
        )
        refl

  reopened :
      (nonce envelope plaintext : Bytes)
      → length nonce ≡ 12
      → stored_limit limit < 2 ^ 64
      → seal aead (some nonce) key purpose plaintext limit ≡ ok envelope
      → open_secret aead key purpose envelope limit ≡ ok plaintext
  unfolding open_secret seal stored_limit
  reopened nonce envelope plaintext len fits h =
      let (_, short, h₁) =
        bind-eq-ok (ensure (leb (length plaintext) limit) plaintext_exceeds_limit) _ h in
      let (ciphertext, made, h₂) =
        bind-eq-ok
          (context (aead.encrypt_in_place key nonce (associated_data purpose) plaintext)
            encryption_failed)
          _ h₁ in
      let encrypted = context-eq-ok _ encryption_failed ciphertext made in
      let tag = laws.tag_len key nonce _ plaintext ciphertext encrypted in
      let whole : envelope_bytes nonce ciphertext ≡ envelope = ground arith in
      let within : length plaintext ≤ limit =
        at_most (length plaintext) (ensure-eq-ok _ plaintext_exceeds_limit short) in
      subst (λ e. open_secret aead key purpose e limit ≡ ok plaintext) whole
        (laid nonce ciphertext plaintext len fits tag within
          ((laws.decrypts_iff key nonce _ plaintext ciphertext).1 encrypted))
    where
      at_most : (n : ℕ) → leb n limit ≡ true → n ≤ limit
      at_most n h = ground arith

-- Under a key, with a limit whose envelopes have a length below 2^64, an envelope opens to a secret
-- exactly when sealing the secret for the same purpose, under some nonce of 12 bytes, makes that
-- envelope.
pub open_secret_iff_seal :
    {aead : Aead} (laws : AeadLaws aead) (key : Bytes) (purpose : Purpose) (limit : ℕ)
    (envelope plaintext : Bytes)
    → stored_limit limit < 2 ^ 64
    → (open_secret aead key purpose envelope limit ≡ ok plaintext) ↔ (
        (nonce : Bytes) × (length nonce ≡ 12)
        × (seal aead (some nonce) key purpose plaintext limit ≡ ok envelope))
open_secret_iff_seal laws key purpose limit envelope plaintext fits = (
  λ h.
      let (nonce, len, sealed, _) = opened laws key purpose limit envelope plaintext h in
      (nonce, len, sealed),
  λ h.
      let (nonce, len, sealed) = h in
      reopened laws key purpose limit nonce envelope plaintext len fits sealed,
)

envelope_bytes-is_envelope : (n c : Bytes) → is_envelope (envelope_bytes n c) ≡ true
unfolding is_envelope envelope_bytes bytes_eq
envelope_bytes-is_envelope n c = refl

length-envelope_bytes : (n c : Bytes) → length (envelope_bytes n c) ≡ 9 + length n + length c
unfolding envelope_bytes
length-envelope_bytes n c = omega (arith, length-append n c)

-- What is sealed begins with the magic, and is not longer than the stored limit.
pub seal_shape :
    {aead : Aead} (laws : AeadLaws aead) (key : Bytes) (purpose : Purpose) (limit : ℕ)
    (nonce plaintext envelope : Bytes)
    → length nonce ≡ 12
    → seal aead (some nonce) key purpose plaintext limit ≡ ok envelope
    → (is_envelope envelope ≡ true) × (length envelope ≤ stored_limit limit)
unfolding seal stored_limit
seal_shape {aead} laws key purpose limit nonce plaintext envelope len h =
    let (_, short, h₁) =
      bind-eq-ok (ensure (leb (length plaintext) limit) plaintext_exceeds_limit) _ h in
    let (ciphertext, made, h₂) =
      bind-eq-ok
        (context (aead.encrypt_in_place key nonce (associated_data purpose) plaintext)
          encryption_failed)
        _ h₁ in
    let tag =
      laws.tag_len key nonce _ plaintext ciphertext
        (context-eq-ok _ encryption_failed ciphertext made) in
    let whole : envelope_bytes nonce ciphertext ≡ envelope = ground arith in
    subst (λ e. (is_envelope e ≡ true) × (length e ≤ 21 + limit + 16)) whole
      (
        starts nonce ciphertext,
        long nonce ciphertext len tag
            (at_most (length plaintext) (ensure-eq-ok _ plaintext_exceeds_limit short)),
      )
  where
    at_most : (n : ℕ) → leb n limit ≡ true → n ≤ limit
    at_most n k = ground arith

    starts : (n c : Bytes) → is_envelope (envelope_bytes n c) ≡ true
    starts n c = envelope_bytes-is_envelope n c

    long :
        (n c : Bytes)
        → length n ≡ 12
        → length c ≡ length plaintext + 16
        → length plaintext ≤ limit
        → length (envelope_bytes n c) ≤ 21 + limit + 16
    long n c p q r = omega (arith, length-envelope_bytes n c)
