-- ===== src/Worker/Account/Encoding.antt =====
-- crates/session-sync-worker/src/model.rs: the transport encoding of an account and its decoder.
use mathlib.Core.Path.{subst}
use attached.Common.{
  ℕ, zero, suc, ◌+◌, ◌≤◌, ==→eq, [], ◌∷◌, ◌++◌, ◌≡◌, ◌↔◌, refl, sym, ap, ◌∙◌, arith, length, take,
  drop, Bytes, length-append, length-take, take-append, take-append-drop, append-nil, append_assoc,
  ok,
}
use attached.Worker.Account.{
  StoredAccount, UuidCrate, zeros, copy_at, encode, validate_account, new_account, decode,
}

-- The lengths of the arrays.
pub record HasLengths (a : StoredAccount) : Type 0 where
  pub id : length a.account_id ≡ 16
  pub publish_hash : length a.publish_api_token_hash ≡ 32
  pub download_hash : length a.download_api_token_hash ≡ 32

drop-append_add : (xs ys : Bytes) (n m : ℕ) → m ≡ length xs + n → drop m (xs ++ ys) ≡ drop n ys
drop-append_add [] ys n m h = ap (λ (k : ℕ). drop k ys) (omega arith)
drop-append_add (x ∷ xs) ys n zero h = absurd (omega arith)
drop-append_add (x ∷ xs) ys n (suc m) h = drop-append_add xs ys n m (omega arith)

length-drop : (n : ℕ) (bs : Bytes) → n ≤ length bs → n + length (drop n bs) ≡ length bs
length-drop n bs h = omega (
  arith,
  ap length (take-append-drop n bs),
  length-append (take n bs) (drop n bs),
  length-take n bs h,
)

-- A copy behind the bytes already written.
copy_at-append :
    (xs bytes rest : Bytes) (n m : ℕ)
    → length xs ≡ n
    → length bytes ≡ m
    → copy_at n bytes (xs ++ rest) ≡ xs ++ bytes ++ drop m rest
unfolding copy_at
copy_at-append xs bytes rest n m h k =
    rw
      (
        sym h,
        sym k,
        take-append xs rest,
        drop-append_add xs rest (length bytes) (length xs + length bytes) refl,
      )
      refl

encode-append :
    (a : StoredAccount)
    → HasLengths a
    → encode a ≡ a.account_id ++ a.publish_api_token_hash ++ a.download_api_token_hash
unfolding encode zeros
encode-append a h =
    let written = a.account_id ++ a.publish_api_token_hash in
    let both : length written ≡ 48 =
      omega (arith, length-append a.account_id a.publish_api_token_hash, h.id, h.publish_hash) in
    ap (λ (t : Bytes). copy_at 48 a.download_api_token_hash (copy_at 16 a.publish_api_token_hash t))
      (copy_at-append [] a.account_id (zeros 80) 0 16 refl h.id)
    ∙ ap (copy_at 48 a.download_api_token_hash)
        (copy_at-append a.account_id a.publish_api_token_hash (zeros 64) 16 32 h.id h.publish_hash)
    ∙ copy_at-append written a.download_api_token_hash (zeros 32) 48 32 both h.download_hash
    ∙ append-nil (written ++ a.download_api_token_hash)

-- The three parts of 80 bytes.
abbrev parts : Bytes → StoredAccount
parts bs = record {
  account_id = take 16 bs;
  publish_api_token_hash = take 32 (drop 16 bs);
  download_api_token_hash = drop 48 bs;
}

parts-HasLengths : (bs : Bytes) → length bs ≡ 80 → HasLengths (parts bs)
parts-HasLengths bs h =
    let rest = length-drop 16 bs (omega arith) in
    record {
      id = length-take 16 bs (omega arith);
      publish_hash = length-take 32 (drop 16 bs) (omega (arith, rest));
      download_hash = omega (arith, length-drop 48 bs (omega arith));
    }

drop-drop : (m n : ℕ) (bs : Bytes) (k : ℕ) → k ≡ m + n → drop n (drop m bs) ≡ drop k bs
drop-drop zero n bs k h = ap (λ (j : ℕ). drop j bs) (omega arith)
drop-drop (suc m) n [] zero h = absurd (omega arith)
drop-drop (suc m) zero [] (suc k) h = refl
drop-drop (suc m) (suc n) [] (suc k) h = refl
drop-drop (suc m) n (x ∷ bs) zero h = absurd (omega arith)
drop-drop (suc m) n (x ∷ bs) (suc k) h = drop-drop m n bs k (omega arith)

join-parts :
    (bs : Bytes)
    → (parts bs).account_id
        ++ (parts bs).publish_api_token_hash
        ++ (parts bs).download_api_token_hash
      ≡ bs
join-parts bs =
    append_assoc (take 16 bs) (take 32 (drop 16 bs)) (drop 48 bs)
    ∙ ap (λ (t : Bytes). take 16 bs ++ (take 32 (drop 16 bs) ++ t))
        (sym (drop-drop 16 32 bs 48 refl))
    ∙ ap (λ (t : Bytes). take 16 bs ++ t) (take-append-drop 32 (drop 16 bs))
    ∙ take-append-drop 16 bs

parts-encode : (a : StoredAccount) → HasLengths a → parts (encode a) ≡ a
parts-encode a h =
    let id = a.account_id in
    let p = a.publish_api_token_hash in
    let d = a.download_api_token_hash in
    let flat : encode a ≡ id ++ (p ++ d) = encode-append a h ∙ append_assoc id p d in
    let second : drop 16 (encode a) ≡ p ++ d =
      ap (drop 16) flat ∙ drop-append_add id (p ++ d) 0 16 (omega (arith, h.id)) in
    let id_eq : take 16 (encode a) ≡ id =
      ap (take 16) flat
      ∙ ap (λ (n : ℕ). take n (id ++ (p ++ d))) (sym h.id)
      ∙ take-append id (p ++ d) in
    let p_eq : take 32 (drop 16 (encode a)) ≡ p =
      ap (take 32) second
      ∙ ap (λ (n : ℕ). take n (p ++ d)) (sym h.publish_hash)
      ∙ take-append p d in
    let d_eq : drop 48 (encode a) ≡ d =
      sym (drop-drop 16 32 (encode a) 48 refl)
      ∙ ap (drop 32) second
      ∙ drop-append_add p d 0 32 (omega (arith, h.publish_hash)) in
    λ i. record {
      account_id = id_eq i;
      publish_api_token_hash = p_eq i;
      download_api_token_hash = d_eq i;
    }

pub length-encode : (a : StoredAccount) → HasLengths a → length (encode a) ≡ 80
length-encode a h =
    let id = a.account_id in
    let p = a.publish_api_token_hash in
    let d = a.download_api_token_hash in
    ap length (encode-append a h)
    ∙ omega (
      arith,
      length-append (id ++ p) d,
      length-append id p,
      h.id,
      h.publish_hash,
      h.download_hash,
    )

module _ (uuid : UuidCrate) where
  new_account-eq-ok :
      (id p d : Bytes) (a : StoredAccount)
      → new_account uuid id p d ≡ ok a
      → (record { account_id = id; publish_api_token_hash = p; download_api_token_hash = d } ≡ a)
        × (validate_account uuid a ≡ ok tt)
  unfolding new_account
  new_account-eq-ok id p d a h = ground arith

  decode-encode :
      (a : StoredAccount)
      → HasLengths a
      → validate_account uuid a ≡ ok tt
      → decode uuid (encode a) ≡ ok a
  unfolding decode new_account
  decode-encode a lengths valid =
      let made : new_account uuid a.account_id a.publish_api_token_hash a.download_api_token_hash
          ≡ ok a =
        rw valid refl in
      rw (length-encode a lengths) (
        ap
          (λ (t : StoredAccount).
            new_account uuid t.account_id t.publish_api_token_hash t.download_api_token_hash)
          (parts-encode a lengths)
        ∙ made)

  -- The decoder returns an account from some bytes exactly when the account has hashes and an
  -- identifier of the right lengths, is valid and is encoded as those bytes.
  pub decode_account_iff :
      (bs : Bytes) (a : StoredAccount)
      → (decode uuid bs ≡ ok a)
        ↔ (HasLengths a × (encode a ≡ bs) × (validate_account uuid a ≡ ok tt))
  unfolding decode
  decode_account_iff bs a = (
    (λ h.
        let len : length bs ≡ 80 = ground (arith, ==→eq (length bs) 80) in
        let made : new_account uuid (take 16 bs) (take 32 (drop 16 bs)) (drop 48 bs) ≡ ok a =
          ground arith in
        let (same, valid) = new_account-eq-ok _ _ _ a made in
        let lengths = parts-HasLengths bs len in
        (
          subst HasLengths same lengths,
          ap encode (sym same) ∙ encode-append (parts bs) lengths ∙ join-parts bs,
          valid,
        )),
    (λ h.
        let (lengths, written, valid) = h in
        ap (decode uuid) (sym written) ∙ decode-encode a lengths valid),
  )
