-- ===== src/Sealing/Binding.antt =====
-- crates/session-sync-protocol/src/crypto.rs: what the associated data tells apart.
use attached.Common.{
  ◌++◌, length, take, drop, take-append, length-append, arith, drop-append, Bytes, ◌≡◌, ◌↔◌, refl,
  sym, ap, ◌∙◌, to_be_bytes,
}
use attached.Sealing.{aad_domain, envelope_version, envelope_aad}

append_injective :
    (xs ys us vs : Bytes) → length xs ≡ length ys → xs ++ us ≡ ys ++ vs → (xs ≡ ys) × (us ≡ vs)
append_injective xs ys us vs h p = (
  sym (take-append xs us)
      ∙ ap (take (length xs)) p
      ∙ ap (λ n. take n (ys ++ vs)) h
      ∙ take-append ys vs,
  sym (drop-append xs us)
      ∙ ap (drop (length xs)) p
      ∙ ap (λ n. drop n (ys ++ vs)) h
      ∙ drop-append ys vs,
)

fronts :
    (account account' : Bytes)
    → length account ≡ length account'
    → length (aad_domain ++ account) ≡ length (aad_domain ++ account')
fronts account account' h =
    omega (arith, h, length-append aad_domain account, length-append aad_domain account')

-- For identifiers of 16 bytes, the associated data of two envelopes are equal exactly when the
-- envelopes are for the same account and the same record.
pub envelope_aad_binds :
    (account account' record_id record_id' : Bytes)
    → length account ≡ 16
    → length account' ≡ 16
    → length record_id ≡ 16
    → length record_id' ≡ 16
    → (envelope_aad account record_id ≡ envelope_aad account' record_id')
      ↔ ((account ≡ account') × (record_id ≡ record_id'))
unfolding envelope_aad
envelope_aad_binds account account' record_id record_id' h h' k k' = (
  λ p.
      let tail : Bytes = to_be_bytes 2 envelope_version in
      let len = fronts account account' (h ∙ sym h') in
      let (front, _) =
        append_injective (aad_domain ++ account ++ record_id) (aad_domain ++ account' ++ record_id')
          tail tail
          (omega (
            arith,
            len,
            h,
            k,
            k',
            length-append (aad_domain ++ account) record_id,
            length-append (aad_domain ++ account') record_id',
          ))
          p in
      let (start, same_record) =
        append_injective (aad_domain ++ account) (aad_domain ++ account') record_id record_id' len
          front in
      ((append_injective aad_domain aad_domain account account' refl start).1, same_record),
  λ q i. aad_domain ++ q.0 i ++ q.1 i ++ to_be_bytes 2 envelope_version,
)
