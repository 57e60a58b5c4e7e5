-- ===== src/Descriptor/Cbor/Shortest.antt =====
-- crates/session-sync-protocol/src/canonical.rs: `put_head` and `Decoder::head` against each other.
use attached.Common.{
  ℕ, ◌+◌, ◌^◌, ◌<◌, ◌++◌, ◌≡◌, ◌↔◌, sym, ap, ◌∙◌, length, Bytes, AreBytes, append_assoc, ok,
}
use attached.Action.{pure}
use attached.Action.Steps.{>>=-pure, pure-eq-ok}
use attached.Descriptor.Cbor.{Decoder, put_head, head}
use attached.Descriptor.Cbor.Heads.{head_of, put_head-append}
use attached.Descriptor.Cbor.Decode.{at}
use attached.Descriptor.Cbor.Canonical.{head_step, head-eq-ok}

-- What `put_head` writes behind `out`, `head` reads from there, whatever follows.
pub head-put_head :
    (out rest : Bytes) (major v : ℕ)
    → major < 8
    → v < 2 ^ 64
    → length out + 9 < 2 ^ 64
    → head major (record { input = put_head out major v ++ rest; position = length out })
      ≡ ok (
        v,
        record { input = put_head out major v ++ rest; position = length (put_head out major v) },
      )
head-put_head out rest major v hm hv small =
    let written = put_head-append out major v hm hv in
    let from : ◌≡◌ {A = Decoder}
        (record { input = put_head out major v ++ rest; position = length out })
        (at out (head_of major v ++ rest)) =
      ap (λ (t : Bytes). record { input = t; position = length out })
        (ap (λ (t : Bytes). t ++ rest) written ∙ append_assoc out (head_of major v) rest) in
    ap (head major) from
    ∙ sym (>>=-pure (head major) (at out (head_of major v ++ rest)))
    ∙ head_step pure out major v rest hm hv small
    ∙ ap (λ (t : Bytes). ok (v, at t rest)) (sym written)

-- With `front` read and `bs` left, `head` returns a value of 64 bits exactly when the input goes
-- on with what `put_head` writes for it. The input that was read is far from 2^64 bytes long.
pub head_iff_put_head :
    (front bs : Bytes) (major v : ℕ)
    → major < 8
    → v < 2 ^ 64
    → AreBytes bs
    → length front + 9 < 2 ^ 64
    → ((d : Decoder) × (head major (at front bs) ≡ ok (v, d)))
      ↔ ((rest : Bytes) × (put_head front major v ++ rest ≡ front ++ bs))
head_iff_put_head front bs major v hm hv are_bytes small = (
  λ h.
      let (d, p) = h in
      let (w, rest, s, _, _, q) =
        head-eq-ok pure front major bs are_bytes small (>>=-pure (head major) (at front bs) ∙ p) in
      let same : w ≡ v = (pure-eq-ok w v q).0 in
      let written : put_head front major v ≡ front ++ head_of major w =
        put_head-append front major v hm hv ∙ ap (λ (t : ℕ). front ++ head_of major t) (sym same) in
      (
        rest,
        ap (λ (t : Bytes). t ++ rest) written
            ∙ append_assoc front (head_of major w) rest
            ∙ ap (λ (t : Bytes). front ++ t) (sym s),
      ),
  λ h.
      let (rest, s) = h in
      (
        record {
          input = put_head front major v ++ rest;
          position = length (put_head front major v);
        },
        ap (λ (t : Bytes). head major (record { input = t; position = length front })) (sym s)
            ∙ head-put_head front rest major v hm hv small,
      ),
)
