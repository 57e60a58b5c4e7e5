-- ===== src/Tunnel/Wire/Steps.antt =====
-- The pieces of a frame on a stream with known contents.
use attached.Action.Steps.{>>=-ok, >>=-err, >>=_assoc}
use attached.Action.{◌>>=◌, ensure}
use attached.Common.{
  ℕ, ◌≡◌, refl, sym, ◌∙◌, Bool, true, false, [], ◌∷◌, ◌++◌, Bytes, AreBytes, to_be_bytes,
  append_assoc, split_more, ok, err,
}
use attached.Stream.{trailing_bytes, io, Io, AsyncRead, AsyncWrite, read_uint, Delivers, Accepts}
use attached.Stream.Steps.{read_uint_step, read_uint-eq-ok, write_uint_step, write_uint_ok}
use attached.Tunnel.Wire.{
  AttachedVersion, VersionInRange, write_attached_version, read_attached_version, ensure_frame_end,
  version_bytes,
}

module _ {W : Type 0} {w : AsyncWrite W} (a : Accepts w) where
  pub write_version_ok :
      (v : AttachedVersion) (out : Bytes)
      → write_attached_version w v (a.sent out false)
        ≡ ok (tt, a.sent (out ++ version_bytes v) false)
  unfolding write_attached_version
  write_version_ok v out =
      write_uint_step a 4 v.major out _
      ∙ write_uint_step a 4 v.minor (out ++ to_be_bytes 4 v.major) _
      ∙ write_uint_ok a 4 v.patch _
      ∙ simp append_assoc

  pub write_version_step :
      {B : Type 0} (v : AttachedVersion) (out : Bytes) (f : Unit {0} → Io W B)
      → (write_attached_version w v >>= f) (a.sent out false)
        ≡ f tt (a.sent (out ++ version_bytes v) false)
  write_version_step v out f = >>=-ok (write_attached_version w v) f _ (write_version_ok v out)

module _ {R : Type 0} {r : AsyncRead R} (d : Delivers r) {B : Type 0} where
  pub read_version_step :
      (v : AttachedVersion) (f : AttachedVersion → Io R B) (rest : Bytes) (e : Bool)
      → VersionInRange v
      → (read_attached_version r >>= f) (d.at (version_bytes v ++ rest) e) ≡ f v (d.at rest e)
  unfolding read_attached_version
  read_version_step v f rest e h = >>=-ok (read_attached_version r) f _ (
      rw (append_assoc, append_assoc)
        (read_uint_step d 4 v.major _ _ e h.major_u32
          ∙ read_uint_step d 4 v.minor _ _ e h.minor_u32
          ∙ read_uint_step d 4 v.patch _ rest e h.patch_u32))

  pub read_version-eq-ok :
      (f : AttachedVersion → Io R B) (bs : Bytes) (e : Bool) {x : B × R}
      → AreBytes bs
      → (read_attached_version r >>= f) (d.at bs e) ≡ ok x
      → (v : AttachedVersion) × (rest : Bytes) × (bs ≡ version_bytes v ++ rest)
        × VersionInRange v
        × AreBytes rest
        × (f v (d.at rest e) ≡ ok x)
  unfolding read_attached_version
  read_version-eq-ok f bs e b h =
      let (i, bs₁, s₁, i_u32, b₁, h₁) =
        read_uint-eq-ok d 4 _ bs e b (sym (>>=_assoc (read_uint r 4) _ f (d.at bs e)) ∙ h) in
      let (j, bs₂, s₂, j_u32, b₂, h₂) =
        read_uint-eq-ok d 4 _ bs₁ e b₁ (sym (>>=_assoc (read_uint r 4) _ f (d.at bs₁ e)) ∙ h₁) in
      let (k, bs₃, s₃, k_u32, b₃, h₃) =
        read_uint-eq-ok d 4 _ bs₂ e b₂ (sym (>>=_assoc (read_uint r 4) _ f (d.at bs₂ e)) ∙ h₂) in
      (
        record { major = i; minor = j; patch = k },
        bs₃,
        split_more _ _ _ s₁ (split_more _ _ _ s₂ s₃),
        record { major_u32 = i_u32; minor_u32 = j_u32; patch_u32 = k_u32 },
        b₃,
        sym (>>=-ok _ f (d.at bs₃ e) refl) ∙ h₃,
      )

module _ {R : Type 0} {r : AsyncRead R} (d : Delivers r) {B : Type 0} where
  pub frame_end_step :
      (f : Unit {0} → Io R B) → (ensure_frame_end r >>= f) (d.at [] true) ≡ f tt (d.at [] true)
  unfolding ensure_frame_end
  frame_end_step f =
      >>=-ok (ensure_frame_end r) f _ (>>=-ok (r.read 1) _ _ d.read_end ∙ unfold ensure in refl)

  pub frame_end_trailing :
      (f : Unit {0} → Io R B) (b : ℕ) (bs : Bytes) (e : Bool)
      → (ensure_frame_end r >>= f) (d.at (b ∷ bs) e) ≡ err trailing_bytes
  unfolding ensure_frame_end
  frame_end_trailing f b bs e =
      >>=-err (ensure_frame_end r) f _
        (>>=-ok (r.read 1) _ _ (d.read_some b bs e) ∙ unfold ensure in refl)

  frame_end_broken : (f : Unit {0} → Io R B) → (ensure_frame_end r >>= f) (d.at [] false) ≡ err io
  unfolding ensure_frame_end
  frame_end_broken f = >>=-err (ensure_frame_end r) f _ (>>=-err (r.read 1) _ _ d.read_broken)

  pub frame_end-eq-ok :
      (f : Unit {0} → Io R B) (bs : Bytes) (e : Bool) {x : B × R}
      → (ensure_frame_end r >>= f) (d.at bs e) ≡ ok x
      → (bs ≡ []) × (e ≡ true) × (f tt (d.at [] true) ≡ ok x)
  frame_end-eq-ok f [] true h = (refl, refl, sym (frame_end_step f) ∙ h)
  frame_end-eq-ok f [] false h = cc (frame_end_broken f)
  frame_end-eq-ok f (b ∷ bs) e h = cc (frame_end_trailing f b bs e)
