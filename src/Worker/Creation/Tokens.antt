-- ===== src/Worker/Creation/Tokens.antt =====
-- crates/session-sync-worker/src/issuance.rs: when the loop for two tokens ends.
use attached.Common.{
  Bool, true, false, [], ◌∷◌, List, All, take, drop, Bytes, bytes_eq, bytes_eq_iff, Option, none,
  some, ok, if◌then◌else◌, ◌≡◌, ◌≢◌, ◌↔◌, refl, sym, ap, ◌∙◌,
}
use attached.Worker.Creation.{distinct_tokens}

-- The two halves of the draw have the same hash.
abbrev pub Collides : (Bytes → Bytes) → Option Bytes → Type 0
Collides service_hash none = ⊥
Collides service_hash (some bytes) = service_hash (take 32 bytes) ≡ service_hash (drop 32 bytes)

module _ (service_hash : Bytes → Bytes) where
  none-Collides :
      (draws : List (Option Bytes))
      → distinct_tokens service_hash draws ≡ none
      → All (Collides service_hash) draws
  unfolding distinct_tokens
  none-Collides [] h = tt
  none-Collides (none ∷ draws) h = cc
  none-Collides (some bytes ∷ draws) h =
      by_test (bytes_eq (service_hash (take 32 bytes)) (service_hash (drop 32 bytes))) refl
        (none-Collides draws) h
    where
      by_test :
          (same : Bool)
          → bytes_eq (service_hash (take 32 bytes)) (service_hash (drop 32 bytes)) ≡ same
          → (distinct_tokens service_hash draws ≡ none → All (Collides service_hash) draws)
          → (if same
              then distinct_tokens service_hash draws
              else some (ok (take 32 bytes, drop 32 bytes)))
            ≡ none
          → All (Collides service_hash) (some bytes ∷ draws)
      by_test true e rest h =
          ((bytes_eq_iff (service_hash (take 32 bytes)) (service_hash (drop 32 bytes))).0 e, rest h)
      by_test false e rest h = cc

  distinct_tokens-Collides :
      (draws : List (Option Bytes))
      → All (Collides service_hash) draws
      → distinct_tokens service_hash draws ≡ none
  unfolding distinct_tokens
  distinct_tokens-Collides [] h = refl
  distinct_tokens-Collides (none ∷ draws) (h, rest) = absurd h
  distinct_tokens-Collides (some bytes ∷ draws) (h, rest) =
      rw ((bytes_eq_iff (service_hash (take 32 bytes)) (service_hash (drop 32 bytes))).1 h)
        (distinct_tokens-Collides draws rest)

  -- The two tokens that the loop returns have different hashes.
  pub distinct_tokens_differ :
      (draws : List (Option Bytes)) (publish download : Bytes)
      → distinct_tokens service_hash draws ≡ some (ok (publish, download))
      → service_hash publish ≢ service_hash download
  unfolding distinct_tokens
  distinct_tokens_differ [] publish download h = cc
  distinct_tokens_differ (none ∷ draws) publish download h = cc
  distinct_tokens_differ (some bytes ∷ draws) publish download h =
      by_test (bytes_eq (service_hash (take 32 bytes)) (service_hash (drop 32 bytes))) refl
        (distinct_tokens_differ draws publish download) h
    where
      by_test :
          (same : Bool)
          → bytes_eq (service_hash (take 32 bytes)) (service_hash (drop 32 bytes)) ≡ same
          → (distinct_tokens service_hash draws ≡ some (ok (publish, download))
              → service_hash publish ≢ service_hash download)
          → (if same
              then distinct_tokens service_hash draws
              else some (ok (take 32 bytes, drop 32 bytes)))
            ≡ some (ok (publish, download))
          → service_hash publish ≢ service_hash download
      by_test true e rest h = rest h
      by_test false e rest h = λ q.
          let first : take 32 bytes ≡ publish = cc in
          let second : drop 32 bytes ≡ download = cc in
          let same =
            (bytes_eq_iff (service_hash (take 32 bytes)) (service_hash (drop 32 bytes))).1
              (ap service_hash first ∙ q ∙ ap service_hash (sym second)) in
          cc

  -- The loop for two tokens draws on exactly as long as every draw succeeded and its halves have the
  -- same hash: it ends at the first draw that fails or gives tokens with different hashes.
  pub distinct_tokens_iff :
      (draws : List (Option Bytes))
      → (distinct_tokens service_hash draws ≡ none) ↔ All (Collides service_hash) draws
  distinct_tokens_iff draws = (none-Collides draws, distinct_tokens-Collides draws)
