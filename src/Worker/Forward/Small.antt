-- ===== src/Worker/Forward/Small.antt =====
-- A platform for crates/session-sync-worker/src/api.rs that hands over bytes in one chunk.
use attached.Common.{append-nil, [], ◌∷◌, none, refl}
use attached.Worker.Http.{declared_too_large}
use attached.Worker.Forward.{Platform}
use attached.Worker.Forward.Transparent.{PlatformLaws}

abbrev pub platform : Platform
platform = record { length_header = λ _. none; chunks = λ body. body ∷ [] }

pub platform_laws : PlatformLaws platform
unfolding declared_too_large
platform_laws = record { all_bytes = append-nil; honest = λ body limit h. refl }
