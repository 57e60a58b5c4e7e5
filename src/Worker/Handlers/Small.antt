-- ===== src/Worker/Handlers/Small.antt =====
-- A PUT to the account object of crates/session-sync-worker/src/api.rs.
use attached.Common.{List, true, false, [], ◌∷◌, ◌++◌, take, some, none, ok, Bytes, ◌≡◌, refl}
use attached.Api.Wire.{max_api_body_bytes, EnvelopeWire}
use attached.Api.Wire.Padded.{padded, padding}
use attached.Account.Tokens.{bearer}
use attached.Worker.Account.{UuidCrate}
use attached.Worker.Storage.Small.{uuid, key, envelope, account}
use attached.Worker.Http.{
  method_put, Request, declared_too_large, grows_too_large, read_chunks, read_stream, read_declared,
  read_bounded_body,
}
use attached.Worker.Http.Body.{concat, whole}
use attached.Worker.Handlers.{Crates}

-- Texts that are the bytes, filled up.
abbrev pub uuid_texts : UuidCrate
uuid_texts = record uuid {
  parse_str = λ value. some (take 16 value);
  hyphenated = λ id. id ++ padding 20;
}

abbrev pub letters : Bytes
letters = b'a' ∷ b'B' ∷ b'3' ∷ b'-' ∷ b'_' ∷ b'x' ∷ b'y' ∷ b'z' ∷ []

abbrev pub token : Bytes
token = letters ++ letters ++ letters ++ letters

abbrev pub wire : EnvelopeWire
wire = record {
  version = 1;
  nonce = padded.encode (envelope 3).nonce;
  ciphertext = padded.encode (envelope 3).ciphertext;
}

abbrev pub crates : Crates
crates = record {
  uuid = uuid_texts;
  base64 = padded;
  service_hash = λ _. (account 1).publish_api_token_hash;
  envelope_json = λ _. some wire;
}

abbrev pub chunks : List Bytes
chunks = (b'{' ∷ []) ∷ (b'}' ∷ []) ∷ []

abbrev pub put_request : Request
put_request = record {
  method = method_put;
  account_id = some ((account 1).account_id ++ padding 20);
  record_id = some (padded.encode (key 3));
  authorization = some (some (bearer ++ padded.encode token));
  content_length = some none;
  oversized = some false;
  body = some (record { opens = true; chunks = whole chunks });
  cancels = true;
}

pub body_read : read_bounded_body put_request max_api_body_bytes ≡ ok (concat chunks)
unfolding read_bounded_body read_declared read_stream read_chunks grows_too_large declared_too_large
body_read = refl
