-- ===== src/Account/Tokens/Examples.antt =====
-- A token as crates/session-sync-protocol/src/account.rs reads it, in an encoding that keeps bytes.
use attached.Common.{[], ◌∷◌, ◌++◌, List, Bytes, ◌≡◌, ◌↔◌, refl, ok, err, is_utf8, bytes_eq}
use attached.Api.Wire.Padded.{padded, padded_laws}
use attached.Account.Bundles.{invalid_authorization}
use attached.Account.Tokens.{
  bearer, parse_authorization, parse_authorization_value, decode_api_token,
}
use attached.Account.Tokens.Parsing.{IsTokenText, parse_authorization_iff}

abbrev eight : Bytes
eight = b'a' ∷ b'B' ∷ b'3' ∷ b'-' ∷ b'_' ∷ b'x' ∷ b'y' ∷ b'z' ∷ []

abbrev token : Bytes
token = eight ++ eight ++ eight ++ eight

abbrev values : List Bytes
values = (bearer ++ padded.encode token) ∷ []

test_read : parse_authorization padded values ≡ ok token
unfolding parse_authorization parse_authorization_value decode_api_token bytes_eq is_utf8
test_read = refl

test_twice : parse_authorization padded (values ++ values) ≡ err invalid_authorization
unfolding parse_authorization
test_twice = refl

parse_authorization_iff_example :
    (parse_authorization padded values ≡ ok token)
    ↔ ((text : Bytes) × (values ≡ (bearer ++ text) ∷ []) × IsTokenText padded text token)
parse_authorization_iff_example = parse_authorization_iff padded_laws values token
