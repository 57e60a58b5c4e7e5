-- ===== src/LocalEncryption/Keys.antt =====
-- crates/cli/src/local_encryption.rs: the encryption password and the key that is derived from it.
pub mod Cached
use attached.Common.{
  ℕ, Bool, true, false, not, leb, ltb, ◌==◌, if◌then◌else◌, List, [], ◌∷◌, length, Option, none,
  some, Bytes, bytes_eq, Result, ok, err, ◌>>=◌, ◌>>◌, ensure,
}

abbrev pub max_password_bytes : ℕ
max_password_bytes = 1024

abbrev pub kdf_salt_bytes : ℕ
kdf_salt_bytes = 16

-- `Other` are the errors of what the code calls.
pub data KeyError (Other : Type 0) : Type 0 where
  empty_password : KeyError Other
  long_password : KeyError Other
  passwords_differ : KeyError Other
  salt_missing : KeyError Other
  salt_length : KeyError Other
  derivation_failed : KeyError Other
  other : Other → KeyError Other

module _ {Other : Type 0} where
  -- `map_err`
  abbrev pub lift {ℓ} : {A : Type ℓ} → Result Other A → Result (KeyError Other) A
  lift (ok a) = ok a
  lift (err e) = err (other e)

  unfoldable pub validate_password : Bytes → Result (KeyError Other) (Unit {0})
  validate_password password = do
    ensure (not (length password == 0)) empty_password
    ensure (leb (length password) max_password_bytes) long_password

  unfoldable pub parse_kdf_salt : Bytes → Result (KeyError Other) Bytes
  parse_kdf_salt stored = do ensure (length stored == kdf_salt_bytes) salt_length; ok stored

-- What the operator is asked.
pub data Prompt : Type 0 where
  create_password : Prompt
  enter_password : Prompt
  confirm_password : Prompt

-- The terminal, the file of the salt and the system's randomness, on a state of the world.
pub record World (Other : Type 0) : Type 1 where
  pub State : Type 0
  pub read_password : Prompt → State → State × Result Other Bytes
  -- `read_secret_optional_bounded` and `read_secret_bounded` of the salt's file
  pub read_salt : State → State × Result Other (Option Bytes)
  pub read_salt_again : State → State × Result Other Bytes
  -- `create_noclobber` of the salt's file
  pub create_salt : Bytes → State → State × Result Other Bool
  pub random_salt : State → State × Result Other Bytes

-- `UserPasswordProvider` and `PasswordMasterKeyStore`: what they keep.
pub record CachedMasterKey : Type 0 where
  pub salt : Bytes
  pub key : Bytes

module _ {Other : Type 0} (w : World Other) where
  open w use {State, read_password, read_salt, read_salt_again, create_salt, random_salt}

  pub record Store : Type 0 where
    pub world : State
    pub password : Option Bytes
    pub cached_key : Option CachedMasterKey

  abbrev pub Step : Type 0 → Type 0
  Step A = Store → Store × Result (KeyError Other) A

  -- `?` on a step: what it leaves stays also when it fails.
  unfoldable pub after :
      {A B : Type 0}
      → Store × Result (KeyError Other) A
      → (A → Step B)
      → Store × Result (KeyError Other) B
  after (s, ok a) f = f a s
  after (s, err e) f = (s, err e)

  unfoldable pub ask : Prompt → Step Bytes
  ask prompt s =
      let (world, answer) = read_password prompt s.world in
      (record s { world = world }, lift answer)

  -- The answer to the second prompt.
  unfoldable pub confirm : Bytes → Bool → Step Bytes
  confirm password false s = (s, ok password)
  confirm password true s = after (ask confirm_password s) λ confirmation s'. (
    s',
    do
      validate_password confirmation
      ensure (bytes_eq password confirmation) passwords_differ
      ok password,
  )

  unfoldable pub keep_password : Bytes → Step Bytes
  keep_password password s = (record s { password = some password }, ok password)

  abbrev pub prompt_of : Bool → Prompt
  prompt_of true = create_password
  prompt_of false = enter_password

  unfoldable pub prompt_password : Bool → Step Bytes
  prompt_password create s = after (ask (prompt_of create) s) λ password s'.
      after (s', validate_password password)
        λ _ s''. after (confirm password create s'') keep_password

  unfoldable pub cached_or_prompt : Bool → Option Bytes → Step Bytes
  cached_or_prompt create (some cached) s = (s, ok cached)
  cached_or_prompt create none s = prompt_password create s

  -- `UserPasswordProvider::password`
  unfoldable pub password : Bool → Step Bytes
  password create s = cached_or_prompt create s.password s

  -- Another process can create the salt first.
  unfoldable pub created_salt : Bytes → Bool → Step Bytes
  created_salt candidate true s = (s, ok candidate)
  created_salt candidate false s =
      let (world, stored) = read_salt_again s.world in
      (record s { world = world }, lift stored >>= parse_kdf_salt)

  unfoldable pub create_kdf_salt : Step Bytes
  create_kdf_salt s =
      let (world, candidate) = random_salt s.world in
      after (record s { world = world }, lift candidate)
        λ candidate s'.
          let (world', made) = create_salt candidate s'.world in
          after (record s' { world = world' }, lift made) (created_salt candidate)

  unfoldable pub found_salt : Bool → Option Bytes → Step Bytes
  found_salt create (some stored) s = (s, parse_kdf_salt stored)
  found_salt create none s = after (s, ensure create salt_missing) λ _. create_kdf_salt

  unfoldable pub load_or_create_kdf_salt : Bool → Step Bytes
  load_or_create_kdf_salt create s =
      let (world, stored) = read_salt s.world in
      after (record s { world = world }, lift stored) (found_salt create)

  module _ (hash_password_into : Bytes → Bytes → Option Bytes) where
    -- `hash_password_into` is Argon2id with the parameters of the source, of a password and a salt.
    unfoldable pub derive_master_key : Bytes → Bytes → Result (KeyError Other) Bytes
    derive_master_key password salt = do
      validate_password password
      elim (hash_password_into password salt) [ none ↦ err derivation_failed | some key ↦ ok key ]

    unfoldable pub keep_key : Bytes → Bytes → Step Bytes
    keep_key salt key s =
        (record s { cached_key = some (record { salt = salt; key = key }) }, ok key)

    unfoldable pub derive_key : Bool → Bytes → Step Bytes
    derive_key create salt s =
        after (password create s)
          λ password s'. after (s', derive_master_key password salt) (keep_key salt)

    unfoldable pub key_for : Bool → Bytes → Option CachedMasterKey → Step Bytes
    key_for create salt none s = derive_key create salt s
    key_for create salt (some cached) s =
        let derived = derive_key create salt s in
        if bytes_eq cached.salt salt then (s, ok cached.key) else derived

    -- `PasswordMasterKeyStore::load_or_create`
    unfoldable pub load_or_create : Bool → Step Bytes
    load_or_create create s =
        after (load_or_create_kdf_salt create s) λ salt s'. key_for create salt s'.cached_key s'
