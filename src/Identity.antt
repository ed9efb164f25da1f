-- ===== src/Identity.antt =====
-- The identity of a server, src/bin/mixtor-server.rs: `load_identity`, `finish`, `write_secret_file` as it
-- is on unix, and the key generation of `main`. A file is its text if it is there; `public_of` is the
-- curve's map from a secret to a public key.
mod Restarts
mod Tests
use mix_tor.Base.{
  ℕ, List, [], ◌∷◌, Option, none, some, Result, ok, err, Bool, true, false, if◌then◌else◌, take,
  length,
}
use mix_tor.Hex.{key_to_hex, key_from_hex, trim}

pub record StaticKeypair : Type 0 where
  pub secret : List ℕ
  pub public : List ℕ

pub data IdentityError : Type 0 where
  key_file_unreadable key_file_malformed key_malformed identity_corrupt identity_unreadable :
      IdentityError

-- What the file system does: `created` says what another instance has put in place before the file is
-- opened for writing, `may_create` whether a new file can be made, and `stops_after` after how many
-- bytes a write fails, if it does.
pub record FileSystem : Type 0 where
  pub readable : Bool
  pub created : Option (List ℕ)
  pub may_create : Bool
  pub stops_after : Option ℕ

pub data Written : Type 0 where
  written already_exists write_failed : Written

write_new : FileSystem → List ℕ → Option ℕ → Option (List ℕ) × Written
write_new fs hex none = (some hex, written)
write_new fs hex (some n) = (some (take n hex), write_failed)

-- `write_secret_file`: the file after it, and how it ended. `create_new` refuses a file that is there.
unfoldable pub write_secret_file : FileSystem → Option (List ℕ) → List ℕ → Option (List ℕ) × Written
unfolding write_new
write_secret_file fs (some text) hex = (some text, already_exists)
write_secret_file fs none hex =
    if fs.may_create then write_new fs hex fs.stops_after else (none, write_failed)

-- `read_to_string`
abbrev read : FileSystem → Option (List ℕ) → Option (List ℕ)
read fs text = if fs.readable then text else none

-- What another instance created in the meantime stands there, unless there was a file before.
abbrev after_race : FileSystem → Option (List ℕ) → Option (List ℕ)
after_race fs none = fs.created
after_race fs (some text) = some text

-- What the command line says, with what reading the key file gives.
pub record Args : Type 0 where
  pub static_key_file : Option (Option (List ℕ))
  pub static_key : Option (List ℕ)
  pub has_state_dir : Bool

module _ (public_of : List ℕ → List ℕ) where
  abbrev pub from_secret_bytes : List ℕ → StaticKeypair
  from_secret_bytes secret = record { secret = secret; public = public_of secret }

  keypair_or : IdentityError → Option (List ℕ) → Result IdentityError StaticKeypair
  keypair_or e none = err e
  keypair_or e (some secret) = ok (from_secret_bytes secret)

  from_key_file : Option (List ℕ) → Result IdentityError StaticKeypair
  unfolding keypair_or
  from_key_file none = err key_file_unreadable
  from_key_file (some s) = keypair_or key_file_malformed (key_from_hex (trim s))

  adopted : Option (List ℕ) → Result IdentityError StaticKeypair
  unfolding keypair_or
  adopted none = err identity_unreadable
  adopted (some s) = keypair_or identity_corrupt (key_from_hex (trim s))

  -- After the attempt to persist the new secret `drawn`.
  after_write :
      FileSystem
      → List ℕ
      → Option (List ℕ) × Written
      → Option (List ℕ) × Result IdentityError StaticKeypair
  unfolding adopted
  after_write fs drawn (file, written) = (file, ok (from_secret_bytes drawn))
  after_write fs drawn (file, write_failed) = (file, ok (from_secret_bytes drawn))
  after_write fs drawn (file, already_exists) = (file, adopted (read fs file))

  from_state_dir :
      FileSystem
      → Option (List ℕ)
      → List ℕ
      → Option (List ℕ)
      → Option (List ℕ) × Result IdentityError StaticKeypair
  unfolding keypair_or after_write
  from_state_dir fs file drawn (some s) =
      (file, keypair_or identity_corrupt (key_from_hex (trim s)))
  from_state_dir fs file drawn none =
      after_write fs drawn (write_secret_file fs (after_race fs file) (key_to_hex drawn))

  -- `load_identity` with the file `mixtor_identity` of the state directory and the secret that
  -- `StaticKeypair::generate` would draw: the file after it, and the identity.
  unfoldable pub load_identity :
      Args
      → FileSystem
      → Option (List ℕ)
      → List ℕ
      → Option (List ℕ) × Result IdentityError StaticKeypair
  unfolding from_key_file keypair_or from_state_dir
  load_identity args fs file drawn = elim args.static_key_file [
    | some text ↦ (file, from_key_file text)
    | none ↦ elim args.static_key [
      | some hex ↦ (file, keypair_or key_malformed (key_from_hex hex))
      | none ↦
          if args.has_state_dir
          then from_state_dir fs file drawn (read fs file)
          else (file, ok (from_secret_bytes drawn))
    ]
  ]

  -- `finish`: the certificate that is printed.
  abbrev pub cert_of : StaticKeypair → List ℕ
  cert_of kp = key_to_hex kp.public

  -- `--keygen-file`: the file after it and the certificate printed, `none` if the program stops with an
  -- error.
  unfoldable pub keygen_file :
      FileSystem → Option (List ℕ) → List ℕ → Option (List ℕ) × Option (List ℕ)
  keygen_file fs file drawn =
      let (text, result) = write_secret_file fs file (key_to_hex drawn) in
      elim result [
        | written ↦ (text, some (cert_of (from_secret_bytes drawn)))
        | already_exists ↦ (text, none)
        | write_failed ↦ (text, none)
      ]
