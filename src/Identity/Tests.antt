-- ===== src/Identity/Tests.antt =====
-- Runs of a server that keeps its identity in a file.
use mix_tor.Base.{
  Option, Result, false, ℕ, List, [], ◌∷◌, ◌++◌, none, some, ok, err, true, ◌≡◌, refl, replicate,
}
use mix_tor.Samples.{zeros-IsByte}
use mix_tor.Hex.{key_to_hex, key_from_hex, trim}
use mix_tor.Socks.{extract_cert, cert_key}
use mix_tor.Identity.{
  FileSystem, Args, StaticKeypair, IdentityError, identity_corrupt, load_identity, from_state_dir,
  after_write, write_secret_file, write_new, keygen_file, from_secret_bytes, keypair_or,
}
use mix_tor.Identity.Restarts.{
  IsSecret, IsManaged, IsKept, runs, runs_stable, race_adopted, keygen_file_used,
}

abbrev public_of : List ℕ → List ℕ
public_of s = replicate 32 0

abbrev secret : List ℕ
secret = replicate 32 0

abbrev managed : Args
managed = record { static_key_file = none; static_key = none; has_state_dir = true }

abbrev working : FileSystem
working = record { readable = true; created = none; may_create = true; stops_after = none }

secret-IsSecret : IsSecret secret
secret-IsSecret = (zeros-IsByte 32, refl)

managed-IsManaged : IsManaged managed
managed-IsManaged = record { no_file = refl; no_key = refl; state_dir = refl }

-- The file cannot be opened for reading, and it could be written.
abbrev unreadable : FileSystem
unreadable = record { readable = false; created = none; may_create = true; stops_after = none }

abbrev later_runs : List (FileSystem × List ℕ)
later_runs = (unreadable, replicate 32 7) ∷ (working, []) ∷ []

runs_stable_example :
    (later : List (Option (List ℕ) × Result IdentityError StaticKeypair)) × (runs public_of managed
        none
        ((working, secret) ∷ later_runs)
      ≡ (some (key_to_hex secret), ok (from_secret_bytes public_of secret)) ∷ later)
    × IsKept public_of secret later_runs later
runs_stable_example =
    runs_stable public_of managed working secret later_runs managed-IsManaged secret-IsSecret refl
      refl refl

abbrev raced : FileSystem
raced = record {
  readable = true;
  created = some (key_to_hex secret);
  may_create = true;
  stops_after = none;
}

race_adopted_run :
    load_identity public_of managed raced none (replicate 32 7)
    ≡ (some (key_to_hex secret), ok (from_secret_bytes public_of secret))
race_adopted_run =
    race_adopted public_of managed raced (replicate 32 7) secret managed-IsManaged secret-IsSecret
      refl refl

abbrev pinned : Args
pinned = record {
  static_key_file = some (some (key_to_hex secret));
  static_key = none;
  has_state_dir = true;
}

made :
    keygen_file public_of working none secret
    ≡ (some (key_to_hex secret), some (key_to_hex (public_of secret)))
unfolding keygen_file write_secret_file write_new
made = refl

keygen_file_used_example :
    (load_identity public_of pinned working none []
      ≡ (none, ok (from_secret_bytes public_of secret)))
    × (extract_cert (cert_key ++ (key_to_hex (public_of secret) ++ (59 ∷ [])))
        ≡ some (public_of secret))
keygen_file_used_example =
    keygen_file_used public_of pinned working working none secret [] (key_to_hex secret)
      (key_to_hex (public_of secret)) (59 ∷ []) secret-IsSecret secret-IsSecret made refl

-- The disk is full when the new secret is written: this run goes on with a warning, and the next one
-- stops.
abbrev full_disk : FileSystem
full_disk = record { readable = true; created = none; may_create = true; stops_after = some 0 }

half_written :
    runs public_of managed none ((full_disk, secret) ∷ (working, secret) ∷ [])
    ≡ ((some [], ok (from_secret_bytes public_of secret)) ∷ (some [], err identity_corrupt) ∷ [])
unfolding runs load_identity from_state_dir after_write write_secret_file write_new keypair_or
    key_from_hex trim
half_written = refl
