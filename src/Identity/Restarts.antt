-- ===== src/Identity/Restarts.antt =====
-- What becomes of a server's identity over its runs, src/bin/mixtor-server.rs.
use mix_tor.Base.{
  ℕ, List, [], ◌∷◌, ◌++◌, Option, none, some, Result, ok, true, ◌≡◌, refl, ap, ◌∙◌, take, All,
  IsByte, length, Bool-cases, Option-cases, inl, inr,
}
use mix_tor.Hex.{key_to_hex, key_from_hex, trim}
use mix_tor.Hex.RoundTrip.{key_from_hex-key_to_hex, key_to_hex-IsPlain, trim-IsPlain}
use mix_tor.Socks.{extract_cert, cert_key}
use mix_tor.Socks.Cert.{extract_cert-key_to_hex}
use mix_tor.Identity.{
  StaticKeypair, IdentityError, FileSystem, write_new, write_secret_file, Args, from_secret_bytes,
  keypair_or, from_key_file, adopted, after_write, from_state_dir, load_identity, keygen_file, read,
}

-- A secret as it is drawn: 32 bytes.
abbrev pub IsSecret : List ℕ → Type 0
IsSecret s = All IsByte s × (length s ≡ 32)

-- What is written is read back.
read_back : (s : List ℕ) → IsSecret s → key_from_hex (trim (key_to_hex s)) ≡ some s
read_back s h =
    rw (trim-IsPlain (key_to_hex s) (key_to_hex-IsPlain s h.0)) (key_from_hex-key_to_hex s h.0 h.1)

-- The runs one after the other, each with its file system and its draw: the file after it and its result.
unfoldable pub runs :
    (List ℕ → List ℕ)
    → Args
    → Option (List ℕ)
    → List (FileSystem × List ℕ)
    → List (Option (List ℕ) × Result IdentityError StaticKeypair)
runs public_of args file [] = []
runs public_of args file ((fs, drawn) ∷ rest) =
    let out = load_identity public_of args fs file drawn in out ∷ runs public_of args out.0 rest

-- Every run has left the file with the secret, and every run that could read it has its identity.
pub IsKept :
    (List ℕ → List ℕ)
    → List ℕ
    → List (FileSystem × List ℕ)
    → List (Option (List ℕ) × Result IdentityError StaticKeypair)
    → Type 0
IsKept public_of secret [] [] = Unit
IsKept public_of secret [] (out ∷ outs) = ⊥
IsKept public_of secret ((fs, drawn) ∷ rest) [] = ⊥
IsKept public_of secret ((fs, drawn) ∷ rest) (out ∷ outs) =
    (out.0 ≡ some (key_to_hex secret))
    × (fs.readable ≡ true → out.1 ≡ ok (from_secret_bytes public_of secret))
    × IsKept public_of secret rest outs

-- Nothing pins the identity, and there is a state directory.
pub record IsManaged (args : Args) : Type 0 where
  pub no_file : args.static_key_file ≡ none
  pub no_key : args.static_key ≡ none
  pub state_dir : args.has_state_dir ≡ true

load_identity_managed :
    (public_of : List ℕ → List ℕ) (args : Args) (fs : FileSystem) (file : Option (List ℕ))
    (drawn : List ℕ)
    → IsManaged args
    → load_identity public_of args fs file drawn
      ≡ from_state_dir public_of fs file drawn (read fs file)
unfolding load_identity
load_identity_managed public_of args fs file drawn m = rw (m.no_file, m.no_key, m.state_dir) refl

-- A file with a secret is loaded.
load_identity_saved :
    (public_of : List ℕ → List ℕ) (args : Args) (fs : FileSystem) (drawn secret : List ℕ)
    → IsManaged args
    → IsSecret secret
    → fs.readable ≡ true
    → load_identity public_of args fs (some (key_to_hex secret)) drawn
      ≡ (some (key_to_hex secret), ok (from_secret_bytes public_of secret))
unfolding from_state_dir keypair_or
load_identity_saved public_of args fs drawn secret m h r =
    load_identity_managed public_of args fs (some (key_to_hex secret)) drawn m
    ∙ rw (r, read_back secret h) refl

read_missing_file : (fs : FileSystem) → read fs none ≡ none
read_missing_file fs = elim (Bool-cases fs.readable) [ inl e ↦ rw e refl | inr e ↦ rw e refl ]

-- Without a file, the attempt to write decides.
load_identity_unsaved :
    (public_of : List ℕ → List ℕ) (args : Args) (fs : FileSystem) (drawn : List ℕ)
    → IsManaged args
    → load_identity public_of args fs none drawn
      ≡ after_write public_of fs drawn (write_secret_file fs fs.created (key_to_hex drawn))
unfolding from_state_dir
load_identity_unsaved public_of args fs drawn m =
    load_identity_managed public_of args fs none drawn m
    ∙ ap (from_state_dir public_of fs none drawn) (read_missing_file fs)

-- A managed server that loses the race to create the file to an instance that wrote its whole secret
-- takes the identity of that instance and leaves the file.
pub race_adopted :
    (public_of : List ℕ → List ℕ) (args : Args) (fs : FileSystem) (drawn other : List ℕ)
    → IsManaged args
    → IsSecret other
    → fs.created ≡ some (key_to_hex other)
    → fs.readable ≡ true
    → load_identity public_of args fs none drawn
      ≡ (some (key_to_hex other), ok (from_secret_bytes public_of other))
unfolding after_write write_secret_file adopted keypair_or
race_adopted public_of args fs drawn other m h lost r =
    load_identity_unsaved public_of args fs drawn m ∙ rw (lost, r, read_back other h) refl

keygen_file_made :
    (public_of : List ℕ → List ℕ) (fs : FileSystem) (drawn text cert : List ℕ)
    → keygen_file public_of fs none drawn ≡ (some text, some cert)
    → (text ≡ key_to_hex drawn) × (cert ≡ key_to_hex (public_of drawn))
unfolding keygen_file write_secret_file write_new
keygen_file_made public_of fs drawn text cert made = elim (Bool-cases fs.may_create) [
  | inr e ↦ let k : keygen_file public_of fs none drawn ≡ (none, none) = rw e refl in cc
  | inl e ↦ elim (Option-cases fs.stops_after) [
    | inl s ↦
        let k : keygen_file public_of fs none drawn
            ≡ (some (key_to_hex drawn), some (key_to_hex (public_of drawn))) =
          rw (e, s) refl in
        (cc, cc)
    | inr (n, s) ↦
        let k : keygen_file public_of fs none drawn ≡ (some (take n (key_to_hex drawn)), none) =
          rw (e, s) refl in
        cc
  ]
]

-- A key file that the server made works: its text is the identity with the certificate that was
-- printed, and a client that is given this certificate reads the identity's public key from it.
pub keygen_file_used :
    (public_of : List ℕ → List ℕ) (args : Args) (fs fs' : FileSystem) (file : Option (List ℕ))
    (drawn drawn' text cert rest : List ℕ)
    → IsSecret drawn
    → IsSecret (public_of drawn)
    → keygen_file public_of fs none drawn ≡ (some text, some cert)
    → args.static_key_file ≡ some (some text)
    → (load_identity public_of args fs' file drawn'
        ≡ (file, ok (from_secret_bytes public_of drawn)))
      × (extract_cert (cert_key ++ (cert ++ rest)) ≡ some (public_of drawn))
unfolding load_identity from_key_file keypair_or
keygen_file_used public_of args fs fs' file drawn drawn' text cert rest h h' made pinned =
    let (t, c) = keygen_file_made public_of fs drawn text cert made in
    (
      rw (pinned, t, read_back drawn h) refl,
      rw c (extract_cert-key_to_hex (public_of drawn) rest h'.0 h'.1),
    )

state_dir_kept :
    (public_of : List ℕ → List ℕ) (fs : FileSystem) (t drawn : List ℕ) (found : Option (List ℕ))
    → (from_state_dir public_of fs (some t) drawn found).0 ≡ some t
unfolding from_state_dir after_write write_secret_file
state_dir_kept public_of fs t drawn none = refl
state_dir_kept public_of fs t drawn (some s) = refl

-- Whatever the arguments are and whatever fails, a run leaves an identity file that is there as it is.
pub identity_kept :
    (public_of : List ℕ → List ℕ) (args : Args) (fs : FileSystem) (t drawn : List ℕ)
    → (load_identity public_of args fs (some t) drawn).0 ≡ some t
unfolding load_identity
identity_kept public_of args fs t drawn = elim (Option-cases args.static_key_file) [
  | inr (file, f) ↦ rw f refl
  | inl f ↦ elim (Option-cases args.static_key) [
    | inr (hex, k) ↦ rw (f, k) refl
    | inl k ↦ elim (Bool-cases args.has_state_dir) [
      | inl d ↦ rw (f, k, d) (state_dir_kept public_of fs t drawn (read fs (some t)))
      | inr d ↦ rw (f, k, d) refl
    ]
  ]
]

-- Where the file is in place, no run changes it and every run that can read it gives its identity.
runs-IsKept :
    (public_of : List ℕ → List ℕ) (args : Args) (secret : List ℕ)
    (rest : List (FileSystem × List ℕ))
    → IsManaged args
    → IsSecret secret
    → IsKept public_of secret rest (runs public_of args (some (key_to_hex secret)) rest)
unfolding runs IsKept
runs-IsKept public_of args secret [] m h = tt
runs-IsKept public_of args secret ((fs, drawn) ∷ rest) m h =
    let same = identity_kept public_of args fs (key_to_hex secret) drawn in
    (
      same,
      λ r. ap (λ out. out.1) (load_identity_saved public_of args fs drawn secret m h r),
      rw same (runs-IsKept public_of args secret rest m h),
    )

-- A managed server that finds no identity file and writes one without another instance in between has
-- the identity drawn then in this run and in every later run that can read the file, and no later run
-- changes the file, whether it can read it or not and whatever it could write.
pub runs_stable :
    (public_of : List ℕ → List ℕ) (args : Args) (fs : FileSystem) (drawn : List ℕ)
    (rest : List (FileSystem × List ℕ))
    → IsManaged args
    → IsSecret drawn
    → fs.created ≡ none
    → fs.may_create ≡ true
    → fs.stops_after ≡ none
    → (later : List (Option (List ℕ) × Result IdentityError StaticKeypair)) × (runs public_of args
          none
          ((fs, drawn) ∷ rest)
        ≡ (some (key_to_hex drawn), ok (from_secret_bytes public_of drawn)) ∷ later)
      × IsKept public_of drawn rest later
unfolding runs after_write write_secret_file write_new
runs_stable public_of args fs drawn rest m h alone create whole =
    let first : load_identity public_of args fs none drawn
        ≡ (some (key_to_hex drawn), ok (from_secret_bytes public_of drawn)) =
      load_identity_unsaved public_of args fs drawn m ∙ rw (alone, create, whole) refl in
    (
      runs public_of args (some (key_to_hex drawn)) rest,
      rw first refl,
      runs-IsKept public_of args drawn rest m h,
    )
