-- ===== src/Packet.antt =====
-- `Packet` of src/clumping.rs and `MixedFrame` of src/composition.rs.
use mix_tor.Base.{ℕ, List, [], ◌∷◌, length, Result, ok, err, Bool, true, false}
use mix_tor.Seeds.{SeedRole}

pub record Packet : Type 0 where
  pub bytes : List ℕ

-- `ClumpingError`; the texts of `InvalidConfig` are constructors.
pub data ConfigFault : Type 0 where
  zero_min_packets min_packets_above_max zero_min_timeout min_timeout_above_max : ConfigFault

pub data ClumpingError : Type 0 where
  empty_packet : ClumpingError
  invalid_config : ConfigFault → ClumpingError
  wrong_seed_role : SeedRole → SeedRole → ClumpingError

-- `Packet::new`
unfoldable pub packet_new : List ℕ → Result ClumpingError Packet
packet_new [] = err empty_packet
packet_new (b ∷ bs) = ok (record { bytes = b ∷ bs })

pub data MixedFrame : Type 0 where
  real : Packet → MixedFrame
  dummy : List ℕ → MixedFrame

abbrev pub frame_bytes : MixedFrame → List ℕ
frame_bytes (real p) = p.bytes
frame_bytes (dummy bytes) = bytes

-- `MixedFrame::len`, `is_real` and `is_dummy`
abbrev pub frame_len : MixedFrame → ℕ
frame_len (real p) = length p.bytes
frame_len (dummy bytes) = length bytes

abbrev pub is_real : MixedFrame → Bool
is_real (real _) = true
is_real (dummy _) = false

abbrev pub is_dummy : MixedFrame → Bool
is_dummy (real _) = false
is_dummy (dummy _) = true
