-- ===== src/Session/Padding.antt =====
-- What a session's padding adds up to.
use mix_tor.Base.{
  sum, ℕ, ◌+◌, ◌-◌, ◌≤◌, ◌<◌, ◌≡◌, ◌↔◌, refl, min, List, [], ◌∷◌, u64_max, saturating_add, true,
  arith,
}
use mix_tor.Session.{
  short, medium, long, very_long, SessionBounder, SessionClass, target_volume_bytes,
  target_duration, bounder_new, record_real_bytes, time_remaining, is_complete, final_padding_bytes,
}

-- A session's records, oldest first.
abbrev pub record_all : SessionBounder → List ℕ → SessionBounder
record_all b [] = b
record_all b (n ∷ ns) = record_all (record_real_bytes b n) ns

record_all-class : (b : SessionBounder) (ns : List ℕ) → (record_all b ns).class ≡ b.class
unfolding record_real_bytes
record_all-class b [] = refl
record_all-class b (n ∷ ns) = record_all-class (record_real_bytes b n) ns

record_all-start :
    (b : SessionBounder) (ns : List ℕ) → (record_all b ns).session_start ≡ b.session_start
unfolding record_real_bytes
record_all-start b [] = refl
record_all-start b (n ∷ ns) = record_all-start (record_real_bytes b n) ns

target_small : (c : SessionClass) → target_volume_bytes c < u64_max
target_small short = omega arith
target_small medium = omega arith
target_small long = omega arith
target_small very_long = omega arith

record_all-sum :
    (b : SessionBounder) (ns : List ℕ)
    → b.real_bytes_sent ≤ u64_max
    → (record_all b ns).real_bytes_sent ≡ min (b.real_bytes_sent + sum ns) u64_max
unfolding record_real_bytes saturating_add
record_all-sum b [] h = omega arith
record_all-sum b (n ∷ ns) h = omega (arith, record_all-sum (record_real_bytes b n) ns (omega arith))

-- However a session's bytes were recorded: as long as real and dummy bytes together stay within the
-- class's volume, the final padding makes them up to exactly that volume, and from there on it is 0.
pub final_padding_exact :
    (c : SessionClass) (now : ℕ) (ns : List ℕ) (dummies : ℕ)
    → let b = record_all (bounder_new c now) ns in
      (sum ns + dummies ≤ target_volume_bytes c
        → sum ns + dummies + final_padding_bytes b dummies ≡ target_volume_bytes c)
      × (target_volume_bytes c ≤ sum ns + dummies → final_padding_bytes b dummies ≡ 0)
unfolding final_padding_bytes bounder_new
final_padding_exact c now ns dummies =
    let b = bounder_new c now in
    let total = record_all-sum b ns (omega arith) in
    rw (record_all-class b ns, total) (omega (arith, target_small c))

-- A session is complete exactly when the bytes recorded reach the class's volume and its duration is
-- over.
pub is_complete_iff :
    (c : SessionClass) (start now : ℕ) (ns : List ℕ)
    → (is_complete (record_all (bounder_new c start) ns) now ≡ true)
      ↔ ((target_volume_bytes c ≤ sum ns) × (target_duration c ≤ now - start))
unfolding is_complete time_remaining bounder_new
is_complete_iff c start now ns =
    let b = bounder_new c start in
    let total = record_all-sum b ns (omega arith) in
    rw (record_all-class b ns, total, record_all-start b ns) (ground (arith, target_small c))
