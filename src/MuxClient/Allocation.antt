-- ===== src/MuxClient/Allocation.antt =====
-- The choice of an id in `MuxWire::add_stream`, src/transport.rs.
use mix_tor.Base.{
  Bool-cases, if_false, lt→leb_false, leb, if_true, sym, inr, inl, le→leb, Option-cases, ◌≢◌, ◌-◌,
  u16_max, ℕ, zero, suc, ◌+◌, ◌%◌, ◌^◌, ◌≤◌, ◌<◌, ◌≡◌, ◌∙◌, ◌⊎◌, none, some, true, false, length,
  arith, wrapping_add16,
}
use mix_tor.StreamMap.{
  length-insert-absent, lookup-insert-other, lookup-insert-same, lookup_absent, StreamMap,
  contains_key, remove, contains_key-remove, length-remove-lt,
}
use mix_tor.MuxClient.{added, scan_fuel, refused, insert, lookup, MuxWire, add_stream, scan}

-- A map that holds every id from 1 to `n` has `n` entries at least.
pigeonhole :
    (n : ℕ) (m : StreamMap) → ((i : ℕ) → 0 < i → i ≤ n → contains_key i m ≡ true) → n ≤ length m
pigeonhole zero m h = omega arith
pigeonhole (suc n) m h =
    let here = h (suc n) (omega arith) (omega arith) in
    let fewer = length-remove-lt (suc n) m here in
    let others : (i : ℕ) → 0 < i → i ≤ n → contains_key i (remove (suc n) m) ≡ true =
      λ i p q. contains_key-remove (suc n) i m ∙ ground (arith, h i p (omega arith)) in
    omega (arith, pigeonhole n (remove (suc n) m) others)

-- A failed scan has met only 0 and ids that are taken.
scan_fails :
    (fuel next : ℕ) (m : StreamMap)
    → next < 2 ^ 16
    → scan fuel next m ≡ none
    → (j : ℕ) → j < fuel
    → ((next + j) % 2 ^ 16 ≡ 0) ⊎ (contains_key ((next + j) % 2 ^ 16) m ≡ true)
unfolding scan
scan_fails zero next m b e j h = absurd (omega arith)
scan_fails (suc fuel) next m b e zero h =
    let start : (next + 0) % 2 ^ 16 ≡ next = omega arith in rw start (ground arith)
scan_fails (suc fuel) next m b e (suc j) h =
    let shift : (next + suc j) % 2 ^ 16 ≡ (wrapping_add16 next 1 + j) % 2 ^ 16 = omega arith in
    rw shift
      (scan_fails fuel (wrapping_add16 next 1) m (omega arith) (ground arith) j (omega arith))

-- A scan that succeeds has found a free id.
scan_finds :
    (fuel next : ℕ) (m : StreamMap) (id after : ℕ)
    → next < 2 ^ 16
    → scan fuel next m ≡ some (id, after)
    → (0 < id) × (id < 2 ^ 16) × (contains_key id m ≡ false) × (after ≡ (id + 1) % 2 ^ 16)
unfolding scan
scan_finds zero next m id after b e = cc
scan_finds (suc fuel) next m id after b e =
    ground (arith, scan_finds fuel (wrapping_add16 next 1) m id after)

-- An unsaturated map leaves the scan something to find.
scan_succeeds :
    (next : ℕ) (m : StreamMap)
    → next < 2 ^ 16
    → length m < u16_max - 1
    → (id after : ℕ) × (scan scan_fuel next m ≡ some (id, after))
scan_succeeds next m b h = elim (Option-cases (scan scan_fuel next m)) [
  | inl e ↦
      let taken : (i : ℕ) → 0 < i → i ≤ u16_max → contains_key i m ≡ true = λ i p q.
        let back : (next + (i + 2 ^ 16 - next) % 2 ^ 16) % 2 ^ 16 ≡ i = omega arith in
        let seen = scan_fails scan_fuel next m b e ((i + 2 ^ 16 - next) % 2 ^ 16) (omega arith) in
        elim seen [ inl z ↦ absurd (omega arith) | inr c ↦ rw (sym back) c ] in
      absurd (omega (arith, pigeonhole u16_max m taken))
  | inr ((id, after), e) ↦ (id, after, e)
]

-- What `add_stream` answers: with `id` the new stream is the one under a fresh nonzero 16-bit id, every
-- other stream is kept, and the counter is past it.
abbrev pub IsFreshStream : MuxWire → ℕ → ℕ → MuxWire → Type 0
IsFreshStream w down_tx id w' =
    (0 < id)
    × (id < 2 ^ 16)
    × (lookup id w.stream_map ≡ none)
    × (lookup id w'.stream_map ≡ some down_tx)
    × ((j : ℕ) → j ≢ id → lookup j w'.stream_map ≡ lookup j w.stream_map)
    × (length w'.stream_map ≡ suc (length w.stream_map))
    × (w'.next_id ≡ (id + 1) % 2 ^ 16)

-- While fewer than 65,534 streams are open, `add_stream` ends and opens one under a fresh id: not 0, not
-- taken, below 2^16. The new stream is found under it, every other id keeps its stream, the map grows by
-- one and the counter stands after the id.
pub add_stream_fresh :
    (w : MuxWire) (down_tx : ℕ)
    → w.next_id < 2 ^ 16
    → length w.stream_map < u16_max - 1
    → (id : ℕ) × (w' : MuxWire) × (add_stream w down_tx ≡ added id w')
      × IsFreshStream w down_tx id w'
unfolding add_stream
add_stream_fresh w down_tx b h =
    let (id, after, e) = scan_succeeds w.next_id w.stream_map b h in
    let (p, q, c, n) = scan_finds scan_fuel w.next_id w.stream_map id after b e in
    let w' : MuxWire = record { stream_map = insert id down_tx w.stream_map; next_id = after } in
    let small : leb (u16_max - 1) (length w.stream_map) ≡ false = lt→leb_false _ _ h in
    let run : add_stream w down_tx ≡ added id w' = if_false _ _ _ small ∙ rw e in
    let facts : IsFreshStream w down_tx id w' = (
      p,
      q,
      lookup_absent id w.stream_map c,
      lookup-insert-same id down_tx w.stream_map,
      λ j d. lookup-insert-other id j down_tx w.stream_map d,
      length-insert-absent id down_tx w.stream_map c,
      n,
    ) in
    (id, w', run, facts)

-- With 65,534 streams open or more, `add_stream` refuses.
add_stream_saturated :
    (w : MuxWire) (down_tx : ℕ) → u16_max - 1 ≤ length w.stream_map → add_stream w down_tx ≡ refused
unfolding add_stream
add_stream_saturated w down_tx h =
    if_true (leb (u16_max - 1) (length w.stream_map)) _ _
      (le→leb (u16_max - 1) (length w.stream_map) h)

-- The counter stays in 16 bits.
pub add_stream_next_id :
    (w : MuxWire) (down_tx id : ℕ) (w' : MuxWire)
    → w.next_id < 2 ^ 16
    → add_stream w down_tx ≡ added id w'
    → w'.next_id < 2 ^ 16
add_stream_next_id w down_tx id w' b e =
    elim (Bool-cases (leb (u16_max - 1) (length w.stream_map))) [
      | inl full ↦
          let r : refused ≡ added id w' = sym (add_stream_saturated w down_tx (ground arith)) ∙ e in
          cc
      | inr fits ↦
          let (id', v, run, facts) = add_stream_fresh w down_tx b (ground arith) in
          let same : added id' v ≡ added id w' = sym run ∙ e in
          let next : v ≡ w' = cc in rw (sym next) (omega (arith, facts.6))
    ]
