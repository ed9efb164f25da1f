-- ===== src/Attack/Series/Flows.antt =====
-- The connections of a log, `distinct_conn_ids` of src/correlation_attack.rs.
use mix_tor.Base.{
  ◌&&◌, ◌||◌, ℕ, ◌<◌, ◌≤◌, List, [], ◌∷◌, Bool, true, false, ◌==◌, leb, ◌≡◌, inl, inr, refl, sym,
  ap, ◌∙◌, arith, Bool-cases, map, All,
}
use mix_tor.Attack.{LogRecord}
use mix_tor.Attack.Series.{
  EventNames, is_relevant, filter, insert_id, sort_ids, dedup_from, dedup, distinct_conn_ids,
}

-- Each number is above the one in front of it.
abbrev pub IsIncreasing : List ℕ → Type 0
IsIncreasing [] = Unit {0}
IsIncreasing (n ∷ ns) = All (λ m. n < m) ns × IsIncreasing ns

abbrev IsSorted : List ℕ → Type 0
IsSorted [] = Unit {0}
IsSorted (n ∷ ns) = All (λ m. n ≤ m) ns × IsSorted ns

unfoldable pub contains : ℕ → List ℕ → Bool
contains n [] = false
contains n (m ∷ ms) = n == m || contains n ms

-- The connection of a relevant record.
unfoldable pub has_record : EventNames → ℕ → List LogRecord → Bool
has_record events id [] = false
has_record events id (r ∷ rs) = (is_relevant events r && id == r.conn_id) || has_record events id rs

insert_id-All : (P : ℕ → Type 0) (n : ℕ) (ms : List ℕ) → P n → All P ms → All P (insert_id n ms)
unfolding insert_id
insert_id-All P n [] p h = (p, tt)
insert_id-All P n (m ∷ ms) p h = elim (Bool-cases (leb n m)) [
  | inl e ↦ rw e (p, h)
  | inr e ↦ rw e (h.0, insert_id-All P n ms p h.1)
]

All_le : (a b : ℕ) (ms : List ℕ) → a ≤ b → All (λ m. b ≤ m) ms → All (λ m. a ≤ m) ms
All_le a b [] l h = tt
All_le a b (m ∷ ms) l h = (omega (arith, h.0), All_le a b ms l h.1)

insert_id-IsSorted : (n : ℕ) (ms : List ℕ) → IsSorted ms → IsSorted (insert_id n ms)
unfolding insert_id
insert_id-IsSorted n [] h = (tt, tt)
insert_id-IsSorted n (m ∷ ms) h = elim (Bool-cases (leb n m)) [
  | inl e ↦ rw e ((ground arith, All_le n m ms (ground arith) h.0), h)
  | inr e ↦ rw e (insert_id-All (λ x. m ≤ x) n ms (ground arith) h.0, insert_id-IsSorted n ms h.1)
]

sort_ids-IsSorted : (ns : List ℕ) → IsSorted (sort_ids ns)
unfolding sort_ids
sort_ids-IsSorted [] = tt
sort_ids-IsSorted (n ∷ ns) = insert_id-IsSorted n (sort_ids ns) (sort_ids-IsSorted ns)

All_lt : (a b : ℕ) (ms : List ℕ) → a ≤ b → All (λ m. b < m) ms → All (λ m. a < m) ms
All_lt a b [] l h = tt
All_lt a b (m ∷ ms) l h = (omega (arith, h.0), All_lt a b ms l h.1)

-- What is behind `last` in a sorted list, without repetitions.
dedup_from-IsIncreasing :
    (last : ℕ) (ns : List ℕ)
    → All (λ m. last ≤ m) ns
    → IsSorted ns
    → All (λ m. last < m) (dedup_from last ns) × IsIncreasing (dedup_from last ns)
unfolding dedup_from
dedup_from-IsIncreasing last [] h s = (tt, tt)
dedup_from-IsIncreasing last (n ∷ ns) h s = elim (Bool-cases (n == last)) [
  | inl e ↦ rw (e, dedup_from) (dedup_from-IsIncreasing last ns h.1 s.1)
  | inr e ↦
      let (above, inc) = dedup_from-IsIncreasing n ns s.0 s.1 in
      let first : last < n = ground (arith, h.0) in
      rw (e, dedup_from)
        ((first, All_lt last n (dedup_from n ns) (omega arith) above), (above, inc))
]

dedup-IsIncreasing : (ns : List ℕ) → IsSorted ns → IsIncreasing (dedup ns)
unfolding dedup
dedup-IsIncreasing [] s = tt
dedup-IsIncreasing (n ∷ ns) s = dedup_from-IsIncreasing n ns s.0 s.1

or_swap : (a b c : Bool) → (a || (b || c)) ≡ (b || (a || c))
or_swap true true c = refl
or_swap true false c = refl
or_swap false b c = refl

or_again : (a c : Bool) → (a || (a || c)) ≡ (a || c)
or_again true c = refl
or_again false c = refl

contains-insert_id :
    (id n : ℕ) (ms : List ℕ) → contains id (insert_id n ms) ≡ (id == n || contains id ms)
unfolding contains insert_id
contains-insert_id id n [] = refl
contains-insert_id id n (m ∷ ms) = elim (Bool-cases (leb n m)) [
  | inl e ↦ rw e refl
  | inr e ↦ rw (e, contains-insert_id id n ms) (or_swap (id == m) (id == n) (contains id ms))
]

contains-dedup_from :
    (id last : ℕ) (ns : List ℕ)
    → (id == last || contains id (dedup_from last ns)) ≡ (id == last || contains id ns)
unfolding contains dedup_from
contains-dedup_from id last [] = refl
contains-dedup_from id last (n ∷ ns) = elim (Bool-cases (n == last)) [
  | inl e ↦
      let same : n ≡ last = ground arith in
      rw (e, dedup_from, same)
        (contains-dedup_from id last ns ∙ sym (or_again (id == last) (contains id ns)))
  | inr e ↦ rw (e, dedup_from) (ap (λ b. id == last || b) (contains-dedup_from id n ns))
]

contains-dedup : (id : ℕ) (ns : List ℕ) → contains id (dedup ns) ≡ contains id ns
unfolding contains dedup
contains-dedup id [] = refl
contains-dedup id (n ∷ ns) = contains-dedup_from id n ns

contains-ids :
    (id : ℕ) (events : EventNames) (records : List LogRecord)
    → contains id (sort_ids (map (λ r. r.conn_id) (filter (is_relevant events) records)))
      ≡ has_record events id records
unfolding contains has_record sort_ids filter
contains-ids id events [] = refl
contains-ids id events (r ∷ rs) = elim (Bool-cases (is_relevant events r)) [
  | inl e ↦ rw e (
      contains-insert_id id r.conn_id _
      ∙ ap (λ b. id == r.conn_id || b) (contains-ids id events rs))
  | inr e ↦ rw e (contains-ids id events rs)
]

-- The ids of a log's flows are increasing, and an id is among them if and only if a relevant record has
-- it.
pub distinct_conn_ids_lem :
    (records : List LogRecord) (events : EventNames)
    → IsIncreasing (distinct_conn_ids records events)
      × ((id : ℕ) → contains id (distinct_conn_ids records events) ≡ has_record events id records)
unfolding distinct_conn_ids
distinct_conn_ids_lem records events =
    let ids = map (λ r. r.conn_id) (filter (is_relevant events) records) in
    (
      dedup-IsIncreasing (sort_ids ids) (sort_ids-IsSorted ids),
      λ id. contains-dedup id (sort_ids ids) ∙ contains-ids id events records,
    )
