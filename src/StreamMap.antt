-- ===== src/StreamMap.antt =====
-- `HashMap<u16, Sender<Vec<u8>>>`, the stream maps of src/transport.rs: stream ids to channels. A
-- channel is a number that stands for its sender. An id stands once in a map that `insert` built.
use mix_tor.Base.{
  ◌∙◌, ◌≢◌, ap, suc, ℕ, ◌≤◌, ◌<◌, ◌≡◌, refl, List, [], ◌∷◌, Option, none, some, Bool, true, false,
  ◌==◌, ◌||◌, if◌then◌else◌, length, arith, not, ◌&&◌,
}

abbrev pub StreamMap : Type 0
StreamMap = List (ℕ × ℕ)

unfoldable pub lookup : ℕ → StreamMap → Option ℕ
lookup id [] = none
lookup id ((k, v) ∷ m) = if k == id then some v else lookup id m

unfoldable pub contains_key : ℕ → StreamMap → Bool
contains_key id [] = false
contains_key id ((k, v) ∷ m) = k == id || contains_key id m

unfoldable pub remove : ℕ → StreamMap → StreamMap
remove id [] = []
remove id ((k, v) ∷ m) = if k == id then remove id m else (k, v) ∷ remove id m

unfoldable pub insert : ℕ → ℕ → StreamMap → StreamMap
unfolding remove
insert id v m = (id, v) ∷ remove id m

-- No id stands twice.
abbrev pub IsDistinct : StreamMap → Type 0
IsDistinct [] = Unit {0}
IsDistinct ((k, v) ∷ m) = (contains_key k m ≡ false) × IsDistinct m

pub lookup-remove :
    (id j : ℕ) (m : StreamMap) → lookup j (remove id m) ≡ (if id == j then none else lookup j m)
unfolding lookup remove
lookup-remove id j [] = ground arith
lookup-remove id j ((k, v) ∷ m) = ground (arith, lookup-remove id j m)

pub lookup-remove-other : (id j : ℕ) (m : StreamMap) → j ≢ id → lookup j (remove id m) ≡ lookup j m
lookup-remove-other id j m d = lookup-remove id j m ∙ ground arith

pub lookup-remove-same : (id : ℕ) (m : StreamMap) → lookup id (remove id m) ≡ none
lookup-remove-same id m = lookup-remove id id m ∙ ground arith

pub lookup-insert :
    (id j v : ℕ) (m : StreamMap)
    → lookup j (insert id v m) ≡ (if id == j then some v else lookup j m)
unfolding lookup insert
lookup-insert id j v m = ground (arith, lookup-remove id j m)

pub lookup-insert-same : (id v : ℕ) (m : StreamMap) → lookup id (insert id v m) ≡ some v
lookup-insert-same id v m = lookup-insert id id v m ∙ ground arith

pub lookup-insert-other :
    (id j v : ℕ) (m : StreamMap) → j ≢ id → lookup j (insert id v m) ≡ lookup j m
lookup-insert-other id j v m d = lookup-insert id j v m ∙ ground arith

pub contains_key-remove :
    (id j : ℕ) (m : StreamMap) → contains_key j (remove id m) ≡ (not (id == j) && contains_key j m)
unfolding contains_key remove
contains_key-remove id j [] = ground arith
contains_key-remove id j ((k, v) ∷ m) = ground (arith, contains_key-remove id j m)

pub length-remove-le : (id : ℕ) (m : StreamMap) → length (remove id m) ≤ length m
unfolding remove
length-remove-le id [] = omega arith
length-remove-le id ((k, v) ∷ m) = ground (arith, length-remove-le id m)

pub length-remove-lt :
    (id : ℕ) (m : StreamMap) → contains_key id m ≡ true → length (remove id m) < length m
unfolding remove contains_key
length-remove-lt id [] h = cc
length-remove-lt id ((k, v) ∷ m) h = ground (arith, length-remove-le id m, length-remove-lt id m)

pub remove_absent : (id : ℕ) (m : StreamMap) → contains_key id m ≡ false → remove id m ≡ m
unfolding remove contains_key
remove_absent id [] h = refl
remove_absent id ((k, v) ∷ m) h = ground (arith, remove_absent id m)

pub length-insert-absent :
    (id v : ℕ) (m : StreamMap) → contains_key id m ≡ false → length (insert id v m) ≡ suc (length m)
unfolding insert
length-insert-absent id v m h = ap (λ r. suc (length r)) (remove_absent id m h)

pub lookup_absent : (id : ℕ) (m : StreamMap) → contains_key id m ≡ false → lookup id m ≡ none
unfolding lookup contains_key
lookup_absent id [] h = refl
lookup_absent id ((k, v) ∷ m) h = ground (arith, lookup_absent id m)

pub remove-IsDistinct : (id : ℕ) (m : StreamMap) → IsDistinct m → IsDistinct (remove id m)
unfolding remove
remove-IsDistinct id [] d = tt
remove-IsDistinct id ((k, v) ∷ m) d =
    ground (arith, remove-IsDistinct id m d.1, contains_key-remove id k m)

pub insert-IsDistinct : (id v : ℕ) (m : StreamMap) → IsDistinct m → IsDistinct (insert id v m)
unfolding insert
insert-IsDistinct id v m d = ground (arith, remove-IsDistinct id m d, contains_key-remove id id m)
