-- ===== src/Segments/Groups.antt =====
-- Slots of a group, and the shards seen as one map from group ID to group.
use smpp_smsc.Base.{
  ℕ, zero, suc, ◌+◌, ◌≤◌, ◌<◌, ◌≡◌, ◌≢◌, refl, ap, subst, true, Option, none, some, List, [], ◌∷◌,
  ◌++◌, Bytes, nat_eq, bytes_eq, bytes_beq_iff, ◌==◌, if◌then◌else◌, length, set, replicate, arith,
}
use smpp_smsc.Base.Maps.{lookup-insert, lookup-delete}
use smpp_smsc.Wire.{GoSmpp}
use smpp_smsc.Segments.{
  MessageSegment, SegmentGroup, SegmentsManager, find_group, put_group, drop_group, shard_index,
  all_present, is_empty_slot, join_texts, first_stored, group_encoding,
}

-- Sharding is invisible: writing a group changes what is found under its ID and nothing else.
pub find_group-put_group :
    (m : SegmentsManager) (key j : Bytes) (g : SegmentGroup)
    → find_group (put_group m key g) j ≡ (if key == j then some g else find_group m j)
unfolding find_group put_group
find_group-put_group m key j g = ground (
  arith,
  bytes_beq_iff key j,
  lookup-insert key j g (m.shards (shard_index key)),
  ap shard_index {x = key} {y = j},
)

pub find_group-drop_group :
    (m : SegmentsManager) (key j : Bytes)
    → find_group (drop_group m key) j ≡ (if key == j then none else find_group m j)
unfolding find_group drop_group
find_group-drop_group m key j =
    ground (arith, bytes_beq_iff key j, lookup-delete key j (m.shards (shard_index key)))

-- How many slots hold a segment.
abbrev pub count_present : List (Option MessageSegment) → ℕ
count_present [] = 0
count_present (none ∷ l) = count_present l
count_present (some s ∷ l) = suc (count_present l)

pub count_present-le-length : (l : List (Option MessageSegment)) → count_present l ≤ length l
count_present-le-length [] = omega arith
count_present-le-length (none ∷ l) = omega (arith, count_present-le-length l)
count_present-le-length (some s ∷ l) = omega (arith, count_present-le-length l)

pub all_present_full :
    (n : ℕ) (l : List (Option MessageSegment))
    → length l ≡ n
    → count_present l ≡ n
    → all_present n l ≡ true
unfolding all_present
all_present_full zero l h k = refl
all_present_full (suc n) [] h k = absurd (omega arith)
all_present_full (suc n) (none ∷ l) h k = absurd (omega (arith, count_present-le-length l))
all_present_full (suc n) (some s ∷ l) h k = all_present_full n l (omega arith) (omega arith)

pub count_present-set :
    (l : List (Option MessageSegment)) (i : ℕ) (s : MessageSegment)
    → i < length l
    → count_present (set l i (some s))
      ≡ (if is_empty_slot l i then count_present l + 1 else count_present l)
unfolding is_empty_slot
count_present-set [] i s h = elim h [ ]
count_present-set (none ∷ l) zero s h = omega arith
count_present-set (some t ∷ l) zero s h = refl
count_present-set (none ∷ l) (suc i) s h = count_present-set l i s (omega arith)
count_present-set (some t ∷ l) (suc i) s h = ground (arith, count_present-set l i s)

pub count_present-replicate : (n : ℕ) → count_present (replicate n none) ≡ 0
count_present-replicate zero = refl
count_present-replicate (suc n) = count_present-replicate n

pub is_empty_slot-replicate : (n i : ℕ) → i < n → is_empty_slot (replicate n none) i ≡ true
unfolding is_empty_slot
is_empty_slot-replicate zero i h = elim h [ ]
is_empty_slot-replicate (suc n) zero h = refl
is_empty_slot-replicate (suc n) (suc i) h = is_empty_slot-replicate n i (omega arith)

pub is_empty_slot-set_ne :
    (l : List (Option MessageSegment)) (i j : ℕ) (s : MessageSegment)
    → i ≢ j
    → is_empty_slot (set l i (some s)) j ≡ is_empty_slot l j
unfolding is_empty_slot
is_empty_slot-set_ne [] i j s h = refl
is_empty_slot-set_ne (o ∷ l) zero zero s h = absurd (h refl)
is_empty_slot-set_ne (o ∷ l) zero (suc j) s h = refl
is_empty_slot-set_ne (o ∷ l) (suc i) zero s h = refl
is_empty_slot-set_ne (o ∷ l) (suc i) (suc j) s h = is_empty_slot-set_ne l i j s (λ e. h (ap suc e))

-- Each segment that is there satisfies `P` at its number, the first slot being number i + 1.
abbrev pub Each : (ℕ → MessageSegment → Type 0) → ℕ → List (Option MessageSegment) → Type 0
Each P i [] = Unit {0}
Each P i (none ∷ l) = Each P (suc i) l
Each P i (some s ∷ l) = P (suc i) s × Each P (suc i) l

pub Each-replicate : (P : ℕ → MessageSegment → Type 0) (i n : ℕ) → Each P i (replicate n none)
Each-replicate P i zero = tt
Each-replicate P i (suc n) = Each-replicate P (suc i) n

pub Each-set :
    (P : ℕ → MessageSegment → Type 0) (i : ℕ) (l : List (Option MessageSegment)) (j k : ℕ)
    (s : MessageSegment)
    → k ≡ suc (i + j)
    → P k s
    → Each P i l
    → Each P i (set l j (some s))
Each-set P i [] j k s e p h = tt
Each-set P i (none ∷ l) zero k s e p h = (subst (λ x. P x s) (omega arith) p, h)
Each-set P i (some u ∷ l) zero k s e p h = (subst (λ x. P x s) (omega arith) p, h.1)
Each-set P i (none ∷ l) (suc j) k s e p h = Each-set P (suc i) l j k s (omega arith) p h
Each-set P i (some u ∷ l) (suc j) k s e p h = (h.0, Each-set P (suc i) l j k s (omega arith) p h.1)

-- The texts for the numbers i + 1 to i + n, in order.
abbrev pub texts_from : (ℕ → Bytes) → ℕ → ℕ → Bytes
texts_from t i zero = []
texts_from t i (suc n) = t (suc i) ++ texts_from t (suc i) n

-- What all segments of one message have in common, and the text that goes by the number.
abbrev pub Piece : (ℕ → Bytes) → ℕ → ℕ → ℕ → MessageSegment → Type 0
Piece t coding id k s = (s.text ≡ t k) × (s.encoding ≡ coding) × (s.message_id ≡ id)

module _ (t : ℕ → Bytes) (coding id : ℕ) where
  pub join_texts-Each :
      (n i : ℕ) (l : List (Option MessageSegment))
      → all_present n l ≡ true
      → Each (Piece t coding id) i l
      → join_texts n l ≡ texts_from t i n
  unfolding join_texts all_present
  join_texts-Each zero i l p h = refl
  join_texts-Each (suc n) i [] p h = cc
  join_texts-Each (suc n) i (none ∷ l) p h = cc
  join_texts-Each (suc n) i (some s ∷ l) p h = rw (h.0.0, join_texts-Each n (suc i) l p h.1)

  -- The coding of the whole is UCS-2 if that is the segments' coding, and else the default.
  pub group_encoding-Each :
      (lib : GoSmpp) (n i : ℕ) (l : List (Option MessageSegment))
      → all_present n l ≡ true
      → Each (Piece t coding id) i l
      → 0 < n
      → group_encoding lib n l
        ≡ (if coding == lib.ucs2_type then lib.ucs2_type else lib.default_type)
  unfolding group_encoding all_present
  group_encoding-Each lib zero i l p h k = elim k [ ]
  group_encoding-Each lib (suc n) i [] p h k = cc
  group_encoding-Each lib (suc n) i (none ∷ l) p h k = cc
  group_encoding-Each lib (suc zero) i (some s ∷ l) p h k = rw h.0.1
  group_encoding-Each lib (suc (suc n)) i (some s ∷ l) p h k =
      rw (group_encoding-Each lib (suc n) (suc i) l p h.1 (omega arith)) (ground arith)

  pub first_stored-Each :
      (i : ℕ) (l : List (Option MessageSegment)) (s : MessageSegment)
      → first_stored l ≡ some s
      → Each (Piece t coding id) i l
      → s.message_id ≡ id
  unfolding first_stored
  first_stored-Each i [] s e h = cc
  first_stored-Each i (none ∷ l) s e h = first_stored-Each (suc i) l s e h
  first_stored-Each i (some u ∷ l) s e h = ground arith

pub first_stored-some :
    (l : List (Option MessageSegment))
    → 0 < count_present l
    → (s : MessageSegment) × (first_stored l ≡ some s)
unfolding first_stored
first_stored-some [] h = elim h [ ]
first_stored-some (none ∷ l) h = first_stored-some l h
first_stored-some (some s ∷ l) h = (s, refl)

pub count_present-set_pos :
    (l : List (Option MessageSegment)) (i : ℕ) (s : MessageSegment)
    → i < length l
    → 0 < count_present (set l i (some s))
count_present-set_pos [] i s h = elim h [ ]
count_present-set_pos (o ∷ l) zero s h = omega arith
count_present-set_pos (none ∷ l) (suc i) s h = count_present-set_pos l i s (omega arith)
count_present-set_pos (some t ∷ l) (suc i) s h = omega arith
