-- ===== src/Segments/WellFormed.antt =====
-- What a good group and a good manager are, and what the steps of AddSegment do to a group.
use smpp_smsc.Base.{
  ℕ, ◌+◌, ◌-◌, ◌≤◌, ◌<◌, ◌≡◌, ◌≢◌, refl, ◌∙◌, inl, inr, true, false, none, some, Bytes, nat_eq,
  bytes_eq, ◌==◌, if◌then◌else◌, length, length-set, length-replicate, arith, Bool-cases,
}
use native.Mathlib.Decide.{dec_lt}
use smpp_smsc.Wire.{GoSmpp}
use smpp_smsc.Wire.Constants.{status_inv_msg_len}
use smpp_smsc.Segments.{
  MessageSegment, SegmentGroup, SegmentsManager, find_group, put_group, drop_group, is_complete,
  all_present, is_empty_slot, store, stored_id, shared_id, refused, new_group, is_invalid,
  add_segment, add_valid, add_to_group, finish, get_complete_message,
}
use smpp_smsc.Segments.Groups.{
  find_group-put_group, find_group-drop_group, count_present, all_present_full, count_present-set,
  count_present-replicate, count_present-set_pos,
}

-- A group that still waits for segments, with as many slots as segments announced.
pub record Slots (max : ℕ) (g : SegmentGroup) : Type 0 where
  pub sized : length g.list ≡ g.expected
  pub counted : count_present g.list ≡ g.count
  pub incomplete : g.count < g.expected
  pub several : 2 ≤ g.expected
  pub bounded : g.expected ≤ max

-- A group in the map also holds a segment.
pub record GroupOk (max : ℕ) (g : SegmentGroup) : Type 0 where
  pub slots : Slots max g
  pub started : 0 < g.count

pub record ManagerOk (m : SegmentsManager) : Type 0 where
  pub at_least : 2 ≤ m.max_segments
  pub at_most : m.max_segments ≤ 25
  pub groups :
      (key : Bytes) (g : SegmentGroup) → find_group m key ≡ some g → GroupOk m.max_segments g

-- A segment that passes the first check.
pub record IsValid (m : SegmentsManager) (s : MessageSegment) : Type 0 where
  pub several : 2 ≤ s.segments_count
  pub numbered : 1 ≤ s.segment_seq_num
  pub in_range : s.segment_seq_num ≤ s.segments_count
  pub allowed : s.segments_count ≤ m.max_segments

pub is_invalid→IsValid :
    (m : SegmentsManager) (s : MessageSegment) → ManagerOk m → is_invalid m s ≡ false → IsValid m s
unfolding is_invalid
is_invalid→IsValid m s v h = let hi : m.max_segments ≤ 25 = v.at_most in ground arith

pub IsValid→is_invalid :
    (m : SegmentsManager) (s : MessageSegment) → ManagerOk m → IsValid m s → is_invalid m s ≡ false
unfolding is_invalid
IsValid→is_invalid m s v h = let hi : m.max_segments ≤ 25 = v.at_most in ground arith

pub new_group-Slots :
    (m : SegmentsManager) (s : MessageSegment) (now : ℕ)
    → IsValid m s
    → Slots m.max_segments (new_group s now)
unfolding new_group
new_group-Slots m s now v = record {
  sized = length-replicate s.segments_count none;
  counted = count_present-replicate s.segments_count;
  incomplete = omega arith;
  several = v.several;
  bounded = v.allowed;
}

is_complete_full :
    (g : SegmentGroup) (n : ℕ)
    → g.expected ≡ n
    → length g.list ≡ n
    → count_present g.list ≡ n
    → g.count ≡ n
    → is_complete g ≡ true
unfolding is_complete
is_complete_full g n e l p c = ground (arith, all_present_full g.expected g.list)

module _ (max : ℕ) (g : SegmentGroup) (s : MessageSegment) (message_id : ℕ) where
  -- The slot of `s` is in range.
  abbrev pub InRange : Type 0
  InRange = (1 ≤ s.segment_seq_num) × (s.segment_seq_num ≤ g.expected)

  abbrev pub placed : MessageSegment
  placed = record s { message_id = stored_id g s message_id }

  abbrev pub slot : ℕ
  slot = s.segment_seq_num - 1

  pub store-count :
      Slots max g
      → max ≤ 25
      → InRange
      → (count_present (store g s message_id).list ≡ (store g s message_id).count)
        × ((store g s message_id).count
            ≡ (if is_empty_slot g.list slot then g.count + 1 else g.count))
        × (0 < (store g s message_id).count)
  unfolding store
  store-count v b r =
      let here : slot < length g.list = omega arith in
      ground (
        arith,
        count_present-set g.list slot placed here,
        count_present-set_pos g.list slot placed here,
      )

  pub length-store : Slots max g → length (store g s message_id).list ≡ g.expected
  unfolding store
  length-store v = length-set g.list slot (some placed) ∙ v.sized

  pub store_complete :
      Slots max g
      → max ≤ 25
      → InRange
      → (store g s message_id).count ≡ g.expected
      → is_complete (store g s message_id) ≡ true
  unfolding store
  store_complete v b r e =
      is_complete_full (store g s message_id) g.expected refl (length-store v)
        ((store-count v b r).0 ∙ e) e

  pub store-GroupOk :
      Slots max g
      → max ≤ 25
      → InRange
      → is_complete (store g s message_id) ≡ false
      → GroupOk max (store g s message_id)
  unfolding store
  store-GroupOk v b r h = record {
    slots = record {
      sized = length-store v;
      counted = (store-count v b r).0;
      incomplete = elim (dec_lt (store g s message_id).count g.expected) [
        | yes k ↦ k
        | no k ↦ absurd (not_full (omega (arith, (store-count v b r).1, below)))
      ];
      several = v.several;
      bounded = v.bounded;
    };
    started = (store-count v b r).2;
  }
    where
      not_full : (store g s message_id).count ≡ g.expected → ⊥
      not_full e = let c : is_complete (store g s message_id) ≡ true = store_complete v b r e in cc

      below : (store g s message_id).count ≤ g.expected
      below = ground (arith, (store-count v b r).1)

-- Every branch of the locked part: what is stored under each ID afterwards.
pub finish-groups :
    (lib : GoSmpp) (m : SegmentsManager) (key : Bytes) (g : SegmentGroup) (message_id : ℕ)
    (j : Bytes)
    → find_group (finish lib (put_group m key g) key g message_id).1 j
      ≡ (if key == j then (if is_complete g then none else some g) else find_group m j)
unfolding finish get_complete_message
finish-groups lib m key g message_id j = elim (Bool-cases (is_complete g)) [
  | inl c ↦ rw c (
      ground
        (arith, find_group-drop_group (put_group m key g) key j, find_group-put_group m key j g))
  | inr c ↦ rw c (ground (arith, find_group-put_group m key j g))
]

pub finish-max :
    (lib : GoSmpp) (m : SegmentsManager) (key : Bytes) (g : SegmentGroup) (message_id : ℕ)
    → (finish lib (put_group m key g) key g message_id).1.max_segments ≡ m.max_segments
unfolding finish get_complete_message put_group drop_group
finish-max lib m key g message_id = ground arith

module _ (lib : GoSmpp) (m : SegmentsManager) (s : MessageSegment) (message_id : ℕ) where
  pub add_to_group_lem :
      (g : SegmentGroup)
      → s.segment_seq_num - 1 < length g.list
      → add_to_group lib m s message_id g
        ≡ finish lib
            (put_group m s.segment_group_id (store g s message_id))
            s.segment_group_id
            (store g s message_id)
            (shared_id g message_id)
  unfolding add_to_group
  add_to_group_lem g h = ground arith

  pub add_segment_new :
      (now : ℕ)
      → is_invalid m s ≡ false
      → find_group m s.segment_group_id ≡ none
      → add_segment lib m s (some message_id) now
        ≡ add_to_group lib m s message_id (new_group s now)
  unfolding add_segment
  add_segment_new now h e = rw (h, add_segment) (rw (e, add_valid))

  pub add_segment_old :
      (now : ℕ) (g : SegmentGroup)
      → is_invalid m s ≡ false
      → find_group m s.segment_group_id ≡ some g
      → g.expected ≡ s.segments_count
      → add_segment lib m s (some message_id) now ≡ add_to_group lib m s message_id g
  unfolding add_segment
  add_segment_old now g h e k = rw (h, add_segment) (rw (e, add_valid) (ground arith))

  pub add_segment_mismatch :
      (now : ℕ) (g : SegmentGroup)
      → is_invalid m s ≡ false
      → find_group m s.segment_group_id ≡ some g
      → g.expected ≢ s.segments_count
      → add_segment lib m s (some message_id) now ≡ (refused message_id status_inv_msg_len, m)
  unfolding add_segment
  add_segment_mismatch now g h e k = rw (h, add_segment) (rw (e, add_valid) (ground arith))

  pub add_segment_invalid :
      (now : ℕ)
      → is_invalid m s ≡ true
      → add_segment lib m s (some message_id) now ≡ (refused message_id status_inv_msg_len, m)
  unfolding add_segment
  add_segment_invalid now h = rw (h, add_segment)

pub is_complete-count : (g : SegmentGroup) → g.count ≢ g.expected → is_complete g ≡ false
unfolding is_complete
is_complete-count g h = ground arith

pub is_complete→all_present :
    (g : SegmentGroup) → is_complete g ≡ true → all_present g.expected g.list ≡ true
unfolding is_complete
is_complete→all_present g h = ground arith
