-- ===== src/Segments.antt =====
-- internal/smsc/segments.go: reassembly of multipart submit_sm. A manager is a value; each method
-- returns the new one. Time is an argument, and so is what the ID generator answers (`none` is its
-- error). A group is mutated only under its shard's lock, so a call is one step.
pub mod Groups
pub mod WellFormed
pub mod Invariant
pub mod Routine
pub mod Held
pub mod Assembly
pub mod Delivery
mod Tests
use smpp_smsc.Base.{
  ℕ, zero, suc, ◌+◌, ◌-◌, ◌*◌, ◌%◌, ◌^◌, bit_xor, Bool, true, false, ◌&&◌, ◌||◌, Option, none, some,
  List, [], ◌∷◌, ◌++◌, Bytes, nat_eq, bytes_eq, ltb, leb, ◌==◌, if◌then◌else◌, length, get_elem?,
  set, replicate,
}
use smpp_smsc.Base.Maps.{lookup, insert, delete}
use smpp_smsc.Wire.{GoSmpp}
use smpp_smsc.Wire.Constants.{status_ok, status_inv_msg_len, status_sys_err}
use smpp_smsc.Message.{decode_message}

pub record MessageSegment : Type 0 where
  pub message_id : ℕ
  pub segment_group_id : Bytes
  pub message_ref_num : ℕ
  pub segment_seq_num : ℕ
  pub segments_count : ℕ
  pub text : Bytes
  pub encoding : ℕ
  pub registered_at : ℕ
  pub delivery_receipt_requested : Bool

-- `none` in the list is a nil pointer.
pub record SegmentGroup : Type 0 where
  pub created_at : ℕ
  pub first_pdu_created_at : ℕ
  pub list : List (Option MessageSegment)
  pub count : ℕ
  pub expected : ℕ
  pub delivery_receipt_requested : Bool

-- `shards i` is the map of shard i, for i below 256.
pub record SegmentsManager : Type 0 where
  pub shards : ℕ → List (Bytes × SegmentGroup)
  pub max_segments : ℕ
  pub max_segment_age : ℕ

abbrev pub min_submit_sm_segments_cap : ℕ
min_submit_sm_segments_cap = 2

abbrev pub max_submit_sm_segments_cap : ℕ
max_submit_sm_segments_cap = 25

unfoldable pub normalize_max_submit_sm_segments : ℕ → ℕ
normalize_max_submit_sm_segments n =
    if ltb n min_submit_sm_segments_cap
    then min_submit_sm_segments_cap
    else if ltb max_submit_sm_segments_cap n
    then max_submit_sm_segments_cap
    else n

-- A segment TTL of 0 stands for one that is not positive; 3 minutes in nanoseconds.
unfoldable pub new_segments_manager : ℕ → ℕ → SegmentsManager
unfolding normalize_max_submit_sm_segments
new_segments_manager segment_ttl max_segments = record {
  shards = λ i. [];
  max_segments = normalize_max_submit_sm_segments max_segments;
  max_segment_age = if segment_ttl == 0 then 180_000_000_000 else segment_ttl;
}

pub fnv32_from : ℕ → Bytes → ℕ
fnv32_from h [] = h
fnv32_from h (b ∷ s) = fnv32_from (bit_xor h b * 16777619 % 2 ^ 32) s

unfoldable pub fnv32 : Bytes → ℕ
unfolding fnv32_from
fnv32 s = fnv32_from 2166136261 s

unfoldable pub shard_index : Bytes → ℕ
unfolding fnv32
shard_index key = fnv32 key % 256

unfoldable pub find_group : SegmentsManager → Bytes → Option SegmentGroup
find_group m key = lookup key (m.shards (shard_index key))

-- `shards[i]` replaced.
pub with_shard : SegmentsManager → ℕ → List (Bytes × SegmentGroup) → SegmentsManager
with_shard m i groups = record m { shards = λ j. if i == j then groups else m.shards j }

pub put_group : SegmentsManager → Bytes → SegmentGroup → SegmentsManager
unfolding with_shard
put_group m key g = with_shard m (shard_index key) (insert key g (m.shards (shard_index key)))

pub drop_group : SegmentsManager → Bytes → SegmentsManager
unfolding with_shard
drop_group m key = with_shard m (shard_index key) (delete key (m.shards (shard_index key)))

-- The first `n` slots hold segments.
pub all_present : ℕ → List (Option MessageSegment) → Bool
all_present zero l = true
all_present (suc n) [] = false
all_present (suc n) (none ∷ l) = false
all_present (suc n) (some s ∷ l) = all_present n l

unfoldable pub is_complete : SegmentGroup → Bool
unfolding all_present
is_complete g = g.count == g.expected && all_present g.expected g.list

-- The texts of the first `n` slots in order.
unfoldable pub join_texts : ℕ → List (Option MessageSegment) → Bytes
join_texts zero l = []
join_texts (suc n) [] = []
join_texts (suc n) (none ∷ l) = join_texts n l
join_texts (suc n) (some s ∷ l) = s.text ++ join_texts n l

module _ (lib : GoSmpp) where
  -- The coding starts as the default, and one UCS-2 segment makes it UCS-2.
  pub group_encoding : ℕ → List (Option MessageSegment) → ℕ
  group_encoding zero l = lib.default_type
  group_encoding (suc n) [] = lib.default_type
  group_encoding (suc n) (none ∷ l) = group_encoding n l
  group_encoding (suc n) (some s ∷ l) =
      let rest = group_encoding n l in if s.encoding == lib.ucs2_type then lib.ucs2_type else rest

  unfoldable pub get_complete_message : SegmentGroup → Option (Bytes × ℕ)
  unfolding is_complete join_texts group_encoding
  get_complete_message g =
      if is_complete g
      then some (join_texts g.expected g.list, group_encoding g.expected g.list)
      else none

-- The results of `AddSegment`: message ID, status, text, complete, receipt requested, err != nil.
pub record AddResult : Type 0 where
  pub message_id : ℕ
  pub status : ℕ
  pub text : Bytes
  pub complete : Bool
  pub receipt_requested : Bool
  pub failed : Bool

pub refused : ℕ → ℕ → AddResult
refused message_id status = record {
  message_id = message_id;
  status = status;
  text = [];
  complete = false;
  receipt_requested = false;
  failed = true;
}

pub waiting : ℕ → AddResult
waiting message_id = record {
  message_id = message_id;
  status = status_ok;
  text = [];
  complete = false;
  receipt_requested = false;
  failed = false;
}

-- The check before the shard is locked; `uint8(m.maxSegments)` wraps.
unfoldable pub is_invalid : SegmentsManager → MessageSegment → Bool
is_invalid m s =
    leb s.segments_count 1
    || s.segment_seq_num == 0
    || ltb s.segments_count s.segment_seq_num
    || ltb (m.max_segments % 256) s.segments_count
    || ltb (m.max_segments % 256) s.segment_seq_num

pub new_group : MessageSegment → ℕ → SegmentGroup
new_group s now = record {
  created_at = now;
  first_pdu_created_at = s.registered_at;
  list = replicate s.segments_count none;
  count = 0;
  expected = s.segments_count;
  delivery_receipt_requested = false;
}

-- The first segment that is there.
pub first_stored : List (Option MessageSegment) → Option MessageSegment
first_stored [] = none
first_stored (none ∷ l) = first_stored l
first_stored (some s ∷ l) = some s

-- The message ID that the group's segments share: the new one where the group was empty.
pub shared_id : SegmentGroup → ℕ → ℕ
unfolding first_stored
shared_id g message_id =
    if g.count == 0
    then message_id
    else elim (first_stored g.list) [ none ↦ message_id | some s ↦ s.message_id ]

pub is_empty_slot : List (Option MessageSegment) → ℕ → Bool
is_empty_slot l i = elim (get_elem? l i) [
  | none ↦ false
  | some o ↦ elim o [ none ↦ true | some s ↦ false ]
]

-- The ID that the new segment gets; with no segment in a group that counts some it keeps its own.
pub stored_id : SegmentGroup → MessageSegment → ℕ → ℕ
unfolding first_stored
stored_id g s message_id =
    if g.count == 0
    then message_id
    else elim (first_stored g.list) [ none ↦ s.message_id | some t ↦ t.message_id ]

-- The group with the segment in its slot.
unfoldable pub store : SegmentGroup → MessageSegment → ℕ → SegmentGroup
unfolding stored_id is_empty_slot
store g s message_id = record g {
  delivery_receipt_requested = g.delivery_receipt_requested || s.delivery_receipt_requested;
  count = if is_empty_slot g.list (s.segment_seq_num - 1) then (g.count + 1) % 256 else g.count;
  list =
      set g.list (s.segment_seq_num - 1)
        (some (record s { message_id = stored_id g s message_id }));
}

pub or_receipt : SegmentGroup → MessageSegment → SegmentGroup
or_receipt g s = record g {
  delivery_receipt_requested = g.delivery_receipt_requested || s.delivery_receipt_requested;
}

module _ (lib : GoSmpp) where
  -- After the shard is unlocked: a complete group is deleted and its text decoded.
  pub finish : SegmentsManager → Bytes → SegmentGroup → ℕ → AddResult × SegmentsManager
  unfolding get_complete_message drop_group waiting
  finish m key g message_id = elim (get_complete_message lib g) [
    | none ↦ (waiting message_id, m)
    | some (msg, coding) ↦ (
      elim (decode_message lib msg coding) [
        | none ↦ record {
          message_id = message_id;
          status = status_ok;
          text = [];
          complete = true;
          receipt_requested = g.delivery_receipt_requested;
          failed = true;
        }
        | some t ↦ record {
          message_id = message_id;
          status = status_ok;
          text = t;
          complete = true;
          receipt_requested = g.delivery_receipt_requested;
          failed = false;
        }
      ],
      drop_group m key,
    )
  ]

  -- The part under the lock, on the group found or made.
  pub add_to_group :
      SegmentsManager → MessageSegment → ℕ → SegmentGroup → AddResult × SegmentsManager
  unfolding put_group store finish or_receipt refused shared_id
  add_to_group m s message_id g =
      if leb (length g.list) (s.segment_seq_num - 1)
      then (refused message_id status_inv_msg_len, put_group m s.segment_group_id (or_receipt g s))
      else finish (put_group m s.segment_group_id (store g s message_id)) s.segment_group_id
          (store g s message_id) (shared_id g message_id)

  pub add_valid : SegmentsManager → MessageSegment → ℕ → ℕ → AddResult × SegmentsManager
  unfolding find_group new_group add_to_group refused
  add_valid m s message_id now = elim (find_group m s.segment_group_id) [
    | none ↦ add_to_group m s message_id (new_group s now)
    | some g ↦
        if g.expected == s.segments_count
        then add_to_group m s message_id g
        else (refused message_id status_inv_msg_len, m)
  ]

  unfoldable pub add_segment :
      SegmentsManager → MessageSegment → Option ℕ → ℕ → AddResult × SegmentsManager
  unfolding is_invalid add_valid refused
  add_segment m s none now = (refused 0 status_sys_err, m)
  add_segment m s (some message_id) now =
      if is_invalid m s
      then (refused message_id status_inv_msg_len, m)
      else add_valid m s message_id now

-- A group that `cleanup` deletes: empty, or its first segment older than the limit.
unfoldable pub is_expired : ℕ → ℕ → SegmentGroup → Bool
unfolding first_stored
is_expired now age g = elim (first_stored g.list) [
  | none ↦ true
  | some s ↦ ltb age (now - s.registered_at)
]

-- The keys that one round of `cleanup` collects from a shard, and their deletion.
unfoldable pub expired_keys : ℕ → ℕ → List (Bytes × SegmentGroup) → List Bytes
unfolding is_expired
expired_keys now age [] = []
expired_keys now age ((k, g) ∷ r) =
    let rest = expired_keys now age r in if is_expired now age g then k ∷ rest else rest

unfoldable pub delete_keys : List Bytes → List (Bytes × SegmentGroup) → List (Bytes × SegmentGroup)
delete_keys [] groups = groups
delete_keys (k ∷ ks) groups = delete_keys ks (delete k groups)

unfoldable pub cleanup : SegmentsManager → ℕ → SegmentsManager
cleanup m now = record m {
  shards = λ i. delete_keys (expired_keys now m.max_segment_age (m.shards i)) (m.shards i);
}

unfoldable pub stop : SegmentsManager → SegmentsManager
stop m = record m { shards = λ i. [] }
