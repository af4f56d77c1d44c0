-- ===== src/Segments/Invariant.antt =====
-- What stays true of a segments manager between calls, and that every method keeps it.
use smpp_smsc.Base.{
  ℕ, ◌≡◌, subst, inl, inr, Option, none, some, List, [], ◌∷◌, Bytes, nat_eq, bytes_eq, ◌==◌,
  if◌then◌else◌, arith, Bool-cases, Option-cases,
}
use smpp_smsc.Base.Maps.{lookup, delete, lookup-delete}
use native.Mathlib.Decide.{ℕ_discrete}
use smpp_smsc.Wire.{GoSmpp}
use smpp_smsc.Segments.{
  MessageSegment, SegmentGroup, SegmentsManager, find_group, is_complete, store, shared_id,
  new_group, is_invalid, add_segment, add_to_group, cleanup, expired_keys, delete_keys, stop,
  shard_index, new_segments_manager,
}
use smpp_smsc.Segments.WellFormed.{
  Slots, GroupOk, ManagerOk, IsValid, is_invalid→IsValid, IsValid→is_invalid, new_group-Slots,
  store-GroupOk, finish-groups, finish-max, add_to_group_lem, add_segment_new, add_segment_old,
  add_segment_mismatch, add_segment_invalid, InRange,
}

-- A manager whose map differs from a good one in one group, absent or good, is good.
ManagerOk-changed :
    (m m' : SegmentsManager) (key : Bytes) (o : Option SegmentGroup)
    → ManagerOk m
    → m'.max_segments ≡ m.max_segments
    → ((j : Bytes) → find_group m' j ≡ (if key == j then o else find_group m j))
    → ((g : SegmentGroup) → o ≡ some g → GroupOk m.max_segments g)
    → ManagerOk m'
ManagerOk-changed m m' key o v e f w = record {
  at_least = rw e v.at_least;
  at_most = rw e v.at_most;
  groups = λ j g h. rw e (elim (Bool-cases (key == j)) [
    | inl hit ↦ w g (ground (arith, f j))
    | inr miss ↦ v.groups j g (ground (arith, f j))
  ]);
}

module _ (lib : GoSmpp) (m : SegmentsManager) (s : MessageSegment) (message_id : ℕ) where
  add_to_group-ManagerOk :
      (g : SegmentGroup)
      → ManagerOk m
      → Slots m.max_segments g
      → InRange m.max_segments g s message_id
      → ManagerOk (add_to_group lib m s message_id g).1
  add_to_group-ManagerOk g v w r = rw (add_to_group_lem lib m s message_id g (omega arith)) (
      ManagerOk-changed m _ s.segment_group_id _ v
        (finish-max lib m s.segment_group_id (store g s message_id) (shared_id g message_id))
        (finish-groups lib m s.segment_group_id (store g s message_id) (shared_id g message_id))
        kept)
    where
      kept :
          (g' : SegmentGroup)
          → (if is_complete (store g s message_id) then none else some (store g s message_id))
            ≡ some g'
          → GroupOk m.max_segments g'
      kept g' e = elim (Bool-cases (is_complete (store g s message_id))) [
        | inl c ↦ absurd (ground arith)
        | inr c ↦
            subst (GroupOk m.max_segments) (ground arith)
              (store-GroupOk m.max_segments g s message_id w v.at_most r c)
      ]

module _ (lib : GoSmpp) (m : SegmentsManager) (s : MessageSegment) (message_id now : ℕ)
    (v : ManagerOk m) where
  add_known-ManagerOk :
      (g : SegmentGroup)
      → IsValid m s
      → find_group m s.segment_group_id ≡ some g
      → ManagerOk (add_segment lib m s (some message_id) now).1
  add_known-ManagerOk g h e = elim (ℕ_discrete g.expected s.segments_count) [
    | yes k ↦ rw (add_segment_old lib m s message_id now g (IsValid→is_invalid m s v h) e k) (
        add_to_group-ManagerOk lib m s message_id g v (v.groups _ g e).slots
          (h.numbered, rw k h.in_range))
    | no k ↦ rw (add_segment_mismatch lib m s message_id now g (IsValid→is_invalid m s v h) e k) v
  ]

  add_unknown-ManagerOk :
      IsValid m s
      → find_group m s.segment_group_id ≡ none
      → ManagerOk (add_segment lib m s (some message_id) now).1
  unfolding new_group
  add_unknown-ManagerOk h e =
      rw (add_segment_new lib m s message_id now (IsValid→is_invalid m s v h) e) (
        add_to_group-ManagerOk lib m s message_id (new_group s now) v (new_group-Slots m s now h)
          (h.numbered, h.in_range))

-- AddSegment keeps the invariant on every input, also when the generator fails or the segment is
-- refused.
pub add_segment-ManagerOk :
    (lib : GoSmpp) (m : SegmentsManager) (s : MessageSegment) (id : Option ℕ) (now : ℕ)
    → ManagerOk m
    → ManagerOk (add_segment lib m s id now).1
add_segment-ManagerOk lib m s none now v = unfold add_segment in v
add_segment-ManagerOk lib m s (some message_id) now v = elim (Bool-cases (is_invalid m s)) [
  | inl bad ↦ rw (add_segment_invalid lib m s message_id now bad) v
  | inr good ↦ elim (Option-cases (find_group m s.segment_group_id)) [
    | inl e ↦ add_unknown-ManagerOk lib m s message_id now v (is_invalid→IsValid m s v good) e
    | inr (g, e) ↦ add_known-ManagerOk lib m s message_id now v g (is_invalid→IsValid m s v good) e
  ]
]

lookup-delete_keys :
    (ks : List Bytes) (l : List (Bytes × SegmentGroup)) (j : Bytes) (g : SegmentGroup)
    → lookup j (delete_keys ks l) ≡ some g
    → lookup j l ≡ some g
unfolding delete_keys
lookup-delete_keys [] l j g h = h
lookup-delete_keys (k ∷ ks) l j g h =
    let e : lookup j (delete k l) ≡ some g = lookup-delete_keys ks (delete k l) j g h in
    ground (arith, lookup-delete k j l)

pub cleanup-keeps :
    (m : SegmentsManager) (now : ℕ) (j : Bytes) (g : SegmentGroup)
    → find_group (cleanup m now) j ≡ some g
    → find_group m j ≡ some g
unfolding cleanup find_group
cleanup-keeps m now j g h =
    lookup-delete_keys (expired_keys now m.max_segment_age (m.shards (shard_index j)))
      (m.shards (shard_index j)) j g h

-- The cleanup of expired groups keeps the invariant.
pub cleanup-ManagerOk : (m : SegmentsManager) (now : ℕ) → ManagerOk m → ManagerOk (cleanup m now)
cleanup-ManagerOk m now v = record {
  at_least = unfold cleanup in v.at_least;
  at_most = unfold cleanup in v.at_most;
  groups = λ j g h. unfold cleanup in v.groups j g (cleanup-keeps m now j g h);
}

-- A new manager has the invariant, whatever TTL and limit are configured.
pub new_segments_manager-ManagerOk :
    (segment_ttl max_segments : ℕ) → ManagerOk (new_segments_manager segment_ttl max_segments)
unfolding new_segments_manager find_group lookup
new_segments_manager-ManagerOk segment_ttl max_segments = record {
  at_least = ground arith;
  at_most = ground arith;
  groups = λ j g h. absurd (cc);
}

pub stop-ManagerOk : (m : SegmentsManager) → ManagerOk m → ManagerOk (stop m)
unfolding stop find_group lookup
stop-ManagerOk m v = record {
  at_least = v.at_least;
  at_most = v.at_most;
  groups = λ j g h. absurd (cc);
}
