-- ===== src/Segments/Assembly.antt =====
-- The segments of one message, in any order of arrival, give its text exactly once.
use smpp_smsc.Base.{
  ℕ, ◌+◌, ◌-◌, ◌<◌, ◌≡◌, refl, sym, ap, ◌∙◌, true, ◌||◌, none, some, Bytes, nat_eq, bytes_eq,
  bytes_beq_iff, ◌==◌, if◌then◌else◌, set, arith,
}
use native.Mathlib.Decide.{ℕ_discrete}
use smpp_smsc.Wire.{GoSmpp}
use smpp_smsc.Message.{decode_message}
use smpp_smsc.Segments.{
  MessageSegment, SegmentGroup, SegmentsManager, find_group, put_group, is_complete, all_present,
  is_empty_slot, store, stored_id, shared_id, add_segment, finish, waiting,
}
use smpp_smsc.Segments.Groups.{
  Each, Each-set, Piece, texts_from, join_texts-Each, group_encoding-Each, count_present,
}
use smpp_smsc.Segments.WellFormed.{
  InRange, store-count, store_complete, finish-groups, finish-max, add_to_group_lem,
  is_complete-count, is_complete→all_present,
}
use smpp_smsc.Segments.Invariant.{add_segment-ManagerOk}
use smpp_smsc.Segments.Held.{
  slots_at, receipt_at, completed, finish_waits, finish_completes, Part, Run, Works, Works-on,
  shared_id_lem,
}

module _ (lib : GoSmpp) (t : ℕ → Bytes) (coding id : ℕ) (key : Bytes) (n : ℕ) where
  module _ (m : SegmentsManager) (f : ℕ) (s : MessageSegment) (new now : ℕ) where
    -- One more segment, in a slot that is still empty.
    pub record Arrival : Type 0 where
      pub run : Run lib t coding id key n m f
      pub part : Part t coding key n s
      pub empty : is_empty_slot (slots_at m key n) (s.segment_seq_num - 1) ≡ true
      pub first : f ≡ 0 → new ≡ id

    abbrev after : SegmentsManager
    after = (add_segment lib m s (some new) now).1

    -- The stored group of a call.
    Stored : SegmentGroup → Type 0
    Stored g =
        (add_segment lib m s (some new) now
          ≡ finish lib (put_group m s.segment_group_id g) s.segment_group_id g id)
        × (g.expected ≡ n)
        × (g.count ≡ f + 1)
        × (g.list
            ≡ set (slots_at m key n) (s.segment_seq_num - 1) (some (record s { message_id = id })))
        × (g.delivery_receipt_requested ≡ (receipt_at m key || s.delivery_receipt_requested))
        × (is_complete g ≡ (f + 1 == n))
        × (count_present g.list ≡ f + 1)

    module _ (a : Arrival) (g : SegmentGroup) (w : Works lib t coding id key n m s new now g) where
      held_count : g.count ≡ f
      unfolding Works
      held_count = sym w.1.counted ∙ ap count_present w.3 ∙ a.run.held

      in_range : InRange m.max_segments g s new
      unfolding Works
      in_range = (a.part.from_one, rw w.2 a.part.to_n)

      ids : (shared_id g new ≡ id) × (stored_id g s new ≡ id)
      unfolding Works
      ids = shared_id_lem lib t coding id key n m f g s new a.run w.3 held_count a.first

      stores_count : (store g s new).count ≡ f + 1
      unfolding Works
      stores_count =
          let free : is_empty_slot g.list (s.segment_seq_num - 1) ≡ true =
            ap (λ l. is_empty_slot l (s.segment_seq_num - 1)) w.3 ∙ a.empty in
          ground (
            arith,
            (store-count m.max_segments g s new w.1 a.run.ok.at_most in_range).1,
            held_count,
          )

      stores_complete : is_complete (store g s new) ≡ (f + 1 == n)
      unfolding Works
      stores_complete = elim (ℕ_discrete (f + 1) n) [
        | yes last ↦
            store_complete m.max_segments g s new w.1 a.run.ok.at_most in_range
              (stores_count ∙ last ∙ sym w.2)
            ∙ ground arith
        | no more ↦
            is_complete-count (store g s new)
              (λ e. more (sym stores_count ∙ e ∙ unfold store in w.2))
            ∙ ground arith
      ]

      stores_list :
          (store g s new).list
          ≡ set (slots_at m key n) (s.segment_seq_num - 1) (some (record s { message_id = id }))
      unfolding Works store
      stores_list =
          ap (λ k. set g.list (s.segment_seq_num - 1) (some (record s { message_id = k }))) ids.1
          ∙ ap (λ l. set l (s.segment_seq_num - 1) (some (record s { message_id = id }))) w.3

      stores_works : Stored (store g s new)
      unfolding Stored Works
      stores_works = (
        w.0
            ∙ add_to_group_lem lib m s new g (omega (arith, w.1.sized, in_range.0, in_range.1))
            ∙ ap
                (finish lib (put_group m s.segment_group_id (store g s new)) s.segment_group_id
                  (store g s new))
                ids.0,
        unfold store in w.2,
        stores_count,
        stores_list,
        unfold store in ap (λ b. b || s.delivery_receipt_requested) w.4,
        stores_complete,
        (store-count m.max_segments g s new w.1 a.run.ok.at_most in_range).0 ∙ stores_count,
      )

    stores : Arrival → (g : SegmentGroup) × Stored g
    stores a =
        let (g, w) = Works-on lib t coding id key n m f s new now a.run a.part in
        (store g s new, stores_works a g w)

    group_id_eq : Part t coding key n s → (s.segment_group_id == key) ≡ true
    group_id_eq p = (bytes_beq_iff s.segment_group_id key).1 p.group

    module _ (a : Arrival) (g : SegmentGroup) (w : Stored g) where
      after_eq : (add_segment lib m s (some new) now).1 ≡ after
      after_eq = refl

      found_after : find_group after key ≡ (if f + 1 == n then none else some g)
      unfolding Stored
      found_after =
          ap (λ x. find_group x.1 key) w.0
          ∙ finish-groups lib m s.segment_group_id g id key
          ∙ rw (group_id_eq a.part, w.5)

      max_after : after.max_segments ≡ m.max_segments
      unfolding Stored
      max_after = ap (λ x. x.1.max_segments) w.0 ∙ finish-max lib m s.segment_group_id g id

      pieces_after : Each (Piece t coding id) 0 g.list
      unfolding Stored
      pieces_after = rw w.3 (
          Each-set (Piece t coding id) 0 (slots_at m key n) (s.segment_seq_num - 1)
            s.segment_seq_num (record s { message_id = id }) (omega (arith, a.part.from_one))
            (a.part.text, a.part.encoded, refl) a.run.pieces)

      Run-after : f + 1 < n → Run lib t coding id key n after (f + 1)
      unfolding Stored
      Run-after h = record {
        ok = add_segment-ManagerOk lib m s (some new) now a.run.ok;
        allowed = rw max_after a.run.allowed;
        fits = λ g' e. ap (λ (x : SegmentGroup). x.expected) (same g' e) ∙ w.1;
        held = rw (found, slots_at) w.6;
        pieces = rw (found, slots_at) pieces_after;
      }
        where
          found : find_group after key ≡ some g
          found = found_after ∙ ground arith

          same : (g' : SegmentGroup) → find_group after key ≡ some g' → g' ≡ g
          same g' e = let k : some g' ≡ some g = sym e ∙ found in cc

      waits_result : f + 1 < n → (add_segment lib m s (some new) now).0 ≡ waiting id
      unfolding Stored
      waits_result h =
          ap (λ x. x.0) (w.0 ∙ finish_waits lib _ s.segment_group_id g id (w.5 ∙ ground arith))

      completes_result :
          f + 1 ≡ n
          → (add_segment lib m s (some new) now).0
            ≡ completed id (receipt_at m key || s.delivery_receipt_requested) (
                decode_message lib
                  (texts_from t 0 n)
                  (if coding == lib.ucs2_type then lib.ucs2_type else lib.default_type))
      unfolding Stored
      completes_result h =
          ap (λ x. x.0) (w.0 ∙ finish_completes lib _ s.segment_group_id g id full)
          ∙ rw (
            w.4,
            join_texts-Each t coding id g.expected 0 g.list present pieces_after,
            group_encoding-Each t coding id lib g.expected 0 g.list present pieces_after
                (rw w.1 (omega (arith, a.run.allowed.0))),
            w.1,
          )
        where
          full : is_complete g ≡ true
          full = w.5 ∙ ground arith

          present : all_present g.expected g.list ≡ true
          present = is_complete→all_present g full

    -- With more segments to come the call answers with the ID alone, and the segment is in its slot.
    pub waits :
        Arrival
        → f + 1 < n
        → ((add_segment lib m s (some new) now).0 ≡ waiting id)
          × (slots_at after key n
              ≡ set
                  (slots_at m key n)
                  (s.segment_seq_num - 1)
                  (some (record s { message_id = id })))
          × (receipt_at after key ≡ (receipt_at m key || s.delivery_receipt_requested))
          × Run lib t coding id key n after (f + 1)
    unfolding Stored
    waits a h =
        let (g, w) = stores a in
        let found : find_group after key ≡ some g = found_after a g w ∙ ground arith in
        (
          waits_result a g w h,
          rw (found, slots_at) w.3,
          rw (found, receipt_at) w.4,
          Run-after a g w h,
        )

    -- The last segment completes the message: the text is decoded from all the parts in order, and
    -- the group is gone.
    pub completes :
        Arrival
        → f + 1 ≡ n
        → ((add_segment lib m s (some new) now).0
            ≡ completed id (receipt_at m key || s.delivery_receipt_requested) (
                decode_message lib
                  (texts_from t 0 n)
                  (if coding == lib.ucs2_type then lib.ucs2_type else lib.default_type)))
          × (find_group after key ≡ none)
    completes a h =
        let (g, w) = stores a in (completes_result a g w h, found_after a g w ∙ ground arith)
