-- ===== src/Segments/Tests.antt =====
-- Runs of segments.go: a message of two parts that arrive in the wrong order, and its manager.
use smpp_smsc.Base.{ℕ, ◌+◌, ◌≤◌, ◌≡◌, refl, none, some, [], ◌∷◌, false, Bytes, arith}
use smpp_smsc.Base.Maps.{lookup}
use smpp_smsc.Text.{codes}
use smpp_smsc.Wire.Samples.{smpp34}
use smpp_smsc.Message.{decode_message}
use smpp_smsc.Segments.{
  MessageSegment, SegmentsManager, new_segments_manager, find_group, add_segment, waiting,
}
use smpp_smsc.Segments.Groups.{texts_from}
use smpp_smsc.Segments.WellFormed.{ManagerOk}
use smpp_smsc.Segments.Invariant.{new_segments_manager-ManagerOk, add_segment-ManagerOk}
use smpp_smsc.Segments.Held.{completed}
use smpp_smsc.Segments.Delivery.{arrive, arrive-completes, arrive-waits}

abbrev manager : SegmentsManager
manager = new_segments_manager 0 10

abbrev key : Bytes
key = codes "A|B|7"

abbrev texts : ℕ → Bytes
texts n = (n + 64) ∷ []

abbrev part : ℕ → MessageSegment
part k = record {
  message_id = 0;
  segment_group_id = key;
  message_ref_num = 7;
  segment_seq_num = k;
  segments_count = 2;
  text = texts k;
  encoding = 0;
  registered_at = 1;
  delivery_receipt_requested = false;
}

manager-ManagerOk : ManagerOk manager
manager-ManagerOk = new_segments_manager-ManagerOk 0 10

no_group : find_group manager key ≡ none
unfolding find_group new_segments_manager lookup
no_group = refl

room_for_two : 2 ≤ manager.max_segments
unfolding new_segments_manager
room_for_two = omega arith

arrive-completes_example :
    ((add_segment smpp34 (arrive smpp34 5 manager ((part 2, 41) ∷ [])) (part 1) (some 42) 5).0
      ≡ completed 41 false (decode_message smpp34 (texts_from texts 0 2) 0))
    × (find_group
          (add_segment smpp34 (arrive smpp34 5 manager ((part 2, 41) ∷ [])) (part 1) (some 42) 5).1
          key
        ≡ none)
arrive-completes_example =
    arrive-completes smpp34 texts 0 key 2 5 manager ((part 2, 41) ∷ []) (part 1) 42
      manager-ManagerOk no_group (omega arith) room_for_two
      (
        record {
          group = refl;
          of = refl;
          from_one = omega arith;
          to_n = omega arith;
          text = refl;
          encoded = refl;
        },
        tt,
      )
      (record {
        group = refl;
        of = refl;
        from_one = omega arith;
        to_n = omega arith;
        text = refl;
        encoded = refl;
      })
      (tt, tt) (λ e. absurd (omega (arith, e)), tt) refl

arrive-waits_example :
    (add_segment smpp34 (arrive smpp34 5 manager []) (part 2) (some 41) 5).0 ≡ waiting 41
arrive-waits_example =
    arrive-waits smpp34 texts 0 key 2 5 manager [] (part 2) 41 manager-ManagerOk no_group
      (omega arith) room_for_two tt
      (record {
        group = refl;
        of = refl;
        from_one = omega arith;
        to_n = omega arith;
        text = refl;
        encoded = refl;
      })
      tt tt (omega arith)

add_segment-ManagerOk_example : ManagerOk (add_segment smpp34 manager (part 2) (some 41) 5).1
add_segment-ManagerOk_example =
    add_segment-ManagerOk smpp34 manager (part 2) (some 41) 5 manager-ManagerOk
