-- ===== src/Deliver/Tests.antt =====
-- Runs of the deliver_sm side of server.go.
use smpp_smsc.Base.{
  ℕ, ◌+◌, ◌*◌, ◌/◌, ◌≡◌, ◌≤◌, ◌↔◌, refl, Bool, true, false, Option, none, some, [], ◌∷◌, ◌++◌,
  Bytes, nat_eq, ltb, if◌then◌else◌, length, arith,
}
use smpp_smsc.Base.Maps.{lookup}
use smpp_smsc.Text.{codes}
use smpp_smsc.Wire.Samples.{smpp34}
use smpp_smsc.Types.{
  transceiver, PendingRequest, should_send_delivery_receipt, sent, skipped_no_receipt, is_receiver,
}
use smpp_smsc.Message.{parse_udh}
use smpp_smsc.Session.{Session, message, pending_key_eq, load_pending, max_int, get_next_sequence}
use smpp_smsc.Session.Samples.{idle}
use smpp_smsc.Deliver.{
  DeliverSmParams, DeliverResult, delivered, pending_not_found, create_deliver_sm_pdu,
}
use smpp_smsc.Deliver.Segmented.{
  part_message, split_text_into_segments, send_segmented_deliver_sm, cut_text,
}
use smpp_smsc.Deliver.Split.{IsSplitBy, char_bits, split_text_into_segments-IsSplitBy}
use smpp_smsc.Deliver.Parts.{Counted, parse_udh-part_message, send_segmented_deliver_sm-Counted}
use smpp_smsc.Deliver.Report.{Request, report_on, receipt_params}
use smpp_smsc.Deliver.Once.{report_once}
use smpp_smsc.Deliver.Queues.{report_queues}

split_text_into_segments-IsSplitBy_example :
    IsSplitBy
      (140 * 8 / char_bits smpp34 0)
      (134 * 8 / char_bits smpp34 0)
      (codes "hello")
      (split_text_into_segments smpp34 (codes "hello") 0)
split_text_into_segments-IsSplitBy_example =
    split_text_into_segments-IsSplitBy smpp34 (codes "hello") 0

parse_udh-part_message_example :
    (parse_udh (part_message 258 3 1 (codes "hi"))
      ≡ some (record { message_ref = 258; total_segments = 3; segment_number = 2 }))
    × (length (part_message 258 3 1 (codes "hi")) ≤ 255)
parse_udh-part_message_example =
    parse_udh-part_message 258 3 1 (codes "hi") (omega arith) (omega arith) (omega arith)

-- A link that takes every PDU and counts them.
abbrev count_up : Bool → DeliverSmParams → ℕ → DeliverResult × ℕ
count_up expired p n = (delivered n, n + 1)

abbrev as_is : Bytes → ℕ → Option Bytes
as_is t data_coding = some t

send_segmented_deliver_sm-Counted_example :
    let r =
      send_segmented_deliver_sm smpp34 count_up
        (λ t. 0)
        as_is
        (λ n. false)
        200
        7
        (codes "s1")
        (codes "100")
        (codes "200")
        (codes "hello")
        5 in
    Counted (length (split_text_into_segments smpp34 (cut_text 200 (codes "hello")) 0)) r.0 r.1
send_segmented_deliver_sm-Counted_example =
    send_segmented_deliver_sm-Counted smpp34 count_up as_is (λ n. false) (λ t. 0) 200 7 (codes "s1")
      (codes "100") (codes "200") (codes "hello") 5

abbrev waiting_one : PendingRequest
waiting_one = record { segments_count = 1; registered_delivery = 1; created_at = 5 }

abbrev waiting : Session
waiting = record idle {
  bound = true;
  binding_type = transceiver;
  pending_requests = (message 1000, waiting_one) ∷ [];
}

abbrev request : Request
request = record {
  source = codes "200";
  dest = codes "100";
  message_id = codes "1000";
  internal_id = 1000;
  success = true;
  receipt_text = [];
  expired = false;
}

abbrev trim : Bytes → Bytes
trim t = t

waiting_loads : load_pending waiting (message 1000) ≡ some waiting_one
unfolding load_pending lookup
waiting_loads = refl

receives : is_receiver waiting.binding_type ≡ true
unfolding is_receiver
receives = refl

has_room : ltb (length waiting.pdu_queue) (max_int 64 waiting.cfg.window_size) ≡ true
unfolding max_int
has_room = ground arith

report_queues_example :
    let wanted = should_send_delivery_receipt 1 true in
    let receipt =
      create_deliver_sm_pdu smpp34
        (receipt_params smpp34 trim 9 9 request waiting_one)
        (get_next_sequence waiting).0 in
    let r = report_on smpp34 trim 9 9 request waiting in
    (r.1 ≡ none)
    × (r.2.pdu_queue ≡ (if wanted then waiting.pdu_queue ++ receipt ∷ [] else waiting.pdu_queue))
    × ((r.0 ≡ sent) ↔ (wanted ≡ true))
report_queues_example =
    report_queues smpp34 trim 9 9 request waiting_one waiting refl receives waiting_loads refl refl
      has_room

no_error : (report_on smpp34 trim 9 9 request waiting).1 ≡ none
no_error =
    (report_queues smpp34 trim 9 9 request waiting_one waiting refl receives waiting_loads refl refl
      has_room).0

report_once_example :
    report_on smpp34 trim 9 9 request (report_on smpp34 trim 9 9 request waiting).2
    ≡ (skipped_no_receipt, some pending_not_found, (report_on smpp34 trim 9 9 request waiting).2)
report_once_example = report_once smpp34 trim 9 9 request request waiting refl no_error

abbrev sender : Session
sender = record idle { bound = true; binding_type = transceiver }
