-- ===== src/Session/Tests.antt =====
-- Runs of session.go with the default handler.
use smpp_smsc.Base.{
  ℕ, ◌≤◌, ◌<◌, ◌≡◌, ◌≢◌, ◌⊎◌, refl, sym, ◌∙◌, true, false, none, some, [], ◌∷◌, Bytes, nat_eq,
  bytes_eq, ◌==◌, length, arith,
}
use smpp_smsc.Base.Maps.{lookup}
use smpp_smsc.Text.{codes}
use smpp_smsc.Wire.Samples.{smpp34}
use smpp_smsc.Wire.Constants.{status_ok}
use smpp_smsc.Types.{get_tlv_uint16, transceiver, PendingRequest, SmppResponse, SubmitSmParams}
use smpp_smsc.Charset.{calc_segments}
use smpp_smsc.Message.{
  decode_message, decode_body, strip_udh, effective_coding, decode_by, all_seven_bit, guess_ucs2,
}
use smpp_smsc.Session.{
  Session, message, pending_key_eq, load_pending, register, max_int, get_next_sequence,
  max_sequence,
}
use smpp_smsc.Session.Samples.{idle, sample_packet, moment, esme, submit}
use smpp_smsc.Session.Handler.{Handler, default_handler}
use smpp_smsc.Session.Parse.{
  group_prefix, finish_parse, panicked, parsed, parse_submit_sm, parse_bind_params, octet_of,
  add_payload_segment, add_sar_segment, add_udh_segment, blank_segment, is_supported, coding_of,
}
use smpp_smsc.Session.Parse.Segmentation.{segment_encoding, parse_submit_sm-parsed}
use smpp_smsc.Session.Submit.{accept, try_replace_previous_submit, make_replace_submit_key}
use smpp_smsc.Session.Submit.Outcome.{accept_lem}
use smpp_smsc.Session.Submit.Replace.{IsCString, make_replace_submit_key-injective}
use smpp_smsc.Session.Dispatch.{process_pdu, handle_bind_request}
use smpp_smsc.Segments.{MessageSegment}
use smpp_smsc.Session.Parse.GroupNames.{HasNoBar, group_name, group_name-injective}
use smpp_smsc.Session.Sound.Samples.{default_handler-IsQuiet}
use smpp_smsc.Session.Dispatch.Answers.{HasRoom}
use smpp_smsc.Session.Dispatch.Replies.{AnsweredBy, process_pdu-AnsweredBy}
use smpp_smsc.Session.Dispatch.Binding.{handle_bind_request_lem}
use smpp_smsc.Session.Sequence.{after_calls, after_calls_distinct}

abbrev digest : Bytes → Bytes
digest d = d

idle-HasRoom : HasRoom idle
unfolding max_int
idle-HasRoom = record { still_open = refl; room = ground arith }

abbrev read : SubmitSmParams
read = record (submit 0) { service_type = []; registered_delivery = 0 }

submit_reads : parse_submit_sm smpp34 digest 9 (sample_packet 4) ≡ parsed read
unfolding parse_submit_sm decode_message decode_body strip_udh effective_coding decode_by
    all_seven_bit guess_ucs2 lookup octet_of add_payload_segment add_sar_segment add_udh_segment
    blank_segment get_tlv_uint16
submit_reads = refl

submit_parses : parse_submit_sm smpp34 digest 9 (sample_packet 4) ≢ panicked
submit_parses e = let f : parsed read ≡ panicked = sym submit_reads ∙ e in absurd (cc)

process_pdu-AnsweredBy_example :
    AnsweredBy
      ((sample_packet 4).id == smpp34.replace_sm_id)
      77
      idle
      (process_pdu smpp34 default_handler digest moment (sample_packet 4) idle)
process_pdu-AnsweredBy_example =
    process_pdu-AnsweredBy smpp34 default_handler digest moment (sample_packet 4) idle
      default_handler-IsQuiet idle-HasRoom refl refl (λ e. submit_parses)

reads_bind : parse_bind_params smpp34 (sample_packet 9) ≡ some esme
unfolding parse_bind_params
reads_bind = refl

handle_bind_request_lem_example :
    let u =
      handle_bind_request smpp34
        (sample_packet 9)
        transceiver
        (λ p s. (status_ok, false, s))
        0x80000009
        idle in
    (u.bound ≡ true)
    × (u.authenticated ≡ true)
    × (u.system_id ≡ codes "esme")
    × (u.binding_type ≡ transceiver)
handle_bind_request_lem_example =
    handle_bind_request_lem smpp34 (sample_packet 9) transceiver (λ p s. (status_ok, false, s))
      0x80000009 idle esme status_ok false idle reads_bind refl

abbrev refusal : SmppResponse
refusal = record { msg = []; status = 8 }

abbrev refuser : Handler
refuser = record default_handler { handle_submit_sm = λ p s. (some refusal, s) }

not_replaced :
    refuser.handle_submit_sm (submit 0) (try_replace_previous_submit (submit 0) idle)
    ≡ (some refusal, idle)
unfolding try_replace_previous_submit
not_replaced = refl

accept_lem_example :
    let a = accept smpp34 refuser (submit 0) 1000 true 9 idle in
    let entry : PendingRequest = record {
      segments_count = calc_segments 0 (codes "hi");
      registered_delivery = 1;
      created_at = 9;
    } in
    ((a.0).failed ≡ true)
    × ((a.0).message_id ≡ 1000)
    × (lookup (make_replace_submit_key (submit 0)) (a.1).replace_submit_last
        ≡ lookup (make_replace_submit_key (submit 0)) [])
    × (load_pending a.1 (message 1000) ≡ some entry)
    × ((a.1).routes ≡ register 1000 ∷ [])
accept_lem_example =
    accept_lem smpp34 refuser (submit 0) 1000 true 9 idle idle refusal not_replaced
      (λ e. absurd (omega (arith, e)))

parse_submit_sm-parsed_example :
    (0 < length (codes "100"))
    × (0 < length (codes "200"))
    × (is_supported smpp34 digest 0 ≡ true)
    × (0 ≡ coding_of smpp34 digest (sample_packet 4))
    × (read.seq_num ≡ (sample_packet 4).seq)
    × (segment_encoding none ≡ 0)
parse_submit_sm-parsed_example =
    parse_submit_sm-parsed smpp34 digest 9 (sample_packet 4) read submit_reads

cmt : IsCString (codes "CMT")
cmt = ground arith

hundred : IsCString (codes "100")
hundred = ground arith

two_hundred : IsCString (codes "200")
two_hundred = ground arith

same_key : make_replace_submit_key (submit 0) ≡ make_replace_submit_key (submit 1)
unfolding make_replace_submit_key
same_key = refl

make_replace_submit_key-injective_example :
    (codes "CMT" ≡ codes "CMT")
    × (codes "100" ≡ codes "100")
    × (codes "200" ≡ codes "200")
    × ((submit 0).sm_default_msg_id ≡ (submit 1).sm_default_msg_id)
make_replace_submit_key-injective_example =
    make_replace_submit_key-injective (submit 0) (submit 1) cmt cmt hundred hundred two_hundred
      two_hundred same_key

after_calls_distinct_example :
    ((get_next_sequence (after_calls 1 idle)).0 ≢ (get_next_sequence (after_calls 4 idle)).0)
    × (0 < (get_next_sequence (after_calls 1 idle)).0)
    × ((get_next_sequence (after_calls 1 idle)).0 ≤ max_sequence)
after_calls_distinct_example =
    after_calls_distinct idle 1 4 (omega arith) (omega arith) (omega arith)

-- A session in which the submit of message 900 was the last accepted one on its route.
abbrev earlier : Session
earlier = record idle {
  replace_submit_last = (make_replace_submit_key (submit 1), 900) ∷ [];
  pending_requests =
      (message 900, record { segments_count = 1; registered_delivery = 1; created_at = 3 }) ∷ [];
}

-- Two parts of a message, the second of which names the same group.
abbrev piece : ℕ → MessageSegment
piece k = record {
  message_id = 0;
  segment_group_id = [];
  message_ref_num = 7;
  segment_seq_num = k;
  segments_count = 2;
  text = [];
  encoding = 0;
  registered_at = 1;
  delivery_receipt_requested = false;
}

hundred_no_bar : HasNoBar (codes "100")
hundred_no_bar = ground arith

two_hundred_no_bar : HasNoBar (codes "200")
two_hundred_no_bar = ground arith

-- A submit_sm with such a part.
abbrev submit_part : ℕ → ℕ → SubmitSmParams
submit_part flag k = record (submit flag) { segment = some (piece k) }

same_name :
    group_name (finish_parse smpp34 digest (submit_part 0 1))
    ≡ group_name (finish_parse smpp34 digest (submit_part 1 2))
unfolding finish_parse group_prefix
same_name = refl

group_name-injective_example :
    (((submit_part 0 1).source_addr ≡ (submit_part 1 2).source_addr)
      × ((submit_part 0 1).dest_addr ≡ (submit_part 1 2).dest_addr)
      × ((piece 1).message_ref_num ≡ (piece 2).message_ref_num))
    ⊎ ((x : Bytes) × (y : Bytes) × (x ≢ y) × (digest x ≡ digest y))
group_name-injective_example =
    group_name-injective smpp34 digest (submit_part 0 1) (submit_part 1 2) (piece 1) (piece 2) refl
      refl (omega arith) (omega arith) hundred_no_bar hundred_no_bar two_hundred_no_bar
      two_hundred_no_bar same_name
