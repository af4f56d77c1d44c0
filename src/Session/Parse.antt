-- ===== src/Session/Parse.antt =====
-- internal/smsc/session.go: the parameters of a request from its PDU (`parseBindParams`,
-- `parseSubmitSM`, `fillSegmentGroupID`, `parseQuerySM`, `parseReplaceSM`). `digest` is the hex form
-- of an MD5 sum, which the code takes from the standard library.
pub mod Segmentation
pub mod GroupNames
use smpp_smsc.Base.{
  ℕ, zero, suc, ◌+◌, ◌%◌, Bool, true, false, not, ◌&&◌, ◌||◌, Option, none, some, List, [], ◌∷◌,
  ◌++◌, Bytes, nat_eq, bytes_eq, ltb, ◌==◌, if◌then◌else◌, length, get_or, drop, is_some,
}
use mathlib.Core.Option
use smpp_smsc.Base.Decimal.{decimal}
use smpp_smsc.Base.Maps.{lookup}
use smpp_smsc.Text.{codes}
use smpp_smsc.Wire.{GoSmpp, Packet, Field, FieldName, Udh, fixed, sm, udh_list, variable}
use smpp_smsc.Wire.Constants.{
  status_ok, status_inv_src_adr, status_inv_dst_adr, status_inv_data_coding,
}
use smpp_smsc.Types.{SubmitSmParams, QuerySmParams, ReplaceSmParams, get_message, get_tlv_uint16}
use smpp_smsc.Message.{UdhInfo, parse_udh, decode_message}
use smpp_smsc.Segments.{MessageSegment}

pub record BindParams : Type 0 where
  pub system_id : Bytes
  pub password : Bytes
  pub system_type : Option Bytes

-- The text of a field that may be missing.
unfoldable pub text_of : GoSmpp → Packet → FieldName → Option Bytes
text_of lib pkt name = Option.map lib.field_string (pkt.fields name)

-- The octet of a *Fixed field, and 0 for any other or none.
unfoldable pub fixed_value : Option Field → ℕ
fixed_value none = 0
fixed_value (some (fixed v)) = v
fixed_value (some (sm d)) = 0
fixed_value (some (udh_list l)) = 0
fixed_value (some (variable d)) = 0

unfoldable pub octet_of : Packet → FieldName → ℕ
unfolding fixed_value
octet_of pkt name = fixed_value (pkt.fields name)

unfoldable pub sm_value : Option Field → Bytes
sm_value none = []
sm_value (some (fixed v)) = []
sm_value (some (sm d)) = d
sm_value (some (udh_list l)) = []
sm_value (some (variable d)) = []

unfoldable pub udh_value : Option Field → List Udh
udh_value none = []
udh_value (some (fixed v)) = []
udh_value (some (sm d)) = []
udh_value (some (udh_list l)) = l
udh_value (some (variable d)) = []

unfoldable pub parse_bind_params : GoSmpp → Packet → Option BindParams
unfolding text_of
parse_bind_params lib pkt = elim (text_of lib pkt FieldName.system_id) [
  | none ↦ none
  | some system_id ↦ elim (text_of lib pkt FieldName.password) [
    | none ↦ none
    | some password ↦ some (record {
      system_id = system_id;
      password = password;
      system_type = text_of lib pkt FieldName.system_type;
    })
  ]
]

-- `panicked` is the call of a method on a field that is nil.
pub data ParseResult : Type 0 where
  panicked : ParseResult
  rejected : ℕ → ParseResult
  parsed : SubmitSmParams → ParseResult

-- A segment with every field zero but the time.
unfoldable pub blank_segment : ℕ → MessageSegment
blank_segment now = record {
  message_id = 0;
  segment_group_id = [];
  message_ref_num = 0;
  segment_seq_num = 0;
  segments_count = 0;
  text = [];
  encoding = 0;
  registered_at = now;
  delivery_receipt_requested = false;
}

-- One element of the user data header: an 8-bit or a 16-bit reference, total and number.
unfoldable pub read_element : ℕ → Bytes → MessageSegment → MessageSegment
read_element iei (a ∷ b ∷ c ∷ []) s =
    if iei == 0x00
    then record s { message_ref_num = a; segments_count = b; segment_seq_num = c }
    else s
read_element iei (a ∷ b ∷ c ∷ d ∷ []) s =
    if iei == 0x08
    then record s { message_ref_num = b; segments_count = c; segment_seq_num = d }
    else s
read_element iei other s = s

unfoldable pub read_udh : List Udh → MessageSegment → MessageSegment
unfolding read_element
read_udh [] s = s
read_udh (u ∷ r) s = read_udh r (read_element u.iei u.ie_data s)

-- The segment that the GSM user data names, if its numbers make sense.
unfoldable pub add_udh_segment : ℕ → Packet → SubmitSmParams → SubmitSmParams
unfolding read_udh udh_value
add_udh_segment now pkt p =
    let seg =
      read_udh (udh_value (pkt.fields FieldName.gsm_user_data))
        (record (blank_segment now) { text = get_message p }) in
    if ltb 1 seg.segments_count && ltb 0 seg.segment_seq_num
    then record p { segment = some seg }
    else p

unfoldable pub segment_or_blank : ℕ → Option MessageSegment → MessageSegment
segment_or_blank now none = blank_segment now
segment_or_blank now (some s) = s

-- A uint8 taken from a TLV, or the value before.
unfoldable pub byte_or : Option ℕ → ℕ → ℕ
byte_or none old = old
byte_or (some v) old = v % 256

unfoldable pub sar_segment : GoSmpp → SubmitSmParams → ℕ → MessageSegment → MessageSegment
unfolding byte_or
sar_segment lib p ref s = record s {
  message_ref_num = ref % 256;
  segments_count = byte_or (get_tlv_uint16 p lib.tag_sar_total_segments) s.segments_count;
  segment_seq_num = byte_or (get_tlv_uint16 p lib.tag_sar_segment_seqnum) s.segment_seq_num;
  text = get_message p;
}

unfoldable pub add_sar_segment : GoSmpp → ℕ → SubmitSmParams → SubmitSmParams
unfolding sar_segment segment_or_blank
add_sar_segment lib now p = elim (get_tlv_uint16 p lib.tag_sar_msg_ref_num) [
  | none ↦ p
  | some ref ↦ record p { segment = some (sar_segment lib p ref (segment_or_blank now p.segment)) }
]

-- The header found at the front of a message_payload.
unfoldable pub payload_segment : ℕ → SubmitSmParams → UdhInfo → SubmitSmParams
payload_segment now p u =
    if ltb 1 u.total_segments && ltb 0 u.segment_number
    then record p {
      segment = some (record (blank_segment now) {
        message_ref_num = u.message_ref % 256;
        segments_count = u.total_segments % 256;
        segment_seq_num = u.segment_number % 256;
        text = drop (get_or p.message_payload 0 0 + 1) p.message_payload;
      });
    }
    else p

unfoldable pub add_payload_segment : ℕ → SubmitSmParams → SubmitSmParams
unfolding payload_segment
add_payload_segment now p =
    if p.with_payload && (not (is_some p.segment) && ltb 0 (length p.message_payload))
    then elim (parse_udh p.message_payload) [ none ↦ p | some u ↦ payload_segment now p u ]
    else p

-- The name of a group before it is hashed.
unfoldable pub group_prefix : SubmitSmParams → MessageSegment → Bytes
group_prefix p s =
    if ltb 1 s.segments_count
    then p.source_addr ++ (codes "|" ++ (p.dest_addr ++ (codes "|" ++ decimal s.message_ref_num)))
    else p.source_addr ++ (codes "|" ++ p.dest_addr)

module _ (lib : GoSmpp) (digest : Bytes → Bytes) where
  unfoldable pub finish_parse : SubmitSmParams → ParseResult
  finish_parse p = elim p.segment [
    | none ↦ elim (decode_message lib p.short_message p.data_coding) [
      | none ↦ rejected status_inv_data_coding
      | some t ↦ parsed (record p { text = t })
    ]
    | some s ↦
        parsed
          (record p { segment = some (record s { segment_group_id = digest (group_prefix p s) }) })
  ]

  unfoldable pub add_segments : ℕ → Packet → SubmitSmParams → SubmitSmParams
  add_segments now pkt p =
      add_payload_segment now (add_sar_segment lib now (add_udh_segment now pkt p))

  unfoldable pub coding_of : Packet → ℕ
  coding_of pkt =
      let c = octet_of pkt FieldName.data_coding in if c == 0 then lib.default_type else c

  unfoldable pub is_supported : ℕ → Bool
  is_supported c =
      c == lib.default_type || c == lib.ucs2_type || c == lib.latin1_type || c == lib.iso88595_type

  unfoldable pub payload_of : Packet → Bytes
  payload_of pkt = elim (lookup lib.tag_message_payload pkt.tlvs) [ none ↦ [] | some v ↦ v ]

  unfoldable pub with_octets :
      ℕ → Packet → (service_type source dest schedule validity : Bytes) → SubmitSmParams
  unfolding coding_of payload_of sm_value
  with_octets now pkt service_type source dest schedule validity = record {
    message_id = 0;
    service_type = service_type;
    source_addr_ton = octet_of pkt FieldName.source_addr_ton;
    source_addr_npi = octet_of pkt FieldName.source_addr_npi;
    source_addr = source;
    dest_addr_ton = octet_of pkt FieldName.dest_addr_ton;
    dest_addr_npi = octet_of pkt FieldName.dest_addr_npi;
    dest_addr = dest;
    esm_class = octet_of pkt FieldName.esm_class;
    protocol_id = octet_of pkt FieldName.protocol_id;
    priority_flag = octet_of pkt FieldName.priority_flag;
    schedule_delivery_time = schedule;
    validity_period = validity;
    registered_delivery = octet_of pkt FieldName.registered_delivery;
    replace_if_present_flag = octet_of pkt FieldName.replace_if_present_flag;
    data_coding = coding_of pkt;
    sm_default_msg_id = octet_of pkt FieldName.sm_default_msg_id;
    seq_num = pkt.seq;
    short_message = sm_value (pkt.fields FieldName.short_message);
    text = [];
    with_payload = ltb 0 (length (payload_of pkt));
    message_payload = payload_of pkt;
    segment = none;
    tlv_params = pkt.tlvs;
  }

  unfoldable pub check_submit :
      ℕ → Packet → (service_type source dest schedule validity : Bytes) → ParseResult
  unfolding finish_parse add_segments is_supported with_octets
  check_submit now pkt service_type source dest schedule validity =
      if length source == 0
      then rejected status_inv_src_adr
      else if length dest == 0
      then rejected status_inv_dst_adr
      else if not (is_supported (coding_of pkt))
      then rejected status_inv_data_coding
      else finish_parse
          (add_segments now pkt (with_octets now pkt service_type source dest schedule validity))

  unfoldable pub parse_submit_sm : ℕ → Packet → ParseResult
  unfolding check_submit text_of
  parse_submit_sm now pkt = elim (text_of lib pkt FieldName.service_type) [
    | none ↦ panicked
    | some service_type ↦ elim (text_of lib pkt FieldName.source_addr) [
      | none ↦ panicked
      | some source ↦ elim (text_of lib pkt FieldName.destination_addr) [
        | none ↦ panicked
        | some dest ↦ elim (text_of lib pkt FieldName.schedule_delivery_time) [
          | none ↦ panicked
          | some schedule ↦ elim (text_of lib pkt FieldName.validity_period) [
            | none ↦ panicked
            | some validity ↦ check_submit now pkt service_type source dest schedule validity
          ]
        ]
      ]
    ]
  ]

-- The text of a field, and the empty string where it is missing.
unfoldable pub text_or_empty : GoSmpp → Packet → FieldName → Bytes
unfolding text_of
text_or_empty lib pkt name = elim (text_of lib pkt name) [ none ↦ [] | some t ↦ t ]

unfoldable pub parse_query_sm : GoSmpp → Packet → Option QuerySmParams
unfolding text_or_empty octet_of
parse_query_sm lib pkt =
    if length (text_or_empty lib pkt FieldName.message_id) == 0
    then none
    else some (record {
      message_id = text_or_empty lib pkt FieldName.message_id;
      source_addr = text_or_empty lib pkt FieldName.source_addr;
      source_addr_ton = octet_of pkt FieldName.source_addr_ton;
      source_addr_npi = octet_of pkt FieldName.source_addr_npi;
      seq_num = pkt.seq;
    })

unfoldable pub parse_replace_sm : GoSmpp → Packet → Option ReplaceSmParams
unfolding text_or_empty octet_of sm_value
parse_replace_sm lib pkt =
    if length (text_or_empty lib pkt FieldName.message_id) == 0
    then none
    else some (record {
      message_id = text_or_empty lib pkt FieldName.message_id;
      source_addr_ton = octet_of pkt FieldName.source_addr_ton;
      source_addr_npi = octet_of pkt FieldName.source_addr_npi;
      source_addr = text_or_empty lib pkt FieldName.source_addr;
      dest_addr_ton = octet_of pkt FieldName.dest_addr_ton;
      dest_addr_npi = octet_of pkt FieldName.dest_addr_npi;
      dest_addr = text_or_empty lib pkt FieldName.destination_addr;
      schedule_delivery_time = text_or_empty lib pkt FieldName.schedule_delivery_time;
      validity_period = text_or_empty lib pkt FieldName.validity_period;
      registered_delivery = octet_of pkt FieldName.registered_delivery;
      sm_default_msg_id = octet_of pkt FieldName.sm_default_msg_id;
      short_message = sm_value (pkt.fields FieldName.short_message);
      seq_num = pkt.seq;
    })
