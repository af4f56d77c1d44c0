-- ===== src/Wire/Samples.antt =====
-- A concrete instance of the third-party module for runs: the command IDs, data codings and TLV tags
-- of SMPP 3.4, and codecs that keep the bytes.
use smpp_smsc.Base.{some, true, Bytes, [], ◌∷◌}
use smpp_smsc.Wire.{GoSmpp, Field, fixed, sm, udh_list, variable}

abbrev pub field_bytes : Field → Bytes
field_bytes (fixed v) = v ∷ []
field_bytes (sm d) = d
field_bytes (udh_list l) = []
field_bytes (variable d) = d

abbrev pub smpp34 : GoSmpp
smpp34 = record {
  bind_transmitter_id = 2;
  bind_transmitter_resp_id = 0x80000002;
  bind_receiver_id = 1;
  bind_receiver_resp_id = 0x80000001;
  bind_transceiver_id = 9;
  bind_transceiver_resp_id = 0x80000009;
  unbind_id = 6;
  unbind_resp_id = 0x80000006;
  submit_sm_id = 4;
  submit_sm_resp_id = 0x80000004;
  query_sm_id = 3;
  query_sm_resp_id = 0x80000003;
  replace_sm_id = 7;
  deliver_sm_id = 5;
  deliver_sm_resp_id = 0x80000005;
  enquire_link_id = 0x15;
  enquire_link_resp_id = 0x80000015;
  generic_nack_id = 0x80000000;
  default_type = 0;
  latin1_type = 3;
  iso88595_type = 6;
  ucs2_type = 8;
  tag_message_payload = 0x0424;
  tag_sar_msg_ref_num = 0x020c;
  tag_sar_total_segments = 0x020e;
  tag_sar_segment_seqnum = 0x020f;
  field_string = field_bytes;
  set_accepts = λ command name value. true;
  gsm7_encode = λ d. d;
  gsm7_decode = λ d. d;
  gsm7_packed_decode = λ d. d;
  ucs2_encode = λ d. d;
  windows1252_encode = some;
  windows1252_decode = some;
  iso8859_5_encode = some;
  iso8859_5_decode = some;
}
