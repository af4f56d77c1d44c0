-- ===== src/Wire.antt =====
-- PDUs as the session sees them, and what the code takes from third-party modules: go-smpp (PDU
-- numbers, data codings, TLV tags, fields, text codecs) and golang.org/x/text/encoding/charmap.
-- Nothing of that code is in the repository, so `GoSmpp` is a parameter of every definition that
-- uses it.
pub mod Constants
pub mod Samples
use smpp_smsc.Base.{ℕ, ◌≡◌, ◌≢◌, Bool, Option, List, Bytes}

-- One element of a user data header: udh.IEI.Data and udh.IEData.Data.
pub record Udh : Type 0 where
  pub iei : ℕ
  pub ie_data : Bytes

-- The dynamic type of a pdufield.Body: *Fixed, *SM, *UDHList, or any other (with its bytes).
pub data Field : Type 0 where
  fixed : ℕ → Field
  sm : Bytes → Field
  udh_list : List Udh → Field
  variable : Bytes → Field

-- The pdufield names that the code reads or sets.
pub data FieldName : Type 0 where
  system_id password system_type : FieldName
  service_type source_addr destination_addr schedule_delivery_time validity_period : FieldName
  source_addr_ton source_addr_npi dest_addr_ton dest_addr_npi : FieldName
  esm_class protocol_id priority_flag replace_if_present_flag : FieldName
  sm_default_msg_id data_coding registered_delivery short_message gsm_user_data : FieldName
  message_id final_date message_state error_code : FieldName

-- A decoded PDU; a name that the PDU lacks has no field.
pub record Packet : Type 0 where
  pub id : ℕ
  pub seq : ℕ
  pub status : ℕ
  pub fields : FieldName → Option Field
  pub tlvs : List (ℕ × Bytes)

-- What a call of Fields().Set hands over.
pub data Value : Type 0 where
  text : Bytes → Value
  byte : ℕ → Value

-- A PDU to send: its header, and the calls of Fields().Set and TLVFields().Set in their order.
pub record Pdu : Type 0 where
  pub command : ℕ
  pub seq : ℕ
  pub status : ℕ
  pub sets : List (FieldName × Value)
  pub tlv_sets : List (ℕ × Bytes)

pub record GoSmpp : Type 0 where
  -- pdu.XxxID
  pub bind_transmitter_id : ℕ
  pub bind_transmitter_resp_id : ℕ
  pub bind_receiver_id : ℕ
  pub bind_receiver_resp_id : ℕ
  pub bind_transceiver_id : ℕ
  pub bind_transceiver_resp_id : ℕ
  pub unbind_id : ℕ
  pub unbind_resp_id : ℕ
  pub submit_sm_id : ℕ
  pub submit_sm_resp_id : ℕ
  pub query_sm_id : ℕ
  pub query_sm_resp_id : ℕ
  pub replace_sm_id : ℕ
  pub deliver_sm_id : ℕ
  pub deliver_sm_resp_id : ℕ
  pub enquire_link_id : ℕ
  pub enquire_link_resp_id : ℕ
  pub generic_nack_id : ℕ
  -- pdutext.XxxType
  pub default_type : ℕ
  pub latin1_type : ℕ
  pub iso88595_type : ℕ
  pub ucs2_type : ℕ
  -- pdutlv.TagXxx
  pub tag_message_payload : ℕ
  pub tag_sar_msg_ref_num : ℕ
  pub tag_sar_total_segments : ℕ
  pub tag_sar_segment_seqnum : ℕ
  -- Body.String(), and whether Fields().Set of the PDU with that command returns no error.
  pub field_string : Field → Bytes
  pub set_accepts : ℕ → FieldName → Value → Bool
  -- The codecs; those of charmap may fail.
  pub gsm7_encode : Bytes → Bytes
  pub gsm7_decode : Bytes → Bytes
  pub gsm7_packed_decode : Bytes → Bytes
  pub ucs2_encode : Bytes → Bytes
  pub windows1252_encode : Bytes → Option Bytes
  pub windows1252_decode : Bytes → Option Bytes
  pub iso8859_5_encode : Bytes → Option Bytes
  pub iso8859_5_decode : Bytes → Option Bytes
