-- ===== src/Deliver.antt =====
-- The deliver_sm side of internal/smsc/server.go, on one session: the parameters and the PDU of a
-- deliver_sm, its sending, and the parts of a long text. Server has the same calls on the sessions
-- of the controller.
pub mod Segmented
pub mod Split
pub mod Parts
pub mod Report
pub mod Once
pub mod Queues
pub mod InOrder
pub mod Keeps
mod Tests
use smpp_smsc.Base.{
  ℕ, zero, suc, ◌+◌, ◌-◌, ◌/◌, ◌%◌, bit_and, bit_or, Bool, true, false, not, ◌&&◌, ◌||◌, Option,
  none, some, List, [], ◌∷◌, ◌++◌, Bytes, nat_eq, ltb, leb, ◌*◌, ◌==◌, if◌then◌else◌, length, take,
  drop,
}
use smpp_smsc.Base.Maps.{insert}
use smpp_smsc.Text.{runes, utf8}
use smpp_smsc.Wire.{GoSmpp, Pdu, FieldName, Value}
use smpp_smsc.Wire.Constants.{status_ok}
use smpp_smsc.Types.{is_receiver, PendingRequest}
use smpp_smsc.Charset.{is_gsm7_bit}
use smpp_smsc.Session.{
  Session, sequence, get_next_sequence, store_pending, enqueue_pdu, EnqueueResult, enqueued,
  session_closed, queue_timeout,
}

pub record DeliverSmParams : Type 0 where
  pub source_addr : Bytes
  pub dest_addr : Bytes
  pub message : Bytes
  pub data_coding : ℕ
  pub esm_class : ℕ
  pub service_type : Bytes
  pub source_addr_ton : ℕ
  pub source_addr_npi : ℕ
  pub dest_addr_ton : ℕ
  pub dest_addr_npi : ℕ
  pub protocol_id : ℕ
  pub priority_flag : ℕ
  pub registered_delivery : ℕ
  pub replace_if_present : ℕ
  pub validity_period : Bytes
  pub schedule_time : Bytes
  pub sm_default_msg_id : ℕ
  pub tlv_options : List (ℕ × Bytes)
  pub use_message_payload : Bool

unfoldable pub new_deliver_sm_params : GoSmpp → Bytes → Bytes → Bytes → DeliverSmParams
new_deliver_sm_params lib source dest message = record {
  source_addr = source;
  dest_addr = dest;
  message = message;
  data_coding = lib.default_type;
  esm_class = 0;
  service_type = [];
  source_addr_ton = 1;
  source_addr_npi = 1;
  dest_addr_ton = 1;
  dest_addr_npi = 1;
  protocol_id = 0;
  priority_flag = 0;
  registered_delivery = 0;
  replace_if_present = 0;
  validity_period = [];
  schedule_time = [];
  sm_default_msg_id = 0;
  tlv_options = [];
  use_message_payload = false;
}

unfoldable pub set_udh_indicator : DeliverSmParams → DeliverSmParams
set_udh_indicator p = record p { esm_class = bit_or (bit_and p.esm_class 0x3f) 0x40 }

unfoldable pub set_source_addr_alpha_name : DeliverSmParams → DeliverSmParams
set_source_addr_alpha_name p = record p { source_addr_ton = 5; source_addr_npi = 0 }

unfoldable pub add_tlv : ℕ → Bytes → DeliverSmParams → DeliverSmParams
add_tlv tag value p = record p { tlv_options = insert tag value p.tlv_options }

unfoldable pub set_use_message_payload : Bool → DeliverSmParams → DeliverSmParams
set_use_message_payload enable p = record p { use_message_payload = enable }

-- The errors that the calls of the server return.
pub data ServerError : Type 0 where
  session_not_found session_not_bound invalid_binding_type context_error : ServerError
  session_was_closed queue_timed_out pending_not_found : ServerError
  empty_text no_session_id no_addresses encoding_failed application_mismatch : ServerError

pub data DeliverResult : Type 0 where
  refused : ServerError → DeliverResult
  delivered : ℕ → DeliverResult

module _ (lib : GoSmpp) where
  -- The fields that are set on every deliver_sm.
  common_sets : DeliverSmParams → List (FieldName × Value)
  common_sets p =
      (FieldName.service_type, Value.text p.service_type)
      ∷ (FieldName.source_addr_ton, Value.byte p.source_addr_ton)
      ∷ (FieldName.source_addr_npi, Value.byte p.source_addr_npi)
      ∷ (FieldName.source_addr, Value.text p.source_addr)
      ∷ (FieldName.dest_addr_ton, Value.byte p.dest_addr_ton)
      ∷ (FieldName.dest_addr_npi, Value.byte p.dest_addr_npi)
      ∷ (FieldName.destination_addr, Value.text p.dest_addr)
      ∷ (FieldName.esm_class, Value.byte p.esm_class)
      ∷ (FieldName.protocol_id, Value.byte p.protocol_id)
      ∷ (FieldName.priority_flag, Value.byte p.priority_flag)
      ∷ (FieldName.schedule_delivery_time, Value.text p.schedule_time)
      ∷ (FieldName.validity_period, Value.text p.validity_period)
      ∷ (FieldName.registered_delivery, Value.byte p.registered_delivery)
      ∷ (FieldName.replace_if_present_flag, Value.byte p.replace_if_present)
      ∷ (FieldName.data_coding, Value.byte p.data_coding)
      ∷ (FieldName.sm_default_msg_id, Value.byte p.sm_default_msg_id)
      ∷ []

  -- The message goes into the TLV message_payload on demand or above 254 bytes, else into
  -- short_message. Go visits `tlv_options` in any order.
  unfoldable pub create_deliver_sm_pdu : DeliverSmParams → ℕ → Pdu
  unfolding common_sets
  create_deliver_sm_pdu p seq =
      let in_payload = p.use_message_payload || ltb 254 (length p.message) in
      record {
        command = lib.deliver_sm_id;
        seq = seq;
        status = status_ok;
        sets =
            common_sets p
            ++ (if in_payload then [] else (FieldName.short_message, Value.text p.message) ∷ []);
        tlv_sets =
            (if in_payload then (lib.tag_message_payload, p.message) ∷ [] else []) ++ p.tlv_options;
      }

  after_enqueue : ℕ → EnqueueResult → DeliverResult
  after_enqueue seq enqueued = delivered seq
  after_enqueue seq session_closed = refused session_was_closed
  after_enqueue seq queue_timeout = refused queue_timed_out

  -- SendDeliverSMWithParams once the session is found. `expired` says that the caller's context is
  -- done. The entry for the sequence number stays also when the queue refuses the PDU.
  unfoldable pub deliver : Bool → ℕ → DeliverSmParams → Session → DeliverResult × Session
  unfolding create_deliver_sm_pdu after_enqueue get_next_sequence store_pending enqueue_pdu
  deliver expired now p s =
      if not s.bound
      then (refused session_not_bound, s)
      else if not (is_receiver s.binding_type)
      then (refused invalid_binding_type, s)
      else if expired
      then (refused context_error, s)
      else let (seq, s1) = get_next_sequence s in
        let s2 =
          store_pending s1 (sequence seq)
            (record { segments_count = 0; registered_delivery = 0; created_at = now }) in
        let (result, s3) = enqueue_pdu s2 (create_deliver_sm_pdu p seq) in
        (after_enqueue seq result, s3)
