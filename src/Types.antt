-- ===== src/Types.antt =====
-- internal/smsc/types.go: binding types, the registered_delivery octet, the TLVs of a submit_sm,
-- and the parameters of the handlers. A map of TLVs is an association list.
pub mod Receipts
pub mod Names
use smpp_smsc.Base.{
  ℕ, zero, suc, ◌+◌, ◌*◌, ◌^◌, bit_and, Bool, true, false, not, ◌&&◌, ◌||◌, Option, none, some,
  List, [], ◌∷◌, Bytes, nat_eq, ltb, ◌==◌, if◌then◌else◌, length, is_some,
}
use smpp_smsc.Base.Maps.{lookup}
use smpp_smsc.Base.Octets.{be16}
use smpp_smsc.Segments.{MessageSegment}

pub data BindingType : Type 0 where
  none_bound transceiver transmitter receiver : BindingType

unfoldable pub is_receiver : BindingType → Bool
is_receiver none_bound = false
is_receiver transceiver = true
is_receiver transmitter = false
is_receiver receiver = true

unfoldable pub is_transmitter : BindingType → Bool
is_transmitter none_bound = false
is_transmitter transceiver = true
is_transmitter transmitter = true
is_transmitter receiver = false

-- RegisteredDeliveryFlags is a byte.
abbrev pub no_receipt : ℕ
no_receipt = 0

abbrev pub success_and_failure_receipt : ℕ
success_and_failure_receipt = 1

abbrev pub failure_only_receipt : ℕ
failure_only_receipt = 2

abbrev pub success_only_receipt : ℕ
success_only_receipt = 3

unfoldable pub get_receipt_type : ℕ → ℕ
get_receipt_type r = bit_and r 3

unfoldable pub requires_delivery_receipt : ℕ → Bool
unfolding get_receipt_type
requires_delivery_receipt r = not (get_receipt_type r == no_receipt)

receipt_policy : ℕ → Bool → Bool
receipt_policy kind success =
    if kind == no_receipt
    then false
    else if kind == success_and_failure_receipt
    then true
    else if kind == failure_only_receipt
    then not success
    else if kind == success_only_receipt
    then success
    else false

unfoldable pub should_send_delivery_receipt : ℕ → Bool → Bool
unfolding get_receipt_type receipt_policy
should_send_delivery_receipt r success = receipt_policy (get_receipt_type r) success

pub record SubmitSmParams : Type 0 where
  pub message_id : ℕ
  pub service_type : Bytes
  pub source_addr_ton : ℕ
  pub source_addr_npi : ℕ
  pub source_addr : Bytes
  pub dest_addr_ton : ℕ
  pub dest_addr_npi : ℕ
  pub dest_addr : Bytes
  pub esm_class : ℕ
  pub protocol_id : ℕ
  pub priority_flag : ℕ
  pub schedule_delivery_time : Bytes
  pub validity_period : Bytes
  pub registered_delivery : ℕ
  pub replace_if_present_flag : ℕ
  pub data_coding : ℕ
  pub sm_default_msg_id : ℕ
  pub seq_num : ℕ
  pub short_message : Bytes
  pub text : Bytes
  pub with_payload : Bool
  pub message_payload : Bytes
  pub segment : Option MessageSegment
  pub tlv_params : List (ℕ × Bytes)

unfoldable pub get_message : SubmitSmParams → Bytes
get_message p = if ltb 0 (length p.message_payload) then p.message_payload else p.short_message

uint16_value : Option Bytes → Option ℕ
uint16_value none = none
uint16_value (some []) = none
uint16_value (some (a ∷ [])) = some a
uint16_value (some (a ∷ b ∷ [])) = some (be16 a b)
uint16_value (some (a ∷ b ∷ c ∷ r)) = none

unfoldable pub get_tlv_uint16 : SubmitSmParams → ℕ → Option ℕ
unfolding uint16_value
get_tlv_uint16 p tag = uint16_value (lookup tag p.tlv_params)

byte_value : Option Bytes → Option ℕ
byte_value none = none
byte_value (some []) = none
byte_value (some (a ∷ r)) = some a

unfoldable pub get_tlv_byte : SubmitSmParams → ℕ → Option ℕ
unfolding byte_value
get_tlv_byte p tag = byte_value (lookup tag p.tlv_params)

unfoldable pub get_tlv_string : SubmitSmParams → ℕ → Option Bytes
get_tlv_string p tag = lookup tag p.tlv_params

-- The copy that GetTLVBytes makes.
unfoldable pub get_tlv_bytes : SubmitSmParams → ℕ → Option Bytes
get_tlv_bytes p tag = lookup tag p.tlv_params

uint32_value : Option Bytes → Option ℕ
uint32_value (some (a ∷ b ∷ c ∷ d ∷ r)) = some (be16 a b * 2 ^ 16 + be16 c d)
uint32_value _ = none

unfoldable pub get_tlv_uint32 : SubmitSmParams → ℕ → Option ℕ
unfolding uint32_value
get_tlv_uint32 p tag = uint32_value (lookup tag p.tlv_params)

uint64_value : Option Bytes → Option ℕ
uint64_value (some (a ∷ b ∷ c ∷ d ∷ e ∷ f ∷ g ∷ h ∷ r)) =
    some ((be16 a b * 2 ^ 16 + be16 c d) * 2 ^ 32 + (be16 e f * 2 ^ 16 + be16 g h))
uint64_value _ = none

unfoldable pub get_tlv_uint64 : SubmitSmParams → ℕ → Option ℕ
unfolding uint64_value
get_tlv_uint64 p tag = uint64_value (lookup tag p.tlv_params)

pub record PendingRequest : Type 0 where
  pub segments_count : ℕ
  pub registered_delivery : ℕ
  pub created_at : ℕ

pub data DeliveryReportResult : Type 0 where
  unspecified sent skipped_no_receipt skipped_success_only : DeliveryReportResult
  skipped_failure_only skipped_session_closed skipped_queue_full : DeliveryReportResult

pub record SmppResponse : Type 0 where
  pub msg : Bytes
  pub status : ℕ

pub record QuerySmParams : Type 0 where
  pub message_id : Bytes
  pub source_addr : Bytes
  pub source_addr_ton : ℕ
  pub source_addr_npi : ℕ
  pub seq_num : ℕ

pub record QuerySmResponse : Type 0 where
  pub message_id : Bytes
  pub final_date : Bytes
  pub message_state : ℕ
  pub error_code : ℕ

pub record ReplaceSmParams : Type 0 where
  pub message_id : Bytes
  pub source_addr_ton : ℕ
  pub source_addr_npi : ℕ
  pub source_addr : Bytes
  pub dest_addr_ton : ℕ
  pub dest_addr_npi : ℕ
  pub dest_addr : Bytes
  pub schedule_delivery_time : Bytes
  pub validity_period : Bytes
  pub registered_delivery : ℕ
  pub sm_default_msg_id : ℕ
  pub short_message : Bytes
  pub seq_num : ℕ
