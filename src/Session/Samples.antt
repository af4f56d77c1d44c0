-- ===== src/Session/Samples.antt =====
-- A session, its PDUs and the default handler, for runs.
use smpp_smsc.Base.{ℕ, some, none, Option, true, false, []}
use smpp_smsc.Text.{codes}
use smpp_smsc.Wire.{Packet, Field, FieldName, fixed, variable, sm}
use smpp_smsc.Types.{none_bound, SubmitSmParams}
use smpp_smsc.Config.{default_config}
use smpp_smsc.Segments.{new_segments_manager}
use smpp_smsc.Session.{Session, unlimited}
use smpp_smsc.Session.Dispatch.{Moment}
use smpp_smsc.Session.Parse.{BindParams}

abbrev pub idle : Session
idle = record {
  messages_sent = 0;
  messages_received = 0;
  last_activity_nanos = 0;
  enquire_retry_count = 0;
  bound = false;
  authenticated = false;
  id = codes "s1";
  application_id = [];
  meta = [];
  pod_id = [];
  system_id = [];
  password = [];
  address = [];
  binding_type = none_bound;
  registered_delivery = 0;
  rate_limiter = unlimited;
  segments_mgr = new_segments_manager 0 10;
  pdu_queue = [];
  pending_requests = [];
  sequence_number = 1;
  replace_submit_last = [];
  ctx_done = false;
  stopped = false;
  has_routes = true;
  routes = [];
  raw_writes = [];
  cfg = default_config;
}

abbrev pub sample_fields : FieldName → Option Field
sample_fields FieldName.system_id = some (variable (codes "esme"))
sample_fields FieldName.password = some (variable (codes "pw"))
sample_fields FieldName.source_addr = some (variable (codes "100"))
sample_fields FieldName.destination_addr = some (variable (codes "200"))
sample_fields FieldName.system_type = some (variable [])
sample_fields FieldName.service_type = some (variable [])
sample_fields FieldName.schedule_delivery_time = some (variable [])
sample_fields FieldName.validity_period = some (variable [])
sample_fields FieldName.short_message = some (sm (codes "hi"))
sample_fields _ = some (fixed 0)

abbrev pub sample_packet : ℕ → Packet
sample_packet command = record {
  id = command;
  seq = 77;
  status = 0;
  fields = sample_fields;
  tlvs = [];
}

abbrev pub moment : Moment
moment = record { now = 9; generated = some 1000; permitted = true }

abbrev pub esme : BindParams
esme = record { system_id = codes "esme"; password = codes "pw"; system_type = some [] }

abbrev pub submit : ℕ → SubmitSmParams
submit replace = record {
  message_id = 0;
  service_type = codes "CMT";
  source_addr_ton = 0;
  source_addr_npi = 0;
  source_addr = codes "100";
  dest_addr_ton = 0;
  dest_addr_npi = 0;
  dest_addr = codes "200";
  esm_class = 0;
  protocol_id = 0;
  priority_flag = 0;
  schedule_delivery_time = [];
  validity_period = [];
  registered_delivery = 1;
  replace_if_present_flag = replace;
  data_coding = 0;
  sm_default_msg_id = 0;
  seq_num = 77;
  short_message = codes "hi";
  text = codes "hi";
  with_payload = false;
  message_payload = [];
  segment = none;
  tlv_params = [];
}
