-- ===== src/Server.antt =====
-- internal/smsc/server.go on the sessions of the controller: a new connection's session, the searches
-- for a session, and the calls that send to one. Deliver has what they do to the session itself.
pub mod Build
pub mod Unrouted
pub mod Listen
pub mod Samples
pub mod Everywhere
pub mod System
pub mod Closed
mod Tests
use smpp_smsc.Base.{
  ℕ, Bool, true, false, not, ◌&&◌, Option, none, some, List, [], ◌∷◌, ◌++◌, Bytes, nat_eq, bytes_eq,
  ltb, ◌==◌, if◌then◌else◌, length,
}
use smpp_smsc.Base.Decimal.{decimal}
use smpp_smsc.Text.{codes}
use smpp_smsc.Wire.{GoSmpp}
use smpp_smsc.Types.{none_bound, DeliveryReportResult, skipped_session_closed}
use smpp_smsc.Config.{Config}
use smpp_smsc.Message.{encode_message}
use smpp_smsc.Segments.{new_segments_manager}
use smpp_smsc.Session.{Session, Limiter, unlimited, limited_by_given, limited_by_own, max_int}
use smpp_smsc.Controller.Caches.{Cache}
use smpp_smsc.Controller.{
  SessController, write_session, put_back, initialize_session, cached_session,
  get_session_by_message_id, shutdown,
}
use smpp_smsc.Controller as Controller
use smpp_smsc.Deliver.{
  DeliverSmParams, new_deliver_sm_params, ServerError, session_not_found, application_mismatch,
  DeliverResult, refused, deliver,
}
use smpp_smsc.Deliver.Segmented.{Progress, send_segmented_deliver_sm, text_encoding}
use smpp_smsc.Deliver.Report.{Request, report_on}

-- The limiter of a new session; `has_shared` says that SetGlobalRateLimiter gave one.
unfoldable pub choose_limiter : Bool → Config → Limiter
unfolding max_int
choose_limiter has_shared cfg =
    if has_shared
    then limited_by_given
    else if cfg.global_rate_limiter_enabled && ltb 0 cfg.global_max_rps_limit
    then limited_by_own (max_int 1 cfg.global_max_rps_limit) (max_int 1 cfg.global_burst_rps_limit)
    else if cfg.per_session_rate_limiter_enabled
    then limited_by_own (max_int 1 cfg.default_max_rps_limit)
        (max_int 1 cfg.default_burst_rps_limit)
    else unlimited

-- The clock stands in for an ID that the generator did not give.
unfoldable pub generate_session_id : Bytes → Option ℕ → ℕ → Bytes
generate_session_id pod_id (some id) now = codes "sess_" ++ pod_id ++ codes "_" ++ decimal id
generate_session_id pod_id none now = codes "sess_" ++ pod_id ++ codes "_" ++ decimal now

-- The session of a new connection.
unfoldable pub new_session : Limiter → Config → Bytes → Bytes → ℕ → Session
unfolding new_segments_manager
new_session limiter cfg id address now = record {
  messages_sent = 0;
  messages_received = 0;
  last_activity_nanos = now;
  enquire_retry_count = 0;
  bound = false;
  authenticated = false;
  id = id;
  application_id = [];
  meta = [];
  pod_id = cfg.pod_id;
  system_id = [];
  password = [];
  address = address;
  binding_type = none_bound;
  registered_delivery = 0;
  rate_limiter = limiter;
  segments_mgr = new_segments_manager cfg.segs_bucket_ttl cfg.max_submit_sm_segments;
  pdu_queue = [];
  pending_requests = [];
  sequence_number = 0;
  replace_submit_last = [];
  ctx_done = false;
  stopped = false;
  has_routes = true;
  routes = [];
  raw_writes = [];
  cfg = cfg;
}

module _ (sessions_cache : Cache Bytes ℕ) (ids_cache : Cache ℕ Bytes) where
  abbrev pub Sessions : Type 0
  Sessions = SessController sessions_cache ids_cache

  -- A connection whose deadlines can be set: the controller with its session at the fresh address
  -- `a`.
  unfoldable pub handle_connection : Bool → ℕ → Bytes → Option ℕ → ℕ → Sessions → Sessions
  unfolding choose_limiter new_session generate_session_id write_session initialize_session
  handle_connection has_shared a address generated now m =
      let session =
        new_session (choose_limiter has_shared m.cfg) m.cfg
          (generate_session_id m.cfg.pod_id generated now) address now in
      initialize_session sessions_cache ids_cache a
        (write_session sessions_cache ids_cache a session m)

  check_application : Bytes → Option ℕ → Sessions → Option ServerError × Option ℕ
  check_application application_id none m = (some session_not_found, none)
  check_application application_id (some a) m =
      if not (length application_id == 0) && not ((m.heap a).application_id == application_id)
      then (some application_mismatch, none)
      else (none, some a)

  -- The error, or the session; and a controller that may have dropped a dead route.
  unfoldable pub get_session_of_message :
      Bytes → ℕ → Sessions → (Option ServerError × Option ℕ) × Sessions
  unfolding get_session_by_message_id check_application
  get_session_of_message application_id message_id m =
      let (found, m1) = get_session_by_message_id sessions_cache ids_cache message_id m in
      (check_application application_id found m1, m1)

  module _ (lib : GoSmpp) where
    unfoldable pub deliver_to :
        Option ℕ → Bool → ℕ → DeliverSmParams → Sessions → DeliverResult × Sessions
    unfolding deliver put_back
    deliver_to none expired now p m = (refused session_not_found, m)
    deliver_to (some a) expired now p m =
        let (result, s) = deliver lib expired now p (m.heap a) in
        (result, put_back sessions_cache ids_cache a s m)

    unfoldable pub send_deliver_sm_with_params :
        Bytes → ℕ → Bool → DeliverSmParams → Sessions → DeliverResult × Sessions
    unfolding deliver_to cached_session
    send_deliver_sm_with_params session_id now expired p m =
        deliver_to (cached_session sessions_cache ids_cache session_id m) expired now p m

    unfoldable pub send_deliver_sm :
        Bytes → ℕ → Bool → Bytes → Bytes → Bytes → ℕ → ℕ → Sessions → DeliverResult × Sessions
    unfolding send_deliver_sm_with_params new_deliver_sm_params
    send_deliver_sm session_id now expired source dest message data_coding esm_class m =
        send_deliver_sm_with_params session_id now expired
          (record (new_deliver_sm_params lib source dest message) {
            data_coding = data_coding;
            esm_class = esm_class;
          })
          m

    unfoldable pub send_deliver_sm_text :
        (ℕ → Bool) → ℕ → ℕ → Bytes → Bytes → Bytes → Bytes → Sessions → Progress Sessions
    unfolding send_deliver_sm_with_params send_segmented_deliver_sm text_encoding encode_message
    send_deliver_sm_text expired now ref session_id source dest t m =
        send_segmented_deliver_sm lib (send_deliver_sm_with_params session_id now)
          (text_encoding lib) (encode_message lib) expired m.cfg.default_max_segs_count ref
          session_id source dest t m

    unfoldable pub send_deliver_sm_text_with_data_coding :
        (ℕ → Bool) → ℕ → ℕ → Bytes → Bytes → Bytes → Bytes → ℕ → Sessions → Progress Sessions
    unfolding send_deliver_sm_with_params send_segmented_deliver_sm encode_message
    send_deliver_sm_text_with_data_coding expired now ref session_id source dest t data_coding m =
        send_segmented_deliver_sm lib (send_deliver_sm_with_params session_id now)
          (λ u. data_coding) (encode_message lib) expired m.cfg.default_max_segs_count ref
          session_id source dest t m

    unfoldable pub report_to :
        (Bytes → Bytes)
        → ℕ
        → ℕ
        → Request
        → Option ℕ
        → Sessions
        → DeliveryReportResult × Option ServerError × Sessions
    unfolding report_on put_back
    report_to trim_space now later q none m = (skipped_session_closed, some session_not_found, m)
    report_to trim_space now later q (some a) m =
        let (result, e, s) = report_on lib trim_space now later q (m.heap a) in
        (result, e, put_back sessions_cache ids_cache a s m)

    unfoldable pub send_delivery_report :
        (Bytes → Bytes)
        → ℕ
        → ℕ
        → Request
        → Bytes
        → Sessions
        → DeliveryReportResult × Option ServerError × Sessions
    unfolding report_to cached_session
    send_delivery_report trim_space now later q session_id m =
        report_to trim_space now later q (cached_session sessions_cache ids_cache session_id m) m
