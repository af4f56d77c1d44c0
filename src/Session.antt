-- ===== src/Session.antt =====
-- internal/smsc/session.go: the state of one session and its basic operations. A method returns the
-- new session. One goroutine reads PDUs and handles them one after the other, another drains the
-- queue; a call on the session is one step, so that a run is a sequence of such steps.
pub mod Parse
pub mod Handler
pub mod Submit
pub mod Dispatch
pub mod Pending
pub mod Sequence
pub mod Outgoing
pub mod Cleanup
pub mod Sound
pub mod Demo
pub mod Samples
mod Tests
use smpp_smsc.Base.{
  ℕ, zero, suc, ◌+◌, ◌-◌, ◌≡◌, ◌↔◌, ap, Bool, true, false, ◌&&◌, Option, none, some, List, [], ◌∷◌,
  ◌++◌, Bytes, Eq, nat_eq, nat_beq, nat_beq_iff, bytes_eq, ltb, leb, ◌==◌, if◌then◌else◌, length,
  is_some, arith,
}
use smpp_smsc.Base.Maps.{lookup, insert, delete}
use smpp_smsc.Wire.{Pdu}
use smpp_smsc.Types.{BindingType, none_bound, PendingRequest}
use smpp_smsc.Config.{Config}
use smpp_smsc.Segments.{SegmentsManager}
use smpp_smsc.Segments as Segments

-- The keys of the sync.Map PendingRequests: a uint32 sequence number and a uint64 message ID are
-- different keys, even where the numbers agree.
pub data PendingKey : Type 0 where
  sequence : ℕ → PendingKey
  message : ℕ → PendingKey

abbrev pub pending_key_beq : PendingKey → PendingKey → Bool
pending_key_beq (sequence a) (sequence b) = nat_beq a b
pending_key_beq (sequence a) (message b) = false
pending_key_beq (message a) (sequence b) = false
pending_key_beq (message a) (message b) = nat_beq a b

pub pending_key_beq_iff : (a b : PendingKey) → (pending_key_beq a b ≡ true) ↔ (a ≡ b)
pending_key_beq_iff (sequence a) (sequence b) = ground arith
pending_key_beq_iff (sequence a) (message b) = ground arith
pending_key_beq_iff (message a) (sequence b) = ground arith
pending_key_beq_iff (message a) (message b) = ground arith

instance abbrev pub pending_key_eq : Eq PendingKey
pending_key_eq = record { beq = pending_key_beq; beq_iff = pending_key_beq_iff }

-- A call of the callbacks registerMessageID and unregisterMessageID.
pub data RouteCall : Type 0 where
  register : ℕ → RouteCall
  unregister : ℕ → RouteCall

-- The rate limiter of a session: none, one that it was given (SetGlobalRateLimiter, SetRateLimiter), or
-- its own by rate and burst.
pub data Limiter : Type 0 where
  unlimited limited_by_given : Limiter
  limited_by_own : ℕ → ℕ → Limiter

unfoldable pub is_limited : Limiter → Bool
is_limited unlimited = false
is_limited limited_by_given = true
is_limited (limited_by_own rate burst) = true

-- `routes` lists the calls of the two callbacks, oldest first; `has_routes` says that they are set,
-- which the server does for every session. `raw_writes` are the bytes written to the connection,
-- a chunk for each write. `ctx_done` says that the context is cancelled.
pub record Session : Type 0 where
  pub messages_sent : ℕ
  pub messages_received : ℕ
  pub last_activity_nanos : ℕ
  pub enquire_retry_count : ℕ
  pub bound : Bool
  pub authenticated : Bool
  pub id : Bytes
  pub application_id : Bytes
  pub meta : List (Bytes × Bytes)
  pub pod_id : Bytes
  pub system_id : Bytes
  pub password : Bytes
  pub address : Bytes
  pub binding_type : BindingType
  pub registered_delivery : ℕ
  pub rate_limiter : Limiter
  pub segments_mgr : SegmentsManager
  pub pdu_queue : List Pdu
  pub pending_requests : List (PendingKey × PendingRequest)
  pub sequence_number : ℕ
  pub replace_submit_last : List (Bytes × ℕ)
  pub ctx_done : Bool
  pub stopped : Bool
  pub has_routes : Bool
  pub routes : List RouteCall
  pub raw_writes : List Bytes
  pub cfg : Config

unfoldable pub set_rate_limiter : Limiter → Session → Session
set_rate_limiter limiter s = record s { rate_limiter = limiter }

abbrev pub max_sequence : ℕ
max_sequence = 0x7fffffff

unfoldable pub get_next_sequence : Session → ℕ × Session
get_next_sequence s =
    let next = if leb max_sequence s.sequence_number then 1 else s.sequence_number + 1 in
    (next, record s { sequence_number = next })

unfoldable pub max_int : ℕ → ℕ → ℕ
max_int a b = if ltb b a then a else b

pub data EnqueueResult : Type 0 where
  enqueued session_closed queue_timeout : EnqueueResult

-- A full queue that nothing drains before the timeout is an error; a drain during the wait is the
-- step `outgoing_step` taken before this one.
unfoldable pub enqueue_pdu : Session → Pdu → EnqueueResult × Session
unfolding max_int
enqueue_pdu s body =
    if s.ctx_done
    then (session_closed, s)
    else if ltb (length s.pdu_queue) (max_int 64 s.cfg.window_size)
    then (enqueued, record s { pdu_queue = s.pdu_queue ++ body ∷ [] })
    else (queue_timeout, s)

unfoldable pub load_pending : Session → PendingKey → Option PendingRequest
load_pending s key = lookup key s.pending_requests

unfoldable pub store_pending : Session → PendingKey → PendingRequest → Session
store_pending s key r = record s { pending_requests = insert key r s.pending_requests }

unfoldable pub delete_pending : Session → PendingKey → Session
delete_pending s key = record s { pending_requests = delete key s.pending_requests }

unfoldable pub call_route : Session → RouteCall → Session
call_route s c = if s.has_routes then record s { routes = s.routes ++ c ∷ [] } else s

unfoldable pub register_message_id : Session → ℕ → Session
unfolding call_route
register_message_id s message_id = call_route s (register message_id)

unfoldable pub unregister_message_id : Session → ℕ → Session
unfolding call_route
unregister_message_id s message_id = call_route s (unregister message_id)

unfoldable pub remove_pending_request_by_message_id : Session → ℕ → Session
unfolding load_pending delete_pending unregister_message_id
remove_pending_request_by_message_id s message_id =
    if is_some (load_pending s (message message_id))
    then unregister_message_id (delete_pending s (message message_id)) message_id
    else s

-- The unregister calls that Stop makes for the entries under message IDs.
unfoldable pub stop_routes : List (PendingKey × PendingRequest) → List RouteCall
stop_routes [] = []
stop_routes ((sequence n, r) ∷ m) = stop_routes m
stop_routes ((message n, r) ∷ m) = unregister n ∷ stop_routes m

unfoldable pub stop : Session → Session
unfolding stop_routes
stop s = if s.stopped then s else record s {
  stopped = true;
  ctx_done = true;
  segments_mgr = Segments.stop s.segments_mgr;
  bound = false;
  authenticated = false;
  routes = if s.has_routes then s.routes ++ stop_routes s.pending_requests else s.routes;
  pending_requests = if s.has_routes then [] else s.pending_requests;
}

unfoldable pub update_last_activity : Session → ℕ → Session
update_last_activity s now = record s { last_activity_nanos = now }

-- The time of the last activity; `none` is the zero time.
abbrev pub get_last_activity : Session → Option ℕ
get_last_activity s = if s.last_activity_nanos == 0 then none else some s.last_activity_nanos

abbrev pub get_enquire_retry_count : Session → ℕ
get_enquire_retry_count s = s.enquire_retry_count

-- The new count is the session's; sendEnquireLinkReq ignores the result.
abbrev pub increment_enquire_retry : Session → Session
increment_enquire_retry s = record s { enquire_retry_count = s.enquire_retry_count + 1 }

unfoldable pub reset_enquire_retry : Session → Session
reset_enquire_retry s = record s { enquire_retry_count = 0 }

-- `none` is an error: too many retries, or a queue that refuses the PDU. The entry for the sequence
-- number is stored before the PDU is queued.
unfoldable pub send_enquire_link_req : ℕ → ℕ → Session → Bool × Session
unfolding get_next_sequence store_pending enqueue_pdu
send_enquire_link_req command now s =
    if leb s.cfg.max_enquire_link_retry (get_enquire_retry_count s)
    then (false, s)
    else let (seq, s1) = get_next_sequence s in
      let s2 =
        store_pending s1 (sequence seq)
          (record { segments_count = 0; registered_delivery = 0; created_at = now }) in
      let (result, s3) =
        enqueue_pdu s2
          (record { command = command; seq = seq; status = 0; sets = []; tlv_sets = [] }) in
      elim result [ enqueued ↦ (true, increment_enquire_retry s3) | _ ↦ (false, s3) ]

unfoldable pub set_application_id : Session → Bytes → Session
set_application_id s application_id = record s { application_id = application_id }

unfoldable pub set_session_meta : Session → Bytes → Bytes → Session
set_session_meta s key value = record s { meta = insert key value s.meta }

unfoldable pub get_session_meta : Session → Bytes → Option Bytes
get_session_meta s key = lookup key s.meta

abbrev pub get_application_id : Session → Bytes
get_application_id s = s.application_id

-- A copy of the map.
abbrev pub session_meta : Session → List (Bytes × Bytes)
session_meta s = s.meta
