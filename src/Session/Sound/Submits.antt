-- ===== src/Session/Sound/Submits.antt =====
-- handleSubmitSM of internal/smsc/session.go keeps a session's invariant, and does not stop it.
use smpp_smsc.Base.{
  ℕ, inl, inr, Bool, true, false, not, Option, none, some, Bytes, nat_eq, if◌then◌else◌,
  Option-cases,
}
use smpp_smsc.Wire.{GoSmpp}
use smpp_smsc.Types.{requires_delivery_receipt, SubmitSmParams}
use smpp_smsc.Segments.{MessageSegment, AddResult, add_segment, SegmentsManager}
use smpp_smsc.Segments.WellFormed.{ManagerOk}
use smpp_smsc.Segments.Invariant.{add_segment-ManagerOk}
use smpp_smsc.Session.{
  Session, call_route, register, unregister, remove_pending_request_by_message_id, delete_pending,
  register_message_id, unregister_message_id, store_pending, RouteCall,
}
use smpp_smsc.Session.Handler.{Handler}
use smpp_smsc.Session.Submit.{
  replace_found, try_replace_previous_submit, record_replaceable_submit, remember_receipt, accept,
  after_segment, submit_segment, text_of_single, submit_single, submit_by, handle_submit_sm,
}
use smpp_smsc.Session.Sound.{
  SessionOk, IsLive, IsSound, ok_if, if-IsLive, pending-SessionOk, pending-IsLive,
  delete_pending-IsLive,
}

call_route-SessionOk : (s : Session) (c : RouteCall) → SessionOk s → SessionOk (call_route s c)
unfolding call_route
call_route-SessionOk s c v =
    ok_if s.has_routes _ _ (pending-SessionOk s s.pending_requests _ s.replace_submit_last v) v

pub remove_pending-SessionOk :
    (s : Session) (id : ℕ) → SessionOk s → SessionOk (remove_pending_request_by_message_id s id)
unfolding remove_pending_request_by_message_id unregister_message_id delete_pending
remove_pending-SessionOk s id v =
    ok_if _ _ _
      (call_route-SessionOk _ (unregister id)
        (pending-SessionOk s _ s.routes s.replace_submit_last v))
      v

call_route-IsLive : (s : Session) (c : RouteCall) → IsLive s → IsLive (call_route s c)
unfolding call_route
call_route-IsLive s c v =
    if-IsLive s.has_routes _ _ (pending-IsLive s s.pending_requests _ s.replace_submit_last v) v

pub remove_pending-IsLive :
    (s : Session) (id : ℕ) → IsLive s → IsLive (remove_pending_request_by_message_id s id)
unfolding remove_pending_request_by_message_id unregister_message_id
remove_pending-IsLive s id v =
    if-IsLive _ _ _ (call_route-IsLive _ (unregister id) (delete_pending-IsLive s _ v)) v

replace_found-IsLive :
    (s : Session) (key : Bytes) (old : Option ℕ) → IsLive s → IsLive (replace_found s key old)
unfolding replace_found
replace_found-IsLive s key none v = v
replace_found-IsLive s key (some old) v =
    let s1 = remove_pending_request_by_message_id s old in
    pending-IsLive s1 s1.pending_requests s1.routes _ (remove_pending-IsLive s old v)

try_replace-IsLive :
    (p : SubmitSmParams) (s : Session) → IsLive s → IsLive (try_replace_previous_submit p s)
unfolding try_replace_previous_submit
try_replace-IsLive p s v = if-IsLive _ _ _ v (replace_found-IsLive s _ _ v)

remember_receipt-IsLive :
    (p : SubmitSmParams) (id now : ℕ) (s : Session)
    → IsLive s
    → IsLive (remember_receipt p id now s)
unfolding remember_receipt register_message_id store_pending
remember_receipt-IsLive p id now s v =
    call_route-IsLive _ (register id) (pending-IsLive s _ s.routes s.replace_submit_last v)

record_replaceable-IsLive :
    (p : SubmitSmParams) (id : ℕ) (s : Session)
    → IsLive s
    → IsLive (record_replaceable_submit p id s)
unfolding record_replaceable_submit
record_replaceable-IsLive p id s v =
    if-IsLive _ _ _ v (pending-IsLive s s.pending_requests s.routes _ v)

with_segments-IsLive :
    (s : Session) (m : SegmentsManager)
    → IsLive s
    → ManagerOk m
    → IsLive (record s { segments_mgr = m })
with_segments-IsLive s m (v, o) w = (
  record {
    segments = w;
    queued = v.queued;
    numbered = v.numbered;
    retried = v.retried;
    cancelled = v.cancelled;
    unbound = v.unbound;
    unauthenticated = v.unauthenticated;
  },
  o,
)

if_pair-IsLive :
    {A : Type 0} (b : Bool) (t u : A × Session)
    → IsLive t.1
    → IsLive u.1
    → IsLive (if b then t else u).1
if_pair-IsLive true t u v w = v
if_pair-IsLive false t u v w = w

module _ (lib : GoSmpp) (handler : Handler) (sound : IsSound handler) where
  accept-IsLive :
      (p : SubmitSmParams) (id : ℕ) (receipt : Bool) (now : ℕ) (s : Session)
      → IsLive s
      → IsLive (accept lib handler p id receipt now s).1
  unfolding accept
  accept-IsLive p id receipt now s v =
      let s0 = try_replace_previous_submit p s in
      let s1 = (handler.handle_submit_sm p s0).1 in
      let done : IsLive s1 = sound.sound_submit p s0 (try_replace-IsLive p s v) in
      let noted = if-IsLive receipt _ _ (remember_receipt-IsLive p id now s1 done) done in
      if_pair-IsLive _ _ _ (record_replaceable-IsLive p id _ noted) noted

  after_segment-IsLive :
      (p : SubmitSmParams) (seg : MessageSegment) (now : ℕ) (r : AddResult) (s : Session)
      → IsLive s
      → IsLive (after_segment lib handler p seg now r s).1
  unfolding after_segment
  after_segment-IsLive p seg now r s v =
      if_pair-IsLive r.failed _ _ v
        (if_pair-IsLive (not r.complete) _ _ v (accept-IsLive _ _ _ now s v))

  submit_segment-IsLive :
      (p : SubmitSmParams) (seg : MessageSegment) (generated : Option ℕ) (now : ℕ) (s : Session)
      → IsLive s
      → IsLive (submit_segment lib handler p seg generated now s).1
  unfolding submit_segment
  submit_segment-IsLive p seg generated now s v =
      let seg1 = record seg {
        delivery_receipt_requested = requires_delivery_receipt p.registered_delivery;
      } in
      let added = add_segment lib s.segments_mgr seg1 generated now in
      after_segment-IsLive p seg1 now added.0 _ (
        with_segments-IsLive s added.1 v
          (add_segment-ManagerOk lib s.segments_mgr seg1 generated now v.0.segments))

  submit_single-IsLive :
      (p : SubmitSmParams) (generated : Option ℕ) (now : ℕ) (s : Session)
      → IsLive s
      → IsLive (submit_single lib handler p generated now s).1
  unfolding submit_single
  submit_single-IsLive p none now s v = v
  submit_single-IsLive p (some id) now s v = elim (Option-cases (text_of_single lib handler p)) [
    | inl e ↦ rw (e, submit_single) v
    | inr (t, e) ↦ rw (e, submit_single) (accept-IsLive _ id _ now s v)
  ]

  submit_by-IsLive :
      (o : Option MessageSegment) (p : SubmitSmParams) (generated : Option ℕ) (now : ℕ)
      (s : Session)
      → IsLive s
      → IsLive (submit_by lib handler o p generated now s).1
  unfolding submit_by
  submit_by-IsLive none p generated now s v = submit_single-IsLive p generated now s v
  submit_by-IsLive (some seg) p generated now s v =
      if_pair-IsLive _ _ _ (submit_segment-IsLive p seg generated now s v)
        (submit_single-IsLive p generated now s v)

  pub handle_submit_sm-IsLive :
      (p : SubmitSmParams) (generated : Option ℕ) (now : ℕ) (s : Session)
      → IsLive s
      → IsLive (handle_submit_sm lib handler p generated now s).1
  unfolding handle_submit_sm
  handle_submit_sm-IsLive p generated now s v = submit_by-IsLive p.segment p generated now s v
