-- ===== src/Server/System/Invariant.antt =====
-- Every run of the server keeps the invariant of each of its sessions.
use smpp_smsc.Base.{
  ℕ, Bool, true, false, Option, none, some, List, [], ◌∷◌, Bytes, bytes_eq, ◌≡◌, refl, sym, ◌∙◌,
  subst, inl, inr, Option-cases, if◌then◌else◌, not,
}
use smpp_smsc.Wire.{GoSmpp, Pdu}
use smpp_smsc.Session.{Session}
use smpp_smsc.Session.Handler.{Handler}
use smpp_smsc.Session.Sound.{SessionOk, IsSound, stop-SessionOk}
use smpp_smsc.Session.Sound.Rounds.{
  outgoing_step-SessionOk, cleanup_pending-SessionOk, segments-SessionOk,
  set_application_id-SessionOk, set_rate_limiter-SessionOk, set_session_meta-SessionOk,
}
use smpp_smsc.Session.Sound.Reads.{read_round-OkAfter, unless-IsLive, OkAfter-at}
use smpp_smsc.Controller.Caches.{Cache}
use smpp_smsc.Controller.{SessController}
use smpp_smsc.Controller as Controller
use mathlib.Core.Option.{some-injective}
use smpp_smsc.Controller.Everywhere.{
  update_session-Everywhere, delete_session-Everywhere, delete_pod_sessions-Everywhere,
  get_session_by_message_id-Everywhere, process_inactive_sessions-Everywhere,
  invalidate_session-Everywhere, on_deletion-Everywhere, shutdown-Everywhere,
}
use smpp_smsc.Server.Listen.{
  Server, Connection, ListenEvent, accepted, failed, accept_connection, accept_round, accept_loop,
  push_error, start, cancel_sessions, shut_down,
}
use smpp_smsc.Server.Everywhere.{
  SessionOk-IsKept, AllOk, put_back-AllOk, handle_connection-AllOk, send_deliver_sm-AllOk,
  send_text-AllOk, send_coded_text-AllOk, send_delivery_report-AllOk,
}
use smpp_smsc.Server.System.{
  Move, handling, draining, expiring, sweeping, stopping, limiting, naming, marking, delivering,
  texting, coding, reporting, searching, updating, deleting, pod_deleting, checking, evicting,
  notified, Step, moving, starting, accepting, shutting, Run, begun, then_step,
}

-- A session whose context is cancelled.
cancelled-SessionOk : (s : Session) → SessionOk s → SessionOk (record s { ctx_done = true })
cancelled-SessionOk s v = record {
  segments = v.segments;
  queued = v.queued;
  numbered = v.numbered;
  retried = v.retried;
  cancelled = λ h. refl;
  unbound = v.unbound;
  unauthenticated = v.unauthenticated;
}

module _ (sessions_cache : Cache Bytes ℕ) (ids_cache : Cache ℕ Bytes) where
  abbrev Sessions : Type 0
  Sessions = SessController sessions_cache ids_cache

  abbrev State : Type 0
  State = Server sessions_cache ids_cache

  state_if :
      (b : Bool) (t u : State)
      → AllOk sessions_cache ids_cache t.sessions
      → AllOk sessions_cache ids_cache u.sessions
      → AllOk sessions_cache ids_cache (if b then t else u).sessions
  state_if true t u v w = v
  state_if false t u v w = w

  accept_connection-AllOk :
      (c : Connection) (st : State)
      → AllOk sessions_cache ids_cache st.sessions
      → AllOk sessions_cache ids_cache (accept_connection sessions_cache ids_cache c st).sessions
  unfolding accept_connection
  accept_connection-AllOk c st v = state_if (not c.deadlines) _ _ v (
      handle_connection-AllOk sessions_cache ids_cache st.has_limiter c.at c.address c.generated
        c.now st.sessions v)

  accept_round-AllOk :
      (e : ListenEvent) (st : State)
      → AllOk sessions_cache ids_cache st.sessions
      → AllOk sessions_cache ids_cache (accept_round sessions_cache ids_cache e st).sessions
  unfolding accept_round push_error
  accept_round-AllOk (accepted c) st v = accept_connection-AllOk c st v
  accept_round-AllOk (failed e) st v = state_if _ _ _ v v

  accept_loop-AllOk :
      (events : List ListenEvent) (st : State)
      → AllOk sessions_cache ids_cache st.sessions
      → AllOk sessions_cache ids_cache (accept_loop sessions_cache ids_cache events st).sessions
  unfolding accept_loop
  accept_loop-AllOk [] st v = v
  accept_loop-AllOk (e ∷ events) st v = state_if st.ctx_done _ _ v (
      accept_loop-AllOk events (accept_round sessions_cache ids_cache e st)
        (accept_round-AllOk e st v))

  cancel_sessions-AllOk :
      (m : Sessions)
      → AllOk sessions_cache ids_cache m
      → AllOk sessions_cache ids_cache (cancel_sessions sessions_cache ids_cache m)
  unfolding cancel_sessions
  cancel_sessions-AllOk m v a = cancelled-SessionOk (m.heap a) (v a)

  start-AllOk :
      (refusal : Option Bytes) (st : State)
      → AllOk sessions_cache ids_cache st.sessions
      → AllOk sessions_cache ids_cache (start sessions_cache ids_cache refusal st).sessions
  unfolding start
  start-AllOk none st v = v
  start-AllOk (some e) st v = v

  pub shut_down-AllOk :
      (st t : State)
      → shut_down sessions_cache ids_cache st ≡ some t
      → AllOk sessions_cache ids_cache st.sessions
      → AllOk sessions_cache ids_cache t.sessions
  unfolding shut_down
  shut_down-AllOk st t e v =
      let m = cancel_sessions sessions_cache ids_cache st.sessions in
      elim (Option-cases (Controller.shutdown sessions_cache ids_cache m)) [
        | inl h ↦ let f : none ≡ some t = sym (rw (h, shut_down)) ∙ e in absurd (cc)
        | inr (u, h) ↦
            let f : some (record st { sessions = u; ctx_done = true; listening = false }) ≡ some t =
              sym (rw (h, shut_down)) ∙ e in
            subst (λ s. AllOk sessions_cache ids_cache s.sessions) (some-injective _ _ f)
              (shutdown-Everywhere sessions_cache ids_cache SessionOk SessionOk-IsKept m u h
                (cancel_sessions-AllOk st.sessions v))
      ]

  module _ (lib : GoSmpp) (handler : Handler) (digest trim : Bytes → Bytes)
      (serialize : Pdu → Option Bytes) where
    Move-AllOk :
        {m t : Sessions}
        → IsSound handler
        → Move sessions_cache ids_cache lib handler digest trim serialize m t
        → AllOk sessions_cache ids_cache m
        → AllOk sessions_cache ids_cache t
    Move-AllOk {m} sound (handling a e s h k) v =
        put_back-AllOk sessions_cache ids_cache a s m
          (OkAfter-at _ s
            (read_round-OkAfter lib handler digest sound e (m.heap a)
              (unless-IsLive (m.heap a) (v a) h))
            k)
          v
    Move-AllOk {m} sound (draining a link) v =
        put_back-AllOk sessions_cache ids_cache a _ m
          (outgoing_step-SessionOk serialize link (m.heap a) (v a)) v
    Move-AllOk {m} sound (expiring a now) v =
        put_back-AllOk sessions_cache ids_cache a _ m
          (cleanup_pending-SessionOk now (m.heap a) (v a)) v
    Move-AllOk {m} sound (sweeping a events) v =
        put_back-AllOk sessions_cache ids_cache a _ m (segments-SessionOk events (m.heap a) (v a)) v
    Move-AllOk {m} sound (stopping a) v =
        put_back-AllOk sessions_cache ids_cache a _ m (stop-SessionOk (m.heap a) (v a)) v
    Move-AllOk {m} sound (limiting a limiter) v =
        put_back-AllOk sessions_cache ids_cache a _ m
          (set_rate_limiter-SessionOk limiter (m.heap a) (v a)) v
    Move-AllOk {m} sound (naming a id) v =
        put_back-AllOk sessions_cache ids_cache a _ m
          (set_application_id-SessionOk (m.heap a) id (v a)) v
    Move-AllOk {m} sound (marking a key value) v =
        put_back-AllOk sessions_cache ids_cache a _ m
          (set_session_meta-SessionOk (m.heap a) key value (v a)) v
    Move-AllOk {m} sound (delivering id now expired p opened) v =
        send_deliver_sm-AllOk sessions_cache ids_cache lib id now expired p m v
    Move-AllOk {m} sound (texting expired now ref id source dest t opened) v =
        send_text-AllOk sessions_cache ids_cache lib expired now ref id source dest t m v
    Move-AllOk {m} sound (coding expired now ref id source dest t data_coding opened) v =
        send_coded_text-AllOk sessions_cache ids_cache lib expired now ref id source dest t
          data_coding m v
    Move-AllOk {m} sound (reporting now later q id opened) v =
        send_delivery_report-AllOk sessions_cache ids_cache lib trim now later q id m v
    Move-AllOk {m} sound (searching n opened) v =
        get_session_by_message_id-Everywhere sessions_cache ids_cache SessionOk SessionOk-IsKept n m
          v
    Move-AllOk {m} sound (updating o opened) v =
        update_session-Everywhere sessions_cache ids_cache SessionOk SessionOk-IsKept o m v
    Move-AllOk {m} sound (deleting id opened) v =
        delete_session-Everywhere sessions_cache ids_cache SessionOk SessionOk-IsKept id m v
    Move-AllOk {m} sound (pod_deleting pod opened) v =
        delete_pod_sessions-Everywhere sessions_cache ids_cache SessionOk SessionOk-IsKept pod m v
    Move-AllOk {m} sound (checking now opened) v =
        process_inactive_sessions-Everywhere sessions_cache ids_cache SessionOk SessionOk-IsKept
          lib.enquire_link_id now m v
    Move-AllOk {m} sound (evicting id opened) v =
        invalidate_session-Everywhere sessions_cache ids_cache SessionOk SessionOk-IsKept id m v
    Move-AllOk {m} sound (notified a i) v =
        on_deletion-Everywhere sessions_cache ids_cache SessionOk SessionOk-IsKept (a ∷ []) m v

    Step-AllOk :
        {st t : State}
        → IsSound handler
        → Step sessions_cache ids_cache lib handler digest trim serialize st t
        → AllOk sessions_cache ids_cache st.sessions
        → AllOk sessions_cache ids_cache t.sessions
    Step-AllOk sound (moving move) v = Move-AllOk sound move v
    Step-AllOk {st} sound (starting refusal) v = start-AllOk refusal st v
    Step-AllOk {st} sound (accepting events) v = accept_loop-AllOk events st v
    Step-AllOk {st} {t} sound (shutting e) v = shut_down-AllOk st t e v

    -- With a handler that keeps a live session live, on every run of the server, each call one step and
    -- one that uses the session cache made while it is open, from a state in which each session has
    -- its invariant, each session has it afterwards: its segments manager has its own invariant, its
    -- queue is within the capacity, its sequence number and its retries are within their limits, and
    -- if it is stopped it is cancelled, unbound and not authenticated.
    pub Run-AllOk :
        {st t : State}
        → IsSound handler
        → AllOk sessions_cache ids_cache st.sessions
        → Run sessions_cache ids_cache lib handler digest trim serialize st t
        → AllOk sessions_cache ids_cache t.sessions
    Run-AllOk sound v begun = v
    Run-AllOk sound v (then_step r step) = Step-AllOk sound step (Run-AllOk sound v r)
