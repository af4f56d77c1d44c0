-- ===== src/Server/System.antt =====
-- The whole server: connections, the goroutines of the sessions, the application's calls, the checks
-- of inactive sessions, the caches' evictions and Shutdown, in any order, one call after the other.
pub mod Invariant
mod Tests
use smpp_smsc.Base.{
  ℕ, ◌≡◌, sym, subst, Bool, true, false, Option, none, some, List, [], ◌∷◌, Bytes, bytes_eq, refl,
  if◌then◌else◌, not,
}
use smpp_smsc.Wire.{GoSmpp, Pdu}
use smpp_smsc.Segments.Routine.{RoutineEvent, start_cleanup_routine}
use smpp_smsc.Session.{
  Limiter, set_rate_limiter, Session, stop, set_application_id, set_session_meta,
}
use smpp_smsc.Session.Handler.{Handler}
use smpp_smsc.Session.Outgoing.{Link, outgoing_step}
use smpp_smsc.Session.Cleanup.{ReadEvent, read_round, cleanup_pending_requests}
use smpp_smsc.Session.Sound.{SessionOk, IsSound, stop-SessionOk}
use smpp_smsc.Session.Sound.Answers.{OkAfter}
use smpp_smsc.Session.Sound.Rounds.{
  outgoing_step-SessionOk, cleanup_pending-SessionOk, segments-SessionOk,
  set_application_id-SessionOk, set_session_meta-SessionOk,
}
use smpp_smsc.Session.Sound.Reads.{read_round-OkAfter, unless-IsLive, OkAfter-at}
use smpp_smsc.Controller.Caches.{Cache, IsIn}
use smpp_smsc.Controller.{
  SessController, put_back, update_session, delete_session, delete_pod_sessions,
  get_session_by_message_id, process_inactive_sessions, invalidate_session, on_deletion,
}
use smpp_smsc.Controller.Everywhere.{
  update_session-Everywhere, delete_session-Everywhere, delete_pod_sessions-Everywhere,
  get_session_by_message_id-Everywhere, process_inactive_sessions-Everywhere,
  invalidate_session-Everywhere, shutdown-Everywhere,
}
use smpp_smsc.Deliver.{DeliverSmParams}
use smpp_smsc.Deliver.Report.{Request}
use smpp_smsc.Server.{
  send_deliver_sm_with_params, send_deliver_sm_text, send_deliver_sm_text_with_data_coding,
  send_delivery_report,
}
use smpp_smsc.Server.Listen.{
  Server, Connection, ListenEvent, accepted, failed, accept_connection, accept_round, accept_loop,
  push_error, start, cancel_sessions, shut_down,
}
use smpp_smsc.Server.Everywhere.{
  SessionOk-IsKept, AllOk, put_back-AllOk, handle_connection-AllOk, send_deliver_sm-AllOk,
  send_text-AllOk, send_coded_text-AllOk, send_delivery_report-AllOk,
}

module _ (sessions_cache : Cache Bytes ℕ) (ids_cache : Cache ℕ Bytes) where
  abbrev Sessions : Type 0
  Sessions = SessController sessions_cache ids_cache

  abbrev State : Type 0
  State = Server sessions_cache ids_cache

  -- The server with other sessions.
  abbrev pub with_sessions : Sessions → State → State
  with_sessions m st = record st { sessions = m }

  module _ (lib : GoSmpp) (handler : Handler) (digest trim : Bytes → Bytes)
      (serialize : Pdu → Option Bytes) where
    -- What one step makes of the sessions `m`; a call that uses the cache finds it open. The goroutines of the session at `a`: a round of
    -- its reading loop, of its outgoing handler, and of its two cleanups.
    pub data Move (m : Sessions) : Sessions → Type 0 where
      handling :
          (a : ℕ) (e : ReadEvent) (s : Session)
          → (m.heap a).ctx_done ≡ false
          → read_round lib handler digest e (m.heap a) ≡ some s
          → Move m (put_back sessions_cache ids_cache a s m)
      draining :
          (a : ℕ) (link : Link)
          → Move m (put_back sessions_cache ids_cache a (outgoing_step serialize link (m.heap a)) m)
      expiring :
          (a now : ℕ)
          → Move m (put_back sessions_cache ids_cache a (cleanup_pending_requests now (m.heap a)) m)
      sweeping :
          (a : ℕ) (events : List RoutineEvent)
          → Move m (
              put_back sessions_cache ids_cache a
                (record (m.heap a) {
                  segments_mgr = start_cleanup_routine events (m.heap a).segments_mgr;
                })
                m)
      stopping : (a : ℕ) → Move m (put_back sessions_cache ids_cache a (stop (m.heap a)) m)
      limiting :
          (a : ℕ) (limiter : Limiter)
          → Move m (put_back sessions_cache ids_cache a (set_rate_limiter limiter (m.heap a)) m)
      naming :
          (a : ℕ) (id : Bytes)
          → Move m (put_back sessions_cache ids_cache a (set_application_id (m.heap a) id) m)
      marking :
          (a : ℕ) (key value : Bytes)
          → Move m (put_back sessions_cache ids_cache a (set_session_meta (m.heap a) key value) m)
      delivering :
          (id : Bytes) (now : ℕ) (expired : Bool) (p : DeliverSmParams)
          → m.closed ≡ false
          → Move m (send_deliver_sm_with_params sessions_cache ids_cache lib id now expired p m).1
      texting :
          (expired : ℕ → Bool) (now ref : ℕ) (id source dest t : Bytes)
          → m.closed ≡ false
          → Move m
              (send_deliver_sm_text sessions_cache ids_cache lib expired now ref id source dest t
                m).2
      coding :
          (expired : ℕ → Bool) (now ref : ℕ) (id source dest t : Bytes) (data_coding : ℕ)
          → m.closed ≡ false
          → Move m
              (send_deliver_sm_text_with_data_coding sessions_cache ids_cache lib expired now ref id
                source dest t data_coding m).2
      reporting :
          (now later : ℕ) (q : Request) (id : Bytes)
          → m.closed ≡ false
          → Move m (send_delivery_report sessions_cache ids_cache lib trim now later q id m).2
      searching :
          (n : ℕ)
          → m.closed ≡ false
          → Move m (get_session_by_message_id sessions_cache ids_cache n m).1
      updating :
          (o : Option ℕ) → m.closed ≡ false → Move m (update_session sessions_cache ids_cache o m).1
      deleting :
          (id : Bytes) → m.closed ≡ false → Move m (delete_session sessions_cache ids_cache id m)
      pod_deleting :
          (pod : Bytes)
          → m.closed ≡ false
          → Move m (delete_pod_sessions sessions_cache ids_cache pod m)
      checking :
          (now : ℕ)
          → m.closed ≡ false
          → Move m (process_inactive_sessions sessions_cache ids_cache lib.enquire_link_id now m)
      evicting :
          (id : Bytes)
          → m.closed ≡ false
          → Move m (invalidate_session sessions_cache ids_cache id m)
      -- The callback OnDeletion of a session that the cache has deleted.
      notified :
          (a : ℕ) → IsIn a m.notices → Move m (on_deletion sessions_cache ids_cache (a ∷ []) m)

    pub data Step (st : State) : State → Type 0 where
      moving : {m : Sessions} → Move st.sessions m → Step st (with_sessions m st)
      starting : (refusal : Option Bytes) → Step st (start sessions_cache ids_cache refusal st)
      accepting :
          (events : List ListenEvent) → Step st (accept_loop sessions_cache ids_cache events st)
      shutting : {t : State} → shut_down sessions_cache ids_cache st ≡ some t → Step st t

    pub data Run (st : State) : State → Type 0 where
      begun : Run st st
      then_step : {u v : State} → Run st u → Step u v → Run st v
