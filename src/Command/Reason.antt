-- ===== src/Command/Reason.antt =====
-- cmd/server/main.go: why the command ends, and in what state it leaves the server.
use smpp_smsc.Base.{
  ℕ, ◌≡◌, ◌⊎◌, inl, inr, refl, ap, ◌∙◌, Bool, true, false, ◌&&◌, ◌||◌, Option, none, some, List, [],
  ◌∷◌, ◌++◌, Bytes, if_false, is_some, length, not, nat_eq, ◌==◌, arith,
}
use smpp_smsc.Text.{codes}
use smpp_smsc.Controller.Caches.{Cache}
use smpp_smsc.Controller as Controller
use smpp_smsc.Server.Listen.{
  Server, Connection, ListenEvent, accepted, failed, start, push_error, accept_connection,
  accept_round, accept_loop, cancel_sessions, shut_down,
}
use smpp_smsc.Command.{signalled, reported, shutdown_reason, await, await_in, serve, end_main, run}
use smpp_smsc.Controller.{
  SessController, StopChannel, no_channel, open_channel, closed_channel, initialize_session,
  set_session, write_session,
}
use smpp_smsc.Controller.Index.{shutdown_with-closed}
use smpp_smsc.Server.{handle_connection}

-- Some Accept failed.
abbrev pub any_failed : List ListenEvent → Bool
any_failed [] = false
any_failed (accepted c ∷ events) = any_failed events
any_failed (failed e ∷ events) = true

abbrev is_empty : List Bytes → Bool
is_empty [] = true
is_empty (e ∷ errors) = false

is_empty-length : (errors : List Bytes) → (length errors == 0) ≡ is_empty errors
is_empty-length [] = refl
is_empty-length (e ∷ errors) = ground arith

-- What wakes main: an error that is in the channel, or the signal.
await_cases :
    (first : Bool) (signal : Option Bytes) (errors : List Bytes)
    → ((await_in first signal errors ≡ none) × (is_empty errors ≡ true) × (signal ≡ none))
      ⊎ (((e : Bytes) × (await_in first signal errors ≡ some (reported (some e)))
            × (is_empty errors ≡ false))
          ⊎ ((name : Bytes) × (await_in first signal errors ≡ some (signalled name))
              × (signal ≡ some name)))
unfolding await_in
await_cases first none [] = inl (refl, refl, refl)
await_cases first none (e ∷ errors) = inr (inl (e, refl, refl))
await_cases first (some name) [] = inr (inr (name, refl, refl))
await_cases true (some name) (e ∷ errors) = inr (inr (name, refl, refl))
await_cases false (some name) (e ∷ errors) = inr (inl (e, refl, refl))

module _ (sessions_cache : Cache Bytes ℕ) (ids_cache : Cache ℕ Bytes) where
  abbrev State : Type 0
  State = Server sessions_cache ids_cache

  accept_connection-same :
      (c : Connection) (st : State)
      → ((accept_connection sessions_cache ids_cache c st).errors ≡ st.errors)
        × ((accept_connection sessions_cache ids_cache c st).ctx_done ≡ st.ctx_done)
  unfolding accept_connection
  accept_connection-same c st = ground arith

  push_error-errors :
      (e : Bytes) (st : State)
      → (is_empty (push_error sessions_cache ids_cache e st).errors ≡ false)
        × ((push_error sessions_cache ids_cache e st).ctx_done ≡ st.ctx_done)
  unfolding push_error
  push_error-errors e st = ground (arith, is_empty-length st.errors)

  accept_loop-errors :
      (events : List ListenEvent) (st : State)
      → st.ctx_done ≡ false
      → is_empty (accept_loop sessions_cache ids_cache events st).errors
        ≡ (is_empty st.errors && not (any_failed events))
  unfolding accept_loop accept_round
  accept_loop-errors [] st h = ground arith
  accept_loop-errors (accepted c ∷ events) st h =
      let (same, going) = accept_connection-same c st in
      ap (λ t. is_empty t.errors) (if_false st.ctx_done st _ h)
      ∙ accept_loop-errors events (accept_connection sessions_cache ids_cache c st) (going ∙ h)
      ∙ ap (λ errors. is_empty errors && not (any_failed events)) same
  accept_loop-errors (failed e ∷ events) st h =
      let (full, going) = push_error-errors e st in
      ground (
        arith,
        h,
        full,
        accept_loop-errors events (push_error sessions_cache ids_cache e st) (going ∙ h),
      )

  serve-facts :
      (refusal : Option Bytes) (events : List ListenEvent) (st : State)
      → st.ctx_done ≡ false
      → is_empty (serve sessions_cache ids_cache refusal events st).errors
        ≡ not (is_some refusal || any_failed events)
  unfolding serve start
  serve-facts (some e) events st h = refl
  serve-facts none events st h =
      accept_loop-errors events (start sessions_cache ids_cache none st) h

  handle_connection-channel :
      (limited : Bool) (a : ℕ) (address : Bytes) (generated : Option ℕ) (now : ℕ)
      (m : SessController sessions_cache ids_cache)
      → (handle_connection sessions_cache ids_cache limited a address generated now m).stop_channel
        ≡ m.stop_channel
  unfolding handle_connection initialize_session set_session write_session
  handle_connection-channel limited a address generated now m = refl

  accept_round-channel :
      (e : ListenEvent) (st : State)
      → (accept_round sessions_cache ids_cache e st).sessions.stop_channel
        ≡ st.sessions.stop_channel
  unfolding accept_round accept_connection push_error
  accept_round-channel (accepted c) st =
      ground (
        arith,
        handle_connection-channel st.has_limiter c.at c.address c.generated c.now st.sessions,
      )
  accept_round-channel (failed e) st = ground arith

  accept_loop-channel :
      (events : List ListenEvent) (st : State)
      → (accept_loop sessions_cache ids_cache events st).sessions.stop_channel
        ≡ st.sessions.stop_channel
  unfolding accept_loop
  accept_loop-channel [] st = refl
  accept_loop-channel (e ∷ events) st = ground (
    arith,
    accept_loop-channel events (accept_round sessions_cache ids_cache e st),
    accept_round-channel e st,
  )

  -- Shutdown of a server whose checks were never started, or run.
  abbrev CanShut : State → Type 0
  CanShut st = (st.sessions.stop_channel ≡ no_channel) ⊎ (st.sessions.stop_channel ≡ open_channel)

  serve-CanShut :
      (refusal : Option Bytes) (events : List ListenEvent) (st : State)
      → st.sessions.stop_channel ≡ no_channel
      → CanShut (serve sessions_cache ids_cache refusal events st)
  unfolding serve start Controller.start
  serve-CanShut (some e) events st h = inl h
  serve-CanShut none events st h =
      inr (accept_loop-channel events (start sessions_cache ids_cache none st))

  -- The server as Shutdown leaves it.
  abbrev pub IsLeft : State → Type 0
  IsLeft t =
      (t.ctx_done ≡ true)
      × (t.listening ≡ false)
      × (t.sessions.closed ≡ true)
      × (t.sessions.session_ids ≡ [])

  shutdown-total :
      (m : SessController sessions_cache ids_cache)
      → (m.stop_channel ≡ no_channel) ⊎ (m.stop_channel ≡ open_channel)
      → (k : StopChannel) × (Controller.shutdown sessions_cache ids_cache m
          ≡ some (Controller.shutdown_with sessions_cache ids_cache k m))
  unfolding Controller.shutdown Controller.shutdown_by
  shutdown-total m (inl h) = (no_channel, rw (h, Controller.shutdown_by) refl)
  shutdown-total m (inr h) = (closed_channel, rw (h, Controller.shutdown_by) refl)

  shut_down-IsLeft :
      (st : State)
      → CanShut st
      → (t : State) × (shut_down sessions_cache ids_cache st ≡ some t) × IsLeft t
  unfolding shut_down cancel_sessions Controller.shutdown_with
  shut_down-IsLeft st h =
      let m = cancel_sessions sessions_cache ids_cache st.sessions in
      let (k, e) = shutdown-total m h in
      (
        record st {
          sessions = Controller.shutdown_with sessions_cache ids_cache k m;
          ctx_done = true;
          listening = false;
        },
        rw (e, shut_down) refl,
        (refl, refl, shutdown_with-closed sessions_cache ids_cache k m, refl),
      )

  -- What wakes main, in a new server, whatever Listen answers, whatever the accept loop meets, and
  -- whichever of a signal and an error a select takes that finds both. Main waits on only if Listen
  -- was not refused, no Accept failed and no signal came. Else it logs a reason and shuts the server
  -- down: the reason is server_error, and then Listen was refused or some Accept failed, or it is the
  -- signal that came; and the server is left cancelled, without a listener and without session IDs, and
  -- its session cache closed.
  pub run_reason :
      (refusal : Option Bytes) (events : List ListenEvent) (first : Bool) (signal : Option Bytes)
      (st : State)
      → st.ctx_done ≡ false
      → st.sessions.stop_channel ≡ no_channel
      → ((run sessions_cache ids_cache refusal events first signal st ≡ none)
          × (is_some refusal || any_failed events ≡ false)
          × (signal ≡ none))
        ⊎ ((reason : Bytes) × (t : State) × (run sessions_cache ids_cache refusal events first
                signal st
              ≡ some (reason, some t))
            × (((reason ≡ codes "server_error") × (is_some refusal || any_failed events ≡ true))
                ⊎ ((name : Bytes) × (signal ≡ some name) × (reason ≡ codes "signal:" ++ name)))
            × IsLeft t)
  unfolding run await end_main shutdown_reason
  run_reason refusal events first signal st h new =
      let st1 = serve sessions_cache ids_cache refusal events st in
      let empty = serve-facts refusal events st h in
      let (t, done, left) = shut_down-IsLeft st1 (serve-CanShut refusal events st new) in
      elim (await_cases first signal st1.errors) [
        | inl (e, nothing, quiet) ↦
            inl (rw (e, end_main) refl, ground (arith, empty, nothing), quiet)
        | inr (inl (x, e, some_error)) ↦ inr (
          codes "server_error",
          t,
          rw (e, end_main, done) refl,
          inl (refl, ground (arith, empty, some_error)),
          left,
        )
        | inr (inr (name, e, there)) ↦
            inr (
              codes "signal:" ++ name,
              t,
              rw (e, end_main, done) refl,
              inr (name, there, refl),
              left,
            )
      ]
