-- ===== src/Server/Closed.antt =====
-- What Shutdown of internal/smsc/server.go leaves of the sessions, the routes and the accept loop.
use smpp_smsc.Base.{
  ℕ, ◌≡◌, ◌⊎◌, inl, inr, refl, sym, ap, ◌∙◌, subst, Option-cases, true, false, some, none, List, [],
  ◌∷◌, Bytes, bytes_eq, nat_eq, Bool-cases, arith,
}
use smpp_smsc.Session.{Session}
use smpp_smsc.Session.Sound.{SessionOk}
use smpp_smsc.Controller.Caches.{Cache, IsIn, IsIn-append}
use smpp_smsc.Controller.{SessController, StopChannel, on_deletion}
use mathlib.Core.Option.{some-injective}
use smpp_smsc.Controller as Controller
use smpp_smsc.Controller.Closing.{IsClosed, on_deletion-stops}
use smpp_smsc.Controller.Index.{
  get_session-some, get_session-panics, shutdown-some, shutdown_with-closed,
}
use smpp_smsc.Controller.Everywhere.{shutdown_with-heap}
use smpp_smsc.Controller.Routes.{Gone, on_deletion-kept}
use smpp_smsc.Server.Listen.{
  Server, ListenEvent, accept_loop, cancel_sessions, shut_down, get_session,
}
use smpp_smsc.Server.Everywhere.{AllOk}

-- A good session, once cancelled, is open or closed as Stop leaves it.
open_or_IsClosed :
    (s : Session) → SessionOk s → (s.stopped ≡ false) ⊎ IsClosed (record s { ctx_done = true })
open_or_IsClosed s v = elim (Bool-cases s.stopped) [
  | inl h ↦ inr (h, refl, v.unbound h, v.unauthenticated h)
  | inr h ↦ inl h
]

module _ (sessions_cache : Cache Bytes ℕ) (ids_cache : Cache ℕ Bytes) where
  abbrev Sessions : Type 0
  Sessions = SessController sessions_cache ids_cache

  abbrev State : Type 0
  State = Server sessions_cache ids_cache

  accept_loop-ended :
      (events : List ListenEvent) (st : State)
      → st.ctx_done ≡ true
      → accept_loop sessions_cache ids_cache events st ≡ st
  unfolding accept_loop
  accept_loop-ended [] st h = refl
  accept_loop-ended (e ∷ events) st h = ground (arith, h)

  cancelled :
      (a : ℕ) (m : Sessions) → ((cancel_sessions sessions_cache ids_cache m).heap a).ctx_done ≡ true
  unfolding cancel_sessions
  cancelled a m = refl

  cancelled-open :
      (m : Sessions)
      → m.closed ≡ false
      → (cancel_sessions sessions_cache ids_cache m).closed ≡ false
  unfolding cancel_sessions
  cancelled-open m o = o

  cancelled-there :
      (id : Bytes) (a : ℕ) (m : Sessions)
      → sessions_cache.get_if_present id m.sessions ≡ some a
      → sessions_cache.get_if_present id (cancel_sessions sessions_cache ids_cache m).sessions
        ≡ some a
  unfolding cancel_sessions
  cancelled-there id a m e = e

  cancelled-Fit :
      (a : ℕ) (m : Sessions)
      → SessionOk (m.heap a)
      → (((cancel_sessions sessions_cache ids_cache m).heap a).stopped ≡ false)
        ⊎ IsClosed ((cancel_sessions sessions_cache ids_cache m).heap a)
  unfolding cancel_sessions
  cancelled-Fit a m v = open_or_IsClosed (m.heap a) v

  shutdown_with-Gone :
      (k : StopChannel) (n : ℕ) (m : Sessions)
      → Gone sessions_cache ids_cache n (Controller.shutdown_with sessions_cache ids_cache k m)
  unfolding Controller.shutdown_with Controller.close_cache
  shutdown_with-Gone k n m = ground (arith, ids_cache.get-invalidate_all n m.message_ids)

  shutdown_with-notices :
      (k : StopChannel) (id : Bytes) (a : ℕ) (m : Sessions)
      → m.closed ≡ false
      → sessions_cache.get_if_present id m.sessions ≡ some a
      → IsIn a (Controller.shutdown_with sessions_cache ids_cache k m).notices
  unfolding Controller.shutdown_with Controller.close_cache
  shutdown_with-notices k id a m o e =
      let reported = sessions_cache.invalidate_all_reports id a m.sessions e in
      rw o (IsIn-append a _ m.notices reported)

  shutdown_with-ids :
      (k : StopChannel) (m : Sessions)
      → (Controller.shutdown_with sessions_cache ids_cache k m).session_ids ≡ []
  unfolding Controller.shutdown_with Controller.close_cache
  shutdown_with-ids k m = refl

  -- What a Shutdown that does not panic makes of the server.
  shut_down-some :
      (st t : State)
      → shut_down sessions_cache ids_cache st ≡ some t
      → (k : StopChannel) × (t ≡ record st {
        sessions =
            Controller.shutdown_with sessions_cache ids_cache k
              (cancel_sessions sessions_cache ids_cache st.sessions);
        ctx_done = true;
        listening = false;
      })
  unfolding shut_down
  shut_down-some st t e =
      let m = cancel_sessions sessions_cache ids_cache st.sessions in
      elim (Option-cases (Controller.shutdown sessions_cache ids_cache m)) [
        | inl h ↦ let f : none ≡ some t = sym (rw (h, shut_down)) ∙ e in absurd (cc)
        | inr (u, h) ↦
            let f : some (record st { sessions = u; ctx_done = true; listening = false }) ≡ some t =
              sym (rw (h, shut_down)) ∙ e in
            let (k, g) = shutdown-some sessions_cache ids_cache m u h in
            (
              k,
              sym (some-injective _ _ f)
                  ∙ ap (λ c. record st { sessions = c; ctx_done = true; listening = false }) g,
            )
      ]

  -- A Shutdown that does not panic, of a server whose sessions have their invariant, with the session at
  -- `a` cached under `id`. Afterwards GetSession of any ID `j` panics, no message ID `n` has a route, the
  -- set of session IDs is empty, the session's context is cancelled, the cache has notice of it for its
  -- callback, and the accept loop does nothing more, whatever Accept would answer. Once callbacks of
  -- deleted sessions have run, in any order, with this one among them and with nothing else in between,
  -- the session is stopped,
  -- cancelled, unbound and not authenticated, and there is still no route.
  pub shut_down_closes :
      (id j : Bytes) (a n : ℕ) (events : List ListenEvent) (callbacks : List ℕ) (st t : State)
      → AllOk sessions_cache ids_cache st.sessions
      → get_session sessions_cache ids_cache id st ≡ some (some a)
      → shut_down sessions_cache ids_cache st ≡ some t
      → IsIn a callbacks
      → let u = on_deletion sessions_cache ids_cache callbacks t.sessions in
        (get_session sessions_cache ids_cache j t ≡ none)
        × Gone sessions_cache ids_cache n t.sessions
        × (t.sessions.session_ids ≡ [])
        × ((t.sessions.heap a).ctx_done ≡ true)
        × IsIn a t.sessions.notices
        × (accept_loop sessions_cache ids_cache events t ≡ t)
        × IsClosed (u.heap a)
        × Gone sessions_cache ids_cache n u
  unfolding get_session
  shut_down_closes id j a n events callbacks st t v e h i =
      let m = cancel_sessions sessions_cache ids_cache st.sessions in
      let (opened, there) = get_session-some sessions_cache ids_cache id a st.sessions e in
      let (k, left) = shut_down-some st t h in
      let left_sessions = ap (λ u. u.sessions) left in
      let heap : t.sessions.heap ≡ m.heap =
        ap (λ c. c.heap) left_sessions ∙ shutdown_with-heap sessions_cache ids_cache k m in
      let gone : Gone sessions_cache ids_cache n t.sessions =
        subst (Gone sessions_cache ids_cache n) (sym left_sessions) (shutdown_with-Gone k n m) in
      (
        get_session-panics sessions_cache ids_cache j t.sessions
            (ap (λ c. c.closed) left_sessions ∙ shutdown_with-closed sessions_cache ids_cache k m),
        gone,
        ap (λ c. c.session_ids) left_sessions ∙ shutdown_with-ids k m,
        ap (λ g. (g a).ctx_done) heap ∙ cancelled a st.sessions,
        subst (λ c. IsIn a c.notices) (sym left_sessions)
            (shutdown_with-notices k id a m (cancelled-open st.sessions opened)
              (cancelled-there id a st.sessions there)),
        accept_loop-ended events t (ap (λ u. u.ctx_done) left),
        on_deletion-stops sessions_cache ids_cache callbacks a t.sessions i (
            subst (λ g. ((g a).stopped ≡ false) ⊎ IsClosed (g a)) (sym heap)
              (cancelled-Fit a st.sessions (v a))),
        on_deletion-kept sessions_cache ids_cache n callbacks t.sessions gone,
      )
