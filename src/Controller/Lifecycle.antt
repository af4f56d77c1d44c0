-- ===== src/Controller/Lifecycle.antt =====
-- What deleting a session does to the session itself and to the routes of its messages.
use smpp_smsc.Base.{
  ℕ, ◌≡◌, ◌⊎◌, inl, inr, true, false, none, some, List, Bytes, bytes_eq, nat_eq, Option-cases,
}
use smpp_smsc.Session.{message, pending_key_eq, load_pending}
use smpp_smsc.Controller.Caches.{Cache, IsIn, IsIn-append}
use smpp_smsc.Controller.Ids.{not_IsIn-remove_id}
use smpp_smsc.Controller.Closing.{IsClosed, on_deletion-stops}
use smpp_smsc.Controller.Routes.{Gone, on_deletion-Gone, stop_calls-pending}
use smpp_smsc.Controller.Index.{get_session-some, get_session-none, delete-own}
use smpp_smsc.Controller.{
  SessController, invalidate_session, delete_session, get_session_by_id, on_deletion,
}

module _ (sessions_cache : Cache Bytes ℕ) (ids_cache : Cache ℕ Bytes) where
  abbrev Sessions : Type 0
  Sessions = SessController sessions_cache ids_cache

  -- DeleteSession of a cached session of an open cache: the session is no longer found, its ID is not in
  -- the set, and the cache has notice of it for its callback. Once callbacks of deleted sessions have run,
  -- in any order, with this one among them and with nothing else in between, the session, if it was
  -- open, is stopped, cancelled, neither bound nor authenticated, and, if it has the server's callback for routes, the route
  -- of each message ID that awaits a receipt in it is gone.
  pub delete_session_stops :
      (id : Bytes) (a n : ℕ) (callbacks : List ℕ) (m : Sessions)
      → get_session_by_id sessions_cache ids_cache id m ≡ some (some a)
      → (m.heap a).stopped ≡ false
      → (m.heap a).has_routes ≡ true
      → IsIn a callbacks
      → let t = delete_session sessions_cache ids_cache id m in
        let u = on_deletion sessions_cache ids_cache callbacks t in
        (get_session_by_id sessions_cache ids_cache id t ≡ some none)
        × ¬ IsIn id t.session_ids
        × IsIn a t.notices
        × IsClosed (u.heap a)
        × ((load_pending (m.heap a) (message n) ≡ none) ⊎ Gone sessions_cache ids_cache n u)
  unfolding delete_session invalidate_session
  delete_session_stops id a n callbacks m e o h i =
      let t = delete_session sessions_cache ids_cache id m in
      let (opened, found) = get_session-some sessions_cache ids_cache id a m e in
      (
        get_session-none sessions_cache ids_cache id t opened
            (delete-own sessions_cache ids_cache id m),
        not_IsIn-remove_id id _,
        IsIn-append a _ m.notices (sessions_cache.invalidate_reports id a m.sessions found),
        on_deletion-stops sessions_cache ids_cache callbacks a t i (inl o),
        elim (Option-cases (load_pending (m.heap a) (message n))) [
          | inl nothing ↦ inl nothing
          | inr (r, p) ↦ inr (
              on_deletion-Gone sessions_cache ids_cache n callbacks a t i
                (stop_calls-pending (m.heap a) n r o h p))
        ],
      )
