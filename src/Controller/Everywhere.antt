-- ===== src/Controller/Everywhere.antt =====
-- A property of sessions that every session of the controller has, and what keeps it so: the methods
-- of internal/smsc/session_manager.go change a session only by stopping it, by an enquire_link, and
-- by taking note of its calls of the two callbacks.
use smpp_smsc.Base.{
  ℕ, ◌≡◌, sym, ap, ◌∙◌, subst, inl, inr, Bool, true, false, Option, none, some, List, [], ◌∷◌,
  Bytes, bytes_eq, nat_eq, ◌==◌, if◌then◌else◌, Option-cases, arith,
}
use smpp_smsc.Session.{Session, RouteCall, stop, send_enquire_link_req}
use smpp_smsc.Controller.Caches.{Cache}
use smpp_smsc.Controller.{
  SessController, write_session, put_back, stop_at, on_deletion, set_session, invalidate_session,
  initialize_session, update_session, delete_session, delete_sessions, delete_pod_sessions,
  ids_of_pod, cached_session, follow_route, unregister_message_id, get_session_by_message_id,
  after_enquire, is_active, check_session_inactivity, check_all, process_inactive_sessions, cached,
  StopChannel, close_cache, shutdown_with, shutdown,
}
use smpp_smsc.Controller.Index.{shutdown-some}
use smpp_smsc.Controller.Closing.{apply_routes-heap}

-- What the controller does to a session keeps `P`.
pub record IsKept (P : Session → Type 0) : Type 0 where
  pub kept_noted : (s : Session) (calls : List RouteCall) → P s → P (record s { routes = calls })
  pub kept_stop : (s : Session) → P s → P (stop s)
  pub kept_enquire :
      (command now : ℕ) (s : Session) → P s → P (send_enquire_link_req command now s).1

pub shutdown_with-heap :
    (sessions_cache : Cache Bytes ℕ) (ids_cache : Cache ℕ Bytes) (k : StopChannel)
    (m : SessController sessions_cache ids_cache)
    → (shutdown_with sessions_cache ids_cache k m).heap ≡ m.heap
unfolding shutdown_with close_cache
shutdown_with-heap sessions_cache ids_cache k m = ground arith

module _ (sessions_cache : Cache Bytes ℕ) (ids_cache : Cache ℕ Bytes) (P : Session → Type 0)
    (kept : IsKept P) where
  abbrev Sessions : Type 0
  Sessions = SessController sessions_cache ids_cache

  abbrev pub Everywhere : Sessions → Type 0
  Everywhere m = (a : ℕ) → P (m.heap a)

  if-P : (b : Bool) (s t : Session) → P s → P t → P (if b then s else t)
  if-P true s t p q = p
  if-P false s t p q = q

  if-Everywhere :
      (b : Bool) (t u : Sessions) → Everywhere t → Everywhere u → Everywhere (if b then t else u)
  if-Everywhere true t u p q = p
  if-Everywhere false t u p q = q

  pub write_session-Everywhere :
      (a : ℕ) (s : Session) (m : Sessions)
      → P s
      → Everywhere m
      → Everywhere (write_session sessions_cache ids_cache a s m)
  unfolding write_session
  write_session-Everywhere a s m p v b = if-P (a == b) s (m.heap b) p (v b)

  pub put_back-Everywhere :
      (a : ℕ) (s : Session) (m : Sessions)
      → P s
      → Everywhere m
      → Everywhere (put_back sessions_cache ids_cache a s m)
  unfolding put_back
  put_back-Everywhere a s m p v b =
      let m1 = write_session sessions_cache ids_cache a (record s { routes = [] }) m in
      subst (λ h. P (h b)) (sym (apply_routes-heap sessions_cache ids_cache s.routes s.id m1))
        (write_session-Everywhere a (record s { routes = [] }) m (kept.kept_noted s [] p) v b)

  pub on_deletion-Everywhere :
      (l : List ℕ) (m : Sessions)
      → Everywhere m
      → Everywhere (on_deletion sessions_cache ids_cache l m)
  unfolding on_deletion stop_at
  on_deletion-Everywhere [] m v = v
  on_deletion-Everywhere (a ∷ l) m v =
      on_deletion-Everywhere l (stop_at sessions_cache ids_cache a m) (
        put_back-Everywhere a (stop (record (m.heap a) { routes = [] })) m
          (kept.kept_stop _ (kept.kept_noted (m.heap a) [] (v a))) v)

  pub set_session-Everywhere :
      (id : Bytes) (a : ℕ) (m : Sessions)
      → Everywhere m
      → Everywhere (set_session sessions_cache ids_cache id a m)
  unfolding set_session
  set_session-Everywhere id a m v = v

  pub invalidate_session-Everywhere :
      (id : Bytes) (m : Sessions)
      → Everywhere m
      → Everywhere (invalidate_session sessions_cache ids_cache id m)
  unfolding invalidate_session
  invalidate_session-Everywhere id m v = v

  pub initialize_session-Everywhere :
      (a : ℕ) (m : Sessions)
      → Everywhere m
      → Everywhere (initialize_session sessions_cache ids_cache a m)
  unfolding initialize_session
  initialize_session-Everywhere a m v = set_session-Everywhere (m.heap a).id a m v

  pub update_session-Everywhere :
      (o : Option ℕ) (m : Sessions)
      → Everywhere m
      → Everywhere (update_session sessions_cache ids_cache o m).1
  unfolding update_session
  update_session-Everywhere none m v = v
  update_session-Everywhere (some a) m v = set_session-Everywhere (m.heap a).id a m v

  pub delete_session-Everywhere :
      (id : Bytes) (m : Sessions)
      → Everywhere m
      → Everywhere (delete_session sessions_cache ids_cache id m)
  unfolding delete_session
  delete_session-Everywhere id m v = invalidate_session-Everywhere id m v

  delete_sessions-Everywhere :
      (ids : List Bytes) (m : Sessions)
      → Everywhere m
      → Everywhere (delete_sessions sessions_cache ids_cache ids m)
  unfolding delete_sessions
  delete_sessions-Everywhere [] m v = v
  delete_sessions-Everywhere (id ∷ ids) m v =
      delete_sessions-Everywhere ids _ (delete_session-Everywhere id m v)

  pub delete_pod_sessions-Everywhere :
      (pod : Bytes) (m : Sessions)
      → Everywhere m
      → Everywhere (delete_pod_sessions sessions_cache ids_cache pod m)
  unfolding delete_pod_sessions
  delete_pod_sessions-Everywhere pod m v =
      delete_sessions-Everywhere (ids_of_pod sessions_cache ids_cache pod m.session_ids m) m v

  follow_route-Everywhere :
      (n : ℕ) (o : Option Bytes) (m : Sessions)
      → Everywhere m
      → Everywhere (follow_route sessions_cache ids_cache n o m).1
  unfolding follow_route unregister_message_id
  follow_route-Everywhere n none m v = v
  follow_route-Everywhere n (some id) m v =
      elim (Option-cases (cached_session sessions_cache ids_cache id m)) [
        | inl e ↦ rw (e, follow_route) v
        | inr (a, e) ↦ rw (e, follow_route) v
      ]

  pub get_session_by_message_id-Everywhere :
      (n : ℕ) (m : Sessions)
      → Everywhere m
      → Everywhere (get_session_by_message_id sessions_cache ids_cache n m).1
  unfolding get_session_by_message_id
  get_session_by_message_id-Everywhere n m v = follow_route-Everywhere n _ m v

  after_enquire-Everywhere :
      (command a : ℕ) (id : Bytes) (r : Bool × Session) (m : Sessions)
      → P r.1
      → Everywhere m
      → Everywhere (after_enquire sessions_cache ids_cache command a id r m)
  unfolding after_enquire
  after_enquire-Everywhere command a id (ok, s) m p v =
      let w = put_back-Everywhere a s m p v in
      if-Everywhere ok _ _ w (delete_session-Everywhere id _ w)

  check_all-Everywhere :
      (command now : ℕ) (l : List ℕ) (m : Sessions)
      → Everywhere m
      → Everywhere (check_all sessions_cache ids_cache command now l m)
  unfolding check_all check_session_inactivity
  check_all-Everywhere command now [] m v = v
  check_all-Everywhere command now (a ∷ l) m v =
      let s = m.heap a in
      check_all-Everywhere command now l
        (check_session_inactivity sessions_cache ids_cache command now a m)
        (if-Everywhere (is_active now m.cfg.inactivity_timeout s) _ _ v (
          if-Everywhere _ _ _ (delete_session-Everywhere s.id m v) (
            after_enquire-Everywhere command a s.id (send_enquire_link_req command now s) m
              (kept.kept_enquire command now s (v a)) v)))

  pub process_inactive_sessions-Everywhere :
      (command now : ℕ) (m : Sessions)
      → Everywhere m
      → Everywhere (process_inactive_sessions sessions_cache ids_cache command now m)
  unfolding process_inactive_sessions
  process_inactive_sessions-Everywhere command now m v =
      check_all-Everywhere command now
        (cached sessions_cache ids_cache (λ s. s.bound) m.session_ids m) m v

  pub shutdown-Everywhere :
      (m t : Sessions) → shutdown sessions_cache ids_cache m ≡ some t → Everywhere m → Everywhere t
  shutdown-Everywhere m t e v a =
      let (k, f) = shutdown-some sessions_cache ids_cache m t e in
      subst (λ h. P (h a))
        (sym (ap (λ c. c.heap) f ∙ shutdown_with-heap sessions_cache ids_cache k m)) (v a)
