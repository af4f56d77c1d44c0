-- ===== src/Controller.antt =====
-- internal/smsc/session_manager.go and session_cache.go: the sessions of a server and the routes
-- from message IDs to them. A *Session is an address in `heap`, which the connection's goroutine,
-- the cache and the callers share. The two caches are the parameters `sessions_cache` and
-- `ids_cache`. The cache runs the callback OnDeletion later, on a goroutine of its own: a call that
-- deletes only adds to `notices`, and `on_deletion` is a step of its own. Shutdown sets the session
-- cache to nil, and a later use of it panics: `get_session_by_id` has the panic, and the other methods
-- are those of a controller whose cache is open, so that every step of Controller/Reach and
-- Server/System that uses the cache has this as a premise.
pub mod Caches
pub mod Ids
pub mod Index
pub mod Reach
pub mod Search
pub mod Closing
pub mod Routes
pub mod Lifecycle
pub mod Inactive
pub mod Everywhere
pub mod Samples
mod Tests
use smpp_smsc.Base.{
  ℕ, ◌+◌, ◌*◌, ◌-◌, ◌/◌, Bool, true, false, not, ◌&&◌, Option, none, some, List, [], ◌∷◌, ◌++◌,
  Bytes, nat_eq, bytes_eq, ltb, leb, ◌==◌, if◌then◌else◌,
}
use smpp_smsc.Text.{codes}
use smpp_smsc.Types.{is_receiver}
use smpp_smsc.Config.{Config, SessionCacheConfig}
use smpp_smsc.Session.{
  Session, RouteCall, register, unregister, stop, get_last_activity, get_enquire_retry_count,
  send_enquire_link_req,
}
use smpp_smsc.Controller.Caches.{Cache}

-- sessionIDs, a sync.Map used as a set.
unfoldable pub insert_id : Bytes → List Bytes → List Bytes
insert_id id [] = id ∷ []
insert_id id (j ∷ ids) = if j == id then j ∷ ids else j ∷ insert_id id ids

unfoldable pub remove_id : Bytes → List Bytes → List Bytes
remove_id id [] = []
remove_id id (j ∷ ids) = if j == id then remove_id id ids else j ∷ remove_id id ids

-- A quarter of the timeout, and at least ten seconds.
unfoldable pub check_interval : Config → ℕ
check_interval cfg =
    let interval = cfg.inactivity_timeout / 4 in
    if ltb interval 10_000_000_000 then 10_000_000_000 else interval

-- `getLastActivity` gives the zero time for 0, which is longer ago than any timeout.
unfoldable pub is_active : ℕ → ℕ → Session → Bool
is_active now timeout s = elim (get_last_activity s) [
  | none ↦ false
  | some last ↦ ltb (now - last) timeout
]

-- NewSessionsManager: without a timeout of its own the cache has that of the server.
unfoldable pub manager_cache_config : Config → SessionCacheConfig
manager_cache_config cfg =
    if cfg.session_cache.inactive_timeout == 0
    then record cfg.session_cache { inactive_timeout = cfg.inactivity_timeout }
    else cfg.session_cache

-- The capacity of the sessions' cache and how long after its last use an entry is dropped.
unfoldable pub cache_options : SessionCacheConfig → ℕ × ℕ
cache_options config =
    let ttl = if config.inactive_timeout == 0 then 3_600_000_000_000 else config.inactive_timeout in
    (if config.cap == 0 then 10000 else config.cap, ttl * 5)

-- The capacity of the routes' cache and how long after its writing an entry is dropped.
abbrev pub message_id_cache_options : ℕ × ℕ
message_id_cache_options = (100000, 30 * 60 * 1_000_000_000)

-- inactivityCheckStop: nil, open, or closed.
pub data StopChannel : Type 0 where
  no_channel open_channel closed_channel : StopChannel

module _ (sessions_cache : Cache Bytes ℕ) (ids_cache : Cache ℕ Bytes) where
  -- `notices` are the sessions that the cache has deleted, whose callbacks are still to run or have run;
  -- `closed` says that Close has set the session cache to nil.
  pub record SessController : Type 0 where
    pub sessions : sessions_cache.State
    pub message_ids : ids_cache.State
    pub session_ids : List Bytes
    pub heap : ℕ → Session
    pub cfg : Config
    pub notices : List ℕ
    pub closed : Bool
    pub stop_channel : StopChannel

  unfoldable pub register_message_id : ℕ → Bytes → SessController → SessController
  register_message_id message_id session_id m = record m {
    message_ids = (ids_cache.set message_id session_id m.message_ids).0;
  }

  unfoldable pub unregister_message_id : ℕ → SessController → SessController
  unregister_message_id message_id m = record m {
    message_ids = (ids_cache.invalidate message_id m.message_ids).0;
  }

  -- The calls that a session has made of the two callbacks of `handleConnection`.
  unfoldable pub apply_routes : List RouteCall → Bytes → SessController → SessController
  unfolding register_message_id unregister_message_id
  apply_routes [] session_id m = m
  apply_routes (register message_id ∷ calls) session_id m =
      apply_routes calls session_id (register_message_id message_id session_id m)
  apply_routes (unregister message_id ∷ calls) session_id m =
      apply_routes calls session_id (unregister_message_id message_id m)

  unfoldable pub write_session : ℕ → Session → SessController → SessController
  write_session a s m = record m { heap = λ b. if a == b then s else m.heap b }

  -- A session's new state, and the routes that it changed on the way there.
  unfoldable pub put_back : ℕ → Session → SessController → SessController
  unfolding write_session apply_routes
  put_back a s m = apply_routes s.routes s.id (write_session a (record s { routes = [] }) m)

  unfoldable pub stop_at : ℕ → SessController → SessController
  unfolding put_back
  stop_at a m = put_back a (stop (record (m.heap a) { routes = [] })) m

  -- OnDeletion for some of the entries that calls of the cache have deleted, one after the other.
  unfoldable pub on_deletion : List ℕ → SessController → SessController
  unfolding stop_at
  on_deletion [] m = m
  on_deletion (a ∷ deleted) m = on_deletion deleted (stop_at a m)

  unfoldable pub set_session : Bytes → ℕ → SessController → SessController
  set_session session_id a m =
      let (sessions, deleted) = sessions_cache.set session_id a m.sessions in
      record m { sessions = sessions; notices = deleted ++ m.notices }

  unfoldable pub invalidate_session : Bytes → SessController → SessController
  invalidate_session session_id m =
      let (sessions, deleted) = sessions_cache.invalidate session_id m.sessions in
      record m { sessions = sessions; notices = deleted ++ m.notices }

  unfoldable pub initialize_session : ℕ → SessController → SessController
  unfolding set_session
  initialize_session a m =
      let m1 = set_session (m.heap a).id a m in
      record m1 { session_ids = insert_id (m.heap a).id m1.session_ids }

  -- `none` is nil, and the error it gives.
  unfoldable pub update_session : Option ℕ → SessController → Bool × SessController
  unfolding set_session
  update_session none m = (false, m)
  update_session (some a) m = (true, set_session (m.heap a).id a m)

  unfoldable pub delete_session : Bytes → SessController → SessController
  unfolding invalidate_session
  delete_session session_id m =
      let m1 = invalidate_session session_id m in
      record m1 { session_ids = remove_id session_id m1.session_ids }

  -- SessionCache.Get of an open cache.
  unfoldable pub cached_session : Bytes → SessController → Option ℕ
  cached_session session_id m = sessions_cache.get_if_present session_id m.sessions

  -- `none` is a panic: the cache is nil.
  unfoldable pub get_session_by_id : Bytes → SessController → Option (Option ℕ)
  unfolding cached_session
  get_session_by_id session_id m = if m.closed then none else some (cached_session session_id m)

  -- `Range` over the session IDs: the cached sessions that pass a test.
  unfoldable pub cached : (Session → Bool) → List Bytes → SessController → List ℕ
  unfolding cached_session
  cached test [] m = []
  cached test (id ∷ ids) m = elim (cached_session id m) [
    | none ↦ cached test ids m
    | some a ↦ let rest = cached test ids m in if test (m.heap a) then a ∷ rest else rest
  ]

  unfoldable pub has_field : Bytes → Bytes → Session → Bool
  has_field field value s =
      if field == codes "pod_id"
      then s.pod_id == value
      else if field == codes "application_id"
      then s.application_id == value
      else false

  unfoldable pub filter_sessions : Bytes → Bytes → SessController → List ℕ
  unfolding cached has_field
  filter_sessions field value m = cached (has_field field value) m.session_ids m

  pub get_sessions_by_pod : Bytes → SessController → List ℕ
  get_sessions_by_pod pod_id m = filter_sessions (codes "pod_id") pod_id m

  unfoldable pub get_sessions_by_application_id : Bytes → SessController → List ℕ
  unfolding filter_sessions
  get_sessions_by_application_id application_id m =
      filter_sessions (codes "application_id") application_id m

  pub get_receivers : SessController → List ℕ
  get_receivers m = cached (λ s. is_receiver s.binding_type) m.session_ids m

  -- The IDs of the pod's cached sessions.
  unfoldable pub ids_of_pod : Bytes → List Bytes → SessController → List Bytes
  ids_of_pod pod_id [] m = []
  ids_of_pod pod_id (id ∷ ids) m = elim (cached_session id m) [
    | none ↦ ids_of_pod pod_id ids m
    | some a ↦
        let rest = ids_of_pod pod_id ids m in
        if (m.heap a).pod_id == pod_id then id ∷ rest else rest
  ]

  unfoldable pub delete_sessions : List Bytes → SessController → SessController
  delete_sessions [] m = m
  delete_sessions (id ∷ ids) m = delete_sessions ids (delete_session id m)

  unfoldable pub delete_pod_sessions : Bytes → SessController → SessController
  unfolding ids_of_pod delete_sessions
  delete_pod_sessions pod_id m = delete_sessions (ids_of_pod pod_id m.session_ids m) m

  -- A route to a session that the cache no longer has is dropped.
  unfoldable pub follow_route : ℕ → Option Bytes → SessController → Option ℕ × SessController
  unfolding unregister_message_id
  follow_route message_id none m = (none, m)
  follow_route message_id (some session_id) m = elim (cached_session session_id m) [
    | none ↦ (none, unregister_message_id message_id m)
    | some a ↦ (some a, m)
  ]

  unfoldable pub get_session_by_message_id : ℕ → SessController → Option ℕ × SessController
  unfolding follow_route
  get_session_by_message_id message_id m =
      follow_route message_id (ids_cache.get_if_present message_id m.message_ids) m

  module _ (enquire_link : ℕ) where
    -- The enquire_link of an inactive session; a refused one deletes the session.
    unfoldable pub after_enquire : ℕ → Bytes → Bool × Session → SessController → SessController
    unfolding put_back
    after_enquire a id (ok, s) m =
        let m1 = put_back a s m in if ok then m1 else delete_session id m1

    unfoldable pub check_session_inactivity : ℕ → ℕ → SessController → SessController
    unfolding after_enquire
    check_session_inactivity now a m =
        let s = m.heap a in
        if is_active now m.cfg.inactivity_timeout s
        then m
        else if leb m.cfg.max_enquire_link_retry (get_enquire_retry_count s)
        then delete_session s.id m
        else after_enquire a s.id (send_enquire_link_req enquire_link now s) m

    unfoldable pub check_all : ℕ → List ℕ → SessController → SessController
    check_all now [] m = m
    check_all now (a ∷ sessions) m = check_all now sessions (check_session_inactivity now a m)

    unfoldable pub process_inactive_sessions : ℕ → SessController → SessController
    unfolding check_all
    process_inactive_sessions now m = check_all now (cached (λ s. s.bound) m.session_ids m) m

  -- SessionCache.Close, which leaves a nil cache alone.
  unfoldable pub close_cache : SessController → SessController
  close_cache m =
      let (sessions, deleted) = sessions_cache.invalidate_all m.sessions in
      if m.closed
      then m
      else record m { sessions = sessions; notices = deleted ++ m.notices; closed = true }

  unfoldable pub start : SessController → SessController
  start m = record m { stop_channel = open_channel }

  unfoldable pub shutdown_with : StopChannel → SessController → SessController
  unfolding close_cache
  shutdown_with channel m =
      let m1 = record m {
        stop_channel = channel;
        message_ids = (ids_cache.invalidate_all m.message_ids).0;
      } in
      record (close_cache m1) { session_ids = [] }

  -- `none` is a panic, of closing the closed channel of the checks; a channel that is nil is left alone.
  unfoldable pub shutdown_by : StopChannel → SessController → Option SessController
  unfolding shutdown_with
  shutdown_by no_channel m = some (shutdown_with no_channel m)
  shutdown_by open_channel m = some (shutdown_with closed_channel m)
  shutdown_by closed_channel m = none

  unfoldable pub shutdown : SessController → Option SessController
  unfolding shutdown_by
  shutdown m = shutdown_by m.stop_channel m
