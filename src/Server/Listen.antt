-- ===== src/Server/Listen.antt =====
-- internal/smsc/server.go: Start, the loop that accepts connections, the settings of a socket, and
-- Shutdown. What Listen and Accept answer is an input; the settings' errors are dropped by the code.
use smpp_smsc.Base.{
  ℕ, Bool, true, false, not, Option, none, some, List, [], ◌∷◌, ◌++◌, Bytes, ltb, if◌then◌else◌,
  length, ◌&&◌, ◌==◌, nat_eq,
}
use smpp_smsc.Config.{Config}
use smpp_smsc.Controller.Caches.{Cache}
use smpp_smsc.Controller.{SessController, get_session_by_id, get_sessions_by_application_id}
use smpp_smsc.Controller as Controller
use smpp_smsc.Server.{handle_connection}

-- A call on a TCP connection.
pub data SocketCall : Type 0 where
  set_no_delay set_keep_alive : SocketCall
  set_keep_alive_period set_read_buffer set_write_buffer set_linger : ℕ → SocketCall

unfoldable pub call_if : Bool → SocketCall → List SocketCall
call_if b call = if b then call ∷ [] else []

-- The settings of a connection that is a TCP connection; the linger time is not negative here.
unfoldable pub apply_tcp_settings : Config → Bool → List SocketCall
unfolding call_if
apply_tcp_settings cfg is_tcp =
    if not is_tcp
    then []
    else call_if cfg.tcp_nodelay set_no_delay
      ++ call_if cfg.tcp_keep_alive set_keep_alive
      ++ call_if (cfg.tcp_keep_alive && ltb 0 cfg.tcp_keep_alive_period)
          (set_keep_alive_period cfg.tcp_keep_alive_period)
      ++ call_if (ltb 0 cfg.tcp_read_buffer_size) (set_read_buffer cfg.tcp_read_buffer_size)
      ++ call_if (ltb 0 cfg.tcp_write_buffer_size) (set_write_buffer cfg.tcp_write_buffer_size)
      ++ set_linger cfg.tcp_linger ∷ []

-- A connection that Accept gives, and what its handling meets: the fresh address of its session, the
-- client's address, whether its deadlines can be set, the generator's answer and the clock.
pub record Connection : Type 0 where
  pub at : ℕ
  pub address : Bytes
  pub deadlines : Bool
  pub generated : Option ℕ
  pub now : ℕ

pub data ListenEvent : Type 0 where
  accepted : Connection → ListenEvent
  failed : Bytes → ListenEvent

module _ (sessions_cache : Cache Bytes ℕ) (ids_cache : Cache ℕ Bytes) where
  abbrev Sessions : Type 0
  Sessions = SessController sessions_cache ids_cache

  -- `errors` is the channel of capacity 1 that Start returns, and `has_limiter` that SetGlobalRateLimiter gave a limiter.
  pub record Server : Type 0 where
    pub sessions : Sessions
    pub ctx_done : Bool
    pub listening : Bool
    pub has_limiter : Bool
    pub errors : List Bytes

  unfoldable pub set_global_rate_limiter : Bool → Server → Server
  set_global_rate_limiter given st = record st { has_limiter = given }

  -- The first error fills the channel.
  unfoldable pub push_error : Bytes → Server → Server
  push_error e st = if length st.errors == 0 then record st { errors = e ∷ [] } else st

  -- A connection without deadlines is closed, and makes no session.
  unfoldable pub accept_connection : Connection → Server → Server
  unfolding handle_connection
  accept_connection c st = if not c.deadlines then st else record st {
    sessions =
        handle_connection sessions_cache ids_cache st.has_limiter c.at c.address c.generated c.now
          st.sessions;
  }

  unfoldable pub accept_round : ListenEvent → Server → Server
  unfolding push_error accept_connection
  accept_round (accepted c) st = accept_connection c st
  accept_round (failed e) st = push_error e st

  -- The loop looks at the context before each Accept; an Accept that fails after it is cancelled
  -- ends the loop as that look does.
  unfoldable pub accept_loop : List ListenEvent → Server → Server
  unfolding accept_round
  accept_loop [] st = st
  accept_loop (e ∷ events) st =
      let rest = accept_loop events (accept_round e st) in if st.ctx_done then st else rest

  -- Start: `refusal` is the error of Listen. The channel is new.
  unfoldable pub start : Option Bytes → Server → Server
  unfolding Controller.start
  start (some e) st = record st { errors = e ∷ [] }
  start none st = record st {
    errors = [];
    listening = true;
    sessions = Controller.start sessions_cache ids_cache st.sessions;
  }

  -- Cancelling the server's context cancels that of every session.
  unfoldable pub cancel_sessions : Sessions → Sessions
  cancel_sessions m = record m { heap = λ a. record (m.heap a) { ctx_done = true } }

  -- `none` is a panic, as of a second Shutdown of a server that was started.
  unfoldable pub shut_down : Server → Option Server
  unfolding cancel_sessions Controller.shutdown
  shut_down st = elim (Controller.shutdown sessions_cache ids_cache (cancel_sessions st.sessions)) [
    | none ↦ none
    | some m ↦ some (record st { sessions = m; ctx_done = true; listening = false })
  ]

  -- `none` is a panic, after Shutdown.
  unfoldable pub get_session : Bytes → Server → Option (Option ℕ)
  unfolding get_session_by_id
  get_session session_id st = get_session_by_id sessions_cache ids_cache session_id st.sessions

  unfoldable pub sessions_of_application : Bytes → Server → List ℕ
  unfolding get_sessions_by_application_id
  sessions_of_application application_id st =
      get_sessions_by_application_id sessions_cache ids_cache application_id st.sessions
