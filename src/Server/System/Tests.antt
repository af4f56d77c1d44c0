-- ===== src/Server/System/Tests.antt =====
-- A server that accepts a connection, answers its enquire_link, delivers to it in vain, and shuts down.
use smpp_smsc.Base.{
  ◌≡◌, refl, Option, none, some, true, false, inl, [], ◌∷◌, Bytes, nat_eq, bytes_eq,
}
use smpp_smsc.Text.{codes}
use smpp_smsc.Wire.{Pdu}
use smpp_smsc.Wire.Samples.{smpp34}
use smpp_smsc.Config.{default_config}
use smpp_smsc.Session.{Session, unlimited}
use smpp_smsc.Session.Samples.{idle, sample_packet, moment}
use smpp_smsc.Session.Demo.{demo_handler}
use smpp_smsc.Session.Dispatch.{process_pdu}
use smpp_smsc.Session.Cleanup.{read, read_round}
use smpp_smsc.Session.Sound.Handlers.{demo_handler-IsSound}
use smpp_smsc.Base.Maps.{lookup, insert}
use smpp_smsc.Base.Decimal.{decimal}
use smpp_smsc.Controller.{put_back, on_deletion}
use smpp_smsc.Controller.Caches.{IsIn}
use smpp_smsc.Controller.Closing.{IsClosed}
use smpp_smsc.Controller.Routes.{Gone}
use smpp_smsc.Controller.Samples.{sessions_list, ids_list}
use smpp_smsc.Server.Listen.{Server, accepted, failed, accept_loop, start, shut_down, get_session}
use smpp_smsc.Server.Everywhere.{AllOk, new_session-SessionOk}
use smpp_smsc.Server.Samples.{stopped_server, client}
use smpp_smsc.Server.System.{
  with_sessions, handling, moving, starting, accepting, Run, begun, then_step,
}
use smpp_smsc.Server.System.Invariant.{Run-AllOk}
use smpp_smsc.Server.Closed.{shut_down_closes}

abbrev digest : Bytes → Bytes
digest d = d

abbrev seq_byte : Pdu → Option Bytes
seq_byte p = some (p.seq ∷ [])

abbrev connected : Server sessions_list ids_list
connected =
    accept_loop sessions_list ids_list (failed (codes "e") ∷ accepted client ∷ [])
      (start sessions_list ids_list none stopped_server)

stopped_server-AllOk : AllOk sessions_list ids_list stopped_server.sessions
stopped_server-AllOk a = new_session-SessionOk unlimited default_config (codes "sess") [] 0

abbrev Served : Server sessions_list ids_list → Server sessions_list ids_list → Type 0
Served st t = Run sessions_list ids_list smpp34 demo_handler digest digest seq_byte st t

connecting : Served stopped_server connected
connecting =
    then_step (then_step begun (starting none))
      (accepting (failed (codes "e") ∷ accepted client ∷ []))

-- The session after its first enquire_link.
abbrev answered : Option Session
answered =
    read_round smpp34 demo_handler digest (read moment (sample_packet 0x15))
      (connected.sessions.heap 3)

abbrev session_or : Option Session → Session
session_or none = idle
session_or (some s) = s

answered-some : answered ≡ some (session_or answered)
unfolding read_round accept_loop start process_pdu default_config
answered-some = refl

abbrev served : Server sessions_list ids_list
served =
    with_sessions sessions_list ids_list
      (put_back sessions_list ids_list 3 (session_or answered) connected.sessions) connected

still_connected : (connected.sessions.heap 3).ctx_done ≡ false
unfolding accept_loop start
still_connected = refl

-- The run: a failed Accept, a connection, and its enquire_link.
serving : Served stopped_server served
serving = then_step connecting (
    moving (
      handling 3 (read moment (sample_packet 0x15)) (session_or answered) still_connected
        answered-some))

Run-AllOk_example : AllOk sessions_list ids_list served.sessions
Run-AllOk_example =
    Run-AllOk sessions_list ids_list smpp34 demo_handler digest digest seq_byte demo_handler-IsSound
      stopped_server-AllOk serving

connected-AllOk : AllOk sessions_list ids_list connected.sessions
connected-AllOk =
    Run-AllOk sessions_list ids_list smpp34 demo_handler digest digest seq_byte demo_handler-IsSound
      stopped_server-AllOk connecting

found : get_session sessions_list ids_list (codes "sess_smsc-1_5") connected ≡ some (some 3)
unfolding get_session lookup insert accept_loop start default_config decimal
found = refl

abbrev server_or : Option (Server sessions_list ids_list) → Server sessions_list ids_list
server_or none = connected
server_or (some st) = st

abbrev closed : Server sessions_list ids_list
closed = server_or (shut_down sessions_list ids_list connected)

shuts_down : shut_down sessions_list ids_list connected ≡ some closed
unfolding shut_down accept_loop start
shuts_down = refl

shut_down_closes_example :
    let u = on_deletion sessions_list ids_list (3 ∷ []) closed.sessions in
    (get_session sessions_list ids_list (codes "sess_smsc-1_5") closed ≡ none)
    × Gone sessions_list ids_list 1000 closed.sessions
    × (closed.sessions.session_ids ≡ [])
    × ((closed.sessions.heap 3).ctx_done ≡ true)
    × IsIn 3 closed.sessions.notices
    × (accept_loop sessions_list ids_list (accepted client ∷ []) closed ≡ closed)
    × IsClosed (u.heap 3)
    × Gone sessions_list ids_list 1000 u
shut_down_closes_example =
    shut_down_closes sessions_list ids_list (codes "sess_smsc-1_5") (codes "sess_smsc-1_5") 3 1000
      (accepted client ∷ []) (3 ∷ []) connected closed connected-AllOk found shuts_down (inl refl)
