-- ===== src/Session/Dispatch/Binding.antt =====
-- bind_transmitter, bind_receiver and bind_transceiver: when a session becomes bound.
use smpp_smsc.Base.{ℕ, ◌≡◌, Bool, not, ◌&&◌, ◌||◌, some, nat_eq, ◌==◌, if◌then◌else◌, arith}
use smpp_smsc.Wire.{GoSmpp, Packet}
use smpp_smsc.Wire.Constants.{status_ok}
use smpp_smsc.Types.{BindingType}
use smpp_smsc.Session.{Session, enqueue_pdu}
use smpp_smsc.Session.Handler.{Answer}
use smpp_smsc.Session.Parse.{BindParams, parse_bind_params}
use smpp_smsc.Session.Dispatch.{
  handle_bind_request, bind_answer, after_bind, reply, send_bind_response,
}

-- A bind request that reads well, with a handler that answers (status, error, state t). A session
-- that is bound stays as it is but for the queued answer. A session that is not becomes bound and
-- authenticated when the handler reports no error and status OK, takes the system ID and the
-- binding type whenever it reports no error, and is otherwise as the handler left it.
pub handle_bind_request_lem :
    (lib : GoSmpp) (pkt : Packet) (kind : BindingType) (handle : BindParams → Session → Answer)
    (resp : ℕ) (s : Session) (params : BindParams) (status : ℕ) (err : Bool) (t : Session)
    → parse_bind_params lib pkt ≡ some params
    → handle params s ≡ (status, err, t)
    → let u = handle_bind_request lib pkt kind handle resp s in
      let accepted = not s.bound && (not err && status == status_ok) in
      (u.bound ≡ (s.bound || (accepted || t.bound)))
      × (u.authenticated ≡ (if s.bound then s.authenticated else (accepted || t.authenticated)))
      × (u.system_id
          ≡ (if s.bound then s.system_id else (if err then t.system_id else params.system_id)))
      × (u.binding_type
          ≡ (if s.bound then s.binding_type else (if err then t.binding_type else kind)))
unfolding handle_bind_request bind_answer after_bind reply send_bind_response enqueue_pdu
handle_bind_request_lem lib pkt kind handle resp s params status err t p e = ground (arith, p, e)
