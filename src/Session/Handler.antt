-- ===== src/Session/Handler.antt =====
-- internal/smsc/interfaces.go: the handler that an application gives the server, and the default one
-- of internal/smsc/server.go. A method may change the session; an error is `true`.
use smpp_smsc.Base.{
  [], ℕ, Bool, true, false, not, ◌||◌, Option, some, nat_eq, ◌==◌, if◌then◌else◌, length,
}
use smpp_smsc.Wire.Constants.{status_ok, status_inv_bnd, status_inv_src_adr}
use smpp_smsc.Types.{
  SubmitSmParams, QuerySmParams, QuerySmResponse, ReplaceSmParams, SmppResponse, BindingType,
  transceiver, transmitter, receiver, is_transmitter,
}
use smpp_smsc.Session.{Session}
use smpp_smsc.Session.Parse.{BindParams}

-- Status, err != nil, and the session afterwards.
abbrev pub Answer : Type 0
Answer = ℕ × Bool × Session

pub record Handler : Type 0 where
  pub handle_bind_transceiver : BindParams → Session → Answer
  pub handle_bind_receiver : BindParams → Session → Answer
  pub handle_bind_transmitter : BindParams → Session → Answer
  pub handle_submit_sm : SubmitSmParams → Session → Option SmppResponse × Session
  pub handle_query_sm : QuerySmParams → Session → Option QuerySmResponse × Answer
  pub handle_replace_sm : ReplaceSmParams → Session → Answer
  pub handle_unbind : Session → Answer
  pub handle_enquire_link : Session → Answer
  pub handle_deliver_sm_resp : ℕ → ℕ → Session → Session

unfoldable pub default_bind : BindingType → BindParams → Session → Answer
default_bind binding_type params s = (
  status_ok,
  false,
  record s {
    system_id = params.system_id;
    password = params.password;
    binding_type = binding_type;
    bound = true;
  },
)

unfoldable pub default_submit_sm : SubmitSmParams → Session → Option SmppResponse × Session
default_submit_sm params s =
    if not (is_transmitter s.binding_type)
    then (some (record { msg = []; status = status_inv_bnd }), s)
    else if length params.source_addr == 0 || length params.dest_addr == 0
    then (some (record { msg = []; status = status_inv_src_adr }), s)
    else (some (record { msg = []; status = status_ok }), s)

default_query_sm : QuerySmParams → Session → Option QuerySmResponse × Answer
default_query_sm params s = (
  some (record {
    message_id = params.message_id;
    final_date = [];
    message_state = 2;
    error_code = 0;
  }),
  (status_ok, false, s),
)

unfoldable pub default_unbind : Session → Answer
default_unbind s = (status_ok, false, record s { bound = false })

unfoldable pub default_handler : Handler
unfolding default_bind default_submit_sm default_query_sm default_unbind is_transmitter
default_handler = record {
  handle_bind_transceiver = default_bind transceiver;
  handle_bind_receiver = default_bind receiver;
  handle_bind_transmitter = default_bind transmitter;
  handle_submit_sm = default_submit_sm;
  handle_query_sm = default_query_sm;
  handle_replace_sm = λ params s. (status_ok, false, s);
  handle_unbind = default_unbind;
  handle_enquire_link = λ s. (status_ok, false, s);
  handle_deliver_sm_resp = λ seq status s. s;
}
