-- ===== src/Session/Demo.antt =====
-- The handler of the command cmd/server/main.go, without its logging.
use smpp_smsc.Base.{true, false, not, ◌||◌, Option, some, [], nat_eq, ◌==◌, if◌then◌else◌, length}
use smpp_smsc.Wire.Constants.{status_ok, status_inv_bnd, status_inv_src_adr}
use smpp_smsc.Types.{
  SubmitSmParams, QuerySmParams, QuerySmResponse, SmppResponse, BindingType, transceiver,
  transmitter, receiver, is_transmitter,
}
use smpp_smsc.Session.{Session}
use smpp_smsc.Session.Parse.{BindParams}
use smpp_smsc.Session.Handler.{Answer, Handler}

unfoldable pub demo_bind : BindingType → BindParams → Session → Answer
demo_bind binding_type params s =
    if length params.password == 0 || length params.system_id == 0
    then (status_inv_bnd, true, s)
    else (
      status_ok,
      false,
      record s {
        system_id = params.system_id;
        password = params.password;
        binding_type = binding_type;
        bound = true;
      },
    )

unfoldable pub demo_submit_sm : SubmitSmParams → Session → Option SmppResponse × Session
demo_submit_sm params s =
    if not (is_transmitter s.binding_type)
    then (some (record { msg = []; status = status_inv_bnd }), s)
    else if length params.source_addr == 0 || length params.dest_addr == 0
    then (some (record { msg = []; status = status_inv_src_adr }), s)
    else (some (record { msg = []; status = status_ok }), s)

demo_query_sm : QuerySmParams → Session → Option QuerySmResponse × Answer
demo_query_sm params s = (
  some (record {
    message_id = params.message_id;
    final_date = [];
    message_state = 2;
    error_code = 0;
  }),
  (status_ok, false, s),
)

unfoldable pub demo_unbind : Session → Answer
demo_unbind s = (status_ok, false, record s { bound = false })

unfoldable pub demo_handler : Handler
unfolding demo_bind demo_submit_sm demo_query_sm demo_unbind is_transmitter
demo_handler = record {
  handle_bind_transceiver = demo_bind transceiver;
  handle_bind_receiver = demo_bind receiver;
  handle_bind_transmitter = demo_bind transmitter;
  handle_submit_sm = demo_submit_sm;
  handle_query_sm = demo_query_sm;
  handle_replace_sm = λ params s. (status_ok, false, s);
  handle_unbind = demo_unbind;
  handle_enquire_link = λ s. (status_ok, false, s);
  handle_deliver_sm_resp = λ seq status s. s;
}
