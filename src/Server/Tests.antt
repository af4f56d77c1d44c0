-- ===== src/Server/Tests.antt =====
-- A delivery report at a server with one session.
use smpp_smsc.Base.{◌≡◌, refl, true, false, none, some, [], Bytes, nat_eq, bytes_eq}
use smpp_smsc.Base.Maps.{lookup}
use smpp_smsc.Text.{codes}
use smpp_smsc.Wire.Samples.{smpp34}
use smpp_smsc.Types.{is_receiver, requires_delivery_receipt, should_send_delivery_receipt}
use smpp_smsc.Config.{default_config}
use smpp_smsc.Session.{pending_key_eq}
use smpp_smsc.Controller.{cached_session}
use smpp_smsc.Controller.Routes.{Gone}
use smpp_smsc.Controller.Samples.{sessions_list, ids_list, one_session}
use smpp_smsc.Deliver.Report.{Request}
use smpp_smsc.Server.{send_delivery_report}
use smpp_smsc.Server.Unrouted.{send_delivery_report-Gone}

abbrev request : Request
request = record {
  source = codes "200";
  dest = codes "100";
  message_id = codes "1000";
  internal_id = 1000;
  success = true;
  receipt_text = [];
  expired = false;
}

abbrev trim : Bytes → Bytes
trim t = t

s1_cached : cached_session sessions_list ids_list (codes "s1") one_session ≡ some 7
unfolding cached_session lookup
s1_cached = refl

no_error :
    (send_delivery_report sessions_list ids_list smpp34 trim 9 9 request (codes "s1") one_session).1
    ≡ none
unfolding send_delivery_report lookup is_receiver requires_delivery_receipt
    should_send_delivery_receipt default_config
no_error = refl

send_delivery_report-Gone_example :
    Gone sessions_list ids_list 1000
      (send_delivery_report sessions_list ids_list smpp34 trim 9 9 request
        (codes "s1")
        one_session).2
send_delivery_report-Gone_example =
    send_delivery_report-Gone sessions_list ids_list smpp34 trim 9 9 request (codes "s1") 7
      one_session s1_cached refl refl no_error
