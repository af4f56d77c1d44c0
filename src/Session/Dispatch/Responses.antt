-- ===== src/Session/Dispatch/Responses.antt =====
-- What a PDU with the response bit does to the session.
use smpp_smsc.Base.{nat_eq, ◌==◌, if◌then◌else◌}
use smpp_smsc.Wire.{GoSmpp, Packet}
use smpp_smsc.Session.{Session, pending_key_eq}
use smpp_smsc.Session.Handler.{Handler}

-- The session that the handler's deliver_sm_resp method leaves, where the response is one; any other
-- response is not told to the handler.
abbrev pub heard : GoSmpp → Handler → Packet → Session → Session
heard lib handler pkt s =
    if pkt.id == lib.enquire_link_resp_id
    then s
    else if pkt.id == lib.deliver_sm_resp_id
    then handler.handle_deliver_sm_resp pkt.seq pkt.status s
    else s
