-- ===== src/Server/Samples.antt =====
-- A server without connections, and a connection, for runs.
use smpp_smsc.Base.{some, true, false, []}
use smpp_smsc.Text.{codes}
use smpp_smsc.Config.{default_config}
use smpp_smsc.Controller.{no_channel}
use smpp_smsc.Controller.Samples.{sessions_list, ids_list}
use smpp_smsc.Session.{unlimited}
use smpp_smsc.Server.{new_session}
use smpp_smsc.Server.Listen.{Server, Connection}

-- Each address holds a session that no one has used yet.
abbrev pub stopped_server : Server sessions_list ids_list
stopped_server = record {
  sessions = record {
    sessions = [];
    message_ids = [];
    session_ids = [];
    heap = λ a. new_session unlimited default_config (codes "sess") [] 0;
    cfg = default_config;
    notices = [];
    closed = false;
    stop_channel = no_channel;
  };
  ctx_done = false;
  listening = false;
  has_limiter = false;
  errors = [];
}

abbrev pub client : Connection
client = record { at = 3; address = codes "c"; deadlines = true; generated = some 5; now = 9 }
