-- ===== src/Server/Everywhere.antt =====
-- The calls of internal/smsc/server.go keep the invariant of every session of the server.
use smpp_smsc.Base.{ℕ, refl, Bool, Option, none, some, Bytes, bytes_eq, nat_eq, arith}
use smpp_smsc.Wire.{GoSmpp}
use smpp_smsc.Config.{Config}
use smpp_smsc.Segments.Invariant.{new_segments_manager-ManagerOk}
use smpp_smsc.Session.{Limiter, Session}
use smpp_smsc.Session.Sound.{
  SessionOk, pending-SessionOk, stop-SessionOk, send_enquire_link_req-SessionOk,
}
use smpp_smsc.Session.Sound.Delivers.{deliver-SessionOk, report_on-SessionOk}
use smpp_smsc.Controller.Caches.{Cache}
use smpp_smsc.Controller.{SessController, cached_session, put_back, write_session}
use smpp_smsc.Controller.Everywhere.{
  IsKept, Everywhere, put_back-Everywhere, write_session-Everywhere, initialize_session-Everywhere,
}
use smpp_smsc.Deliver.{DeliverSmParams}
use smpp_smsc.Deliver.Segmented.{text_encoding}
use smpp_smsc.Deliver.Keeps.{send_segmented_deliver_sm-kept}
use smpp_smsc.Message.{encode_message}
use smpp_smsc.Deliver.Report.{Request}
use smpp_smsc.Server.{
  choose_limiter, new_session, generate_session_id, handle_connection, deliver_to,
  send_deliver_sm_with_params, report_to, send_delivery_report, send_deliver_sm_text,
  send_deliver_sm_text_with_data_coding,
}

-- The controller keeps a session's invariant.
pub SessionOk-IsKept : IsKept SessionOk
SessionOk-IsKept = record {
  kept_noted = λ s calls v. pending-SessionOk s s.pending_requests calls s.replace_submit_last v;
  kept_stop = stop-SessionOk;
  kept_enquire = send_enquire_link_req-SessionOk;
}

-- The session of a new connection is good, whatever is configured.
pub new_session-SessionOk :
    (limiter : Limiter) (cfg : Config) (id address : Bytes) (now : ℕ)
    → SessionOk (new_session limiter cfg id address now)
unfolding new_session
new_session-SessionOk limiter cfg id address now = record {
  segments = new_segments_manager-ManagerOk cfg.segs_bucket_ttl cfg.max_submit_sm_segments;
  queued = omega arith;
  numbered = omega arith;
  retried = omega arith;
  cancelled = λ h. absurd (cc);
  unbound = λ h. refl;
  unauthenticated = λ h. refl;
}

module _ (sessions_cache : Cache Bytes ℕ) (ids_cache : Cache ℕ Bytes) where
  abbrev Sessions : Type 0
  Sessions = SessController sessions_cache ids_cache

  -- Every session of the server has its invariant.
  abbrev pub AllOk : Sessions → Type 0
  AllOk m = Everywhere sessions_cache ids_cache SessionOk SessionOk-IsKept m

  pub put_back-AllOk :
      (a : ℕ) (s : Session) (m : Sessions)
      → SessionOk s
      → AllOk m
      → AllOk (put_back sessions_cache ids_cache a s m)
  put_back-AllOk a s m p v =
      put_back-Everywhere sessions_cache ids_cache SessionOk SessionOk-IsKept a s m p v

  pub handle_connection-AllOk :
      (shared : Bool) (a : ℕ) (address : Bytes) (generated : Option ℕ) (now : ℕ) (m : Sessions)
      → AllOk m
      → AllOk (handle_connection sessions_cache ids_cache shared a address generated now m)
  unfolding handle_connection
  handle_connection-AllOk shared a address generated now m v =
      let s =
        new_session (choose_limiter shared m.cfg) m.cfg
          (generate_session_id m.cfg.pod_id generated now) address now in
      initialize_session-Everywhere sessions_cache ids_cache SessionOk SessionOk-IsKept a
        (write_session sessions_cache ids_cache a s m)
        (write_session-Everywhere sessions_cache ids_cache SessionOk SessionOk-IsKept a s m
          (new_session-SessionOk (choose_limiter shared m.cfg) m.cfg _ address now) v)

  module _ (lib : GoSmpp) where
    deliver_to-AllOk :
        (o : Option ℕ) (expired : Bool) (now : ℕ) (p : DeliverSmParams) (m : Sessions)
        → AllOk m
        → AllOk (deliver_to sessions_cache ids_cache lib o expired now p m).1
    unfolding deliver_to
    deliver_to-AllOk none expired now p m v = v
    deliver_to-AllOk (some a) expired now p m v =
        put_back-AllOk a _ m (deliver-SessionOk lib expired now p (m.heap a) (v a)) v

    pub send_deliver_sm-AllOk :
        (id : Bytes) (now : ℕ) (expired : Bool) (p : DeliverSmParams) (m : Sessions)
        → AllOk m
        → AllOk (send_deliver_sm_with_params sessions_cache ids_cache lib id now expired p m).1
    unfolding send_deliver_sm_with_params
    send_deliver_sm-AllOk id now expired p m v =
        deliver_to-AllOk (cached_session sessions_cache ids_cache id m) expired now p m v

    pub send_text-AllOk :
        (expired : ℕ → Bool) (now ref : ℕ) (id source dest t : Bytes) (m : Sessions)
        → AllOk m
        → AllOk
            (send_deliver_sm_text sessions_cache ids_cache lib expired now ref id source dest t m).2
    unfolding send_deliver_sm_text
    send_text-AllOk expired now ref id source dest t m v =
        send_segmented_deliver_sm-kept AllOk lib
          (send_deliver_sm_with_params sessions_cache ids_cache lib id now)
          (λ e p st. send_deliver_sm-AllOk id now e p st) (encode_message lib) expired source dest
          (text_encoding lib) m.cfg.default_max_segs_count ref id t m v

    pub send_coded_text-AllOk :
        (expired : ℕ → Bool) (now ref : ℕ) (id source dest t : Bytes) (coding : ℕ) (m : Sessions)
        → AllOk m
        → AllOk
            (send_deliver_sm_text_with_data_coding sessions_cache ids_cache lib expired now ref id
              source dest t coding m).2
    unfolding send_deliver_sm_text_with_data_coding
    send_coded_text-AllOk expired now ref id source dest t coding m v =
        send_segmented_deliver_sm-kept AllOk lib
          (send_deliver_sm_with_params sessions_cache ids_cache lib id now)
          (λ e p st. send_deliver_sm-AllOk id now e p st) (encode_message lib) expired source dest
          (λ u. coding) m.cfg.default_max_segs_count ref id t m v

    report_to-AllOk :
        (trim : Bytes → Bytes) (now later : ℕ) (q : Request) (o : Option ℕ) (m : Sessions)
        → AllOk m
        → AllOk (report_to sessions_cache ids_cache lib trim now later q o m).2
    unfolding report_to
    report_to-AllOk trim now later q none m v = v
    report_to-AllOk trim now later q (some a) m v =
        put_back-AllOk a _ m (report_on-SessionOk lib trim now later q (m.heap a) (v a)) v

    pub send_delivery_report-AllOk :
        (trim : Bytes → Bytes) (now later : ℕ) (q : Request) (id : Bytes) (m : Sessions)
        → AllOk m
        → AllOk (send_delivery_report sessions_cache ids_cache lib trim now later q id m).2
    unfolding send_delivery_report
    send_delivery_report-AllOk trim now later q id m v =
        report_to-AllOk trim now later q (cached_session sessions_cache ids_cache id m) m v
