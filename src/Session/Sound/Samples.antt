-- ===== src/Session/Sound/Samples.antt =====
-- The sample session has its invariant, and the server's own handler is quiet.
use smpp_smsc.Base.{refl, arith, nat_eq}
use smpp_smsc.Segments.Invariant.{new_segments_manager-ManagerOk}
use smpp_smsc.Session.Samples.{idle}
use smpp_smsc.Session.Handler.{default_handler}
use smpp_smsc.Session.Submit.Output.{IsQuiet}
use smpp_smsc.Session.Sound.{SessionOk}

pub idle-SessionOk : SessionOk idle
idle-SessionOk = record {
  segments = new_segments_manager-ManagerOk 0 10;
  queued = omega arith;
  numbered = omega arith;
  retried = omega arith;
  cancelled = λ h. absurd (cc);
  unbound = λ h. refl;
  unauthenticated = λ h. refl;
}

pub default_handler-IsQuiet : IsQuiet default_handler
unfolding default_handler
default_handler-IsQuiet = record {
  quiet_transceiver =
      λ p s. record { same_queue = refl; same_writes = refl; same_ctx = refl; same_cfg = refl };
  quiet_receiver =
      λ p s. record { same_queue = refl; same_writes = refl; same_ctx = refl; same_cfg = refl };
  quiet_transmitter =
      λ p s. record { same_queue = refl; same_writes = refl; same_ctx = refl; same_cfg = refl };
  quiet_submit = λ p s. record {
    same_queue = ground arith;
    same_writes = ground arith;
    same_ctx = ground arith;
    same_cfg = ground arith;
  };
  quiet_query =
      λ p s. record { same_queue = refl; same_writes = refl; same_ctx = refl; same_cfg = refl };
  quiet_replace =
      λ p s. record { same_queue = refl; same_writes = refl; same_ctx = refl; same_cfg = refl };
  quiet_unbind =
      λ s. record { same_queue = refl; same_writes = refl; same_ctx = refl; same_cfg = refl };
  quiet_enquire =
      λ s. record { same_queue = refl; same_writes = refl; same_ctx = refl; same_cfg = refl };
}
