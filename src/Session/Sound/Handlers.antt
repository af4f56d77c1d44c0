-- ===== src/Session/Sound/Handlers.antt =====
-- The server's own handler (internal/smsc/server.go) and that of the command (cmd/server/main.go)
-- keep a live session live.
use smpp_smsc.Base.{
  ◌≡◌, sym, subst, Bool, true, false, ◌||◌, Bytes, nat_eq, ◌==◌, if◌then◌else◌, length, arith,
}
use smpp_smsc.Types.{BindingType, SubmitSmParams}
use smpp_smsc.Session.{Session}
use smpp_smsc.Session.Handler.{
  Answer, default_handler, default_submit_sm, default_bind, default_unbind,
}
use smpp_smsc.Session.Demo.{demo_handler, demo_submit_sm, demo_bind, demo_unbind}
use smpp_smsc.Session.Parse.{BindParams}
use smpp_smsc.Session.Sound.{IsLive, IsSound}

-- A live session with other credentials, bound or not.
bound_as-IsLive :
    (s : Session) (system_id password : Bytes) (kind : BindingType) (bound : Bool)
    → IsLive s
    → IsLive (record s {
      system_id = system_id;
      password = password;
      binding_type = kind;
      bound = bound;
    })
bound_as-IsLive s system_id password kind bound (v, o) = (
  record {
    segments = v.segments;
    queued = v.queued;
    numbered = v.numbered;
    retried = v.retried;
    cancelled = v.cancelled;
    unbound = λ h. absurd (cc);
    unauthenticated = v.unauthenticated;
  },
  o,
)

answer_if : (b : Bool) (t u : Answer) → IsLive t.2 → IsLive u.2 → IsLive (if b then t else u).2
answer_if true t u v w = v
answer_if false t u v w = w

default_submit-IsLive :
    (p : SubmitSmParams) (s : Session) → IsLive s → IsLive (default_submit_sm p s).1
unfolding default_submit_sm
default_submit-IsLive p s v =
    let same : (default_submit_sm p s).1 ≡ s = ground arith in subst IsLive (sym same) v

pub default_handler-IsSound : IsSound default_handler
unfolding default_handler default_bind default_unbind
default_handler-IsSound = record {
  sound_transceiver = λ p s v. bound_as-IsLive s p.system_id p.password _ true v;
  sound_receiver = λ p s v. bound_as-IsLive s p.system_id p.password _ true v;
  sound_transmitter = λ p s v. bound_as-IsLive s p.system_id p.password _ true v;
  sound_submit = default_submit-IsLive;
  sound_query = λ p s v. v;
  sound_replace = λ p s v. v;
  sound_unbind = λ s v. bound_as-IsLive s s.system_id s.password s.binding_type false v;
  sound_enquire = λ s v. v;
  sound_response = λ seq status s v. v;
}

demo_bind-IsLive :
    (kind : BindingType) (p : BindParams) (s : Session) → IsLive s → IsLive (demo_bind kind p s).2
unfolding demo_bind
demo_bind-IsLive kind p s v =
    answer_if (length p.password == 0 || length p.system_id == 0) _ _ v
      (bound_as-IsLive s p.system_id p.password kind true v)

demo_submit-IsLive : (p : SubmitSmParams) (s : Session) → IsLive s → IsLive (demo_submit_sm p s).1
unfolding demo_submit_sm
demo_submit-IsLive p s v =
    let same : (demo_submit_sm p s).1 ≡ s = ground arith in subst IsLive (sym same) v

pub demo_handler-IsSound : IsSound demo_handler
unfolding demo_handler demo_unbind
demo_handler-IsSound = record {
  sound_transceiver = demo_bind-IsLive _;
  sound_receiver = demo_bind-IsLive _;
  sound_transmitter = demo_bind-IsLive _;
  sound_submit = demo_submit-IsLive;
  sound_query = λ p s v. v;
  sound_replace = λ p s v. v;
  sound_unbind = λ s v. bound_as-IsLive s s.system_id s.password s.binding_type false v;
  sound_enquire = λ s v. v;
  sound_response = λ seq status s v. v;
}
