-- ===== src/Session/Dispatch/Answers.antt =====
-- One answer to one request: the handlers of session.go up to the call that queues it.
use smpp_smsc.Base.{
  ℕ, ◌<◌, ◌≡◌, refl, ap, ◌∙◌, sym, subst, Bool, true, false, Option, none, some, [], ◌∷◌, ◌++◌,
  Bytes, nat_eq, bytes_eq, length, arith,
}
use smpp_smsc.Base.Octets.{put_be32}
use smpp_smsc.Wire.{GoSmpp, Pdu}
use smpp_smsc.Wire.Constants.{replace_sm_resp}
use smpp_smsc.Types.{BindingType, QuerySmResponse}
use smpp_smsc.Session.{Session, enqueue_pdu, max_int, stop}
use smpp_smsc.Session.Handler.{Answer}
use smpp_smsc.Session.Parse.{BindParams}
use smpp_smsc.Session.Submit.Output.{SameOutput, same_trans}
use smpp_smsc.Session.Dispatch.{
  reply, bind_answer, unbind_answer, enquire_answer, query_answer, replace_answer,
  send_generic_nack, send_bind_response, send_unbind_response, send_query_sm_response,
  send_replace_sm_response, after_bind,
}

-- The session is open and its queue takes one more PDU.
pub record HasRoom (s : Session) : Type 0 where
  pub still_open : s.ctx_done ≡ false
  pub room : length s.pdu_queue < max_int 64 s.cfg.window_size

-- Exactly one PDU with the sequence number is queued, or, if `raw` allows it (replace_sm), exactly
-- sixteen bytes that end in it are written past the queue.
pub data Answered (raw : Bool) (seq : ℕ) (s t : Session) : Type 0 where
  queued :
      (body : Pdu)
      → body.seq ≡ seq
      → t.pdu_queue ≡ s.pdu_queue ++ body ∷ []
      → t.raw_writes ≡ s.raw_writes
      → Answered raw seq s t
  written :
      (head : Bytes)
      → raw ≡ true
      → length head ≡ 12
      → t.pdu_queue ≡ s.pdu_queue
      → t.raw_writes ≡ s.raw_writes ++ (head ++ put_be32 seq) ∷ []
      → Answered raw seq s t

pub enqueue_queue :
    (s : Session) (body : Pdu)
    → s.ctx_done ≡ false
    → length s.pdu_queue < max_int 64 s.cfg.window_size
    → ((reply s body).pdu_queue ≡ s.pdu_queue ++ body ∷ [])
      × ((reply s body).raw_writes ≡ s.raw_writes)
unfolding reply enqueue_pdu
enqueue_queue s body o r = ground arith

pub reply-Answered :
    {raw : Bool} {s t : Session} (body : Pdu)
    → HasRoom s
    → SameOutput s t
    → Answered raw body.seq s (reply t body)
reply-Answered {s = s} {t = t} body h m =
    let o : t.ctx_done ≡ false = m.same_ctx ∙ h.still_open in
    let r : length t.pdu_queue < max_int 64 t.cfg.window_size =
      subst (λ q. length q < max_int 64 t.cfg.window_size) (sym m.same_queue)
        (subst (λ c. length s.pdu_queue < max_int 64 c.window_size) (sym m.same_cfg) h.room) in
    let (q, w) = enqueue_queue t body o r in
    queued body refl (q ∙ ap (λ l. l ++ body ∷ []) m.same_queue) (w ∙ m.same_writes)

pub after_bind-SameOutput :
    (kind : BindingType) (p : BindParams) (status : ℕ) (s : Session)
    → SameOutput s (after_bind kind p status s)
unfolding after_bind
after_bind-SameOutput kind p status s = record {
  same_queue = ground arith;
  same_writes = ground arith;
  same_ctx = ground arith;
  same_cfg = ground arith;
}

module _ (raw : Bool) (lib : GoSmpp) (seq : ℕ) (s : Session) (h : HasRoom s) where
  pub bind_answer-Answered :
      (kind : BindingType) (p : BindParams) (resp : ℕ) (own : Bytes) (a : Answer)
      → SameOutput s a.2
      → Answered raw seq s (bind_answer lib seq kind p resp own a)
  unfolding bind_answer send_bind_response
  bind_answer-Answered kind p resp own (status, false, t) m =
      reply-Answered _ h (same_trans m (after_bind-SameOutput kind p status t))
  bind_answer-Answered kind p resp own (status, true, t) m = reply-Answered _ h m

  pub stop_keeps :
      (t : Session) → ((stop t).pdu_queue ≡ t.pdu_queue) × ((stop t).raw_writes ≡ t.raw_writes)
  unfolding stop
  stop_keeps t = ground arith

  pub stop-Answered : (t : Session) → Answered raw seq s t → Answered raw seq s (stop t)
  stop-Answered t (queued body e q w) = queued body e ((stop_keeps t).0 ∙ q) ((stop_keeps t).1 ∙ w)
  stop-Answered t (written head r e q w) =
      written head r e ((stop_keeps t).0 ∙ q) ((stop_keeps t).1 ∙ w)

  pub unbind_answer-Answered :
      (a : Answer) → SameOutput s a.2 → Answered raw seq s (unbind_answer lib seq a)
  unfolding unbind_answer send_generic_nack send_unbind_response
  unbind_answer-Answered (status, false, t) m = stop-Answered _ (reply-Answered _ h m)
  unbind_answer-Answered (status, true, t) m = reply-Answered _ h m

  pub enquire_answer-Answered :
      (a : Answer) → SameOutput s a.2 → Answered raw seq s (enquire_answer lib seq a)
  unfolding enquire_answer
  enquire_answer-Answered (status, err, t) m = reply-Answered _ h m

  pub query_answer-Answered :
      (a : Option QuerySmResponse × Answer)
      → SameOutput s a.1.2
      → Answered raw seq s (query_answer lib seq a)
  unfolding query_answer send_query_sm_response
  query_answer-Answered (r, (status, true, t)) m = reply-Answered _ h m
  query_answer-Answered (none, (status, false, t)) m = reply-Answered _ h m
  query_answer-Answered (some r, (status, false, t)) m = reply-Answered _ h m

  pub send_replace-Answered :
      (status : ℕ) (t : Session)
      → raw ≡ true
      → SameOutput s t
      → Answered raw seq s (send_replace_sm_response lib seq status t)
  unfolding send_replace_sm_response
  send_replace-Answered status t r m =
      written (put_be32 replace_sm_resp ++ put_be32 16 ++ put_be32 status) r (ground arith)
        m.same_queue
        (ap
          (λ l.
            l ++ (put_be32 replace_sm_resp ++ put_be32 16 ++ put_be32 status ++ put_be32 seq) ∷ [])
          m.same_writes)

  pub replace_answer-Answered :
      (a : Answer) → raw ≡ true → SameOutput s a.2 → Answered raw seq s (replace_answer lib seq a)
  unfolding replace_answer
  replace_answer-Answered (status, err, t) r m = send_replace-Answered _ t r m
