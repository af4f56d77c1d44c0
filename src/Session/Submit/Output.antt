-- ===== src/Session/Submit/Output.antt =====
-- What handleSubmitSM and its helpers leave alone: the queue, the raw writes, the context and the
-- configuration.
use smpp_smsc.Base.{
  ℕ, ◌≡◌, inl, inr, refl, ◌∙◌, Bool, true, false, not, Option, none, some, Bytes, nat_eq, bytes_eq,
  if◌then◌else◌, arith, Option-cases,
}
use smpp_smsc.Wire.{GoSmpp}
use smpp_smsc.Types.{requires_delivery_receipt, SubmitSmParams, QuerySmParams, ReplaceSmParams}
use smpp_smsc.Segments.{MessageSegment, AddResult, SegmentsManager}
use smpp_smsc.Session.{
  Session, remove_pending_request_by_message_id, register_message_id, store_pending,
}
use smpp_smsc.Session.Handler.{Handler}
use smpp_smsc.Session.Parse.{BindParams}
use smpp_smsc.Session.Submit.{
  replace_found, try_replace_previous_submit, record_replaceable_submit, remember_receipt, accept,
  after_segment, submit_segment, text_of_single, submit_single, submit_by, handle_submit_sm,
}

-- What a step may not touch if the answer is to go out as the first new PDU.
pub record SameOutput (s t : Session) : Type 0 where
  pub same_queue : t.pdu_queue ≡ s.pdu_queue
  pub same_writes : t.raw_writes ≡ s.raw_writes
  pub same_ctx : t.ctx_done ≡ s.ctx_done
  pub same_cfg : t.cfg ≡ s.cfg

-- A handler of the application that sends nothing itself and does not stop the session.
pub record IsQuiet (handler : Handler) : Type 0 where
  pub quiet_transceiver :
      (p : BindParams) (s : Session) → SameOutput s (handler.handle_bind_transceiver p s).2
  pub quiet_receiver :
      (p : BindParams) (s : Session) → SameOutput s (handler.handle_bind_receiver p s).2
  pub quiet_transmitter :
      (p : BindParams) (s : Session) → SameOutput s (handler.handle_bind_transmitter p s).2
  pub quiet_submit :
      (p : SubmitSmParams) (s : Session) → SameOutput s (handler.handle_submit_sm p s).1
  pub quiet_query :
      (p : QuerySmParams) (s : Session) → SameOutput s (handler.handle_query_sm p s).1.2
  pub quiet_replace :
      (p : ReplaceSmParams) (s : Session) → SameOutput s (handler.handle_replace_sm p s).2
  pub quiet_unbind : (s : Session) → SameOutput s (handler.handle_unbind s).2
  pub quiet_enquire : (s : Session) → SameOutput s (handler.handle_enquire_link s).2

pub same_refl : (s : Session) → SameOutput s s
same_refl s = record { same_queue = refl; same_writes = refl; same_ctx = refl; same_cfg = refl }

pub same_trans : {s t u : Session} → SameOutput s t → SameOutput t u → SameOutput s u
same_trans p q = record {
  same_queue = q.same_queue ∙ p.same_queue;
  same_writes = q.same_writes ∙ p.same_writes;
  same_ctx = q.same_ctx ∙ p.same_ctx;
  same_cfg = q.same_cfg ∙ p.same_cfg;
}

pub replace_found-SameOutput :
    (s : Session) (key : Bytes) (old : Option ℕ) → SameOutput s (replace_found s key old)
unfolding replace_found remove_pending_request_by_message_id
replace_found-SameOutput s key none = same_refl s
replace_found-SameOutput s key (some old) = record {
  same_queue = ground arith;
  same_writes = ground arith;
  same_ctx = ground arith;
  same_cfg = ground arith;
}

pub same_if :
    {s : Session} (b : Bool) (t u : Session)
    → SameOutput s t
    → SameOutput s u
    → SameOutput s (if b then t else u)
same_if true t u m n = m
same_if false t u m n = n

pub try_replace-SameOutput :
    (p : SubmitSmParams) (s : Session) → SameOutput s (try_replace_previous_submit p s)
unfolding try_replace_previous_submit
try_replace-SameOutput p s = same_if _ _ _ (same_refl s) (replace_found-SameOutput s _ _)

pub remember_receipt-SameOutput :
    (p : SubmitSmParams) (id now : ℕ) (s : Session) → SameOutput s (remember_receipt p id now s)
unfolding remember_receipt register_message_id store_pending
remember_receipt-SameOutput p id now s = record {
  same_queue = ground arith;
  same_writes = ground arith;
  same_ctx = ground arith;
  same_cfg = ground arith;
}

pub record_replaceable-SameOutput :
    (p : SubmitSmParams) (id : ℕ) (s : Session) → SameOutput s (record_replaceable_submit p id s)
unfolding record_replaceable_submit
record_replaceable-SameOutput p id s = record {
  same_queue = ground arith;
  same_writes = ground arith;
  same_ctx = ground arith;
  same_cfg = ground arith;
}

pub same_if_pair :
    {A : Type 0} {s : Session} (b : Bool) (t u : A × Session)
    → SameOutput s t.1
    → SameOutput s u.1
    → SameOutput s (if b then t else u).1
same_if_pair true t u m n = m
same_if_pair false t u m n = n

pub segments-SameOutput :
    (s : Session) (m : SegmentsManager) → SameOutput s (record s { segments_mgr = m })
segments-SameOutput s m = record {
  same_queue = refl;
  same_writes = refl;
  same_ctx = refl;
  same_cfg = refl;
}

module _ (lib : GoSmpp) (handler : Handler) (quiet : IsQuiet handler) where
  pub accept-SameOutput :
      (p : SubmitSmParams) (id : ℕ) (receipt : Bool) (now : ℕ) (s : Session)
      → SameOutput s (accept lib handler p id receipt now s).1
  unfolding accept
  accept-SameOutput p id receipt now s =
      let s0 = try_replace_previous_submit p s in
      let s1 = (handler.handle_submit_sm p s0).1 in
      let done = same_trans (try_replace-SameOutput p s) (quiet.quiet_submit p s0) in
      let noted =
        same_if receipt _ _ (same_trans done (remember_receipt-SameOutput p id now s1)) done in
      same_if_pair _ _ _ (same_trans noted (record_replaceable-SameOutput p id _)) noted

  pub after_segment-SameOutput :
      (p : SubmitSmParams) (seg : MessageSegment) (now : ℕ) (r : AddResult) (s : Session)
      → SameOutput s (after_segment lib handler p seg now r s).1
  unfolding after_segment
  after_segment-SameOutput p seg now r s =
      same_if_pair r.failed _ _ (same_refl s)
        (same_if_pair (not r.complete) _ _ (same_refl s) (accept-SameOutput _ _ _ now s))

  pub submit_segment-SameOutput :
      (p : SubmitSmParams) (seg : MessageSegment) (generated : Option ℕ) (now : ℕ) (s : Session)
      → SameOutput s (submit_segment lib handler p seg generated now s).1
  unfolding submit_segment
  submit_segment-SameOutput p seg generated now s = same_trans (segments-SameOutput s _) (
      after_segment-SameOutput p
        (record seg {
          delivery_receipt_requested = requires_delivery_receipt p.registered_delivery;
        })
        now _ _)

  pub submit_single-SameOutput :
      (p : SubmitSmParams) (generated : Option ℕ) (now : ℕ) (s : Session)
      → SameOutput s (submit_single lib handler p generated now s).1
  unfolding submit_single
  submit_single-SameOutput p none now s = same_refl s
  submit_single-SameOutput p (some id) now s = elim (Option-cases (text_of_single lib handler p)) [
    | inl e ↦ rw (e, submit_single) (same_refl s)
    | inr (t, e) ↦ rw (e, submit_single) (accept-SameOutput _ id _ now s)
  ]

  pub submit_by-SameOutput :
      (o : Option MessageSegment) (p : SubmitSmParams) (generated : Option ℕ) (now : ℕ)
      (s : Session)
      → SameOutput s (submit_by lib handler o p generated now s).1
  unfolding submit_by
  submit_by-SameOutput none p generated now s = submit_single-SameOutput p generated now s
  submit_by-SameOutput (some seg) p generated now s =
      same_if_pair _ _ _ (submit_segment-SameOutput p seg generated now s)
        (submit_single-SameOutput p generated now s)

  pub submit-SameOutput :
      (p : SubmitSmParams) (generated : Option ℕ) (now : ℕ) (s : Session)
      → SameOutput s (handle_submit_sm lib handler p generated now s).1
  unfolding handle_submit_sm
  submit-SameOutput p generated now s = submit_by-SameOutput p.segment p generated now s
