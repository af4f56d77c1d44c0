-- ===== src/Deliver/Once.antt =====
-- Delivery receipts: a message has at most one.
use smpp_smsc.Base.{
  ℕ, ◌≡◌, inl, inr, refl, sym, ap, ◌∙◌, subst, Bool, true, false, not, Option, none, some, [], ◌∷◌,
  ◌++◌, Bytes, nat_eq, if◌then◌else◌, Bool-cases, arith,
}
use smpp_smsc.Base.Maps.{lookup-insert}
use smpp_smsc.Wire.{GoSmpp}
use smpp_smsc.Types.{
  is_receiver, PendingRequest, requires_delivery_receipt, should_send_delivery_receipt,
  get_receipt_type, skipped_no_receipt,
}
use smpp_smsc.Session.{
  unregister, sequence, Session, message, pending_key_eq, pending_key_beq_iff, load_pending,
  remove_pending_request_by_message_id, get_next_sequence, store_pending, enqueue_pdu,
}
use smpp_smsc.Session.Pending.{remove_pending}
use smpp_smsc.Deliver.{
  DeliverSmParams, deliver, DeliverResult, refused, delivered, pending_not_found,
}
use smpp_smsc.Deliver.Report.{
  Report, Request, report_on, report_pending, after_deliver, receipt_params, policy_result,
}

-- A bound receiver in which nothing is pending under a message ID.
pub record Settled (id : ℕ) (s : Session) : Type 0 where
  pub is_bound : s.bound ≡ true
  pub receives : is_receiver s.binding_type ≡ true
  pub nothing : load_pending s (message id) ≡ none

-- What a report of the message leaves of the session `s`: it is settled, and the callback that drops
-- the message's route has been called where there is one.
pub record Finished (id : ℕ) (s t : Session) : Type 0 where
  pub settled : Settled id t
  pub unrouted : t.routes ≡ (if s.has_routes then s.routes ++ unregister id ∷ [] else s.routes)

-- A session that is as `s` in all that a report of the message looks at.
record Alike (id : ℕ) (s t : Session) : Type 0 where
  same_bound : t.bound ≡ s.bound
  same_type : t.binding_type ≡ s.binding_type
  same_has : t.has_routes ≡ s.has_routes
  same_routes : t.routes ≡ s.routes
  same_pending : load_pending t (message id) ≡ load_pending s (message id)

remove-bound :
    (s : Session) (id : ℕ)
    → ((remove_pending_request_by_message_id s id).bound ≡ s.bound)
      × ((remove_pending_request_by_message_id s id).binding_type ≡ s.binding_type)
unfolding remove_pending_request_by_message_id
remove-bound s id = ground arith

remove-Settled :
    (s : Session) (id : ℕ)
    → s.bound ≡ true
    → is_receiver s.binding_type ≡ true
    → Settled id (remove_pending_request_by_message_id s id)
remove-Settled s id b v = record {
  is_bound = (remove-bound s id).0 ∙ b;
  receives = ap is_receiver (remove-bound s id).1 ∙ v;
  nothing =
      (remove_pending s id (message id)).0
      ∙ ap (λ c. if c then none else load_pending s (message id))
          ((pending_key_beq_iff (message id) (message id)).1 refl);
}

remove_routes :
    (id : ℕ) (pr : PendingRequest) (s t : Session)
    → Alike id s t
    → load_pending s (message id) ≡ some pr
    → (remove_pending_request_by_message_id t id).routes
      ≡ (if s.has_routes then s.routes ++ unregister id ∷ [] else s.routes)
remove_routes id pr s t h e =
    (remove_pending t id (message id)).1
    ∙ ground (arith, h.same_pending, e, h.same_has, h.same_routes)

remove-Finished :
    (id : ℕ) (pr : PendingRequest) (s t : Session)
    → Alike id s t
    → s.bound ≡ true
    → is_receiver s.binding_type ≡ true
    → load_pending s (message id) ≡ some pr
    → Finished id s (remove_pending_request_by_message_id t id)
remove-Finished id pr s t h b v e = record {
  settled = remove-Settled t id (h.same_bound ∙ b) (ap is_receiver h.same_type ∙ v);
  unrouted = remove_routes id pr s t h e;
}

pick-Finished :
    (c : Bool) (x y : Report) (id : ℕ) (s : Session)
    → (x.1 ≡ none → Finished id s x.2)
    → (y.1 ≡ none → Finished id s y.2)
    → (if c then x else y).1 ≡ none
    → Finished id s (if c then x else y).2
pick-Finished true x y id s f g = f
pick-Finished false x y id s f g = g

itself : (id : ℕ) (s : Session) → Alike id s s
itself id s = record {
  same_bound = refl;
  same_type = refl;
  same_has = refl;
  same_routes = refl;
  same_pending = refl;
}

abbrev the_entry : ℕ → PendingRequest
the_entry now = record { segments_count = 0; registered_delivery = 0; created_at = now }

deliver-Alike :
    (lib : GoSmpp) (expired : Bool) (id now : ℕ) (p : DeliverSmParams) (s : Session)
    → Alike id s (deliver lib expired now p s).1
unfolding deliver enqueue_pdu get_next_sequence store_pending load_pending
deliver-Alike lib expired id now p s = record {
  same_bound = ground arith;
  same_type = ground arith;
  same_has = ground arith;
  same_routes = ground arith;
  same_pending = ground (
    arith,
    lookup-insert (sequence (get_next_sequence s).0) (message id) (the_entry now)
        s.pending_requests,
  );
}

module _ (lib : GoSmpp) (trim_space : Bytes → Bytes) (now later : ℕ) where
  after_deliver-Finished :
      (id : ℕ) (pr : PendingRequest) (r : DeliverResult) (s t : Session)
      → Alike id s t
      → s.bound ≡ true
      → is_receiver s.binding_type ≡ true
      → load_pending s (message id) ≡ some pr
      → (after_deliver lib trim_space now later id r t).1 ≡ none
      → Finished id s (after_deliver lib trim_space now later id r t).2
  unfolding after_deliver
  after_deliver-Finished id pr (refused e) s t h b v l ok = absurd (ground (arith, ok))
  after_deliver-Finished id pr (delivered seq) s t h b v l ok = remove-Finished id pr s t h b v l

  report_pending-Finished :
      (q : Request) (o : Option PendingRequest) (s : Session)
      → s.bound ≡ true
      → is_receiver s.binding_type ≡ true
      → load_pending s (message q.internal_id) ≡ o
      → (report_pending lib trim_space now later q o s).1 ≡ none
      → Finished q.internal_id s (report_pending lib trim_space now later q o s).2
  unfolding report_pending
  report_pending-Finished q none s b v l = λ ok. absurd (ground (arith, ok))
  report_pending-Finished q (some pr) s b v l =
      let id = q.internal_id in
      let params = receipt_params lib trim_space now later q pr in
      let removed = remove_pending_request_by_message_id s id in
      let (result, t) = deliver lib q.expired later params s in
      let delivering = after_deliver lib trim_space now later id result t in
      let unwanted : Report =
        (policy_result (get_receipt_type pr.registered_delivery), none, removed) in
      let wanted = should_send_delivery_receipt pr.registered_delivery q.success in
      pick-Finished (not (requires_delivery_receipt pr.registered_delivery))
        (skipped_no_receipt, none, removed) (if not wanted then unwanted else delivering) id s
        (λ ok. remove-Finished id pr s s (itself id s) b v l)
        (pick-Finished (not wanted) unwanted delivering id s
          (λ ok. remove-Finished id pr s s (itself id s) b v l)
          (after_deliver-Finished id pr result s t (deliver-Alike lib q.expired id later params s) b
            v l))

  pub report_on-Finished :
      (q : Request) (s : Session)
      → (report_on lib trim_space now later q s).1 ≡ none
      → Finished q.internal_id s (report_on lib trim_space now later q s).2
  unfolding report_on
  report_on-Finished q s ok = elim (Bool-cases s.bound) [
    | inr e ↦ absurd (ground (arith, e, ok))
    | inl e ↦ elim (Bool-cases (is_receiver s.binding_type)) [
      | inr f ↦ absurd (ground (arith, e, f, ok))
      | inl f ↦
          let o = load_pending s (message q.internal_id) in
          let same : report_on lib trim_space now later q s
              ≡ report_pending lib trim_space now later q o s =
            ground (arith, e, f) in
          subst (λ t. Finished q.internal_id s t.2) (sym same)
            (report_pending-Finished q o s e f refl (ap (λ t. t.1) (sym same) ∙ ok))
    ]
  ]

  Settled-report_on :
      (q : Request) (s : Session)
      → Settled q.internal_id s
      → report_on lib trim_space now later q s ≡ (skipped_no_receipt, some pending_not_found, s)
  unfolding report_on report_pending
  Settled-report_on q s h = rw (h.is_bound, h.receives, h.nothing, report_on) refl

  -- A report that returns without an error removes the entry of its message, so that a second report
  -- of the message, whatever it says, sends nothing: it answers SkippedNoReceipt, finds no pending
  -- request, and leaves the session as it is.
  pub report_once :
      (q r : Request) (s : Session)
      → r.internal_id ≡ q.internal_id
      → (report_on lib trim_space now later q s).1 ≡ none
      → report_on lib trim_space now later r (report_on lib trim_space now later q s).2
        ≡ (skipped_no_receipt, some pending_not_found, (report_on lib trim_space now later q s).2)
  report_once q r s same ok = Settled-report_on r (report_on lib trim_space now later q s).2 (
      subst (λ n. Settled n (report_on lib trim_space now later q s).2) (sym same)
        (report_on-Finished q s ok).settled)
