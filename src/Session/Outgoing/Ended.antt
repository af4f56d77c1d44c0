-- ===== src/Session/Outgoing/Ended.antt =====
-- What the outgoing handler of internal/smsc/session.go still writes once the session is stopped, and
-- so what becomes of the answer to an unbind.
use smpp_smsc.Base.{
  ◌<◌, ◌≡◌, refl, sym, subst, ◌∙◌, ap, true, false, Option, List, [], ◌∷◌, ◌++◌, Bytes, if_false,
  length, arith,
}
use smpp_smsc.Wire.{GoSmpp, Pdu, Packet}
use smpp_smsc.Session.{Session, stop, max_int}
use smpp_smsc.Session.Handler.{Handler}
use smpp_smsc.Session.Submit.Output.{IsQuiet}
use smpp_smsc.Session.Dispatch.{
  bare, reply, handle_unbind_pdu, unbind_answer, send_unbind_response, send_generic_nack,
}
use smpp_smsc.Session.Dispatch.Answers.{HasRoom, enqueue_queue}
use smpp_smsc.Session.Sound.{IsLive, IsSound, reply-IsLive}
use smpp_smsc.Session.Outgoing.{
  Link, drain_outgoing_pdu_batch, send_pdu_batch, send_round, outgoing_step,
}

module _ (serialize : Pdu → Option Bytes) where
  -- A round on each of a row of connections' answers.
  abbrev pub steps : List Link → Session → Session
  steps [] s = s
  steps (link ∷ links) s = steps links (outgoing_step serialize link s)

  batch-quiet :
      (link : Link) (batch : List Pdu) (s : Session)
      → s.ctx_done ≡ true
      → ((send_pdu_batch serialize link batch s).1).raw_writes ≡ s.raw_writes
  unfolding send_pdu_batch
  batch-quiet link [] s h = refl
  batch-quiet link (b ∷ batch) s h = ground (arith, h)

  batch-cancelled :
      (link : Link) (batch : List Pdu) (s : Session)
      → s.ctx_done ≡ true
      → ((send_pdu_batch serialize link batch s).1).ctx_done ≡ true
  unfolding send_pdu_batch
  batch-cancelled link [] s h = h
  batch-cancelled link (b ∷ batch) s h = ground (arith, h)

  -- A cancelled session writes nothing and stays cancelled.
  step-quiet :
      (link : Link) (queue : List Pdu) (s : Session)
      → s.ctx_done ≡ true
      → ((send_round serialize link queue s).raw_writes ≡ s.raw_writes)
        × ((send_round serialize link queue s).ctx_done ≡ true)
  unfolding send_round send_pdu_batch
  step-quiet link [] s h = (refl, h)
  step-quiet link (first ∷ queue) s h =
      let (batch, rest) = drain_outgoing_pdu_batch first queue in
      let s1 = record s { pdu_queue = rest } in
      (batch-quiet link batch s1 h, batch-cancelled link batch s1 h)

  steps-quiet :
      (links : List Link) (s : Session)
      → s.ctx_done ≡ true
      → (steps links s).raw_writes ≡ s.raw_writes
  unfolding outgoing_step
  steps-quiet [] s h = refl
  steps-quiet (link ∷ links) s h =
      let (same, done) = step-quiet link s.pdu_queue s h in
      steps-quiet links (outgoing_step serialize link s) done ∙ same

-- Stopping an open session cancels it, and leaves its queue and its writes.
stop-keeps :
    (s : Session)
    → s.stopped ≡ false
    → ((stop s).ctx_done ≡ true)
      × ((stop s).stopped ≡ true)
      × ((stop s).pdu_queue ≡ s.pdu_queue)
      × ((stop s).raw_writes ≡ s.raw_writes)
unfolding stop
stop-keeps s h = (ground (arith, h), ground (arith, h), ground arith, ground arith)

-- An unbind in a live session with room in its queue, with a handler that neither sends nor stops and
-- that reports no error: the unbind_resp is put last into the queue and the session is stopped, and
-- nothing that the outgoing handler does afterwards writes anything, so that a response that it has
-- not taken before the stop is never written.
pub handle_unbind_unwritten :
    (lib : GoSmpp) (handler : Handler) (pkt : Packet) (s : Session) (serialize : Pdu → Option Bytes)
    (links : List Link)
    → IsQuiet handler
    → IsSound handler
    → IsLive s
    → HasRoom s
    → (handler.handle_unbind s).1 ≡ false
    → let t = handle_unbind_pdu lib handler pkt s in
      (t.stopped ≡ true)
      × (t.pdu_queue
          ≡ s.pdu_queue ++ bare lib.unbind_resp_id pkt.seq (handler.handle_unbind s).0 ∷ [])
      × ((steps serialize links t).raw_writes ≡ s.raw_writes)
unfolding handle_unbind_pdu unbind_answer send_unbind_response send_generic_nack
handle_unbind_unwritten lib handler pkt s serialize links quiet sound v room ok =
    let (status, err, u) = handler.handle_unbind s in
    let m = quiet.quiet_unbind s in
    let (queue, writes) =
      enqueue_queue u (bare lib.unbind_resp_id pkt.seq status) (m.same_ctx ∙ room.still_open) (
        subst (λ q. length q < max_int 64 u.cfg.window_size) (sym m.same_queue)
          (subst (λ c. length s.pdu_queue < max_int 64 c.window_size) (sym m.same_cfg)
            room.room)) in
    let answered = reply u (bare lib.unbind_resp_id pkt.seq status) in
    let live = reply-IsLive u (bare lib.unbind_resp_id pkt.seq status) (sound.sound_unbind s v) in
    let (cancelled, stopped, left, kept) = stop-keeps answered live.1 in
    let answers : handle_unbind_pdu lib handler pkt s ≡ stop answered = if_false err _ _ ok in
    subst
      (λ t.
        (t.stopped ≡ true)
        × (t.pdu_queue ≡ s.pdu_queue ++ bare lib.unbind_resp_id pkt.seq status ∷ [])
        × ((steps serialize links t).raw_writes ≡ s.raw_writes))
      (sym answers)
      (
        stopped,
        left ∙ queue ∙ ap (λ l. l ++ bare lib.unbind_resp_id pkt.seq status ∷ []) m.same_queue,
        steps-quiet serialize links (stop answered) cancelled ∙ kept ∙ writes ∙ m.same_writes,
      )
