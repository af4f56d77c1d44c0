-- ===== src/Session/Outgoing/Order.antt =====
-- The queue is emptied in order.
use smpp_smsc.Base.{
  ℕ, zero, suc, ◌+◌, ◌-◌, ◌*◌, subst, ◌≤◌, ◌<◌, ◌≡◌, refl, ap, sym, ◌∙◌, false, Option, some, List,
  [], ◌∷◌, ◌++◌, Bytes, length, length-append, arith, inl, inr, Option-cases,
}
use mathlib.Core.List.{append_assoc, append-nil}
use native.Mathlib.Decide.{dec_lt}
use smpp_smsc.Wire.{Pdu}
use smpp_smsc.Session.{Session}
use smpp_smsc.Session.Outgoing.{
  drain_loop, drain_outgoing_pdu_batch, serialize_all, send_pdu_batch, send_round, outgoing_step,
  working,
}

drain_loop_lem :
    (room : ℕ) (batch queue : List Pdu)
    → let r = drain_loop room batch queue in
      (r.0 ++ r.1 ≡ batch ++ queue)
      × (length r.0 ≤ length batch + room)
      × (length batch ≤ length r.0)
      × (length r.0 < length batch + room → r.1 ≡ [])
unfolding drain_loop
drain_loop_lem zero batch queue = (refl, omega arith, omega arith, λ h. absurd (omega (arith, h)))
drain_loop_lem (suc room) batch [] = (refl, omega arith, omega arith, λ h. refl)
drain_loop_lem (suc room) batch (b ∷ queue) =
    let (kept, most, least, short) = drain_loop_lem room (batch ++ b ∷ []) queue in
    let longer = length-append batch (b ∷ []) in
    (
      kept ∙ append_assoc batch (b ∷ []) queue,
      omega (arith, most, longer),
      omega (arith, least, longer),
      λ h. short (omega (arith, h, longer)),
    )

-- The batch and the rest are the queue in order; at most 32 PDUs are taken, and as many as there are.
drain_lem :
    (first : Pdu) (queue : List Pdu)
    → let r = drain_outgoing_pdu_batch first queue in
      (r.0 ++ r.1 ≡ first ∷ queue)
      × (length r.0 ≤ 32)
      × (0 < length r.0)
      × (length r.1 ≡ length (first ∷ queue) - 32)
unfolding drain_outgoing_pdu_batch
drain_lem first queue =
    let r = drain_loop 31 (first ∷ []) queue in
    let (kept, most, least, short) = drain_loop_lem 31 (first ∷ []) queue in
    let total : length r.0 + length r.1 ≡ length (first ∷ queue) =
      sym (length-append r.0 r.1) ∙ ap length kept in
    let rest : length r.1 ≡ length (first ∷ queue) - 32 = elim (dec_lt (length r.0) 32) [
      | yes h ↦
          let none_left : length r.1 ≡ 0 = ap length (short h) in omega (arith, total, none_left)
      | no h ↦ omega (arith, total, most)
    ] in
    (kept, most, omega (arith, least), rest)

-- What the connection has been given, as one stream.
pub joined : List Bytes → Bytes
joined [] = []
joined (w ∷ ws) = w ++ joined ws

joined-snoc : (ws : List Bytes) (w : Bytes) → joined (ws ++ w ∷ []) ≡ joined ws ++ w
unfolding joined
joined-snoc [] w = append-nil w
joined-snoc (v ∷ ws) w = ap (λ l. v ++ l) (joined-snoc ws w) ∙ sym (append_assoc v (joined ws) w)

module _ (serialize : Pdu → Option Bytes) where
  serialize_all-append :
      (a b : List Pdu) (p : Bytes)
      → serialize_all serialize (a ++ b) ≡ some p
      → (x : Bytes) × (y : Bytes) × (serialize_all serialize a ≡ some x)
        × (serialize_all serialize b ≡ some y)
        × (p ≡ x ++ y)
  unfolding serialize_all
  serialize_all-append [] b p e = ([], p, refl, e, refl)
  serialize_all-append (c ∷ a) b p e = elim (Option-cases (serialize c)) [
    | inl f ↦ absurd (ground (arith, e, f))
    | inr (u, f) ↦ elim (Option-cases (serialize_all serialize (a ++ b))) [
      | inl g ↦ absurd (ground (arith, e, f, g))
      | inr (q, g) ↦
          let (x, y, h, k, l) = serialize_all-append a b q g in
          (u ++ x, y, ground (arith, f, h), k, ground (arith, e, f, g, l, append_assoc u x y))
    ]
  ]

  send_pdu_batch_working :
      (batch : List Pdu) (s : Session) (x : Bytes)
      → s.ctx_done ≡ false
      → 0 < length batch
      → serialize_all serialize batch ≡ some x
      → (send_pdu_batch serialize working batch s).1 ≡ record s {
        raw_writes = s.raw_writes ++ x ∷ [];
        messages_sent = s.messages_sent + length batch;
      }
  unfolding send_pdu_batch
  send_pdu_batch_working [] s x o h e = absurd (omega (arith, h))
  send_pdu_batch_working (b ∷ batch) s x o h e = ground (arith, o, e)

  -- What one round does, from the queue that it finds.
  abbrev Round : Session → Bytes → Session → Type 0
  Round s payload t =
      (rest : Bytes) × (serialize_all serialize t.pdu_queue ≡ some rest)
      × (joined t.raw_writes ++ rest ≡ joined s.raw_writes ++ payload)
      × (t.ctx_done ≡ false)
      × (length t.pdu_queue ≡ length s.pdu_queue - 32)
      × (t.messages_sent + length t.pdu_queue ≡ s.messages_sent + length s.pdu_queue)

  send_round_lem :
      (q : List Pdu) (s : Session) (payload : Bytes)
      → s.pdu_queue ≡ q
      → s.ctx_done ≡ false
      → serialize_all serialize q ≡ some payload
      → Round s payload (send_round serialize working q s)
  unfolding send_round
  send_round_lem [] s payload f o e = (payload, rw f e, refl, o, rw f (refl), refl)
  send_round_lem (first ∷ queue) s payload f o e =
      let r = drain_outgoing_pdu_batch first queue in
      let (kept, most, least, left) = drain_lem first queue in
      let (x, y, g, h, k) =
        serialize_all-append r.0 r.1 payload (ap (serialize_all serialize) kept ∙ e) in
      let s1 = record s { pdu_queue = r.1 } in
      let step = send_pdu_batch_working r.0 s1 x o least g in
      subst (Round s payload) (sym step) (
        y,
        h,
        ap (λ l. l ++ y) (joined-snoc s.raw_writes x)
            ∙ append_assoc (joined s.raw_writes) x y
            ∙ ap (λ l. joined s.raw_writes ++ l) (sym k),
        o,
        left ∙ ap (λ q. length q - 32) (sym f),
        omega (arith, length-append r.0 r.1, ap length kept, ap length f),
      )

  round_lem :
      (s : Session) (payload : Bytes)
      → s.ctx_done ≡ false
      → serialize_all serialize s.pdu_queue ≡ some payload
      → Round s payload (outgoing_step serialize working s)
  unfolding outgoing_step
  round_lem s payload o e = send_round_lem s.pdu_queue s payload refl o e

  -- The rounds of the sending goroutine while nothing is queued.
  unfoldable pub rounds : ℕ → Session → Session
  rounds zero s = s
  rounds (suc k) s = rounds k (outgoing_step serialize working s)

  serialize_all_empty :
      (q : List Pdu) (y : Bytes) → length q ≡ 0 → serialize_all serialize q ≡ some y → y ≡ []
  unfolding serialize_all
  serialize_all_empty [] y h e = ground (arith, e)
  serialize_all_empty (b ∷ q) y h e = absurd (omega (arith, h))

  rounds-queue :
      (k : ℕ) (s : Session) (payload : Bytes)
      → s.ctx_done ≡ false
      → serialize_all serialize s.pdu_queue ≡ some payload
      → (y : Bytes) × (serialize_all serialize (rounds k s).pdu_queue ≡ some y)
        × (joined (rounds k s).raw_writes ++ y ≡ joined s.raw_writes ++ payload)
        × (length (rounds k s).pdu_queue ≡ length s.pdu_queue - 32 * k)
        × ((rounds k s).messages_sent + length (rounds k s).pdu_queue
            ≡ s.messages_sent + length s.pdu_queue)
  unfolding rounds
  rounds-queue zero s payload o e = (payload, e, refl, omega arith, refl)
  rounds-queue (suc k) s payload o e =
      let (y, h, l, open_still, len, count) = round_lem s payload o e in
      let (z, h2, l2, len2, count2) =
        rounds-queue k (outgoing_step serialize working s) y open_still h in
      (z, h2, l2 ∙ l, omega (arith, len, len2), count2 ∙ count)

-- Sending in batches is sending one by one. On a connection that works, in an open session whose
-- queued PDUs all serialize, to `payload` in the order of the queue, k rounds with at most 32 * k PDUs
-- queued leave the queue empty, have appended exactly `payload` to the stream of the connection,
-- and have counted every PDU as sent.
pub rounds_empty_queue :
    (serialize : Pdu → Option Bytes) (k : ℕ) (s : Session) (payload : Bytes)
    → s.ctx_done ≡ false
    → serialize_all serialize s.pdu_queue ≡ some payload
    → length s.pdu_queue ≤ 32 * k
    → (length (rounds serialize k s).pdu_queue ≡ 0)
      × (joined (rounds serialize k s).raw_writes ≡ joined s.raw_writes ++ payload)
      × ((rounds serialize k s).messages_sent ≡ s.messages_sent + length s.pdu_queue)
rounds_empty_queue serialize k s payload o e enough =
    let (y, h, l, len, count) = rounds-queue serialize k s payload o e in
    let done : length (rounds serialize k s).pdu_queue ≡ 0 = omega (arith, len, enough) in
    let nothing : y ≡ [] = serialize_all_empty serialize _ y done h in
    (
      done,
      sym (append-nil (joined (rounds serialize k s).raw_writes))
          ∙ ap (λ w. joined (rounds serialize k s).raw_writes ++ w) (sym nothing)
          ∙ l,
      omega (arith, done, count),
    )
