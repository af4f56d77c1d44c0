-- ===== src/Session/Outgoing.antt =====
-- internal/smsc/session.go: `outgoingHandler`, `drainOutgoingPDUBatch` and `sendPDUBatch`, the
-- goroutine that empties the queue. How a PDU is serialized is go-smpp's code, and so a parameter;
-- the connection's answers are inputs.
pub mod Order
pub mod Ended
mod Tests
use smpp_smsc.Base.{
  ℕ, zero, suc, ◌+◌, ◌-◌, Bool, true, false, Option, none, some, List, [], ◌∷◌, ◌++◌, Bytes, length,
  if◌then◌else◌, take,
}
use smpp_smsc.Wire.{Pdu}
use smpp_smsc.Session.{Session}

abbrev pub session_write_batch_max : ℕ
session_write_batch_max = 32

-- The loop with `room` places left in the batch: the batch, and what stays in the queue.
unfoldable pub drain_loop : ℕ → List Pdu → List Pdu → List Pdu × List Pdu
drain_loop zero batch queue = (batch, queue)
drain_loop (suc room) batch [] = (batch, [])
drain_loop (suc room) batch (b ∷ queue) = drain_loop room (batch ++ b ∷ []) queue

unfoldable pub drain_outgoing_pdu_batch : Pdu → List Pdu → List Pdu × List Pdu
unfolding drain_loop
drain_outgoing_pdu_batch first queue = drain_loop (session_write_batch_max - 1) (first ∷ []) queue

-- What the connection does with a write: there is none, its deadline cannot be set, `cut n` fails
-- after n bytes, or all goes well.
pub data Link : Type 0 where
  unconnected no_deadline working : Link
  cut : ℕ → Link

pub data SendResult : Type 0 where
  sent session_closed not_initialized deadline_error serialize_error write_error : SendResult

module _ (serialize : Pdu → Option Bytes) where
  -- The bytes of a batch in order; `none` where a PDU cannot be serialized.
  unfoldable pub serialize_all : List Pdu → Option Bytes
  serialize_all [] = some []
  serialize_all (b ∷ bodies) = elim (serialize b) [
    | none ↦ none
    | some bytes ↦ elim (serialize_all bodies) [ none ↦ none | some rest ↦ some (bytes ++ rest) ]
  ]

  unfoldable pub send_serialized : Link → Option Bytes → ℕ → Session → SendResult × Session
  send_serialized unconnected payload n s = (not_initialized, s)
  send_serialized no_deadline payload n s = (deadline_error, s)
  send_serialized (cut k) none n s = (serialize_error, s)
  send_serialized (cut k) (some payload) n s =
      (write_error, record s { raw_writes = s.raw_writes ++ take k payload ∷ [] })
  send_serialized working none n s = (serialize_error, s)
  send_serialized working (some payload) n s = (
    sent,
    record s { raw_writes = s.raw_writes ++ payload ∷ []; messages_sent = s.messages_sent + n },
  )

  unfoldable pub send_pdu_batch : Link → List Pdu → Session → SendResult × Session
  unfolding send_serialized
  send_pdu_batch link [] s = (sent, s)
  send_pdu_batch link (b ∷ bodies) s =
      if s.ctx_done
      then (session_closed, s)
      else send_serialized link (serialize_all (b ∷ bodies)) (length (b ∷ bodies)) s

  unfoldable pub send_pdu : Link → Pdu → Session → SendResult × Session
  unfolding send_pdu_batch
  send_pdu link body s = send_pdu_batch link (body ∷ []) s

  -- One round of `outgoingHandler` that takes a PDU from the queue; an error is only logged.
  unfoldable pub send_round : Link → List Pdu → Session → Session
  unfolding send_pdu_batch drain_outgoing_pdu_batch
  send_round link [] s = s
  send_round link (first ∷ queue) s =
      let (batch, rest) = drain_outgoing_pdu_batch first queue in
      (send_pdu_batch link batch (record s { pdu_queue = rest })).1

  unfoldable pub outgoing_step : Link → Session → Session
  unfolding send_round
  outgoing_step link s = send_round link s.pdu_queue s
