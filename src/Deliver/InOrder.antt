-- ===== src/Deliver/InOrder.antt =====
-- The parts of a long text in the queue of the session that they are sent to.
use smpp_smsc.Base.{
  ℕ, ◌+◌, ◌≤◌, ◌≡◌, Bool, true, false, Option, some, List, [], ◌∷◌, Bytes, leb, if◌then◌else◌,
  length,
}
use smpp_smsc.Wire.{GoSmpp, Pdu}
use smpp_smsc.Types.{is_receiver}
use smpp_smsc.Session.{Session, max_int, max_sequence}
use smpp_smsc.Deliver.{DeliverSmParams, create_deliver_sm_pdu, deliver, DeliverResult}
use smpp_smsc.Deliver.Segmented.{part_message, part_params}

abbrev pub next : ℕ → ℕ
next q = if leb max_sequence q then 1 else q + 1

-- An open session that is bound to receive, with room for `n` more PDUs.
pub record Open (n : ℕ) (s : Session) : Type 0 where
  pub is_bound : s.bound ≡ true
  pub receives : is_receiver s.binding_type ≡ true
  pub still_open : s.ctx_done ≡ false
  pub room : length s.pdu_queue + n ≤ max_int 64 s.cfg.window_size

module _ (lib : GoSmpp) (encode : Bytes → ℕ → Option Bytes) (now : ℕ) (source dest : Bytes)
    (data_coding ref total : ℕ) where
  abbrev pub send : Bool → DeliverSmParams → Session → DeliverResult × Session
  send expired p s = deliver lib expired now p s

  abbrev pub waits_on : ℕ → Bool
  waits_on n = false

  abbrev params_of : ℕ → Bytes → DeliverSmParams
  params_of i octets =
      part_params lib send encode waits_on source dest data_coding (part_message ref total i octets)

  -- The PDUs of parts with these contents, from part `i` on, after the sequence number `q`.
  abbrev pub part_pdus : ℕ → ℕ → List Bytes → List Pdu
  part_pdus q i [] = []
  part_pdus q i (octets ∷ contents) =
      create_deliver_sm_pdu lib (params_of i octets) (next q) ∷ part_pdus (next q) (i + 1) contents

  -- The contents that the texts are encoded to.
  abbrev pub Encodes : List Bytes → List Bytes → Type 0
  Encodes [] [] = Unit {0}
  Encodes [] (o ∷ contents) = ⊥
  Encodes (t ∷ segments) [] = ⊥
  Encodes (t ∷ segments) (o ∷ contents) =
      (encode t data_coding ≡ some o) × Encodes segments contents
