-- ===== src/Session/Outgoing/Tests.antt =====
-- Runs of the outgoing rounds and of the cleanup of pending requests.
use smpp_smsc.Base.{
  ℕ, ◌+◌, ◌≤◌, ◌<◌, ◌≡◌, ◌⊎◌, refl, Option, none, some, true, false, [], ◌∷◌, ◌++◌, Bytes, nat_eq,
  length, arith,
}
use smpp_smsc.Types.{PendingRequest}
use smpp_smsc.Base.Maps.{lookup}
use smpp_smsc.Wire.{Pdu}
use smpp_smsc.Config.{default_config}
use smpp_smsc.Session.{max_int, Session, message, load_pending}
use smpp_smsc.Wire.Samples.{smpp34}
use smpp_smsc.Session.Samples.{idle, sample_packet}
use smpp_smsc.Session.Handler.{default_handler, default_unbind}
use smpp_smsc.Session.Dispatch.{bare, handle_unbind_pdu}
use smpp_smsc.Session.Sound.{IsLive}
use smpp_smsc.Session.Sound.Samples.{idle-SessionOk, default_handler-IsQuiet}
use smpp_smsc.Session.Sound.Handlers.{default_handler-IsSound}
use smpp_smsc.Session.Outgoing.Ended.{steps, handle_unbind_unwritten}
use smpp_smsc.Session.Cleanup.{cleanup_pending_requests, load-cleanup}
use smpp_smsc.Session.Outgoing.{serialize_all, working}
use smpp_smsc.Session.Outgoing.Order.{rounds, joined, rounds_empty_queue}

abbrev pdu : ℕ → Pdu
pdu n = record { command = 5; seq = n; status = 0; sets = []; tlv_sets = [] }

abbrev seq_byte : Pdu → Option Bytes
seq_byte p = some (p.seq ∷ [])

abbrev two_queued : Session
two_queued = record idle { pdu_queue = pdu 3 ∷ pdu 4 ∷ [] }

two_serialize : serialize_all seq_byte two_queued.pdu_queue ≡ some (3 ∷ 4 ∷ [])
unfolding serialize_all
two_serialize = refl

rounds_empty_queue_example :
    (length (rounds seq_byte 1 two_queued).pdu_queue ≡ 0)
    × (joined (rounds seq_byte 1 two_queued).raw_writes
        ≡ joined two_queued.raw_writes ++ 3 ∷ 4 ∷ [])
    × ((rounds seq_byte 1 two_queued).messages_sent ≡ 0 + 2)
rounds_empty_queue_example =
    rounds_empty_queue seq_byte 1 two_queued (3 ∷ 4 ∷ []) refl two_serialize (omega arith)

abbrev old_entry : Session
old_entry = record idle {
  bound = true;
  pending_requests =
      (message 1000, record { segments_count = 1; registered_delivery = 1; created_at = 5 }) ∷ [];
}

abbrev old_request : PendingRequest
old_request = record { segments_count = 1; registered_delivery = 1; created_at = 5 }

old_found : load_pending old_entry (message 1000) ≡ some old_request
unfolding load_pending lookup
old_found = refl

load-cleanup_example :
    (((old_entry.bound ≡ true)
        × (0 < old_request.registered_delivery)
        × (5 + old_entry.cfg.pending_request_ttl ≤ 1_000_000_000_000_000))
      × (load_pending (cleanup_pending_requests 1_000_000_000_000_000 old_entry) (message 1000)
          ≡ none))
    ⊎ (((old_entry.bound ≡ false)
          ⊎ ((old_request.registered_delivery ≡ 0)
              ⊎ (1_000_000_000_000_000 < 5 + old_entry.cfg.pending_request_ttl)))
        × (load_pending (cleanup_pending_requests 1_000_000_000_000_000 old_entry) (message 1000)
            ≡ some old_request))
load-cleanup_example =
    load-cleanup 1_000_000_000_000_000 old_entry (message 1000) old_request old_found

nothing_cut : (default_handler.handle_unbind two_queued).1 ≡ false
unfolding default_handler default_unbind
nothing_cut = refl

two_queued-IsLive : IsLive two_queued
unfolding max_int default_config
two_queued-IsLive = (
  record {
    segments = idle-SessionOk.segments;
    queued = omega arith;
    numbered = omega arith;
    retried = omega arith;
    cancelled = λ h. absurd (cc);
    unbound = λ h. refl;
    unauthenticated = λ h. refl;
  },
  refl,
)

handle_unbind_unwritten_example :
    ((handle_unbind_pdu smpp34 default_handler (sample_packet 6) two_queued).stopped ≡ true)
    × ((handle_unbind_pdu smpp34 default_handler (sample_packet 6) two_queued).pdu_queue
        ≡ pdu 3
          ∷ pdu 4
          ∷ bare smpp34.unbind_resp_id 77 (default_handler.handle_unbind two_queued).0
          ∷ [])
    × ((steps seq_byte
          (working ∷ working ∷ [])
          (handle_unbind_pdu smpp34 default_handler (sample_packet 6) two_queued)).raw_writes
        ≡ [])
unfolding max_int default_config
handle_unbind_unwritten_example =
    handle_unbind_unwritten smpp34 default_handler (sample_packet 6) two_queued seq_byte
      (working ∷ working ∷ []) default_handler-IsQuiet default_handler-IsSound two_queued-IsLive
      (record { still_open = refl; room = omega arith }) nothing_cut
