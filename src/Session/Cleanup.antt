-- ===== src/Session/Cleanup.antt =====
-- internal/smsc/session.go: `cleanupPendingRequests`, at one tick of its ticker, and the loop of
-- `start` that reads PDUs.
use smpp_smsc.Base.{
  ℕ, ◌+◌, ◌≤◌, ◌<◌, ◌≡◌, ◌⊎◌, refl, ap, Bool, true, false, ◌&&◌, ◌||◌, Option, none, some, List, [],
  ◌∷◌, Bytes, ltb, leb, ◌==◌, if◌then◌else◌, arith,
}
use smpp_smsc.Base.Maps.{lookup, delete, lookup-delete}
use smpp_smsc.Types.{PendingRequest}
use smpp_smsc.Wire.{GoSmpp, Packet}
use smpp_smsc.Session.{
  Session, PendingKey, pending_key_eq, pending_key_beq_iff, load_pending, stop,
  update_last_activity,
}
use smpp_smsc.Session.Handler.{Handler}
use smpp_smsc.Session.Dispatch.{Moment, process_pdu}

-- The test on one entry; `time.Since` of a time in the future is negative, here 0.
unfoldable pub is_stale : ℕ → ℕ → PendingRequest → Bool
is_stale now ttl r = ltb 0 r.registered_delivery && (leb (r.created_at + ttl) now)

unfoldable pub is_stale_entry : ℕ → ℕ → Option PendingRequest → Bool
unfolding is_stale
is_stale_entry now ttl none = false
is_stale_entry now ttl (some r) = is_stale now ttl r

-- One visit of `Range`.
unfoldable pub visit_pending :
    ℕ → ℕ → PendingKey → List (PendingKey × PendingRequest) → List (PendingKey × PendingRequest)
unfolding is_stale_entry
visit_pending now ttl key m = if is_stale_entry now ttl (lookup key m) then delete key m else m

-- `Range` over the entries that there were at its start.
unfoldable pub visit_all :
    ℕ
    → ℕ
    → List (PendingKey × PendingRequest)
    → List (PendingKey × PendingRequest)
    → List (PendingKey × PendingRequest)
unfolding visit_pending
visit_all now ttl [] m = m
visit_all now ttl ((key, r) ∷ entries) m = visit_all now ttl entries (visit_pending now ttl key m)

unfoldable pub cleanup_pending_requests : ℕ → Session → Session
unfolding visit_all
cleanup_pending_requests now s =
    if s.bound
    then record s {
      pending_requests =
          visit_all now s.cfg.pending_request_ttl s.pending_requests s.pending_requests;
    }
    else s

-- What one round of the loop in `start` meets: a PDU, a timeout, or an error (io.EOF included).
pub data ReadEvent : Type 0 where
  read : Moment → Packet → ReadEvent
  timeout failure : ReadEvent

-- The error of a read: a net.Error, which tells whether it is a timeout, io.EOF, or another.
pub data ReadError : Type 0 where
  net_error : Bool → ReadError
  end_of_file other_error : ReadError

unfoldable pub is_net_timeout : ReadError → Bool
is_net_timeout (net_error timed_out) = timed_out
is_net_timeout end_of_file = false
is_net_timeout other_error = false

-- A timeout goes on with the loop; io.EOF and any other error end it.
unfoldable pub event_of_error : ReadError → ReadEvent
unfolding is_net_timeout
event_of_error e = if is_net_timeout e then timeout else failure

module _ (lib : GoSmpp) (handler : Handler) (digest : Bytes → Bytes) where
  unfoldable pub after_read : ℕ → Option Session → Option Session
  after_read now none = none
  after_read now (some s) = some (update_last_activity s now)

  unfoldable pub read_round : ReadEvent → Session → Option Session
  unfolding after_read
  read_round (read at pkt) s = after_read at.now (process_pdu lib handler digest at pkt s)
  read_round timeout s = some s
  read_round failure s = some (stop s)

  -- The loop: a cancelled context ends it before anything more is read. `none` is a panic.
  unfoldable pub read_loop : List ReadEvent → Session → Option Session
  unfolding read_round
  read_loop [] s = some s
  read_loop (e ∷ events) s =
      if s.ctx_done
      then some (stop s)
      else elim (read_round e s) [ none ↦ none | some t ↦ read_loop events t ]

lookup-visit_pending :
    (now ttl : ℕ) (key j : PendingKey) (m : List (PendingKey × PendingRequest))
    → lookup j (visit_pending now ttl key m)
      ≡ (if (key == j) && is_stale_entry now ttl (lookup j m) then none else lookup j m)
unfolding visit_pending
lookup-visit_pending now ttl key j m =
    ground (arith, lookup-delete key j m, pending_key_beq_iff key j)

-- `j` is the key of an entry of the list.
abbrev has_key : PendingKey → List (PendingKey × PendingRequest) → Bool
has_key j [] = false
has_key j ((key, r) ∷ m) = (key == j) || has_key j m

lookup-visit_all :
    (now ttl : ℕ) (j : PendingKey) (entries m : List (PendingKey × PendingRequest))
    → lookup j (visit_all now ttl entries m)
      ≡ (if has_key j entries && is_stale_entry now ttl (lookup j m) then none else lookup j m)
unfolding visit_all
lookup-visit_all now ttl j [] m = ground arith
lookup-visit_all now ttl j ((key, r) ∷ entries) m = ground (
  arith,
  lookup-visit_all now ttl j entries (visit_pending now ttl key m),
  lookup-visit_pending now ttl key j m,
  ap (is_stale_entry now ttl) (lookup-visit_pending now ttl key j m),
)

has_key-lookup :
    (j : PendingKey) (m : List (PendingKey × PendingRequest))
    → has_key j m ≡ false
    → lookup j m ≡ none
unfolding lookup
has_key-lookup j [] h = refl
has_key-lookup j ((key, r) ∷ m) h = ground (arith, has_key-lookup j m)

tick_one :
    (now : ℕ) (s : Session) (j : PendingKey)
    → load_pending (cleanup_pending_requests now s) j ≡ (
        if s.bound && is_stale_entry now s.cfg.pending_request_ttl (load_pending s j)
        then none
        else load_pending s j)
unfolding cleanup_pending_requests load_pending is_stale_entry
tick_one now s j = ground (
  arith,
  lookup-visit_all now s.cfg.pending_request_ttl j s.pending_requests s.pending_requests,
  has_key-lookup j s.pending_requests,
)

tick_entry :
    (now ttl : ℕ) (bound : Bool) (o after : Option PendingRequest) (r : PendingRequest)
    → o ≡ some r
    → after ≡ (if bound && is_stale_entry now ttl o then none else o)
    → (((bound ≡ true) × (0 < r.registered_delivery) × (r.created_at + ttl ≤ now)) × (after ≡ none))
      ⊎ (((bound ≡ false) ⊎ ((r.registered_delivery ≡ 0) ⊎ (now < r.created_at + ttl)))
          × (after ≡ some r))
unfolding is_stale_entry
tick_entry now ttl bound o after r e f = ground (arith, e, f)

-- What one tick does to the entry r of a key. In a bound session, if r asks for a receipt and the TTL
-- has passed since it was made, the entry is gone; and if the session is not bound, or r asks for no
-- receipt, or the TTL has not passed, the entry is still r.
pub load-cleanup :
    (now : ℕ) (s : Session) (j : PendingKey) (r : PendingRequest)
    → load_pending s j ≡ some r
    → (((s.bound ≡ true)
          × (0 < r.registered_delivery)
          × (r.created_at + s.cfg.pending_request_ttl ≤ now))
        × (load_pending (cleanup_pending_requests now s) j ≡ none))
      ⊎ (((s.bound ≡ false)
            ⊎ ((r.registered_delivery ≡ 0) ⊎ (now < r.created_at + s.cfg.pending_request_ttl)))
          × (load_pending (cleanup_pending_requests now s) j ≡ some r))
load-cleanup now s j r e =
    tick_entry now s.cfg.pending_request_ttl s.bound (load_pending s j) _ r e (tick_one now s j)
