-- ===== src/Controller/Routes.antt =====
-- Stopping a session, or a report, drops routes from message IDs.
use smpp_smsc.Base.{
  ℕ, ◌≡◌, ◌⊎◌, inl, inr, sym, ap, subst, true, false, none, some, List, [], ◌∷◌, Bytes, bytes_eq,
  nat_eq, ◌==◌, Option-cases, Bool-cases, arith,
}
use smpp_smsc.Base.Maps.{lookup}
use smpp_smsc.Types.{PendingRequest}
use smpp_smsc.Session.{
  Session, PendingKey, sequence, message, pending_key_eq, load_pending, RouteCall, register,
  unregister, stop, stop_routes,
}
use smpp_smsc.Controller.Caches.{Cache, IsIn}
use smpp_smsc.Controller.Closing.{stop_calls, stop_at-heap}
use smpp_smsc.Controller.{
  SessController, unregister_message_id, apply_routes, write_session, put_back, stop_at,
  on_deletion,
}

-- Only calls that unregister.
abbrev pub Unregisters : List RouteCall → Type 0
Unregisters [] = Unit {0}
Unregisters (register n ∷ calls) = ⊥
Unregisters (unregister n ∷ calls) = Unregisters calls

stop_routes-Unregisters : (l : List (PendingKey × PendingRequest)) → Unregisters (stop_routes l)
unfolding stop_routes
stop_routes-Unregisters [] = tt
stop_routes-Unregisters ((sequence n, r) ∷ l) = stop_routes-Unregisters l
stop_routes-Unregisters ((message n, r) ∷ l) = stop_routes-Unregisters l

stop_calls-Unregisters : (s : Session) → Unregisters (stop_calls s)
unfolding stop
stop_calls-Unregisters s = elim (Bool-cases s.stopped) [
  | inl e ↦ rw (e, stop) tt
  | inr e ↦ elim (Bool-cases s.has_routes) [
    | inl h ↦ rw (e, h, stop) (stop_routes-Unregisters s.pending_requests)
    | inr h ↦ rw (e, h, stop) tt
  ]
]

pending-IsIn :
    (n : ℕ) (r : PendingRequest) (l : List (PendingKey × PendingRequest))
    → lookup (message n) l ≡ some r
    → IsIn (unregister n) (stop_routes l)
unfolding lookup stop_routes
pending-IsIn n r [] e = absurd (ground (arith, e))
pending-IsIn n r ((sequence k, q) ∷ l) e = pending-IsIn n r l e
pending-IsIn n r ((message k, q) ∷ l) e = elim (Bool-cases (k == n)) [
  | inl f ↦ inl (ap unregister (ground (arith, f)))
  | inr f ↦ inr (pending-IsIn n r l (rw f at e))
]

pub stop_calls-pending :
    (s : Session) (n : ℕ) (r : PendingRequest)
    → s.stopped ≡ false
    → s.has_routes ≡ true
    → load_pending s (message n) ≡ some r
    → IsIn (unregister n) (stop_calls s)
unfolding stop load_pending
stop_calls-pending s n r o h e = rw (o, h, stop) (pending-IsIn n r s.pending_requests e)

module _ (sessions_cache : Cache Bytes ℕ) (ids_cache : Cache ℕ Bytes) where
  abbrev Sessions : Type 0
  Sessions = SessController sessions_cache ids_cache

  -- No session is found for the message ID.
  abbrev pub Gone : ℕ → Sessions → Type 0
  Gone n m = ids_cache.get_if_present n m.message_ids ≡ none

  abbrev stop_one : ℕ → Sessions → Sessions
  stop_one a m = stop_at sessions_cache ids_cache a m

  abbrev deleting : List ℕ → Sessions → Sessions
  deleting l m = on_deletion sessions_cache ids_cache l m

  unregister-Gone :
      (k n : ℕ) (m : Sessions)
      → (k ≡ n) ⊎ Gone n m
      → Gone n (unregister_message_id sessions_cache ids_cache k m)
  unfolding unregister_message_id
  unregister-Gone k n m h =
      elim (Option-cases (ids_cache.get_if_present n (ids_cache.invalidate k m.message_ids).0)) [
        | inl e ↦ e
        | inr (v, e) ↦
            let (other, old) = ids_cache.get-invalidate k n v m.message_ids e in
            elim h [ inl same ↦ absurd (other same) | inr gone ↦ ground (arith, gone, old) ]
      ]

  apply_routes-kept :
      (n : ℕ) (calls : List RouteCall) (id : Bytes) (m : Sessions)
      → Unregisters calls
      → Gone n m
      → Gone n (apply_routes sessions_cache ids_cache calls id m)
  unfolding apply_routes
  apply_routes-kept n [] id m u h = h
  apply_routes-kept n (register k ∷ calls) id m u h = elim u [ ]
  apply_routes-kept n (unregister k ∷ calls) id m u h =
      apply_routes-kept n calls id (unregister_message_id sessions_cache ids_cache k m) u
        (unregister-Gone k n m (inr h))

  pub apply_routes-Gone :
      (n : ℕ) (calls : List RouteCall) (id : Bytes) (m : Sessions)
      → Unregisters calls
      → IsIn (unregister n) calls
      → Gone n (apply_routes sessions_cache ids_cache calls id m)
  unfolding apply_routes
  apply_routes-Gone n [] id m u i = elim i [ ]
  apply_routes-Gone n (register k ∷ calls) id m u i = elim u [ ]
  apply_routes-Gone n (unregister k ∷ calls) id m u (inl e) =
      apply_routes-kept n calls id (unregister_message_id sessions_cache ids_cache k m) u
        (unregister-Gone k n m (inl (ground (arith, e))))
  apply_routes-Gone n (unregister k ∷ calls) id m u (inr i) =
      apply_routes-Gone n calls id (unregister_message_id sessions_cache ids_cache k m) u i

  stop_at-kept : (n a : ℕ) (m : Sessions) → Gone n m → Gone n (stop_one a m)
  unfolding stop_at put_back write_session
  stop_at-kept n a m h =
      apply_routes-kept n (stop_calls (m.heap a)) _ _ (stop_calls-Unregisters (m.heap a)) h

  stop_at-Gone :
      (n a b : ℕ) (m : Sessions)
      → a ≡ b
      → IsIn (unregister n) (stop_calls (m.heap b))
      → Gone n (stop_one a m)
  unfolding stop_at put_back write_session
  stop_at-Gone n a b m same i =
      apply_routes-Gone n (stop_calls (m.heap a)) _ _ (stop_calls-Unregisters (m.heap a))
        (subst (λ c. IsIn (unregister n) (stop_calls (m.heap c))) (sym same) i)

  pub on_deletion-kept : (n : ℕ) (l : List ℕ) (m : Sessions) → Gone n m → Gone n (deleting l m)
  unfolding on_deletion
  on_deletion-kept n [] m h = h
  on_deletion-kept n (a ∷ l) m h = on_deletion-kept n l (stop_one a m) (stop_at-kept n a m h)

  pub on_deletion-Gone :
      (n : ℕ) (l : List ℕ) (b : ℕ) (m : Sessions)
      → IsIn b l
      → IsIn (unregister n) (stop_calls (m.heap b))
      → Gone n (deleting l m)
  unfolding on_deletion
  on_deletion-Gone n [] b m i c = elim i [ ]
  on_deletion-Gone n (a ∷ l) b m i c = elim (Bool-cases (a == b)) [
    | inl e ↦ on_deletion-kept n l (stop_one a m) (stop_at-Gone n a b m (ground (arith, e)) c)
    | inr e ↦ elim i [
      | inl same ↦ absurd (ground (arith, e, same))
      | inr rest ↦ on_deletion-Gone n l b (stop_one a m) rest (
          subst (λ s. IsIn (unregister n) (stop_calls s))
            (sym (rw (e) at (stop_at-heap sessions_cache ids_cache a b m))) c)
    ]
  ]
