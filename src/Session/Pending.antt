-- ===== src/Session/Pending.antt =====
-- The pending requests of a session and their routes.
use smpp_smsc.Base.{ℕ, ◌≡◌, none, some, [], ◌∷◌, ◌++◌, nat_eq, ◌==◌, if◌then◌else◌, is_some, arith}
use smpp_smsc.Base.Maps.{lookup-insert, lookup-delete}
use smpp_smsc.Types.{PendingRequest}
use smpp_smsc.Session.{
  Session, PendingKey, message, pending_key_eq, pending_key_beq_iff, unregister, load_pending,
  store_pending, delete_pending, remove_pending_request_by_message_id,
}

pub load-store :
    (s : Session) (key j : PendingKey) (r : PendingRequest)
    → load_pending (store_pending s key r) j ≡ (if key == j then some r else load_pending s j)
unfolding load_pending store_pending
load-store s key j r = lookup-insert key j r s.pending_requests

pub load-delete :
    (s : Session) (key j : PendingKey)
    → load_pending (delete_pending s key) j ≡ (if key == j then none else load_pending s j)
unfolding load_pending delete_pending
load-delete s key j = lookup-delete key j s.pending_requests

-- RemovePendingRequestByMessageID removes the entry of that message ID and no other, and makes the
-- call that unregisters the ID exactly where there was an entry and the callback is set.
pub remove_pending :
    (s : Session) (id : ℕ) (j : PendingKey)
    → (load_pending (remove_pending_request_by_message_id s id) j
        ≡ (if message id == j then none else load_pending s j))
      × ((remove_pending_request_by_message_id s id).routes ≡ (
          if is_some (load_pending s (message id))
          then (if s.has_routes then s.routes ++ unregister id ∷ [] else s.routes)
          else s.routes))
unfolding remove_pending_request_by_message_id
remove_pending s id j =
    ground
      (arith, lookup-delete (message id) j s.pending_requests, pending_key_beq_iff (message id) j)
