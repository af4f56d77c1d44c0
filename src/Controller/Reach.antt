-- ===== src/Controller/Reach.antt =====
-- Any run of the controller: its methods in any order, with whatever the sessions' own goroutines
-- do in between, with entries of the cache evicted at any time, and with the cache's callbacks run at
-- any later time.
use smpp_smsc.Base.{
  ℕ, ◌≡◌, ◌++◌, refl, sym, ap, ◌∙◌, subst, Bool, true, false, Option, none, some, List, [], ◌∷◌,
  Bytes, bytes_eq, if◌then◌else◌, Option-cases, inl, inr, arith,
}
use smpp_smsc.Session.{Session, send_enquire_link_req}
use smpp_smsc.Controller.Caches.{Cache, IsIn}
use smpp_smsc.Controller.{
  SessController, put_back, on_deletion, invalidate_session, initialize_session, update_session,
  delete_session, cached_session, cached, ids_of_pod, delete_pod_sessions, follow_route,
  unregister_message_id, get_session_by_message_id, after_enquire, check_session_inactivity,
  check_all, process_inactive_sessions, start, shutdown, is_active,
}
use smpp_smsc.Controller.Index.{
  Indexed, put_back-SameIndex, on_deletion-SameIndex, SameIndex-Indexed, initialize_session-Indexed,
  update_session-Indexed, invalidate_session-Indexed, delete_session-Indexed,
  delete_sessions-Indexed, shutdown-some, shutdown_with-closed,
}

module _ (sessions_cache : Cache Bytes ℕ) (ids_cache : Cache ℕ Bytes) where
  abbrev Sessions : Type 0
  Sessions = SessController sessions_cache ids_cache

  -- One step from `m` to `t`; a call that uses the cache finds it open. `updated_unlisted` is an
  -- UpdateSession of a session whose ID is not in the set. `moved` is a step of the session at `a`, which
  -- may also call the two callbacks of its connection; `evicted` is an entry that the cache drops by
  -- itself, and `notified` the callback OnDeletion of a session that was deleted.
  pub data Step (m t : Sessions) : Type 0 where
    initialized :
        (a : ℕ) → m.closed ≡ false → t ≡ initialize_session sessions_cache ids_cache a m → Step m t
    updated :
        (a : ℕ)
        → m.closed ≡ false
        → IsIn (m.heap a).id m.session_ids
        → t ≡ (update_session sessions_cache ids_cache (some a) m).1
        → Step m t
    updated_unlisted :
        (a : ℕ)
        → m.closed ≡ false
        → ¬ IsIn (m.heap a).id m.session_ids
        → t ≡ (update_session sessions_cache ids_cache (some a) m).1
        → Step m t
    deleted :
        (id : Bytes)
        → m.closed ≡ false
        → t ≡ delete_session sessions_cache ids_cache id m
        → Step m t
    pod_deleted :
        (pod : Bytes)
        → m.closed ≡ false
        → t ≡ delete_pod_sessions sessions_cache ids_cache pod m
        → Step m t
    looked_up :
        (message_id : ℕ)
        → m.closed ≡ false
        → t ≡ (get_session_by_message_id sessions_cache ids_cache message_id m).1
        → Step m t
    checked :
        (enquire_link now : ℕ)
        → m.closed ≡ false
        → t ≡ process_inactive_sessions sessions_cache ids_cache enquire_link now m
        → Step m t
    moved : (a : ℕ) (s : Session) → t ≡ put_back sessions_cache ids_cache a s m → Step m t
    evicted :
        (id : Bytes)
        → m.closed ≡ false
        → t ≡ invalidate_session sessions_cache ids_cache id m
        → Step m t
    notified :
        (a : ℕ) → IsIn a m.notices → t ≡ on_deletion sessions_cache ids_cache (a ∷ []) m → Step m t
    started : t ≡ start sessions_cache ids_cache m → Step m t
    closed : shutdown sessions_cache ids_cache m ≡ some t → Step m t

  -- The IDs that a step stores in the cache although they are not in the set.
  abbrev pub unlisted : {m t : Sessions} → Step m t → List Bytes
  unlisted {m} (updated_unlisted a o h e) = (m.heap a).id ∷ []
  unlisted step = []

  -- A run from `m`, and the IDs that it stores so.
  pub data Reach (m : Sessions) : List Bytes → Sessions → Type 0 where
    here : Reach m [] m
    next :
        {us : List Bytes} {t u : Sessions}
        → Reach m us t
        → (s : Step t u) → Reach m (unlisted s ++ us) u

  if-Indexed :
      (us : List Bytes) (b : Bool) (t u : Sessions)
      → Indexed sessions_cache ids_cache us t
      → Indexed sessions_cache ids_cache us u
      → Indexed sessions_cache ids_cache us (if b then t else u)
  if-Indexed us true t u p q = p
  if-Indexed us false t u p q = q

  after_enquire-Indexed :
      (us : List Bytes) (enquire_link a : ℕ) (id : Bytes) (r : Bool × Session) (m : Sessions)
      → Indexed sessions_cache ids_cache us m
      → Indexed sessions_cache ids_cache us
          (after_enquire sessions_cache ids_cache enquire_link a id r m)
  unfolding after_enquire
  after_enquire-Indexed us enquire_link a id (ok, s) m v =
      let kept =
        SameIndex-Indexed sessions_cache ids_cache us m (put_back sessions_cache ids_cache a s m)
          (put_back-SameIndex sessions_cache ids_cache a s m) v in
      if-Indexed us ok _ _ kept (delete_session-Indexed sessions_cache ids_cache us id _ kept)

  check_all-Indexed :
      (us : List Bytes) (enquire_link now : ℕ) (l : List ℕ) (m : Sessions)
      → Indexed sessions_cache ids_cache us m
      → Indexed sessions_cache ids_cache us
          (check_all sessions_cache ids_cache enquire_link now l m)
  unfolding check_all check_session_inactivity
  check_all-Indexed us enquire_link now [] m v = v
  check_all-Indexed us enquire_link now (a ∷ l) m v =
      let s = m.heap a in
      check_all-Indexed us enquire_link now l
        (check_session_inactivity sessions_cache ids_cache enquire_link now a m)
        (if-Indexed us (is_active now m.cfg.inactivity_timeout s) _ _ v (
          if-Indexed us _ _ _ (delete_session-Indexed sessions_cache ids_cache us s.id m v) (
            after_enquire-Indexed us enquire_link a s.id (send_enquire_link_req enquire_link now s)
              m v)))

  follow_route-Indexed :
      (us : List Bytes) (message_id : ℕ) (o : Option Bytes) (m : Sessions)
      → Indexed sessions_cache ids_cache us m
      → Indexed sessions_cache ids_cache us (follow_route sessions_cache ids_cache message_id o m).1
  unfolding follow_route unregister_message_id cached_session
  follow_route-Indexed us message_id none m v = v
  follow_route-Indexed us message_id (some id) m v =
      elim (Option-cases (cached_session sessions_cache ids_cache id m)) [
        | inl e ↦ rw (e, follow_route) v
        | inr (a, e) ↦ rw (e, follow_route) v
      ]

  -- Nothing is found once the cache is closed.
  shutdown-Indexed :
      (us : List Bytes) (m t : Sessions)
      → shutdown sessions_cache ids_cache m ≡ some t
      → Indexed sessions_cache ids_cache us t
  shutdown-Indexed us m t e id a o f =
      let (k, left) = shutdown-some sessions_cache ids_cache m t e in
      let shut = ap (λ c. c.closed) left ∙ shutdown_with-closed sessions_cache ids_cache k m in
      absurd (ground (arith, o, shut))

  as_before :
      (us : List Bytes) (m t : Sessions)
      → t ≡ m
      → Indexed sessions_cache ids_cache us m
      → Indexed sessions_cache ids_cache us t
  as_before us m t e v = subst (Indexed sessions_cache ids_cache us) (sym e) v

  more-Indexed :
      (u : Bytes) (us : List Bytes) (m : Sessions)
      → Indexed sessions_cache ids_cache us m
      → Indexed sessions_cache ids_cache (u ∷ us) m
  more-Indexed u us m v id a o e = elim (v id a o e) [ inl i ↦ inl i | inr i ↦ inr (inr i) ]

  pub Step-Indexed :
      (us : List Bytes) {m t : Sessions} (s : Step m t)
      → Indexed sessions_cache ids_cache us m
      → Indexed sessions_cache ids_cache (unlisted s ++ us) t
  unfolding delete_pod_sessions get_session_by_message_id process_inactive_sessions start
      cached_session
  Step-Indexed us {m} {t} (initialized a o e) v =
      as_before us _ t e (initialize_session-Indexed sessions_cache ids_cache us a m v)
  Step-Indexed us {m} {t} (updated a o h e) v =
      as_before us _ t e (update_session-Indexed sessions_cache ids_cache us a m (inl h) v)
  Step-Indexed us {m} {t} (updated_unlisted a o h e) v =
      let us1 = (m.heap a).id ∷ us in
      as_before us1 _ t e (
        update_session-Indexed sessions_cache ids_cache us1 a m (inr (inl refl))
          (more-Indexed (m.heap a).id us m v))
  Step-Indexed us {m} {t} (deleted id o e) v =
      as_before us _ t e (delete_session-Indexed sessions_cache ids_cache us id m v)
  Step-Indexed us {m} {t} (pod_deleted pod o e) v = as_before us _ t e (
      delete_sessions-Indexed sessions_cache ids_cache us
        (ids_of_pod sessions_cache ids_cache pod m.session_ids m) m v)
  Step-Indexed us {m} {t} (looked_up n o e) v = as_before us _ t e (follow_route-Indexed us n _ m v)
  Step-Indexed us {m} {t} (checked q now o e) v = as_before us _ t e (
      check_all-Indexed us q now (cached sessions_cache ids_cache (λ s. s.bound) m.session_ids m) m
        v)
  Step-Indexed us {m} {t} (moved a s e) v = as_before us _ t e (
      SameIndex-Indexed sessions_cache ids_cache us m _
        (put_back-SameIndex sessions_cache ids_cache a s m) v)
  Step-Indexed us {m} {t} (evicted id o e) v =
      as_before us _ t e (invalidate_session-Indexed sessions_cache ids_cache us id m v)
  Step-Indexed us {m} {t} (notified a i e) v = as_before us _ t e (
      SameIndex-Indexed sessions_cache ids_cache us m _
        (on_deletion-SameIndex sessions_cache ids_cache (a ∷ []) m) v)
  Step-Indexed us {m} {t} (started e) v = as_before us _ t e (λ id a o f. v id a o f)
  Step-Indexed us {m} {t} (closed e) v = shutdown-Indexed us m t e

  -- On a run of the controller, every session that its cache has while it is open stands in the set of
  -- session IDs, or is stored under an ID that some UpdateSession of the run stored while it was not in
  -- the set. The run starts from a state in which every cached session is in the set.
  pub Reach-Indexed :
      {m : Sessions} {us : List Bytes} {t : Sessions}
      → Indexed sessions_cache ids_cache [] m
      → Reach m us t
      → Indexed sessions_cache ids_cache us t
  Reach-Indexed v here = v
  Reach-Indexed v (next r s) = Step-Indexed _ s (Reach-Indexed v r)
