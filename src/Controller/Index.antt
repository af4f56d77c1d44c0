-- ===== src/Controller/Index.antt =====
-- Which cached sessions the set of session IDs holds, so that a search through it finds them: all but
-- those that UpdateSession has stored without an ID in the set.
use smpp_smsc.Base.{
  ℕ, ◌≡◌, ◌≢◌, ◌⊎◌, inl, inr, refl, sym, ap, ◌∙◌, subst, true, false, none, some, Option-cases,
  List, [], ◌∷◌, Bytes, bytes_eq, nat_eq, arith,
}
use smpp_smsc.Session.{Session, RouteCall, register, unregister, stop}
use smpp_smsc.Controller.Caches.{Cache, IsIn}
use smpp_smsc.Controller.Ids.{IsIn-insert_id, IsIn-insert_id_old, IsIn-remove_id}
use smpp_smsc.Controller.{
  SessController, insert_id, register_message_id, unregister_message_id, apply_routes, put_back,
  stop_at, on_deletion, set_session, invalidate_session, initialize_session, update_session,
  delete_session, cached_session, delete_sessions, StopChannel, no_channel, open_channel,
  closed_channel, close_cache, shutdown_with, shutdown_by, shutdown, get_session_by_id,
}
use mathlib.Core.Option.{some-injective}

module _ (sessions_cache : Cache Bytes ℕ) (ids_cache : Cache ℕ Bytes) where
  abbrev Sessions : Type 0
  Sessions = SessController sessions_cache ids_cache

  -- Every session in an open cache stands in the set of session IDs or under an ID of `us`.
  abbrev pub Indexed : List Bytes → Sessions → Type 0
  Indexed us m =
      (id : Bytes) (a : ℕ)
      → m.closed ≡ false
      → cached_session sessions_cache ids_cache id m ≡ some a
      → IsIn id m.session_ids ⊎ IsIn id us

  -- The routes and the sessions themselves are no part of the index.
  pub record SameIndex (m t : Sessions) : Type 0 where
    pub same_sessions : t.sessions ≡ m.sessions
    pub same_ids : t.session_ids ≡ m.session_ids
    pub same_cfg : t.cfg ≡ m.cfg
    pub same_closed : t.closed ≡ m.closed

  same_trans : {m t u : Sessions} → SameIndex m t → SameIndex t u → SameIndex m u
  same_trans p q = record {
    same_sessions = q.same_sessions ∙ p.same_sessions;
    same_ids = q.same_ids ∙ p.same_ids;
    same_cfg = q.same_cfg ∙ p.same_cfg;
    same_closed = q.same_closed ∙ p.same_closed;
  }

  pub apply_routes-SameIndex :
      (calls : List RouteCall) (id : Bytes) (m : Sessions)
      → SameIndex m (apply_routes sessions_cache ids_cache calls id m)
  unfolding apply_routes
  apply_routes-SameIndex [] id m = record {
    same_sessions = refl;
    same_ids = refl;
    same_cfg = refl;
    same_closed = refl;
  }
  apply_routes-SameIndex (register n ∷ calls) id m =
      same_trans
        (record { same_sessions = refl; same_ids = refl; same_cfg = refl; same_closed = refl })
        (apply_routes-SameIndex calls id (register_message_id sessions_cache ids_cache n id m))
  apply_routes-SameIndex (unregister n ∷ calls) id m =
      same_trans
        (record { same_sessions = refl; same_ids = refl; same_cfg = refl; same_closed = refl })
        (apply_routes-SameIndex calls id (unregister_message_id sessions_cache ids_cache n m))

  pub put_back-SameIndex :
      (a : ℕ) (s : Session) (m : Sessions) → SameIndex m (put_back sessions_cache ids_cache a s m)
  unfolding put_back
  put_back-SameIndex a s m =
      same_trans
        (record { same_sessions = refl; same_ids = refl; same_cfg = refl; same_closed = refl })
        (apply_routes-SameIndex s.routes s.id _)

  pub on_deletion-SameIndex :
      (deleted : List ℕ) (m : Sessions)
      → SameIndex m (on_deletion sessions_cache ids_cache deleted m)
  unfolding on_deletion
  on_deletion-SameIndex [] m = record {
    same_sessions = refl;
    same_ids = refl;
    same_cfg = refl;
    same_closed = refl;
  }
  on_deletion-SameIndex (a ∷ deleted) m =
      same_trans (put_back-SameIndex a (stop (record (m.heap a) { routes = [] })) m)
        (on_deletion-SameIndex deleted (stop_at sessions_cache ids_cache a m))

  pub SameIndex-Indexed :
      (us : List Bytes) (m t : Sessions) → SameIndex m t → Indexed us m → Indexed us t
  unfolding cached_session
  SameIndex-Indexed us m t p v id a o e =
      let old : sessions_cache.get_if_present id m.sessions ≡ some a =
        ap (sessions_cache.get_if_present id) (sym p.same_sessions) ∙ e in
      subst (λ ids. IsIn id ids ⊎ IsIn id us) (sym p.same_ids) (v id a (sym p.same_closed ∙ o) old)

  -- The cache of a step that stores one session under `new`.
  pub set_session_lem :
      (new id : Bytes) (b a : ℕ) (m : Sessions)
      → cached_session sessions_cache ids_cache id (set_session sessions_cache ids_cache new b m)
        ≡ some a
      → ((new ≡ id) × (b ≡ a)) ⊎ (cached_session sessions_cache ids_cache id m ≡ some a)
  unfolding set_session cached_session
  set_session_lem new id b a m e = sessions_cache.get-set new id b a m.sessions e

  pub initialize_session-Indexed :
      (us : List Bytes) (a : ℕ) (m : Sessions)
      → Indexed us m
      → Indexed us (initialize_session sessions_cache ids_cache a m)
  unfolding initialize_session cached_session set_session
  initialize_session-Indexed us b m v id a o e =
      let new = (m.heap b).id in
      elim (set_session_lem new id b a m e) [
        | inl p ↦ inl (subst (λ i. IsIn i (insert_id new m.session_ids)) p.0 (IsIn-insert_id new _))
        | inr old ↦ elim (v id a o old) [
          | inl i ↦ inl (IsIn-insert_id_old new id _ i)
          | inr i ↦ inr i
        ]
      ]

  -- UpdateSession stores no ID.
  pub update_session-Indexed :
      (us : List Bytes) (a : ℕ) (m : Sessions)
      → IsIn (m.heap a).id m.session_ids ⊎ IsIn (m.heap a).id us
      → Indexed us m
      → Indexed us (update_session sessions_cache ids_cache (some a) m).1
  unfolding update_session set_session
  update_session-Indexed us b m there v id a o e = elim (set_session_lem (m.heap b).id id b a m e) [
    | inl p ↦ subst (λ i. IsIn i m.session_ids ⊎ IsIn i us) p.0 there
    | inr old ↦ v id a o old
  ]

  pub invalidate_session_lem :
      (gone id : Bytes) (a : ℕ) (m : Sessions)
      → cached_session sessions_cache ids_cache id
          (invalidate_session sessions_cache ids_cache gone m)
        ≡ some a
      → (gone ≢ id) × (cached_session sessions_cache ids_cache id m ≡ some a)
  unfolding invalidate_session cached_session
  invalidate_session_lem gone id a m e = sessions_cache.get-invalidate gone id a m.sessions e

  pub invalidate_session-Indexed :
      (us : List Bytes) (gone : Bytes) (m : Sessions)
      → Indexed us m
      → Indexed us (invalidate_session sessions_cache ids_cache gone m)
  unfolding invalidate_session
  invalidate_session-Indexed us gone m v id a o e =
      v id a o (invalidate_session_lem gone id a m e).1

  pub delete_session_lem :
      (gone id : Bytes) (a : ℕ) (m : Sessions)
      → cached_session sessions_cache ids_cache id (delete_session sessions_cache ids_cache gone m)
        ≡ some a
      → (gone ≢ id) × (cached_session sessions_cache ids_cache id m ≡ some a)
  unfolding delete_session cached_session
  delete_session_lem gone id a m e = invalidate_session_lem gone id a m e

  pub delete_session-Indexed :
      (us : List Bytes) (gone : Bytes) (m : Sessions)
      → Indexed us m
      → Indexed us (delete_session sessions_cache ids_cache gone m)
  unfolding delete_session invalidate_session
  delete_session-Indexed us gone m v id a o e =
      let (other, old) = delete_session_lem gone id a m e in
      elim (v id a o old) [ inl i ↦ inl (IsIn-remove_id gone id _ other i) | inr i ↦ inr i ]

  pub delete_sessions-Indexed :
      (us : List Bytes) (ids : List Bytes) (m : Sessions)
      → Indexed us m
      → Indexed us (delete_sessions sessions_cache ids_cache ids m)
  unfolding delete_sessions
  delete_sessions-Indexed us [] m v = v
  delete_sessions-Indexed us (id ∷ ids) m v =
      delete_sessions-Indexed us ids (delete_session sessions_cache ids_cache id m)
        (delete_session-Indexed us id m v)

  shutdown_by-some :
      (c : StopChannel) (m t : Sessions)
      → shutdown_by sessions_cache ids_cache c m ≡ some t
      → (k : StopChannel) × (t ≡ shutdown_with sessions_cache ids_cache k m)
  unfolding shutdown_by
  shutdown_by-some no_channel m t e = (no_channel, sym (some-injective _ _ e))
  shutdown_by-some open_channel m t e = (closed_channel, sym (some-injective _ _ e))
  shutdown_by-some closed_channel m t e = absurd (cc)

  -- What a Shutdown that does not panic leaves.
  pub shutdown-some :
      (m t : Sessions)
      → shutdown sessions_cache ids_cache m ≡ some t
      → (k : StopChannel) × (t ≡ shutdown_with sessions_cache ids_cache k m)
  unfolding shutdown
  shutdown-some m t e = shutdown_by-some m.stop_channel m t e

  pub shutdown_with-closed :
      (k : StopChannel) (m : Sessions) → (shutdown_with sessions_cache ids_cache k m).closed ≡ true
  unfolding shutdown_with close_cache
  shutdown_with-closed k m = ground arith

  -- What is found in an open cache.
  pub get_session-some :
      (id : Bytes) (a : ℕ) (m : Sessions)
      → get_session_by_id sessions_cache ids_cache id m ≡ some (some a)
      → (m.closed ≡ false) × (sessions_cache.get_if_present id m.sessions ≡ some a)
  unfolding get_session_by_id cached_session
  get_session-some id a m e = ground (arith, e)

  pub get_session-none :
      (id : Bytes) (m : Sessions)
      → m.closed ≡ false
      → cached_session sessions_cache ids_cache id m ≡ none
      → get_session_by_id sessions_cache ids_cache id m ≡ some none
  unfolding get_session_by_id
  get_session-none id m o e = ground (arith, o, e)

  pub delete-own :
      (id : Bytes) (m : Sessions)
      → cached_session sessions_cache ids_cache id (delete_session sessions_cache ids_cache id m)
        ≡ none
  delete-own id m =
      elim (Option-cases (
        cached_session sessions_cache ids_cache id
          (delete_session sessions_cache ids_cache id m))) [
            | inl h ↦ h
            | inr (b, h) ↦ absurd ((delete_session_lem id id b m h).0 refl)
          ]

  pub get_session-there :
      (id : Bytes) (a : ℕ) (m : Sessions)
      → m.closed ≡ false
      → cached_session sessions_cache ids_cache id m ≡ some a
      → get_session_by_id sessions_cache ids_cache id m ≡ some (some a)
  unfolding get_session_by_id
  get_session-there id a m o e = ground (arith, o, e)

  pub get_session-panics :
      (id : Bytes) (m : Sessions)
      → m.closed ≡ true
      → get_session_by_id sessions_cache ids_cache id m ≡ none
  unfolding get_session_by_id
  get_session-panics id m o = ground (arith, o)
