-- ===== src/Controller/Inactive.antt =====
-- The inactivity checks of one session that never answers: how many there are before it is deleted.
use smpp_smsc.Base.{
  ℕ, suc, ◌+◌, ◌≤◌, ◌<◌, ◌≡◌, ◌⊎◌, inl, inr, refl, sym, ap, ◌∙◌, subst, Bool, true, false, Option,
  none, List, [], ◌∷◌, Bytes, nat_eq, bytes_eq, leb, ◌==◌, if◌then◌else◌, length, All, Bool-cases,
  Option-cases, arith,
}
use smpp_smsc.Session.{
  Session, send_enquire_link_req, get_next_sequence, store_pending, enqueue_pdu,
}
use smpp_smsc.Controller.Caches.{Cache}
use smpp_smsc.Controller.Closing.{apply_routes-heap}
use smpp_smsc.Controller.Index.{put_back-SameIndex, delete_session_lem}
use smpp_smsc.Controller.{
  SessController, is_active, cached_session, delete_session, put_back, write_session, after_enquire,
  check_session_inactivity,
}

-- What a request for an answer leaves as it is, and that it counts where it is sent.
enquire_keeps :
    (command now : ℕ) (s : Session)
    → let r = send_enquire_link_req command now s in
      (r.1.last_activity_nanos ≡ s.last_activity_nanos)
      × (r.1.id ≡ s.id)
      × (r.0 ≡ true → r.1.enquire_retry_count ≡ s.enquire_retry_count + 1)
unfolding send_enquire_link_req get_next_sequence store_pending enqueue_pdu
enquire_keeps command now s = ground arith

itself : (a : ℕ) → (a == a) ≡ true
itself a = ground arith

is_active_same :
    (now timeout : ℕ) (s t : Session)
    → t.last_activity_nanos ≡ s.last_activity_nanos
    → is_active now timeout t ≡ is_active now timeout s
unfolding is_active
is_active_same now timeout s t e = ground (arith, e)

module _ (sessions_cache : Cache Bytes ℕ) (ids_cache : Cache ℕ Bytes) (enquire_link : ℕ) where
  abbrev Sessions : Type 0
  Sessions = SessController sessions_cache ids_cache

  -- The checks of one session at the times given.
  abbrev pub checks : List ℕ → ℕ → Sessions → Sessions
  checks [] a m = m
  checks (now ∷ nows) a m =
      checks nows a (check_session_inactivity sessions_cache ids_cache enquire_link now a m)

  abbrev get : Bytes → Sessions → Option ℕ
  get id m = cached_session sessions_cache ids_cache id m

  -- The three ways of a check.
  check_cases :
      (now a : ℕ) (m : Sessions) (P : Sessions → Type 0)
      → P m
      → P (delete_session sessions_cache ids_cache (m.heap a).id m)
      → P (
          after_enquire sessions_cache ids_cache enquire_link a
            (m.heap a).id
            (send_enquire_link_req enquire_link now (m.heap a))
            m)
      → P (check_session_inactivity sessions_cache ids_cache enquire_link now a m)
  unfolding check_session_inactivity
  check_cases now a m P p q r =
      elim (Bool-cases (is_active now m.cfg.inactivity_timeout (m.heap a))) [
        | inl e ↦ subst P (sym (rw (e, check_session_inactivity) refl)) p
        | inr e ↦
            elim (Bool-cases (leb m.cfg.max_enquire_link_retry (m.heap a).enquire_retry_count)) [
              | inl f ↦ subst P (sym (rw (e, f, check_session_inactivity) refl)) q
              | inr f ↦ subst P (sym (rw (e, f, check_session_inactivity) refl)) r
            ]
      ]

  put_back-get :
      (a : ℕ) (s : Session) (id : Bytes) (m : Sessions)
      → get id (put_back sessions_cache ids_cache a s m) ≡ get id m
  unfolding cached_session
  put_back-get a s id m =
      ap (sessions_cache.get_if_present id)
        (put_back-SameIndex sessions_cache ids_cache a s m).same_sessions

  put_back-heap :
      (a : ℕ) (s : Session) (m : Sessions)
      → (put_back sessions_cache ids_cache a s m).heap a ≡ record s { routes = [] }
  unfolding put_back write_session
  put_back-heap a s m =
      ap (λ h. h a) (apply_routes-heap sessions_cache ids_cache s.routes s.id _)
      ∙ ap (λ b. if b then record s { routes = [] } else m.heap a) (itself a)

  delete-gone :
      (gone id : Bytes) (m : Sessions)
      → get id m ≡ none
      → get id (delete_session sessions_cache ids_cache gone m) ≡ none
  delete-gone gone id m e =
      elim (Option-cases (get id (delete_session sessions_cache ids_cache gone m))) [
        | inl h ↦ h
        | inr (b, h) ↦
            let old = (delete_session_lem sessions_cache ids_cache gone id b m h).1 in
            absurd (ground (arith, e, old))
      ]

  delete-own :
      (id : Bytes) (m : Sessions) → get id (delete_session sessions_cache ids_cache id m) ≡ none
  delete-own id m = elim (Option-cases (get id (delete_session sessions_cache ids_cache id m))) [
    | inl h ↦ h
    | inr (b, h) ↦ absurd ((delete_session_lem sessions_cache ids_cache id id b m h).0 refl)
  ]

  after_enquire_cases :
      (a : ℕ) (id : Bytes) (r : Bool × Session) (m : Sessions) (P : Sessions → Type 0)
      → (r.0 ≡ true → P (put_back sessions_cache ids_cache a r.1 m))
      → P (delete_session sessions_cache ids_cache id (put_back sessions_cache ids_cache a r.1 m))
      → P (after_enquire sessions_cache ids_cache enquire_link a id r m)
  unfolding after_enquire
  after_enquire_cases a id (true, s) m P p q = p refl
  after_enquire_cases a id (false, s) m P p q = q

  check-gone :
      (now a : ℕ) (id : Bytes) (m : Sessions)
      → get id m ≡ none
      → get id (check_session_inactivity sessions_cache ids_cache enquire_link now a m) ≡ none
  check-gone now a id m e =
      let s = m.heap a in
      let r = send_enquire_link_req enquire_link now s in
      let later = put_back-get a r.1 id m ∙ e in
      check_cases now a m (λ t. get id t ≡ none) e (delete-gone s.id id m e)
        (after_enquire_cases a s.id r m (λ t. get id t ≡ none) (λ ok. later)
          (delete-gone s.id id (put_back sessions_cache ids_cache a r.1 m) later))

  -- A session that was last heard of when `s` was, and `n` more checks than it takes to give up.
  pub record Waits (s : Session) (timeout limit n a : ℕ) (m : Sessions) : Type 0 where
    pub same_timeout : m.cfg.inactivity_timeout ≡ timeout
    pub same_limit : m.cfg.max_enquire_link_retry ≡ limit
    pub same_last : (m.heap a).last_activity_nanos ≡ s.last_activity_nanos
    pub same_id : (m.heap a).id ≡ s.id
    pub within : (m.heap a).enquire_retry_count ≤ limit
    pub enough : limit < (m.heap a).enquire_retry_count + n

  deleted_own :
      (s : Session) (a : ℕ) (m t : Sessions)
      → (m.heap a).id ≡ s.id
      → get s.id (delete_session sessions_cache ids_cache (m.heap a).id t) ≡ none
  deleted_own s a m t e =
      subst (λ i. get i (delete_session sessions_cache ids_cache (m.heap a).id t) ≡ none) e
        (delete-own (m.heap a).id t)

  -- The request counts, and changes neither the clock of the session nor its ID.
  sent-Waits :
      (s : Session) (timeout limit n now a : ℕ) (m : Sessions)
      → Waits s timeout limit (suc n) a m
      → (m.heap a).enquire_retry_count < limit
      → (send_enquire_link_req enquire_link now (m.heap a)).0 ≡ true
      → Waits s timeout limit n a (
          put_back sessions_cache ids_cache a
            (send_enquire_link_req enquire_link now (m.heap a)).1
            m)
  sent-Waits s timeout limit n now a m w low ok =
      let u = m.heap a in
      let r = send_enquire_link_req enquire_link now u in
      let (last, id, count) = enquire_keeps enquire_link now u in
      let same = put_back-SameIndex sessions_cache ids_cache a r.1 m in
      let there = put_back-heap a r.1 m in
      let counted : ((put_back sessions_cache ids_cache a r.1 m).heap a).enquire_retry_count
          ≡ u.enquire_retry_count + 1 =
        ap (λ t. t.enquire_retry_count) there ∙ count ok in
      record {
        same_timeout = ap (λ c. c.inactivity_timeout) same.same_cfg ∙ w.same_timeout;
        same_limit = ap (λ c. c.max_enquire_link_retry) same.same_cfg ∙ w.same_limit;
        same_last = ap (λ t. t.last_activity_nanos) there ∙ last ∙ w.same_last;
        same_id = ap (λ t. t.id) there ∙ id ∙ w.same_id;
        within = omega (arith, counted, low);
        enough = omega (arith, counted, w.enough);
      }

  check-Waits :
      (s : Session) (timeout limit n now a : ℕ) (m : Sessions)
      → is_active now timeout s ≡ false
      → Waits s timeout limit (suc n) a m
      → let t = check_session_inactivity sessions_cache ids_cache enquire_link now a m in
        (get s.id t ≡ none) ⊎ Waits s timeout limit n a t
  unfolding check_session_inactivity
  check-Waits s timeout limit n now a m quiet w =
      let u = m.heap a in
      let r = send_enquire_link_req enquire_link now u in
      let silent : is_active now m.cfg.inactivity_timeout u ≡ false =
        is_active_same now m.cfg.inactivity_timeout s u w.same_last
        ∙ ap (λ k. is_active now k s) w.same_timeout
        ∙ quiet in
      let P = λ (t : Sessions). (get s.id t ≡ none) ⊎ Waits s timeout limit n a t in
      elim (Bool-cases (leb m.cfg.max_enquire_link_retry u.enquire_retry_count)) [
        | inl f ↦
            subst P (sym (rw (silent, f, check_session_inactivity) refl))
              (inl (deleted_own s a m m w.same_id))
        | inr f ↦ subst P (sym (rw (silent, f, check_session_inactivity) refl)) (
            after_enquire_cases a u.id r m P
              (λ ok.
                inr (sent-Waits s timeout limit n now a m w (ground (arith, f, w.same_limit)) ok))
              (inl (deleted_own s a m (put_back sessions_cache ids_cache a r.1 m) w.same_id)))
      ]

  checks-gone :
      (nows : List ℕ) (a : ℕ) (id : Bytes) (m : Sessions)
      → get id m ≡ none
      → get id (checks nows a m) ≡ none
  checks-gone [] a id m e = e
  checks-gone (now ∷ nows) a id m e =
      checks-gone nows a id (check_session_inactivity sessions_cache ids_cache enquire_link now a m)
        (check-gone now a id m e)

  checks-Waits :
      (s : Session) (timeout limit : ℕ) (nows : List ℕ) (a : ℕ) (m : Sessions)
      → All (λ now. is_active now timeout s ≡ false) nows
      → Waits s timeout limit (length nows) a m
      → get s.id (checks nows a m) ≡ none
  checks-Waits s timeout limit [] a m quiet w = absurd (omega (arith, w.within, w.enough))
  checks-Waits s timeout limit (now ∷ nows) a m quiet w =
      let t = check_session_inactivity sessions_cache ids_cache enquire_link now a m in
      elim (check-Waits s timeout limit (length nows) now a m quiet.0 w) [
        | inl gone ↦ checks-gone nows a s.id t gone
        | inr still ↦ checks-Waits s timeout limit nows a t quiet.1 still
      ]

  -- A row of checks of one session, one right after the other with nothing in between: no PDU of the
  -- session, no answer, no other call. When it is inactive at each of them, and they are more than the
  -- enquire_link retries it has left, then after them it is no longer in the cache, whether each
  -- request could be queued or not. The code checks only sessions that are bound.
  pub inactive_deleted :
      (nows : List ℕ) (a : ℕ) (m : SessController sessions_cache ids_cache)
      → All (λ now. is_active now m.cfg.inactivity_timeout (m.heap a) ≡ false) nows
      → (m.heap a).enquire_retry_count ≤ m.cfg.max_enquire_link_retry
      → m.cfg.max_enquire_link_retry < (m.heap a).enquire_retry_count + length nows
      → cached_session sessions_cache ids_cache (m.heap a).id (checks nows a m) ≡ none
  inactive_deleted nows a m quiet low enough =
      checks-Waits (m.heap a) m.cfg.inactivity_timeout m.cfg.max_enquire_link_retry nows a m quiet
        (record {
          same_timeout = refl;
          same_limit = refl;
          same_last = refl;
          same_id = refl;
          within = low;
          enough = enough;
        })
