-- ===== src/Controller/Closing.antt =====
-- The callback OnDeletion stops every session that it is given.
use smpp_smsc.Base.{
  ℕ, ◌≡◌, ◌⊎◌, inl, inr, refl, sym, ap, subst, Bool, true, false, List, [], ◌∷◌, Bytes, bytes_eq,
  nat_eq, ◌==◌, if◌then◌else◌, arith,
}
use smpp_smsc.Session.{Session, pending_key_eq, RouteCall, register, unregister, stop}
use smpp_smsc.Controller.Caches.{Cache, IsIn}
use smpp_smsc.Controller.{
  SessController, register_message_id, unregister_message_id, apply_routes, write_session, put_back,
  stop_at, on_deletion,
}

abbrev pub IsClosed : Session → Type 0
IsClosed s =
    (s.stopped ≡ true) × (s.ctx_done ≡ true) × (s.bound ≡ false) × (s.authenticated ≡ false)

-- The session that OnDeletion leaves behind.
abbrev pub halted : Session → Session
halted s = record (stop (record s { routes = [] })) { routes = [] }

halted-IsClosed : (s : Session) → (s.stopped ≡ false) ⊎ IsClosed s → IsClosed (halted s)
unfolding stop
halted-IsClosed s (inl h) = ground arith
halted-IsClosed s (inr h) = ground (arith, h)

-- The calls that stopping makes, in a session whose log of calls is empty.
abbrev pub stop_calls : Session → List RouteCall
stop_calls s = (stop (record s { routes = [] })).routes

-- Open, or closed the way that stopping leaves a session.
abbrev Fit : Session → Type 0
Fit s = (s.stopped ≡ false) ⊎ IsClosed s

pick :
    (c : Bool) (s t : Session) (P : Session → Type 0)
    → (c ≡ true → P s)
    → (c ≡ false → P t)
    → P (if c then s else t)
pick true s t P f g = f refl
pick false s t P f g = g refl

module _ (sessions_cache : Cache Bytes ℕ) (ids_cache : Cache ℕ Bytes) where
  abbrev Sessions : Type 0
  Sessions = SessController sessions_cache ids_cache

  abbrev stop_one : ℕ → Sessions → Sessions
  stop_one a m = stop_at sessions_cache ids_cache a m

  abbrev deleting : List ℕ → Sessions → Sessions
  deleting l m = on_deletion sessions_cache ids_cache l m

  pub apply_routes-heap :
      (calls : List RouteCall) (id : Bytes) (m : Sessions)
      → (apply_routes sessions_cache ids_cache calls id m).heap ≡ m.heap
  unfolding apply_routes register_message_id unregister_message_id
  apply_routes-heap [] id m = refl
  apply_routes-heap (register n ∷ calls) id m =
      apply_routes-heap calls id (register_message_id sessions_cache ids_cache n id m)
  apply_routes-heap (unregister n ∷ calls) id m =
      apply_routes-heap calls id (unregister_message_id sessions_cache ids_cache n m)

  pub stop_at-heap :
      (a b : ℕ) (m : Sessions)
      → (stop_one a m).heap b ≡ (if a == b then halted (m.heap a) else m.heap b)
  unfolding stop_at put_back write_session
  stop_at-heap a b m = ap (λ h. h b) (apply_routes-heap (stop_calls (m.heap a)) _ _)

  stop_at-IsClosed :
      (a b : ℕ) (m : Sessions) → IsClosed (m.heap b) → IsClosed ((stop_one a m).heap b)
  stop_at-IsClosed a b m h = subst IsClosed (sym (stop_at-heap a b m)) (
      pick (a == b) (halted (m.heap a)) (m.heap b) IsClosed
        (λ e.
          halted-IsClosed (m.heap a)
            (inr (subst (λ c. IsClosed (m.heap c)) (sym (ground (arith, e))) h)))
        (λ e. h))

  stop_at-Fit : (a b : ℕ) (m : Sessions) → Fit (m.heap b) → Fit ((stop_one a m).heap b)
  stop_at-Fit a b m h = subst Fit (sym (stop_at-heap a b m)) (
      pick (a == b) (halted (m.heap a)) (m.heap b) Fit
        (λ e.
          inr
            (halted-IsClosed (m.heap a) (subst (λ c. Fit (m.heap c)) (sym (ground (arith, e))) h)))
        (λ e. h))

  stop_at-same :
      (a b : ℕ) (m : Sessions) → a ≡ b → Fit (m.heap b) → IsClosed ((stop_one a m).heap b)
  stop_at-same a b m same h = subst IsClosed (sym (stop_at-heap a b m)) (
      pick (a == b) (halted (m.heap a)) (m.heap b) IsClosed
        (λ e. halted-IsClosed (m.heap a) (subst (λ c. Fit (m.heap c)) (sym same) h))
        (λ e. absurd (ground (arith, e, same))))

  on_deletion-IsClosed :
      (l : List ℕ) (b : ℕ) (m : Sessions) → IsClosed (m.heap b) → IsClosed ((deleting l m).heap b)
  unfolding on_deletion
  on_deletion-IsClosed [] b m h = h
  on_deletion-IsClosed (a ∷ l) b m h =
      on_deletion-IsClosed l b (stop_one a m) (stop_at-IsClosed a b m h)

  pub on_deletion-stops :
      (l : List ℕ) (b : ℕ) (m : Sessions)
      → IsIn b l
      → Fit (m.heap b)
      → IsClosed ((deleting l m).heap b)
  unfolding on_deletion
  on_deletion-stops [] b m i h = elim i [ ]
  on_deletion-stops (a ∷ l) b m (inl e) h =
      on_deletion-IsClosed l b (stop_one a m) (stop_at-same a b m e h)
  on_deletion-stops (a ∷ l) b m (inr i) h =
      on_deletion-stops l b (stop_one a m) i (stop_at-Fit a b m h)
