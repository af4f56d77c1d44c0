-- ===== src/Session/Sound/Reads.antt =====
-- The loop of `start` in internal/smsc/session.go: what it keeps, and how it ends.
use smpp_smsc.Base.{
  ℕ, ◌≡◌, ◌⊎◌, inl, inr, refl, ap, subst, sym, ◌∙◌, true, false, Option, none, some, List, [], ◌∷◌,
  ◌++◌, Bytes, if_false, arith, Bool-cases, Option-cases,
}
use smpp_smsc.Wire.{GoSmpp}
use smpp_smsc.Session.{Session, stop}
use smpp_smsc.Session.Handler.{Handler}
use smpp_smsc.Session.Dispatch.{process_pdu}
use smpp_smsc.Session.Cleanup.{ReadEvent, read, timeout, failure, after_read, read_round, read_loop}
use smpp_smsc.Session.Sound.{SessionOk, IsLive, IsSound, stop-SessionOk}
use smpp_smsc.Session.Sound.Answers.{OkAfter, OkAfter-some, process_pdu-OkAfter}
use smpp_smsc.Session.Sound.Rounds.{activity-SessionOk}

pub unless-IsLive : (s : Session) → SessionOk s → s.ctx_done ≡ false → IsLive s
unless-IsLive s v h = (
  v,
  elim (Bool-cases s.stopped) [ inl k ↦ absurd (ground (arith, v.cancelled k, h)) | inr k ↦ k ],
)

stop-stops : (s : Session) → (stop s).stopped ≡ true
unfolding stop
stop-stops s = ground arith

-- Stopping a good session twice is stopping it once, and cancels it.
stop-again : (s : Session) → SessionOk s → ((stop s).ctx_done ≡ true) × (stop (stop s) ≡ stop s)
unfolding stop
stop-again s v = elim (Bool-cases s.stopped) [
  | inl h ↦ (ground (arith, v.cancelled h, h), ground (arith, h))
  | inr h ↦ (ground (arith, h), ground (arith, h))
]

-- A panic, or a session that is stopped for good.
abbrev pub IsOver : Option Session → Type 0
IsOver o =
    (o ≡ none)
    ⊎ ((t : Session) × (o ≡ some t) × (t.stopped ≡ true) × (t.ctx_done ≡ true) × (t.bound ≡ false))

stop-IsOver : (s : Session) → SessionOk s → IsOver (some (stop s))
stop-IsOver s v =
    let w = stop-SessionOk s v in
    inr (stop s, refl, stop-stops s, w.cancelled (stop-stops s), w.unbound (stop-stops s))

pub OkAfter-at : (o : Option Session) (t : Session) → OkAfter o → o ≡ some t → SessionOk t
unfolding OkAfter
OkAfter-at none t v e = absurd (cc)
OkAfter-at (some s) t v e = subst SessionOk (ground (arith, e)) v

module _ (lib : GoSmpp) (handler : Handler) (digest : Bytes → Bytes) (sound : IsSound handler) where
  abbrev loop : List ReadEvent → Session → Option Session
  loop events s = read_loop lib handler digest events s

  after_read-OkAfter :
      (now : ℕ) (o : Option Session) → OkAfter o → OkAfter (after_read lib handler digest now o)
  unfolding after_read OkAfter
  after_read-OkAfter now none v = v
  after_read-OkAfter now (some s) v = activity-SessionOk s now v

  pub read_round-OkAfter :
      (e : ReadEvent) (s : Session) → IsLive s → OkAfter (read_round lib handler digest e s)
  unfolding read_round
  read_round-OkAfter (read at pkt) s v =
      after_read-OkAfter at.now (process_pdu lib handler digest at pkt s)
        (process_pdu-OkAfter lib handler digest at pkt s sound v)
  read_round-OkAfter timeout s v = OkAfter-some s v.0
  read_round-OkAfter failure s v = OkAfter-some (stop s) (stop-SessionOk s v.0)

  -- A cancelled session is stopped whatever would come next.
  loop-cancelled :
      (e : ReadEvent) (events : List ReadEvent) (s : Session)
      → s.ctx_done ≡ true
      → loop (e ∷ events) s ≡ some (stop s)
  unfolding read_loop
  loop-cancelled e events s h = rw h refl

  loop-step :
      (e : ReadEvent) (events : List ReadEvent) (s t : Session)
      → s.ctx_done ≡ false
      → read_round lib handler digest e s ≡ some t
      → loop (e ∷ events) s ≡ loop events t
  unfolding read_loop
  loop-step e events s t h k = if_false s.ctx_done _ _ h ∙ rw k refl

  loop-panic :
      (e : ReadEvent) (events : List ReadEvent) (s : Session)
      → s.ctx_done ≡ false
      → read_round lib handler digest e s ≡ none
      → loop (e ∷ events) s ≡ none
  unfolding read_loop
  loop-panic e events s h k = if_false s.ctx_done _ _ h ∙ rw k refl

  loop-stopped :
      (events : List ReadEvent) (s : Session) → SessionOk s → loop events (stop s) ≡ some (stop s)
  unfolding read_loop
  loop-stopped [] s v = refl
  loop-stopped (e ∷ events) s v =
      loop-cancelled e events (stop s) (stop-again s v).0 ∙ ap some (stop-again s v).1

  loop-failure :
      (events : List ReadEvent) (s : Session)
      → SessionOk s
      → loop (failure ∷ events) s ≡ some (stop s)
  unfolding read_round
  loop-failure events s v = elim (Bool-cases s.ctx_done) [
    | inl h ↦ loop-cancelled failure events s h
    | inr h ↦ loop-step failure events s (stop s) h refl ∙ loop-stopped events s v
  ]

  -- In a session with its invariant, with a sound handler, the reading of a PDU that fails ends the
  -- loop whatever would still be read: the result is the one without it, and it is a panic of
  -- the parser before the failure or a session that is stopped, cancelled and unbound.
  pub read_loop-IsOver :
      (before after : List ReadEvent) (s : Session)
      → SessionOk s
      → (loop (before ++ failure ∷ after) s ≡ loop (before ++ failure ∷ []) s)
        × IsOver (loop (before ++ failure ∷ after) s)
  read_loop-IsOver [] after s v = (
    loop-failure after s v ∙ sym (loop-failure [] s v),
    subst IsOver (sym (loop-failure after s v)) (stop-IsOver s v),
  )
  read_loop-IsOver (e ∷ before) after s v = elim (Bool-cases s.ctx_done) [
    | inl h ↦ (
      loop-cancelled e _ s h ∙ sym (loop-cancelled e _ s h),
      subst IsOver (sym (loop-cancelled e _ s h)) (stop-IsOver s v),
    )
    | inr h ↦ elim (Option-cases (read_round lib handler digest e s)) [
      | inl k ↦ (loop-panic e _ s h k ∙ sym (loop-panic e _ s h k), inl (loop-panic e _ s h k))
      | inr (t, k) ↦
          let w = OkAfter-at _ t (read_round-OkAfter e s (unless-IsLive s v h)) k in
          let (same, over) = read_loop-IsOver before after t w in
          (
            loop-step e _ s t h k ∙ same ∙ sym (loop-step e _ s t h k),
            subst IsOver (sym (loop-step e _ s t h k)) over,
          )
    ]
  ]
