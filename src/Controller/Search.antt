-- ===== src/Controller/Search.antt =====
-- The searches through the sessions, on a run of the controller.
use smpp_smsc.Base.{
  ℕ, ◌≡◌, ◌⊎◌, ◌↔◌, nat_eq, ◌==◌, arith, inl, inr, refl, sym, ap, ◌∙◌, Bool, true, false, Option,
  some, List, [], ◌∷◌, Bytes, bytes_eq, bytes_beq_iff, Option-cases, Bool-cases,
}
use smpp_smsc.Text.{codes}
use smpp_smsc.Session.{Session}
use smpp_smsc.Controller.Caches.{Cache, IsIn}
use smpp_smsc.Controller.{
  SessController, get_session_by_id, cached_session, cached, has_field, filter_sessions,
  get_sessions_by_application_id,
}
use smpp_smsc.Controller.Index.{Indexed, get_session-some, get_session-there}
use smpp_smsc.Controller.Reach.{Reach, Reach-Indexed}

module _ (sessions_cache : Cache Bytes ℕ) (ids_cache : Cache ℕ Bytes) where
  abbrev Sessions : Type 0
  Sessions = SessController sessions_cache ids_cache

  abbrev get : Bytes → Sessions → Option ℕ
  get id m = cached_session sessions_cache ids_cache id m

  cached-finds :
      (test : Session → Bool) (ids : List Bytes) (m : Sessions) (id : Bytes) (a : ℕ)
      → IsIn id ids
      → get id m ≡ some a
      → test (m.heap a) ≡ true
      → IsIn a (cached sessions_cache ids_cache test ids m)
  unfolding cached
  cached-finds test [] m id a h e k = elim h [ ]
  cached-finds test (j ∷ ids) m id a (inl same) e k =
      let f : get j m ≡ some a = ap (λ i. get i m) same ∙ e in rw (f, cached) (rw (k) (inl refl))
  cached-finds test (j ∷ ids) m id a (inr h) e k =
      let rest = cached-finds test ids m id a h e k in
      elim (Option-cases (get j m)) [
        | inl f ↦ rw (f, cached) rest
        | inr (b, f) ↦ elim (Bool-cases (test (m.heap b))) [
          | inl p ↦ rw (f, cached) (rw p (inr rest))
          | inr p ↦ rw (f, cached) (rw p rest)
        ]
      ]

  cached_only :
      (test : Session → Bool) (ids : List Bytes) (m : Sessions) (a : ℕ)
      → IsIn a (cached sessions_cache ids_cache test ids m)
      → (id : Bytes) × (get id m ≡ some a) × (test (m.heap a) ≡ true)
  unfolding cached
  cached_only test [] m a h = elim h [ ]
  cached_only test (j ∷ ids) m a h = elim (Option-cases (get j m)) [
    | inl f ↦ cached_only test ids m a (rw (f, cached) at h)
    | inr (b, f) ↦ elim (Bool-cases (test (m.heap b))) [
      | inl p ↦
          first_or_later test ids m a b j f p (rw p at (rw (f, cached) at h))
            (cached_only test ids m a)
      | inr p ↦ cached_only test ids m a (rw p at (rw (f, cached) at h))
    ]
  ]
    where
      first_or_later :
          (test : Session → Bool) (ids : List Bytes) (m : Sessions) (a b : ℕ) (j : Bytes)
          → get j m ≡ some b
          → test (m.heap b) ≡ true
          → IsIn a (b ∷ cached sessions_cache ids_cache test ids m)
          → (IsIn a (cached sessions_cache ids_cache test ids m)
              → (id : Bytes) × (get id m ≡ some a) × (test (m.heap a) ≡ true))
          → (id : Bytes) × (get id m ≡ some a) × (test (m.heap a) ≡ true)
      first_or_later test ids m a b j f p (inl e) later =
          (j, f ∙ ap some e, ap (λ c. test (m.heap c)) (sym e) ∙ p)
      first_or_later test ids m a b j f p (inr h) later = later h

  has_application :
      (application_id : Bytes) (s : Session)
      → (has_field sessions_cache ids_cache (codes "application_id") application_id s ≡ true)
        ↔ (s.application_id ≡ application_id)
  unfolding has_field
  has_application application_id s = bytes_beq_iff s.application_id application_id

IsIn-cases : (a : ℕ) (l : List ℕ) → IsIn a l ⊎ ¬ IsIn a l
IsIn-cases a [] = inr (λ i. i)
IsIn-cases a (b ∷ l) = elim (Bool-cases (b == a)) [
  | inl e ↦ inl (inl (ground (arith, e)))
  | inr e ↦ elim (IsIn-cases a l) [
    | inl i ↦ inl (inr i)
    | inr other ↦ inr (λ i. elim i [ inl f ↦ absurd (ground (arith, e, f)) | inr j ↦ other j ])
  ]
]

-- GetSessionsByApplicationID after any run from a controller all of whose cached sessions are in the set
-- of session IDs, such as a new one, with the cache still open, and a session `a`. Either it is found, and
-- then GetSessionByID finds it under some ID and it has that application ID; or it is not found, and
-- then there is no ID under which GetSessionByID finds it with that application ID but such as an
-- UpdateSession of the run stored while they were not in the set.
pub get_sessions_by_application_id_exact :
    (sessions_cache : Cache Bytes ℕ) (ids_cache : Cache ℕ Bytes)
    (m t : SessController sessions_cache ids_cache) (us : List Bytes) (application_id : Bytes)
    (a : ℕ)
    → Indexed sessions_cache ids_cache [] m
    → Reach sessions_cache ids_cache m us t
    → t.closed ≡ false
    → let found = get_sessions_by_application_id sessions_cache ids_cache application_id t in
      (IsIn a found
        × ((id : Bytes) × (get_session_by_id sessions_cache ids_cache id t ≡ some (some a))
            × ((t.heap a).application_id ≡ application_id)))
      ⊎ (¬ IsIn a found
          × ¬ (
              (id : Bytes) × (get_session_by_id sessions_cache ids_cache id t ≡ some (some a))
              × ((t.heap a).application_id ≡ application_id)
              × ¬ IsIn id us))
unfolding get_sessions_by_application_id filter_sessions
get_sessions_by_application_id_exact sc ic m t us application_id a v r o =
    let test = has_field sc ic (codes "application_id") application_id in
    let names = has_application sc ic application_id (t.heap a) in
    elim (IsIn-cases a (cached sc ic test t.session_ids t)) [
      | inl h ↦
          let (id, e, p) = cached_only sc ic test t.session_ids t a h in
          inl (h, (id, get_session-there sc ic id a t o e, names.0 p))
      | inr missed ↦ inr (
        missed,
        λ h.
            let (id, e, p, other) = h in
            let (opened, there) = get_session-some sc ic id a t e in
            elim (Reach-Indexed sc ic v r id a o there) [
              | inl i ↦ missed (cached-finds sc ic test t.session_ids t id a i there (names.1 p))
              | inr i ↦ other i
            ],
      )
    ]
