-- ===== src/Controller/Ids.antt =====
-- The set of session IDs as a list.
use smpp_smsc.Base.{
  ◌≡◌, ◌≢◌, inl, inr, refl, sym, ◌∙◌, false, List, [], ◌∷◌, Bytes, bytes_eq, bytes_beq_iff, ◌==◌,
  Bool-cases, arith,
}
use smpp_smsc.Controller.Caches.{IsIn}
use smpp_smsc.Controller.{insert_id, remove_id}

pub IsIn-insert_id : (id : Bytes) (ids : List Bytes) → IsIn id (insert_id id ids)
unfolding insert_id
IsIn-insert_id id [] = inl refl
IsIn-insert_id id (j ∷ ids) = elim (Bool-cases (j == id)) [
  | inl e ↦ rw (e, insert_id) (inl ((bytes_beq_iff j id).0 e))
  | inr e ↦ rw (e, insert_id) (inr (IsIn-insert_id id ids))
]

pub IsIn-insert_id_old : (id j : Bytes) (ids : List Bytes) → IsIn j ids → IsIn j (insert_id id ids)
unfolding insert_id
IsIn-insert_id_old id j [] h = elim h [ ]
IsIn-insert_id_old id j (k ∷ ids) (inl e) = elim (Bool-cases (k == id)) [
  | inl f ↦ rw (f, insert_id) (inl e)
  | inr f ↦ rw (f, insert_id) (inl e)
]
IsIn-insert_id_old id j (k ∷ ids) (inr h) = elim (Bool-cases (k == id)) [
  | inl f ↦ rw (f, insert_id) (inr h)
  | inr f ↦ rw (f, insert_id) (inr (IsIn-insert_id_old id j ids h))
]

pub IsIn-remove_id :
    (id j : Bytes) (ids : List Bytes) → id ≢ j → IsIn j ids → IsIn j (remove_id id ids)
unfolding remove_id
IsIn-remove_id id j [] n h = elim h [ ]
IsIn-remove_id id j (k ∷ ids) n (inl e) = elim (Bool-cases (k == id)) [
  | inl f ↦ absurd (n (sym ((bytes_beq_iff k id).0 f) ∙ e))
  | inr f ↦ rw (f, remove_id) (inl e)
]
IsIn-remove_id id j (k ∷ ids) n (inr h) = elim (Bool-cases (k == id)) [
  | inl f ↦ rw (f, remove_id) (IsIn-remove_id id j ids n h)
  | inr f ↦ rw (f, remove_id) (inr (IsIn-remove_id id j ids n h))
]

pub not_IsIn-remove_id : (id : Bytes) (ids : List Bytes) → ¬ IsIn id (remove_id id ids)
unfolding remove_id
not_IsIn-remove_id id [] h = h
not_IsIn-remove_id id (k ∷ ids) h = elim (Bool-cases (k == id)) [
  | inl f ↦ not_IsIn-remove_id id ids (rw (f, remove_id) at h)
  | inr f ↦ later id k ids f (rw (f, remove_id) at h) (not_IsIn-remove_id id ids)
]
  where
    later :
        (id k : Bytes) (ids : List Bytes)
        → (k == id) ≡ false
        → IsIn id (k ∷ remove_id id ids)
        → ¬ IsIn id (remove_id id ids)
        → ⊥
    later id k ids f (inl e) n = ground (arith, bytes_beq_iff k id, e, f)
    later id k ids f (inr h) n = n h
