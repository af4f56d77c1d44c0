-- ===== src/Controller/Samples.antt =====
-- A cache that forgets nothing, as a list, and a controller with one bound session, for runs.
use smpp_smsc.Base.{
  ℕ, ◌≡◌, ◌≢◌, ◌⊎◌, inl, inr, refl, sym, ◌∙◌, true, false, Option, none, some, List, [], ◌∷◌, Bytes,
  Eq, nat_eq, bytes_eq, ◌==◌, Bool-cases, arith,
}
use smpp_smsc.Base.Maps.{lookup, insert, delete, lookup-insert, lookup-delete}
use smpp_smsc.Text.{codes}
use smpp_smsc.Types.{transceiver}
use smpp_smsc.Config.{default_config}
use smpp_smsc.Session.{Session, message}
use smpp_smsc.Session.Samples.{idle}
use smpp_smsc.Controller.Caches.{Cache, IsIn}
use smpp_smsc.Controller.{SessController, no_channel}

module _ {V : Type 0} where
  abbrev pub held : Option V → List V
  held none = []
  held (some v) = v ∷ []

  pub held-IsIn : (v : V) (o : Option V) → o ≡ some v → IsIn v (held o)
  held-IsIn v none h = absurd (cc)
  held-IsIn v (some w) h = inl (cc)

module _ {K V : Type 0} ⦃e : Eq K⦄ where
  pub insert_held :
      (k j : K) (v w : V) (c : List (K × V))
      → lookup j (insert k v c) ≡ some w
      → ((k ≡ j) × (v ≡ w)) ⊎ (lookup j c ≡ some w)
  insert_held k j v w c h = elim (Bool-cases (k == j)) [
    | inl same ↦
        let there : some v ≡ some w = sym (rw same at (lookup-insert k j v c)) ∙ h in
        inl ((e.beq_iff k j).0 same, cc)
    | inr other ↦ inr (sym (rw other at (lookup-insert k j v c)) ∙ h)
  ]

  pub delete_held :
      (k j : K) (w : V) (c : List (K × V))
      → lookup j (delete k c) ≡ some w
      → (k ≢ j) × (lookup j c ≡ some w)
  delete_held k j w c h = elim (Bool-cases (k == j)) [
    | inl same ↦
        let gone : none ≡ some w = sym (rw same at (lookup-delete k j c)) ∙ h in absurd (cc)
    | inr other ↦ (
      λ f. absurd (ground (arith, e.beq_iff k j, f, other)),
      sym (rw other at (lookup-delete k j c)) ∙ h,
    )
  ]

  pub lookup_empty : (j : K) → lookup {Value = V} j [] ≡ none
  unfolding lookup
  lookup_empty j = refl

  abbrev pub values : List (K × V) → List V
  values [] = []
  values ((k, v) ∷ c) = v ∷ values c

  pub lookup-IsIn : (k : K) (v : V) (c : List (K × V)) → lookup k c ≡ some v → IsIn v (values c)
  unfolding lookup
  lookup-IsIn k v [] h = absurd (cc)
  lookup-IsIn k v ((j, w) ∷ c) h = elim (Bool-cases (j == k)) [
    | inl same ↦ let found : some w ≡ some v = rw same at h in inl (cc)
    | inr other ↦ inr (lookup-IsIn k v c (rw other at h))
  ]

  abbrev pub list_cache : Cache K V
  list_cache = record {
    State = List (K × V);
    get_if_present = lookup;
    set = λ k v c. (insert k v c, []);
    invalidate = λ k c. (delete k c, held (lookup k c));
    invalidate_all = λ c. ([], values c);
    get-set = insert_held;
    get-invalidate = delete_held;
    get-invalidate_all = λ j c. lookup_empty j;
    invalidate_reports = λ k v c h. held-IsIn v (lookup k c) h;
    invalidate_all_reports = λ k v c h. lookup-IsIn k v c h;
  }

abbrev pub sessions_list : Cache Bytes ℕ
sessions_list = list_cache

abbrev pub ids_list : Cache ℕ Bytes
ids_list = list_cache

-- A session with one message that awaits a receipt.
abbrev pub waiting : Session
waiting = record idle {
  application_id = codes "app";
  bound = true;
  binding_type = transceiver;
  pending_requests =
      (message 1000, record { segments_count = 1; registered_delivery = 1; created_at = 5 }) ∷ [];
}

abbrev pub empty_controller : SessController sessions_list ids_list
empty_controller = record {
  sessions = [];
  message_ids = (1000, codes "s1") ∷ [];
  session_ids = [];
  heap = λ a. waiting;
  cfg = default_config;
  notices = [];
  closed = false;
  stop_channel = no_channel;
}

abbrev pub one_session : SessController sessions_list ids_list
one_session = record empty_controller {
  sessions = (codes "s1", 7) ∷ [];
  session_ids = codes "s1" ∷ [];
}
