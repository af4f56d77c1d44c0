-- ===== src/Controller/Caches.antt =====
-- The caches of github.com/maypok86/otter that the controller uses. That library is not in the
-- repository: `Cache` is a parameter of the model. Its laws say what the code relies on. An entry
-- may vanish with any call, by size or by age, so no law says that an entry is kept.
use smpp_smsc.Base.{◌≡◌, ◌≢◌, ◌⊎◌, Option, none, some, List, [], ◌∷◌, ◌++◌, inl, inr}

-- `v` is one of the values of a list.
abbrev pub IsIn : {A : Type 0} → A → List A → Type 0
IsIn v [] = ⊥
IsIn v (w ∷ ws) = (w ≡ v) ⊎ IsIn v ws

pub IsIn-append : {A : Type 0} (v : A) (l k : List A) → IsIn v l → IsIn v (l ++ k)
IsIn-append v [] k i = elim i [ ]
IsIn-append v (w ∷ l) k (inl e) = inl e
IsIn-append v (w ∷ l) k (inr i) = inr (IsIn-append v l k i)

-- `set`, `invalidate` and `invalidate_all` also give the values of the entries that they delete,
-- which is what the callback OnDeletion is called with, some time later.
pub record Cache (K V : Type 0) : Type 1 where
  pub State : Type 0
  pub get_if_present : K → State → Option V
  pub set : K → V → State → State × List V
  pub invalidate : K → State → State × List V
  pub invalidate_all : State → State × List V
  pub get-set :
      (k j : K) (v w : V) (c : State)
      → get_if_present j (set k v c).0 ≡ some w
      → ((k ≡ j) × (v ≡ w)) ⊎ (get_if_present j c ≡ some w)
  pub get-invalidate :
      (k j : K) (w : V) (c : State)
      → get_if_present j (invalidate k c).0 ≡ some w
      → (k ≢ j) × (get_if_present j c ≡ some w)
  pub get-invalidate_all : (j : K) (c : State) → get_if_present j (invalidate_all c).0 ≡ none
  pub invalidate_reports :
      (k : K) (v : V) (c : State) → get_if_present k c ≡ some v → IsIn v (invalidate k c).1
  pub invalidate_all_reports :
      (k : K) (v : V) (c : State) → get_if_present k c ≡ some v → IsIn v (invalidate_all c).1
