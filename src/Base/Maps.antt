-- ===== src/Base/Maps.antt =====
-- Go's maps as association lists: `m[k]`, `m[k] = v` and `delete(m, k)`.
use smpp_smsc.Base.Tests.{if◌then◌else◌}
use smpp_smsc.Base.Keys.{Eq, ◌==◌}
use mathlib.Core.Path.{◌≡◌, refl}
use mathlib.Core.Option.{Option, none, some}
use mathlib.Core.List.{List, [], ◌∷◌}
use native.Mathlib.Omega.{arith}

module _ {ℓ κ} {Key : Type ℓ} {Value : Type κ} ⦃e : Eq Key⦄ where
  unfoldable pub lookup : Key → List (Key × Value) → Option Value
  lookup key [] = none
  lookup key ((other, held) ∷ rest) = if other == key then some held else lookup key rest

  unfoldable pub insert : Key → Value → List (Key × Value) → List (Key × Value)
  insert key value [] = (key, value) ∷ []
  insert key value ((other, held) ∷ rest) =
      if other == key then (key, value) ∷ rest else (other, held) ∷ insert key value rest

  unfoldable pub delete : Key → List (Key × Value) → List (Key × Value)
  delete key [] = []
  delete key ((other, held) ∷ rest) =
      if other == key then delete key rest else (other, held) ∷ delete key rest

  pub lookup-delete :
      (gone asked : Key) (entries : List (Key × Value))
      → lookup asked (delete gone entries) ≡ (if gone == asked then none else lookup asked entries)
  unfolding lookup delete
  lookup-delete gone asked [] = ground arith
  lookup-delete gone asked ((first, held) ∷ rest) = ground (
    arith,
    lookup-delete gone asked rest,
    e.beq_iff first asked,
    e.beq_iff first gone,
    e.beq_iff gone asked,
  )

  pub lookup-insert :
      (set asked : Key) (value : Value) (entries : List (Key × Value))
      → lookup asked (insert set value entries)
        ≡ (if set == asked then some value else lookup asked entries)
  unfolding lookup insert
  lookup-insert set asked value [] = refl
  lookup-insert set asked value ((first, held) ∷ rest) = ground (
    arith,
    lookup-insert set asked value rest,
    e.beq_iff first asked,
    e.beq_iff first set,
    e.beq_iff set asked,
  )
