-- ===== src/Text/Utf16.antt =====
-- UTF-16: `utf16_decode` undoes `utf16_encode` on Unicode scalar values.
use smpp_smsc.Base.{
  ℕ, ◌+◌, ◌-◌, ◌/◌, ◌%◌, ◌≤◌, ◌<◌, ◌≡◌, refl, ap, ◌∙◌, List, [], ◌∷◌, ◌++◌, All, arith, ◌⊎◌, inl,
  inr,
}
use smpp_smsc.Text.{utf16_rune, utf16_unit, utf16_from, utf16_encode, utf16_decode}
use smpp_smsc.Text.RoundTrip.{IsScalar}
use native.Mathlib.Decide.{dec_lt}

write_unit : (r : ℕ) → IsScalar r → r < 0x10000 → utf16_rune r ≡ r ∷ []
unfolding utf16_rune
write_unit r v h = ground arith

write_pair :
    (r : ℕ)
    → IsScalar r
    → 0x10000 ≤ r
    → utf16_rune r ≡ (0xd800 + (r - 0x10000) / 1024) ∷ (0xdc00 + (r - 0x10000) % 1024) ∷ []
unfolding utf16_rune
write_pair r v h = ground arith

read_unit : (r : ℕ) (us : List ℕ) → IsScalar r → r < 0x10000 → utf16_unit r us ≡ (r, 1)
unfolding utf16_unit
read_unit r [] v h = ground arith
read_unit r (u ∷ us) v h = ground arith

read_pair :
    (r : ℕ) (us : List ℕ)
    → IsScalar r
    → 0x10000 ≤ r
    → utf16_unit (0xd800 + (r - 0x10000) / 1024) ((0xdc00 + (r - 0x10000) % 1024) ∷ us) ≡ (r, 2)
unfolding utf16_unit
read_pair r us v h = ground arith

utf16_from-utf16_rune :
    (r : ℕ) (us : List ℕ) → IsScalar r → utf16_from 0 (utf16_rune r ++ us) ≡ r ∷ utf16_from 0 us
unfolding utf16_from
utf16_from-utf16_rune r us v = elim (dec_lt r 0x10000) [
  | yes h ↦ rw (write_unit r v h) (rw (read_unit r us v h))
  | no h ↦ rw (write_pair r v (omega arith)) (rw (read_pair r us v (omega arith)))
]

pub utf16_decode-utf16_encode :
    (rs : List ℕ) → All IsScalar rs → utf16_decode (utf16_encode rs) ≡ rs
unfolding utf16_decode utf16_encode
utf16_decode-utf16_encode [] h = refl
utf16_decode-utf16_encode (r ∷ rs) h =
    utf16_from-utf16_rune r (utf16_encode rs) h.0 ∙ ap (◌∷◌ r) (utf16_decode-utf16_encode rs h.1)

-- A rune of the basic plane is its own unit, and any other begins with a unit above it.
pub utf16_encode_bmp :
    (r : ℕ) (rs : List ℕ) → IsScalar r → r < 0x10000 → utf16_encode (r ∷ rs) ≡ r ∷ utf16_encode rs
unfolding utf16_encode
utf16_encode_bmp r rs v h = rw (write_unit r v h)

pub utf16_encode_head :
    (r : ℕ) (rs : List ℕ)
    → IsScalar r
    → (u : ℕ) × (us : List ℕ) × (utf16_encode (r ∷ rs) ≡ u ∷ us) × ((u ≡ r) ⊎ (0xd800 ≤ u))
unfolding utf16_encode
utf16_encode_head r rs v = elim (dec_lt r 0x10000) [
  | yes h ↦ (r, utf16_encode rs, rw (write_unit r v h), inl refl)
  | no h ↦ (
    0xd800 + (r - 0x10000) / 1024,
    (0xdc00 + (r - 0x10000) % 1024) ∷ utf16_encode rs,
    rw (write_pair r v (omega arith)),
    inr (omega arith),
  )
]
