-- ===== src/Text/RoundTrip.antt =====
-- `[]rune(string(rs))` gives `rs` back when `rs` are Unicode scalar values, and every `[]rune(s)` is.
use smpp_smsc.Base.{
  ℕ, zero, suc, ◌+◌, ◌-◌, ◌/◌, ◌%◌, ◌≤◌, ◌<◌, ◌≡◌, refl, ap, ◌∙◌, sym, ◌⊎◌, List, [], ◌∷◌, ◌++◌,
  Bytes, All, arith,
}
use smpp_smsc.Text.{decode_rune, runes_from, runes, utf8_rune, utf8}
use mathlib.Core.List.{append_assoc}
use native.Mathlib.Decide.{dec_lt}

-- A Unicode scalar value.
abbrev pub IsScalar : ℕ → Type 0
IsScalar r = (r < 0xd800) ⊎ ((0xdfff < r) × (r < 0x110000))

pub utf8-append : (rs ss : List ℕ) → utf8 (rs ++ ss) ≡ utf8 rs ++ utf8 ss
unfolding utf8
utf8-append [] ss = refl
utf8-append (r ∷ rs) ss = rw (utf8-append rs ss) (sym (append_assoc _ (utf8 rs) (utf8 ss)))

-- What `decode_rune` makes of the two, three or four bytes of a rune.
decode_two :
    (r : ℕ) (s : Bytes)
    → 0x80 ≤ r
    → r < 0x800
    → decode_rune (0xc0 + r / 64) ((0x80 + r % 64) ∷ s) ≡ (r, 2)
unfolding decode_rune
decode_two r s h k = ground arith

decode_three :
    (r : ℕ) (s : Bytes)
    → 0x800 ≤ r
    → r < 0x10000
    → IsScalar r
    → decode_rune (0xe0 + r / 4096) ((0x80 + r / 64 % 64) ∷ (0x80 + r % 64) ∷ s) ≡ (r, 3)
unfolding decode_rune
decode_three r s h k v = ground arith

decode_four :
    (r : ℕ) (s : Bytes)
    → 0x10000 ≤ r
    → r < 0x110000
    → decode_rune
        (0xf0 + r / 262144)
        ((0x80 + r / 4096 % 64) ∷ (0x80 + r / 64 % 64) ∷ (0x80 + r % 64) ∷ s)
      ≡ (r, 4)
unfolding decode_rune
decode_four r s h k = ground arith

-- The bytes that `utf8_rune` writes, by the size of the rune.
write_one : (r : ℕ) → r < 0x80 → utf8_rune r ≡ r ∷ []
unfolding utf8_rune
write_one r h = ground arith

write_two : (r : ℕ) → 0x80 ≤ r → r < 0x800 → utf8_rune r ≡ (0xc0 + r / 64) ∷ (0x80 + r % 64) ∷ []
unfolding utf8_rune
write_two r h k = ground arith

write_three :
    (r : ℕ)
    → 0x800 ≤ r
    → r < 0x10000
    → IsScalar r
    → utf8_rune r ≡ (0xe0 + r / 4096) ∷ (0x80 + r / 64 % 64) ∷ (0x80 + r % 64) ∷ []
unfolding utf8_rune
write_three r h k v = ground arith

write_four :
    (r : ℕ)
    → 0x10000 ≤ r
    → r < 0x110000
    → utf8_rune r
      ≡ (0xf0 + r / 262144) ∷ (0x80 + r / 4096 % 64) ∷ (0x80 + r / 64 % 64) ∷ (0x80 + r % 64) ∷ []
unfolding utf8_rune
write_four r h k = ground arith

decode_one : (r : ℕ) (s : Bytes) → r < 0x80 → decode_rune r s ≡ (r, 1)
unfolding decode_rune
decode_one r s h = ground arith

module _ (r : ℕ) (s : Bytes) where
  Reads : Type 0
  Reads = runes_from 0 (utf8_rune r ++ s) ≡ r ∷ runes_from 0 s

  reads_one : r < 0x80 → Reads
  unfolding runes_from Reads
  reads_one h = rw (write_one r h) (rw (decode_one r s h))

  reads_two : 0x80 ≤ r → r < 0x800 → Reads
  unfolding runes_from Reads
  reads_two h k = rw (write_two r h k) (rw (decode_two r s h k))

  reads_three : 0x800 ≤ r → r < 0x10000 → IsScalar r → Reads
  unfolding runes_from Reads
  reads_three h k v = rw (write_three r h k v) (rw (decode_three r s h k v))

  reads_four : 0x10000 ≤ r → r < 0x110000 → Reads
  unfolding runes_from Reads
  reads_four h k = rw (write_four r h k) (rw (decode_four r s h k))

  -- Reading a rune that was written takes all of its bytes.
  runes_from-utf8_rune : IsScalar r → runes_from 0 (utf8_rune r ++ s) ≡ r ∷ runes_from 0 s
  unfolding Reads
  runes_from-utf8_rune v = elim (dec_lt r 0x80) [
    | yes h ↦ reads_one h
    | no h ↦ elim (dec_lt r 0x800) [
      | yes k ↦ reads_two (omega arith) k
      | no k ↦ elim (dec_lt r 0x10000) [
        | yes l ↦ reads_three (omega arith) l v
        | no l ↦ reads_four (omega arith) (omega arith)
      ]
    ]
  ]

pub runes-utf8 : (rs : List ℕ) → All IsScalar rs → runes (utf8 rs) ≡ rs
unfolding runes utf8
runes-utf8 [] h = refl
runes-utf8 (r ∷ rs) h = runes_from-utf8_rune r (utf8 rs) h.0 ∙ ap (◌∷◌ r) (runes-utf8 rs h.1)

decode_rune-IsScalar : (a : ℕ) (r : Bytes) → IsScalar (decode_rune a r).0
unfolding decode_rune
decode_rune-IsScalar a [] = ground arith
decode_rune-IsScalar a (b ∷ []) = ground arith
decode_rune-IsScalar a (b ∷ c ∷ []) = ground arith
decode_rune-IsScalar a (b ∷ c ∷ d ∷ r) = ground arith

runes_from-IsScalar : (skip : ℕ) (s : Bytes) → All IsScalar (runes_from skip s)
unfolding runes_from
runes_from-IsScalar zero [] = tt
runes_from-IsScalar (suc skip) [] = tt
runes_from-IsScalar (suc skip) (a ∷ r) = runes_from-IsScalar skip r
runes_from-IsScalar zero (a ∷ r) =
    (decode_rune-IsScalar a r, runes_from-IsScalar ((decode_rune a r).1 - 1) r)

pub runes-IsScalar : (s : Bytes) → All IsScalar (runes s)
unfolding runes
runes-IsScalar s = runes_from-IsScalar 0 s
