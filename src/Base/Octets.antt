-- ===== src/Base/Octets.antt =====
-- Bytes and the big-endian integers of encoding/binary.
use smpp_smsc.Base.Keys.{Bytes}
use smpp_smsc.Base.Tests.{nat_beq, nat_beq_iff}
use smpp_smsc.Base.Lists.{All}
use Prim.Native.Nat.{ℕ, zero, suc, ◌+◌, ◌*◌, ◌/◌, ◌%◌, ◌^◌, ◌<◌, bit_and, bit_or}
use mathlib.Core.Path.{◌≡◌, refl}
use mathlib.Core.Bool.{Bool, true, ◌&&◌}
use mathlib.Core.List.{[], ◌∷◌}
use native.Mathlib.Decide.{dec_lt}
use native.Mathlib.Omega.{arith}

abbrev pub IsByte : ℕ → Type 0
IsByte b = b < 256

abbrev pub IsBytes : Bytes → Type 0
IsBytes = All IsByte

-- binary.BigEndian.Uint16 of two bytes.
abbrev pub be16 : ℕ → ℕ → ℕ
be16 hi lo = hi * 256 + lo

-- binary.BigEndian.PutUint32.
abbrev pub put_be32 : ℕ → Bytes
put_be32 n = (n / 2 ^ 24 % 256) ∷ (n / 2 ^ 16 % 256) ∷ (n / 2 ^ 8 % 256) ∷ (n % 256) ∷ []

-- A test that is true of every octet is checked by evaluation, from `bound - 1` down to 0.
unfoldable pub holds_below : (ℕ → Bool) → ℕ → Bool
holds_below test zero = true
holds_below test (suc bound) = holds_below test bound && test bound

pub holds_below→holds :
    (test : ℕ → Bool) (bound : ℕ)
    → holds_below test bound ≡ true
    → (octet : ℕ) → octet < bound
    → test octet ≡ true
unfolding holds_below
holds_below→holds test zero all octet small = absurd (omega arith)
holds_below→holds test (suc bound) all octet small =
    let both : (holds_below test bound ≡ true) × (test bound ≡ true) = ground (arith, all) in
    elim (dec_lt octet bound) [
      | yes less ↦ holds_below→holds test bound both.0 octet less
      | no more ↦ let last : octet ≡ bound = omega (arith, small) in rw last both.1
    ]

low_two_table : holds_below (λ x. nat_beq (bit_and x 3) (x % 4)) 256 ≡ true
unfolding holds_below
low_two_table = refl

-- `b & 0x03` on a byte.
pub low_two : (b : ℕ) → b < 256 → bit_and b 3 ≡ b % 4
low_two b h = (nat_beq_iff _ _).0 (holds_below→holds _ 256 low_two_table b h)

indicator_table : holds_below (λ x. nat_beq (bit_or (bit_and x 0x3f) 0x40) (x % 64 + 64)) 256 ≡ true
unfolding holds_below
indicator_table = refl

-- `b & 0x3F | 0x40` on a byte.
pub set_indicator : (b : ℕ) → b < 256 → bit_or (bit_and b 0x3f) 0x40 ≡ b % 64 + 64
set_indicator b h = (nat_beq_iff _ _).0 (holds_below→holds _ 256 indicator_table b h)
