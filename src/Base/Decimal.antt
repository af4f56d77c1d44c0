-- ===== src/Base/Decimal.antt =====
-- Decimal numbers as fmt and strconv write and read them: `%d`, `%0wd`, `FormatUint` and
-- `ParseUint` in base 10.
use Prim.Native.Nat.{ℕ, zero, suc, ◌+◌, ◌-◌, ◌*◌, ◌/◌, ◌%◌, ◌^◌, ◌≤◌, ◌<◌}
use mathlib.Core.Path.{◌≡◌, refl, sym, ap, ◌∙◌, subst}
use mathlib.Core.Logic.{◌≢◌}
use mathlib.Core.Bool.{Bool, ◌&&◌}
use mathlib.Core.Option.{Option, none, some}
use mathlib.Core.List.{[], ◌∷◌, ◌++◌}
use native.Mathlib.Omega.{arith}
use native.Mathlib.Nat.{pow-suc}
use smpp_smsc.Base.Tests.{ltb, leb, if◌then◌else◌}
use smpp_smsc.Base.Lists.{All, length, replicate}
use smpp_smsc.Base.Keys.{Bytes}

-- The digits of `n` before `tail`; `n + 1` rounds are enough.
unfoldable pub decimal_from : ℕ → ℕ → Bytes → Bytes
decimal_from zero n tail = tail
decimal_from (suc fuel) n tail =
    let rest = decimal_from fuel (n / 10) ((48 + n % 10) ∷ tail) in
    if ltb n 10 then (48 + n) ∷ tail else rest

unfoldable pub decimal : ℕ → Bytes
unfolding decimal_from
decimal n = decimal_from (suc n) n []

unfoldable pub padded : ℕ → ℕ → Bytes
unfolding decimal
padded width n = replicate (width - length (decimal n)) 48 ++ decimal n

unfoldable pub is_digit : ℕ → Bool
is_digit c = leb 48 c && leb c 57

-- The number that the digits continue, or `none` at a byte that is no digit.
unfoldable pub digits_value : ℕ → Bytes → Option ℕ
unfolding is_digit
digits_value acc [] = some acc
digits_value acc (c ∷ s) =
    let rest = digits_value (acc * 10 + (c - 48)) s in if is_digit c then rest else none

check_range : ℕ → Option ℕ → Option ℕ
check_range bound none = none
check_range bound (some n) = if ltb n bound then some n else none

-- ParseUint(s, 10, w) for a bound 2 ^ w.
unfoldable pub parse_uint : ℕ → Bytes → Option ℕ
unfolding check_range digits_value
parse_uint bound [] = none
parse_uint bound (c ∷ s) = check_range bound (digits_value 0 (c ∷ s))

pub digits_value-decimal_from :
    (fuel n : ℕ) (tail : Bytes)
    → n < fuel
    → digits_value 0 (decimal_from fuel n tail) ≡ digits_value n tail
unfolding decimal_from digits_value
digits_value-decimal_from zero n tail h = elim h [ ]
digits_value-decimal_from (suc fuel) n tail h =
    ground (arith, digits_value-decimal_from fuel (n / 10) ((48 + n % 10) ∷ tail))

pub digits_value-decimal : (n : ℕ) → digits_value 0 (decimal n) ≡ some n
unfolding decimal digits_value
digits_value-decimal n = digits_value-decimal_from (suc n) n [] (omega arith)

pub length-decimal_from :
    (k fuel n : ℕ) (tail : Bytes)
    → n < 10 ^ suc k
    → length (decimal_from fuel n tail) ≤ suc k + length tail
unfolding decimal_from
length-decimal_from k zero n tail h = omega arith
length-decimal_from zero (suc fuel) n tail h = ground arith
length-decimal_from (suc k) (suc fuel) n tail h =
    ground (arith, length-decimal_from k fuel (n / 10) ((48 + n % 10) ∷ tail) (omega arith))

pub length-decimal_pos :
    (fuel n : ℕ) (tail : Bytes) → length tail ≤ length (decimal_from fuel n tail)
unfolding decimal_from
length-decimal_pos zero n tail = omega arith
length-decimal_pos (suc fuel) n tail =
    ground (arith, length-decimal_pos fuel (n / 10) ((48 + n % 10) ∷ tail))

pub digits_value-zeros :
    (k : ℕ) (s : Bytes) → digits_value 0 (replicate k 48 ++ s) ≡ digits_value 0 s
unfolding digits_value
digits_value-zeros zero s = refl
digits_value-zeros (suc k) s = digits_value-zeros k s

one_digit : (acc d p n : ℕ) → d ≤ 9 → n < (acc * 10 + d + 1) * p → n < (acc + 1) * (10 * p)
one_digit acc d p n h k =
    let grows : (acc * 10 + d + 1) * p ≤ ((acc + 1) * 10) * p = grind arith in omega arith

digit_read :
    (c : ℕ) (s : Bytes) (acc n : ℕ)
    → digits_value acc (c ∷ s) ≡ some n
    → (c - 48 ≤ 9) × (digits_value (acc * 10 + (c - 48)) s ≡ some n)
unfolding digits_value
digit_read c s acc n h = ground arith

-- The digits of `s` continue `acc` to a number below this bound.
pub digits_value-lt :
    (s : Bytes) (acc n : ℕ) → digits_value acc s ≡ some n → n < (acc + 1) * 10 ^ length s
digits_value-lt [] acc n h = unfold digits_value in ground arith
digits_value-lt (c ∷ s) acc n h =
    let (d, e) = digit_read c s acc n h in
    let below : n < (acc + 1) * (10 * 10 ^ length s) =
      one_digit acc (c - 48) (10 ^ length s) n d (digits_value-lt s _ n e) in
    let power : 10 ^ suc (length s) ≡ 10 * 10 ^ length s = simp pow-suc (omega arith) in
    subst (λ x. n < (acc + 1) * x) (sym power) below

pub decimal-injective : (n m : ℕ) → decimal n ≡ decimal m → n ≡ m
decimal-injective n m e =
    let same : some n ≡ some m =
      sym (digits_value-decimal n) ∙ ap (digits_value 0) e ∙ digits_value-decimal m in
    cc

-- Two texts that do not hold the separator are told apart from what follows it.
pub split_at_separator :
    (sep : ℕ) (a b x y : Bytes)
    → All (λ c. c ≢ sep) a
    → All (λ c. c ≢ sep) b
    → a ++ (sep ∷ x) ≡ b ++ (sep ∷ y)
    → (a ≡ b) × (x ≡ y)
split_at_separator sep [] [] x y h k e = (refl, cc)
split_at_separator sep [] (d ∷ b) x y h k e = absurd (k.0 (cc))
split_at_separator sep (c ∷ a) [] x y h k e = absurd (h.0 (cc))
split_at_separator sep (c ∷ a) (d ∷ b) x y h k e =
    let rest : a ++ (sep ∷ x) ≡ b ++ (sep ∷ y) = cc in
    let heads : c ≡ d = cc in
    let (same_head, same_rest) = split_at_separator sep a b x y h.1 k.1 rest in (cc, same_rest)
