-- ===== src/Message/Ids.antt =====
-- Message IDs as text, in utils.go: `BuildMessageIDFromClock` and `ParseMessageID`.
use smpp_smsc.Base.{
  ℕ, zero, suc, ◌+◌, ◌-◌, ◌*◌, ◌/◌, ◌%◌, ◌^◌, ◌≤◌, ◌<◌, ◌≡◌, ◌≢◌, refl, ap, ◌∙◌, Option, none, some,
  [], ◌∷◌, ◌++◌, Bytes, leb, false, if◌then◌else◌, length, length-append, length-drop,
  length-replicate, take, drop, replicate, arith,
}
use smpp_smsc.Base.Decimal.{
  decimal, decimal_from, padded, parse_uint, digits_value, digits_value-decimal, digits_value-zeros,
  digits_value-lt, length-decimal_from, length-decimal_pos,
}

unfoldable pub build_message_id_from_clock : ℕ → ℕ → Bytes
build_message_id_from_clock clock counter = decimal clock ++ padded 8 counter

both : Option ℕ → Option ℕ → Option (ℕ × ℕ)
both none counter = none
both (some clock) none = none
both (some clock) (some counter) = some (clock, counter)

-- `none` is an error: too short, or a half that ParseUint refuses.
unfoldable pub parse_message_id : Bytes → Option (ℕ × ℕ)
unfolding both
parse_message_id message_id =
    if leb (length message_id) 8
    then none
    else both (parse_uint (2 ^ 64) (take (length message_id - 8) message_id))
        (parse_uint (2 ^ 32) (drop (length message_id - 8) message_id))

length-padded : (counter : ℕ) → counter < 100_000_000 → length (padded 8 counter) ≡ 8
unfolding padded decimal
length-padded counter h = omega (
  arith,
  length-append (replicate (8 - length (decimal counter)) 48) (decimal counter),
  length-replicate {A = ℕ} (8 - length (decimal counter)) 48,
  length-decimal_from 7 (suc counter) counter [],
)

digits_value-padded : (counter : ℕ) → digits_value 0 (padded 8 counter) ≡ some counter
unfolding padded
digits_value-padded counter =
    digits_value-zeros (8 - length (decimal counter)) (decimal counter)
    ∙ digits_value-decimal counter

parse_uint-digits :
    (bound n : ℕ) (s : Bytes)
    → 0 < length s
    → digits_value 0 s ≡ some n
    → n < bound
    → parse_uint bound s ≡ some n
unfolding parse_uint
parse_uint-digits bound n [] h e k = elim h [ ]
parse_uint-digits bound n (c ∷ s) h e k = ground arith

take-append : (k : ℕ) (s r : Bytes) → length s ≡ k → take k (s ++ r) ≡ s
take-append zero [] r h = refl
take-append zero (c ∷ s) r h = absurd (omega arith)
take-append (suc k) [] r h = absurd (omega arith)
take-append (suc k) (c ∷ s) r h = ap (◌∷◌ c) (take-append k s r (omega arith))

drop-append : (k : ℕ) (s r : Bytes) → length s ≡ k → drop k (s ++ r) ≡ r
drop-append zero [] r h = refl
drop-append zero (c ∷ s) r h = absurd (omega arith)
drop-append (suc k) [] r h = absurd (omega arith)
drop-append (suc k) (c ∷ s) r h = drop-append k s r (omega arith)

decimal_pos : (n : ℕ) → 0 < length (decimal n)
unfolding decimal decimal_from
decimal_pos n = ground (arith, length-decimal_pos n (n / 10) ((48 + n % 10) ∷ []))

parse_message_id_split :
    (s r : Bytes)
    → 0 < length s
    → length r ≡ 8
    → parse_message_id (s ++ r) ≡ both (parse_uint (2 ^ 64) s) (parse_uint (2 ^ 32) r)
unfolding parse_message_id
parse_message_id_split s r h k =
    let e : length (s ++ r) ≡ length s + 8 = omega (arith, length-append s r) in
    let f : length (s ++ r) - 8 ≡ length s = omega arith in
    let long : leb (length (s ++ r)) 8 ≡ false = ground arith in
    rw (long, f, take-append (length s) s r refl, drop-append (length s) s r refl)

parse_uint→digits :
    (bound n : ℕ) (s : Bytes) → parse_uint bound s ≡ some n → digits_value 0 s ≡ some n
unfolding parse_uint
parse_uint→digits bound n [] e = cc
parse_uint→digits bound n (c ∷ s) e = ground arith

parse_message_id_halves :
    (x : Bytes) (clock counter : ℕ)
    → parse_message_id x ≡ some (clock, counter)
    → (8 < length x) × (parse_uint (2 ^ 32) (drop (length x - 8) x) ≡ some counter)
unfolding parse_message_id
parse_message_id_halves x clock counter e = ground arith

-- ParseMessageID reads back what BuildMessageIDFromClock wrote, for a 64-bit clock and a counter of
-- at most eight digits.
pub parse_message_id-build :
    (clock counter : ℕ)
    → clock < 2 ^ 64
    → counter < 100_000_000
    → parse_message_id (build_message_id_from_clock clock counter) ≡ some (clock, counter)
unfolding build_message_id_from_clock
parse_message_id-build clock counter h k =
    parse_message_id_split (decimal clock) (padded 8 counter) (decimal_pos clock)
      (length-padded counter k)
    ∙ unfold both in
      rw (
        parse_uint-digits (2 ^ 64) clock (decimal clock) (decimal_pos clock)
            (digits_value-decimal clock) h,
        parse_uint-digits (2 ^ 32) counter (padded 8 counter)
            (omega (arith, length-padded counter k)) (digits_value-padded counter) (omega arith),
      )

-- A 32-bit counter of nine or ten digits is never read back: the number grows into the clock's
-- digits.
parse_message_id_overflow :
    (clock counter : ℕ)
    → 100_000_000 ≤ counter
    → parse_message_id (build_message_id_from_clock clock counter) ≢ some (clock, counter)
parse_message_id_overflow clock counter h e =
    let m : Bytes = build_message_id_from_clock clock counter in
    let (long, half) = parse_message_id_halves m clock counter e in
    let eight : length (drop (length m - 8) m) ≡ 8 = omega (arith, length-drop (length m - 8) m) in
    let below : counter < (0 + 1) * 10 ^ length (drop (length m - 8) m) =
      digits_value-lt (drop (length m - 8) m) 0 counter
        (parse_uint→digits (2 ^ 32) counter _ half) in
    let small : counter < (0 + 1) * 10 ^ 8 = rw eight at below in absurd (omega arith)
