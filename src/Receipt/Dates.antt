-- ===== src/Receipt/Dates.antt =====
-- The dates of receipts.
use smpp_smsc.Base.{
  length, some, none, Option, [], ◌∷◌, ◌++◌, Bytes, bytes_beq, bytes_beq_iff, ◌≤◌, ◌<◌, ap, ◌∙◌,
  arith, ℕ, ◌+◌, ◌-◌, ◌*◌, ◌/◌, ◌%◌, ◌≡◌, refl, Bool, true, ◌&&◌, ltb, leb, nat_beq, nat_eq,
  bytes_eq, if◌then◌else◌,
}
use smpp_smsc.Base.Octets.{holds_below, holds_below→holds}
use smpp_smsc.Base.Decimal.{padded}
use smpp_smsc.Receipt.{Date, date_of, format_receipt_date_time}

-- The day of a date, counted from 1970-01-01.
unfoldable pub day_number : Date → ℕ
day_number d =
    let year = if leb d.month 2 then d.year - 1 else d.year in
    let from_march = if ltb 2 d.month then d.month - 3 else d.month + 9 in
    365 * year
    + year / 4
    - year / 100
    + year / 400
    + (153 * from_march + 2) / 5
    + d.day
    - 1
    - 719468

-- From 2000-01-01 to 2099-12-31.
in_century : ℕ → Bool
in_century k =
    let d = date_of (k + 10957) in
    nat_beq (day_number d) (k + 10957)
    && (leb 2000 d.year && (ltb d.year 2100 && (ltb d.month 13 && ltb d.day 32)))

century : holds_below in_century 36525 ≡ true
unfolding holds_below in_century date_of day_number
century = refl

abbrev digit_pair : ℕ → Bytes
digit_pair n = (48 + n / 10) ∷ (48 + n % 10) ∷ []

pairs : holds_below (λ n. bytes_beq (padded 2 n) (digit_pair n)) 100 ≡ true
unfolding holds_below padded
pairs = refl

pub padded_two : (n : ℕ) → n < 100 → padded 2 n ≡ digit_pair n
padded_two n h = (bytes_beq_iff _ _).0 (holds_below→holds _ 100 pairs n h)

abbrev pair_value : ℕ → ℕ → ℕ
pair_value a b = (a - 48) * 10 + (b - 48)

-- The minutes since 1970 that ten digits name, in the years from 2000 to 2099.
pub read_receipt_date_time : Bytes → Option ℕ
read_receipt_date_time (a ∷ b ∷ c ∷ d ∷ e ∷ f ∷ g ∷ h ∷ i ∷ j ∷ []) = some (
    day_number
        (record { year = 2000 + pair_value a b; month = pair_value c d; day = pair_value e f })
      * 1440
    + pair_value g h * 60
    + pair_value i j)
read_receipt_date_time other = none

-- A day of the century: its number is read back from its date, whose parts are in range.
date_of_century :
    (days : ℕ)
    → 10957 ≤ days
    → days < 47482
    → (day_number (date_of days) ≡ days)
      × (2000 ≤ (date_of days).year)
      × ((date_of days).year < 2100)
      × ((date_of days).month < 13)
      × ((date_of days).day < 32)
unfolding in_century
date_of_century days lo hi =
    let k = days - 10957 in
    let back : k + 10957 ≡ days = omega arith in
    let good : in_century k ≡ true = holds_below→holds in_century 36525 century k (omega arith) in
    rw⁻¹ back (ground (arith, good))

five_pairs :
    (y m d h n : ℕ)
    → y < 100
    → m < 100
    → d < 100
    → h < 100
    → n < 100
    → read_receipt_date_time
        (padded 2 y ++ (padded 2 m ++ (padded 2 d ++ (padded 2 h ++ padded 2 n))))
      ≡ some (day_number (record { year = 2000 + y; month = m; day = d }) * 1440 + h * 60 + n)
unfolding read_receipt_date_time
five_pairs y m d h n p q r s t =
    rw (padded_two y p, padded_two m q, padded_two d r, padded_two h s, padded_two n t)
      (ground arith)

minutes_lem :
    (t : ℕ)
    → let seconds = t / 1_000_000_000 in
      seconds / 86400 * 1440 + seconds % 86400 / 3600 * 60 + seconds % 86400 % 3600 / 60
      ≡ t / 60_000_000_000
minutes_lem t = omega arith

in_2000s : (d : Date) → 2000 ≤ d.year → d.year < 2100 → record d { year = 2000 + d.year % 100 } ≡ d
in_2000s d lo hi =
    let e : 2000 + d.year % 100 ≡ d.year = omega arith in ap (λ y. record d { year = y }) e

pub length-format_receipt_date_time :
    (t : ℕ)
    → 946_684_800_000_000_000 ≤ t
    → t < 4_102_444_800_000_000_000
    → length (format_receipt_date_time t) ≡ 10
unfolding format_receipt_date_time
length-format_receipt_date_time t lo hi =
    let seconds = t / 1_000_000_000 in
    let date = date_of (seconds / 86400) in
    let (same, from, to, months, days) =
      date_of_century (seconds / 86400) (omega arith) (omega arith) in
    rw
      (
        padded_two (date.year % 100) (omega arith),
        padded_two date.month (omega (arith, months)),
        padded_two date.day (omega (arith, days)),
        padded_two (seconds % 86400 / 3600) (omega arith),
        padded_two (seconds % 86400 % 3600 / 60) (omega arith),
      )
      refl

-- The digits of a receipt's date are those of its minute, for a time in the years from 2000 to 2099:
-- reading them gives the number of that minute since 1970 back.
pub read_receipt_date_time-format :
    (t : ℕ)
    → 946_684_800_000_000_000 ≤ t
    → t < 4_102_444_800_000_000_000
    → read_receipt_date_time (format_receipt_date_time t) ≡ some (t / 60_000_000_000)
unfolding format_receipt_date_time
read_receipt_date_time-format t lo hi =
    let seconds = t / 1_000_000_000 in
    let date = date_of (seconds / 86400) in
    let (same, from, to, months, days) =
      date_of_century (seconds / 86400) (omega arith) (omega arith) in
    five_pairs (date.year % 100) date.month date.day (seconds % 86400 / 3600)
      (seconds % 86400 % 3600 / 60) (omega arith) (omega (arith, months)) (omega (arith, days))
      (omega arith) (omega arith)
    ∙ ap
        (λ d.
          some (day_number d * 1440 + seconds % 86400 / 3600 * 60 + seconds % 86400 % 3600 / 60))
        (in_2000s date from to)
    ∙ ap (λ n. some (n * 1440 + seconds % 86400 / 3600 * 60 + seconds % 86400 % 3600 / 60)) same
    ∙ ap some (minutes_lem t)
