-- ===== src/Charset/Counts.antt =====
-- How many parts a text is counted as.
use smpp_smsc.Base.{
  ℕ, ◌/◌, ◌+◌, ◌*◌, ◌≤◌, ◌<◌, ◌≡◌, ◌⊎◌, Option, none, some, Bytes, nat_eq, ◌==◌, if◌then◌else◌,
  length,
}
use smpp_smsc.Text.{runes, utf16_encode}
use smpp_smsc.Charset.{gsm7_septet_count}

-- How a text is counted: the bits of a unit, and the number of units. Coding 0 counts septets, and
-- UTF-16 units where a rune is outside the alphabets; coding 8 counts UTF-16 units; any other octets.
septets_or_units : Bytes → Option ℕ → ℕ × ℕ
septets_or_units text none = (16, length (utf16_encode (runes text)))
septets_or_units text (some septets) = (7, septets)

unfoldable pub counted_as : ℕ → Bytes → ℕ × ℕ
unfolding septets_or_units
counted_as data_coding text =
    if data_coding == 0
    then septets_or_units text (gsm7_septet_count text)
    else if data_coding == 8
    then (16, length (utf16_encode (runes text)))
    else (8, length text)

-- One part for at most 140 octets; else at least two, the least number of parts that hold the units
-- with 134 octets in each.
abbrev pub IsCount : ℕ × ℕ → ℕ → Type 0
IsCount (bits, units) n =
    ((bits * units ≤ 140 * 8) × (n ≡ 1))
    ⊎ ((140 * 8 < bits * units)
        × (2 ≤ n)
        × (units ≤ n * (134 * 8 / bits))
        × (n * (134 * 8 / bits) < units + 134 * 8 / bits))
