-- ===== src/Charset.antt =====
-- The GSM 7-bit alphabets of internal/smsc/utils.go by code points, the tests on text that use
-- them, and `calcSegments` of internal/smsc/session.go.
pub mod Counts
use smpp_smsc.Base.{
  ℕ, ◌+◌, ◌/◌, ◌%◌, Bool, true, false, not, ◌&&◌, ◌||◌, Option, none, some, List, [], ◌∷◌, Bytes,
  nat_eq, ltb, leb, ◌==◌, if◌then◌else◌, length,
}
use smpp_smsc.Text.{runes, utf16_encode}
use smpp_smsc.Wire.{GoSmpp}

pub contains : List ℕ → ℕ → Bool
contains [] r = false
contains (k ∷ ks) r = k == r || contains ks r

pub gsm7_bit_charset : List ℕ
gsm7_bit_charset =
    0x40 ∷ 0xa3 ∷ 0x24 ∷ 0xa5 ∷ 0xe8 ∷ 0xe9 ∷ 0xf9 ∷ 0xec ∷ 0xf2 ∷ 0xc7 ∷ 0xa ∷ 0xd8 ∷ 0xf8 ∷ 0xd
    ∷ 0xc5 ∷ 0xe5 ∷ 0x394 ∷ 0x5f ∷ 0x3a6 ∷ 0x393 ∷ 0x39b ∷ 0x3a9 ∷ 0x3a0 ∷ 0x3a8 ∷ 0x3a3 ∷ 0x398
    ∷ 0x39e ∷ 0x1b ∷ 0xc6 ∷ 0xe6 ∷ 0xdf ∷ 0xc9 ∷ 0x20 ∷ 0x21 ∷ 0x22 ∷ 0x23 ∷ 0xa4 ∷ 0x25 ∷ 0x26
    ∷ 0x27 ∷ 0x28 ∷ 0x29 ∷ 0x2a ∷ 0x2b ∷ 0x2c ∷ 0x2d ∷ 0x2e ∷ 0x2f ∷ 0x30 ∷ 0x31 ∷ 0x32 ∷ 0x33
    ∷ 0x34 ∷ 0x35 ∷ 0x36 ∷ 0x37 ∷ 0x38 ∷ 0x39 ∷ 0x3a ∷ 0x3b ∷ 0x3c ∷ 0x3d ∷ 0x3e ∷ 0x3f ∷ 0xa1
    ∷ 0x41 ∷ 0x42 ∷ 0x43 ∷ 0x44 ∷ 0x45 ∷ 0x46 ∷ 0x47 ∷ 0x48 ∷ 0x49 ∷ 0x4a ∷ 0x4b ∷ 0x4c ∷ 0x4d
    ∷ 0x4e ∷ 0x4f ∷ 0x50 ∷ 0x51 ∷ 0x52 ∷ 0x53 ∷ 0x54 ∷ 0x55 ∷ 0x56 ∷ 0x57 ∷ 0x58 ∷ 0x59 ∷ 0x5a
    ∷ 0xc4 ∷ 0xd6 ∷ 0xd1 ∷ 0xdc ∷ 0xa7 ∷ 0xbf ∷ 0x61 ∷ 0x62 ∷ 0x63 ∷ 0x64 ∷ 0x65 ∷ 0x66 ∷ 0x67
    ∷ 0x68 ∷ 0x69 ∷ 0x6a ∷ 0x6b ∷ 0x6c ∷ 0x6d ∷ 0x6e ∷ 0x6f ∷ 0x70 ∷ 0x71 ∷ 0x72 ∷ 0x73 ∷ 0x74
    ∷ 0x75 ∷ 0x76 ∷ 0x77 ∷ 0x78 ∷ 0x79 ∷ 0x7a ∷ 0xe4 ∷ 0xf6 ∷ 0xf1 ∷ 0xfc ∷ 0xe0 ∷ []

pub gsm7_bit_charset_ext : List ℕ
gsm7_bit_charset_ext = 0x5e ∷ 0x7b ∷ 0x7d ∷ 0x5c ∷ 0x5b ∷ 0x7e ∷ 0x5d ∷ 0x7c ∷ 0x20ac ∷ []

all_in : List ℕ → List ℕ → Bool
unfolding contains
all_in ks [] = true
all_in ks (r ∷ rs) = contains ks r && all_in ks rs

unfoldable pub is_gsm7_bit : Bytes → Bool
unfolding all_in gsm7_bit_charset
is_gsm7_bit s = all_in gsm7_bit_charset (runes s)

-- A control byte other than \n, \r and \t.
unfoldable pub is_binary : Bytes → Bool
is_binary [] = false
is_binary (b ∷ s) = (ltb b 32 && (not (b == 10) && (not (b == 13) && not (b == 9)))) || is_binary s

-- The data coding and the length of a single message.
unfoldable pub detect_encoding : GoSmpp → Bytes → ℕ × ℕ
unfolding is_binary is_gsm7_bit
detect_encoding lib message =
    if not (is_binary message) && is_gsm7_bit message
    then (lib.default_type, 160)
    else (lib.ucs2_type, 70)

count_septets : List ℕ → ℕ → Option ℕ
unfolding contains gsm7_bit_charset gsm7_bit_charset_ext
count_septets [] count = some count
count_septets (r ∷ rs) count =
    let basic = count_septets rs (count + 1) in
    let extended = count_septets rs (count + 2) in
    if contains gsm7_bit_charset r
    then basic
    else if contains gsm7_bit_charset_ext r
    then extended
    else none

-- `none` is -1: a rune outside both alphabets.
unfoldable pub gsm7_septet_count : Bytes → Option ℕ
unfolding count_septets
gsm7_septet_count text = count_septets (runes text) 0

-- The number of parts for a length, in uint8.
unfoldable pub parts : ℕ → ℕ → ℕ → ℕ
parts max_single max_concat len =
    if leb len max_single
    then 1
    else if len % max_concat == 0
    then len / max_concat % 256
    else (len / max_concat + 1) % 256

unfoldable pub calc_ucs2 : Bytes → ℕ
unfolding parts
calc_ucs2 text = parts 70 67 (length (utf16_encode (runes text)))

unfoldable pub calc_gsm7 : Bytes → Option ℕ → ℕ
unfolding parts calc_ucs2
calc_gsm7 text none = calc_ucs2 text
calc_gsm7 text (some septets) = parts 160 153 septets

unfoldable pub calc_segments : ℕ → Bytes → ℕ
unfolding calc_gsm7 calc_ucs2 parts gsm7_septet_count
calc_segments data_coding text =
    if data_coding == 0
    then calc_gsm7 text (gsm7_septet_count text)
    else if data_coding == 8
    then calc_ucs2 text
    else parts 140 134 (length text)
