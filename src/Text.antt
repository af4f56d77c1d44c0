-- ===== src/Text.antt =====
-- Go's strings and runes: a string is its bytes. `runes` is `[]rune(s)` and the order of
-- `for _, r := range s`; `utf8` is `string(rs)`; `utf16_encode` and `utf16_decode` are the two
-- functions of unicode/utf16. They are the language's, and the code under internal/smsc calls them.
pub mod RoundTrip
pub mod Utf16
use Prim.Native.Char.{code}
use Prim.Native.String.{String}
use Prim.Native.String
use smpp_smsc.Base.{ℕ, zero, suc, ◌+◌, ◌-◌, ◌*◌, ◌/◌, ◌%◌, Bool, ◌&&◌, ◌||◌, List, [], ◌∷◌, ◌++◌}
use smpp_smsc.Base.{Bytes, nat_eq, ltb, leb, ◌==◌, if◌then◌else◌}

-- The bytes of an ASCII literal.
abbrev pub codes : String → Bytes
codes String.[] = []
codes (String.◌∷◌ c s) = code c ∷ codes s

-- utf8.RuneError, which stands for bytes that are no UTF-8.
abbrev pub rune_error : ℕ
rune_error = 0xfffd

-- A continuation byte, and the tighter bounds on the second byte of a rune.
unfoldable pub is_cont : ℕ → Bool
is_cont b = leb 0x80 b && leb b 0xbf

second_of_three : ℕ → ℕ → Bool
second_of_three a b =
    leb (if a == 0xe0 then 0xa0 else 0x80) b && leb b (if a == 0xed then 0x9f else 0xbf)

second_of_four : ℕ → ℕ → Bool
second_of_four a b =
    leb (if a == 0xf0 then 0x90 else 0x80) b && leb b (if a == 0xf4 then 0x8f else 0xbf)

two_bytes : ℕ → Bytes → ℕ × ℕ
two_bytes a [] = (rune_error, 1)
two_bytes a (b ∷ r) = if is_cont b then ((a - 0xc0) * 64 + (b - 0x80), 2) else (rune_error, 1)

three_bytes : ℕ → Bytes → ℕ × ℕ
three_bytes a [] = (rune_error, 1)
three_bytes a (b ∷ []) = (rune_error, 1)
three_bytes a (b ∷ c ∷ r) =
    if second_of_three a b && is_cont c
    then ((a - 0xe0) * 4096 + (b - 0x80) * 64 + (c - 0x80), 3)
    else (rune_error, 1)

four_bytes : ℕ → Bytes → ℕ × ℕ
four_bytes a [] = (rune_error, 1)
four_bytes a (b ∷ []) = (rune_error, 1)
four_bytes a (b ∷ c ∷ []) = (rune_error, 1)
four_bytes a (b ∷ c ∷ d ∷ r) =
    if second_of_four a b && (is_cont c && is_cont d)
    then ((a - 0xf0) * 262144 + (b - 0x80) * 4096 + (c - 0x80) * 64 + (d - 0x80), 4)
    else (rune_error, 1)

-- The rune at the front of `a ∷ r` and its width in bytes.
unfoldable pub decode_rune : ℕ → Bytes → ℕ × ℕ
unfolding two_bytes three_bytes four_bytes second_of_three second_of_four is_cont
decode_rune a r =
    if ltb a 0x80
    then (a, 1)
    else if ltb a 0xc2
    then (rune_error, 1)
    else if ltb a 0xe0
    then two_bytes a r
    else if ltb a 0xf0
    then three_bytes a r
    else if ltb a 0xf5
    then four_bytes a r
    else (rune_error, 1)

-- The first `skip` bytes belong to a rune that is already read.
unfoldable pub runes_from : ℕ → Bytes → List ℕ
unfolding decode_rune
runes_from skip [] = []
runes_from (suc skip) (a ∷ r) = runes_from skip r
runes_from zero (a ∷ r) = let d = decode_rune a r in d.0 ∷ runes_from (d.1 - 1) r

unfoldable pub runes : Bytes → List ℕ
unfolding runes_from
runes s = runes_from 0 s

is_surrogate : ℕ → Bool
is_surrogate r = leb 0xd800 r && leb r 0xdfff

unfoldable pub utf8_rune : ℕ → Bytes
unfolding is_surrogate
utf8_rune r =
    if ltb r 0x80
    then r ∷ []
    else if ltb r 0x800
    then (0xc0 + r / 64) ∷ (0x80 + r % 64) ∷ []
    else if is_surrogate r || ltb 0x10ffff r
    then 0xef ∷ 0xbf ∷ 0xbd ∷ []
    else if ltb r 0x10000
    then (0xe0 + r / 4096) ∷ (0x80 + r / 64 % 64) ∷ (0x80 + r % 64) ∷ []
    else (0xf0 + r / 262144) ∷ (0x80 + r / 4096 % 64) ∷ (0x80 + r / 64 % 64) ∷ (0x80 + r % 64) ∷ []

unfoldable pub utf8 : List ℕ → Bytes
unfolding utf8_rune
utf8 [] = []
utf8 (r ∷ rs) = utf8_rune r ++ utf8 rs

utf16_rune : ℕ → List ℕ
unfolding is_surrogate
utf16_rune r =
    if is_surrogate r || ltb 0x10ffff r
    then rune_error ∷ []
    else if ltb r 0x10000
    then r ∷ []
    else (0xd800 + (r - 0x10000) / 1024) ∷ (0xdc00 + (r - 0x10000) % 1024) ∷ []

unfoldable pub utf16_encode : List ℕ → List ℕ
unfolding utf16_rune
utf16_encode [] = []
utf16_encode (r ∷ rs) = utf16_rune r ++ utf16_encode rs

is_high : ℕ → Bool
is_high u = leb 0xd800 u && leb u 0xdbff

is_low : ℕ → Bool
is_low u = leb 0xdc00 u && leb u 0xdfff

-- The rune that the unit `u` begins before the units `r`, and how many units it takes.
utf16_unit : ℕ → List ℕ → ℕ × ℕ
unfolding is_high is_low is_surrogate
utf16_unit u [] = (if is_surrogate u then rune_error else u, 1)
utf16_unit u (v ∷ r) =
    if is_high u && is_low v
    then ((u - 0xd800) * 1024 + (v - 0xdc00) + 0x10000, 2)
    else (if is_surrogate u then rune_error else u, 1)

utf16_from : ℕ → List ℕ → List ℕ
unfolding utf16_unit
utf16_from skip [] = []
utf16_from (suc skip) (u ∷ r) = utf16_from skip r
utf16_from zero (u ∷ r) = let d = utf16_unit u r in d.0 ∷ utf16_from (d.1 - 1) r

unfoldable pub utf16_decode : List ℕ → List ℕ
unfolding utf16_from
utf16_decode us = utf16_from 0 us
