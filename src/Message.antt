-- ===== src/Message.antt =====
-- internal/smsc/utils.go: user data headers, the guess at UCS-2, and the text codecs of a short
-- message. Codecs of other modules are fields of the `GoSmpp` argument.
pub mod Header
pub mod Ucs2
pub mod Ids
pub mod Names
pub mod Tlv
mod Tests
use smpp_smsc.Base.{
  ℕ, zero, suc, ◌+◌, ◌*◌, ◌/◌, ◌%◌, Bool, true, false, ◌&&◌, ◌||◌, Option, none, some, List, [],
  ◌∷◌, Bytes, nat_eq, ltb, leb, ◌==◌, if◌then◌else◌, length, get_or, drop,
}
use smpp_smsc.Base.Octets.{be16}
use smpp_smsc.Text.{utf8, utf16_decode}
use smpp_smsc.Wire.{GoSmpp}

-- What `ParseUDH` returns, or its error.
pub record UdhInfo : Type 0 where
  pub message_ref : ℕ
  pub total_segments : ℕ
  pub segment_number : ℕ

-- The three numbers of the header at the front of `octets`, if it has one of the two formats.
udh_fields : Bytes → Option UdhInfo
udh_fields octets =
    if get_or octets 0 0 == 5 && (get_or octets 1 0 == 0 && get_or octets 2 0 == 3)
    then some (record {
      message_ref = get_or octets 3 0;
      total_segments = get_or octets 4 0;
      segment_number = get_or octets 5 0;
    })
    else if get_or octets 0 0 == 6 && (get_or octets 1 0 == 8 && get_or octets 2 0 == 4)
    then some (record {
      message_ref = be16 (get_or octets 3 0) (get_or octets 4 0);
      total_segments = get_or octets 5 0;
      segment_number = get_or octets 6 0;
    })
    else none

check_segment_number : Option UdhInfo → Option UdhInfo
check_segment_number none = none
check_segment_number (some u) =
    if u.segment_number == 0 || ltb u.total_segments u.segment_number then none else some u

unfoldable pub parse_udh : Bytes → Option UdhInfo
unfolding udh_fields check_segment_number
parse_udh octets =
    if ltb (length octets) 6
    then none
    else if ltb (length octets) (get_or octets 0 0 + 1)
    then none
    else check_segment_number (udh_fields octets)

unfoldable pub create_udh : ℕ → ℕ → ℕ → Bytes
create_udh message_ref total segment =
    5 ∷ 0 ∷ 3 ∷ (message_ref % 256) ∷ (total % 256) ∷ (segment % 256) ∷ []

-- The pairs whose first byte is at most 0x1F.
count_low : Bytes → ℕ
count_low [] = 0
count_low (a ∷ []) = 0
count_low (a ∷ b ∷ r) = (if leb a 0x1f then 1 else 0) + count_low r

unfoldable pub guess_ucs2 : Bytes → Bool
unfolding count_low
guess_ucs2 message =
    if length message % 2 == 0 then ltb (length message / 2) (count_low message * 2) else false

-- The first step of `DecodeMessage`: a concatenation header is cut off.
unfoldable pub strip_udh : Bytes → Bytes
strip_udh message =
    let n = get_or message 0 0 in
    if ltb 1 (length message)
      && (ltb 0 n && ltb n (length message))
      && ((n == 5 && (get_or message 1 0 == 0 && get_or message 2 0 == 3))
          || (n == 6 && (get_or message 1 0 == 8 && get_or message 2 0 == 4)))
    then drop (n + 1) message
    else message

-- The big-endian 16-bit units of an even number of bytes.
unfoldable pub be_units : Bytes → List ℕ
be_units [] = []
be_units (a ∷ []) = []
be_units (a ∷ b ∷ r) = be16 a b ∷ be_units r

unfoldable pub decode_ucs2 : Bytes → Bytes
unfolding be_units
decode_ucs2 message =
    if length message % 2 == 0 then utf8 (utf16_decode (be_units message)) else message

unfoldable pub all_seven_bit : Bytes → Bool
all_seven_bit [] = true
all_seven_bit (b ∷ r) = leb b 127 && all_seven_bit r

module _ (lib : GoSmpp) where
  -- The coding that `DecodeMessage` goes by.
  unfoldable pub effective_coding : Bytes → ℕ → ℕ
  effective_coding message data_coding =
      if data_coding == lib.default_type && guess_ucs2 message then lib.ucs2_type else data_coding

  unfoldable pub decode_by : Bytes → ℕ → Option Bytes
  unfolding all_seven_bit decode_ucs2
  decode_by message data_coding =
      if data_coding == lib.default_type
      then some (
          if all_seven_bit message then lib.gsm7_decode message else lib.gsm7_packed_decode message)
      else if data_coding == lib.ucs2_type
      then some (decode_ucs2 message)
      else if data_coding == lib.latin1_type
      then lib.windows1252_decode message
      else if data_coding == lib.iso88595_type
      then lib.iso8859_5_decode message
      else some message

  unfoldable pub decode_body : Bytes → ℕ → Option Bytes
  unfolding effective_coding decode_by
  decode_body [] data_coding = some []
  decode_body (b ∷ r) data_coding = decode_by (b ∷ r) (effective_coding (b ∷ r) data_coding)

  -- `none` is an error of a charmap decoder.
  unfoldable pub decode_message : Bytes → ℕ → Option Bytes
  unfolding decode_body
  decode_message [] data_coding = some []
  decode_message (b ∷ r) data_coding = decode_body (strip_udh (b ∷ r)) data_coding

  unfoldable pub encode_message : Bytes → ℕ → Option Bytes
  encode_message text data_coding =
      if data_coding == lib.default_type
      then some (lib.gsm7_encode text)
      else if data_coding == lib.ucs2_type
      then some (lib.ucs2_encode text)
      else if data_coding == lib.latin1_type
      then lib.windows1252_encode text
      else if data_coding == lib.iso88595_type
      then lib.iso8859_5_encode text
      else none
