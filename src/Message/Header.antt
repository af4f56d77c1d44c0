-- ===== src/Message/Header.antt =====
-- The concatenation headers of utils.go: `ParseUDH`, `CreateUDH`, and the cut in `DecodeMessage`.
use smpp_smsc.Base.{ℕ, ◌%◌, ◌≤◌, ◌<◌, ◌≡◌, ap, some, ◌∷◌, ◌++◌, Bytes, arith, length}
use smpp_smsc.Wire.{GoSmpp}
use smpp_smsc.Message.{UdhInfo, parse_udh, create_udh, strip_udh, decode_body, decode_message}

-- A header that CreateUDH writes is read back by ParseUDH with any bytes behind it, when
-- 1 <= segment <= total < 256; the reference number is kept modulo 256.
pub parse_udh-create_udh :
    (message_ref total segment : ℕ) (rest : Bytes)
    → 1 ≤ segment
    → segment ≤ total
    → total < 256
    → parse_udh (create_udh message_ref total segment ++ rest)
      ≡ some (record {
        message_ref = message_ref % 256;
        total_segments = total;
        segment_number = segment;
      })
unfolding parse_udh create_udh
parse_udh-create_udh message_ref total segment rest h k l = ground arith

-- Whatever ParseUDH accepts has a segment number from 1 to the total, and is longer than the
-- header that it announces, so that cutting `data[0] + 1` bytes off stays in range.
parse_udh_bounds :
    (n : ℕ) (rest : Bytes) (u : UdhInfo)
    → parse_udh (n ∷ rest) ≡ some u
    → (1 ≤ u.segment_number) × (u.segment_number ≤ u.total_segments) × (n ≤ length rest)
unfolding parse_udh
parse_udh_bounds n rest u h = ground arith

strip_udh-create_udh :
    (message_ref total segment : ℕ) (body : Bytes)
    → strip_udh (create_udh message_ref total segment ++ body) ≡ body
unfolding strip_udh create_udh
strip_udh-create_udh message_ref total segment body = ground arith

-- DecodeMessage of a segment, a header that CreateUDH wrote before a body, is what it makes of the
-- body alone, whatever the data coding.
pub decode_message-create_udh :
    (lib : GoSmpp) (message_ref total segment : ℕ) (body : Bytes) (data_coding : ℕ)
    → decode_message lib (create_udh message_ref total segment ++ body) data_coding
      ≡ decode_body lib body data_coding
unfolding decode_message create_udh
decode_message-create_udh lib message_ref total segment body data_coding =
    ap (λ m. decode_body lib m data_coding) (strip_udh-create_udh message_ref total segment body)
