-- ===== src/Message/Tests.antt =====
-- Runs of the functions of utils.go.
use smpp_smsc.Base.{◌+◌, ◌%◌, ◌≡◌, ◌≢◌, refl, inl, some, [], ◌∷◌, ◌++◌, arith}
use smpp_smsc.Text.{utf8}
use smpp_smsc.Wire.Samples.{smpp34}
use smpp_smsc.Message.{parse_udh, create_udh, decode_message}
use smpp_smsc.Message.Header.{parse_udh-create_udh}
use smpp_smsc.Message.Tlv.{parse_tlv, write_tlvs, store_tlvs, parse_tlv-write}
use smpp_smsc.Message.Ucs2.{
  ucs2_bytes, decode_message-ucs2_segment, decode_message-ucs2, decode_message-ucs2_loss,
}
use smpp_smsc.Message.Ids.{build_message_id_from_clock, parse_message_id, parse_message_id-build}

parse_tlv-write_example :
    parse_tlv (write_tlvs ((0x0424, 1 ∷ 2 ∷ []) ∷ (7, []) ∷ (0x0424, 3 ∷ []) ∷ []) (4 ∷ 36 ∷ [])) 0
    ≡ store_tlvs ((0x0424, 1 ∷ 2 ∷ []) ∷ (7, []) ∷ (0x0424, 3 ∷ []) ∷ []) []
parse_tlv-write_example =
    parse_tlv-write ((0x0424, 1 ∷ 2 ∷ []) ∷ (7, []) ∷ (0x0424, 3 ∷ []) ∷ []) (4 ∷ 36 ∷ [])
      (omega arith)

sixteen_bit_reference :
    parse_udh (6 ∷ 8 ∷ 4 ∷ 1 ∷ 2 ∷ 3 ∷ 2 ∷ [])
    ≡ some (record { message_ref = 258; total_segments = 3; segment_number = 2 })
unfolding parse_udh
sixteen_bit_reference = refl

apart : smpp34.ucs2_type ≢ smpp34.default_type
apart e = absurd (omega (arith, e))

parse_udh-create_udh_example :
    parse_udh (create_udh 300 3 2 ++ 65 ∷ [])
    ≡ some (record { message_ref = 300 % 256; total_segments = 3; segment_number = 2 })
parse_udh-create_udh_example =
    parse_udh-create_udh 300 3 2 (65 ∷ []) (omega arith) (omega arith) (omega arith)

decode_message-ucs2_segment_example :
    decode_message smpp34 (create_udh 1 2 1 ++ ucs2_bytes (0x41 ∷ [])) smpp34.ucs2_type
    ≡ some (utf8 (0x41 ∷ []))
decode_message-ucs2_segment_example =
    decode_message-ucs2_segment smpp34 apart 1 2 1 (0x41 ∷ []) (inl (omega arith), tt)

decode_message-ucs2_example :
    decode_message smpp34 (ucs2_bytes (0x41 ∷ 0x42 ∷ [])) smpp34.ucs2_type
    ≡ some (utf8 (0x41 ∷ 0x42 ∷ []))
decode_message-ucs2_example =
    decode_message-ucs2 smpp34 apart 0x41 (0x42 ∷ []) (inl (omega arith), (inl (omega arith), tt))
      (λ e. absurd (omega (arith, e))) (λ e. absurd (omega (arith, e)))

decode_message-ucs2_loss_example :
    decode_message smpp34 (ucs2_bytes (0x500 ∷ (0x300 + 3) ∷ 0x41 ∷ 0x42 ∷ [])) smpp34.ucs2_type
    ≡ some (utf8 (0x42 ∷ []))
decode_message-ucs2_loss_example =
    decode_message-ucs2_loss smpp34 apart 3 0x41 (0x42 ∷ []) (omega arith) (inl (omega arith))
      (omega arith) (inl (omega arith), tt)

parse_message_id-build_example : parse_message_id (build_message_id_from_clock 7 42) ≡ some (7, 42)
parse_message_id-build_example = parse_message_id-build 7 42 (omega arith) (omega arith)
