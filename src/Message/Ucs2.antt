-- ===== src/Message/Ucs2.antt =====
-- UCS-2 short messages: `DecodeMessage` against an encoder in terms of runes.
use smpp_smsc.Base.{
  ℕ, ◌+◌, ◌/◌, ◌%◌, ◌<◌, ◌≡◌, ◌≢◌, refl, inl, ap, sym, ◌∙◌, some, List, [], ◌∷◌, ◌++◌, Bytes, All,
  arith, length,
}
use smpp_smsc.Text.{utf8, utf16_encode, utf16_decode}
use smpp_smsc.Text.RoundTrip.{IsScalar}
use smpp_smsc.Text.Utf16.{utf16_encode_bmp, utf16_encode_head, utf16_decode-utf16_encode}
use smpp_smsc.Wire.{GoSmpp}
use smpp_smsc.Message.{
  be_units, decode_ucs2, decode_by, effective_coding, decode_body, decode_message, strip_udh,
  create_udh,
}
use smpp_smsc.Message.Header.{decode_message-create_udh}

-- The units in big-endian order.
abbrev pub unit_bytes : List ℕ → Bytes
unit_bytes [] = []
unit_bytes (u ∷ us) = (u / 256) ∷ (u % 256) ∷ unit_bytes us

-- A text in UCS-2 with surrogate pairs, as a client sends it under the UCS-2 data coding.
abbrev pub ucs2_bytes : List ℕ → Bytes
ucs2_bytes rs = unit_bytes (utf16_encode rs)

be_units-unit_bytes : (us : List ℕ) → be_units (unit_bytes us) ≡ us
unfolding be_units
be_units-unit_bytes [] = refl
be_units-unit_bytes (u ∷ us) = ground (arith, be_units-unit_bytes us)

unit_bytes_even : (us : List ℕ) → length (unit_bytes us) % 2 ≡ 0
unit_bytes_even [] = refl
unit_bytes_even (u ∷ us) = omega (arith, unit_bytes_even us)

decode_ucs2-ucs2_bytes : (rs : List ℕ) → All IsScalar rs → decode_ucs2 (ucs2_bytes rs) ≡ utf8 rs
unfolding decode_ucs2
decode_ucs2-ucs2_bytes rs h =
    rw (unit_bytes_even (utf16_encode rs), be_units-unit_bytes (utf16_encode rs))
      (ap utf8 (utf16_decode-utf16_encode rs h))

-- Units that DecodeMessage does not take for a header.
strip_udh_keeps :
    (u : ℕ) (us : List ℕ)
    → u ≢ 0x500
    → u ≢ 0x608
    → strip_udh (unit_bytes (u ∷ us)) ≡ unit_bytes (u ∷ us)
unfolding strip_udh
strip_udh_keeps u us n m = ground arith

strip_udh_cuts :
    (c x : ℕ) (us : List ℕ)
    → c < 256
    → strip_udh (unit_bytes (0x500 ∷ (0x300 + c) ∷ x ∷ us)) ≡ unit_bytes us
unfolding strip_udh
strip_udh_cuts c x us h = ground arith

module _ (lib : GoSmpp) (apart : lib.ucs2_type ≢ lib.default_type) where
  decode_by-ucs2 : (m : Bytes) → decode_by lib m lib.ucs2_type ≡ some (decode_ucs2 m)
  unfolding decode_by
  decode_by-ucs2 m = ground arith

  effective_coding-ucs2 : (m : Bytes) → effective_coding lib m lib.ucs2_type ≡ lib.ucs2_type
  unfolding effective_coding
  effective_coding-ucs2 m = ground arith

  decode_body-ucs2 : (m : Bytes) → decode_body lib m lib.ucs2_type ≡ some (decode_ucs2 m)
  unfolding decode_body
  decode_body-ucs2 [] = unfold decode_ucs2 be_units utf16_decode utf8 in refl
  decode_body-ucs2 (b ∷ r) = rw (effective_coding-ucs2 (b ∷ r)) (decode_by-ucs2 (b ∷ r))

  -- A message whose first unit is known, by what is left of it.
  decode_message-strip_udh :
      (u : ℕ) (us : List ℕ) {m body : Bytes}
      → m ≡ unit_bytes (u ∷ us)
      → strip_udh (unit_bytes (u ∷ us)) ≡ body
      → decode_message lib m lib.ucs2_type ≡ decode_body lib body lib.ucs2_type
  unfolding decode_message
  decode_message-strip_udh u us e k = rw (e, k)

  -- DecodeMessage of a UCS-2 segment, a concatenation header and then a text of Unicode scalar
  -- values in UTF-16, gives that text in UTF-8.
  pub decode_message-ucs2_segment :
      (message_ref total segment : ℕ) (rs : List ℕ)
      → All IsScalar rs
      → decode_message lib (create_udh message_ref total segment ++ ucs2_bytes rs) lib.ucs2_type
        ≡ some (utf8 rs)
  decode_message-ucs2_segment message_ref total segment rs h =
      decode_message-create_udh lib message_ref total segment (ucs2_bytes rs) lib.ucs2_type
      ∙ decode_body-ucs2 (ucs2_bytes rs)
      ∙ ap some (decode_ucs2-ucs2_bytes rs h)

  -- DecodeMessage of a UCS-2 message with no header gives the text in UTF-8, for a text of Unicode
  -- scalar values whose first character is neither U+0500 nor U+0608.
  pub decode_message-ucs2 :
      (r : ℕ) (rs : List ℕ)
      → All IsScalar (r ∷ rs)
      → r ≢ 0x500
      → r ≢ 0x608
      → decode_message lib (ucs2_bytes (r ∷ rs)) lib.ucs2_type ≡ some (utf8 (r ∷ rs))
  decode_message-ucs2 r rs h n m =
      let (u, us, e, k) = utf16_encode_head r rs h.0 in
      decode_message-strip_udh u us (ap unit_bytes e)
        (strip_udh_keeps u us (ground arith) (ground arith))
      ∙ decode_body-ucs2 (unit_bytes (u ∷ us))
      ∙ ap (λ us. some (decode_ucs2 (unit_bytes us))) (sym e)
      ∙ ap some (decode_ucs2-ucs2_bytes (r ∷ rs) h)

  -- A UCS-2 text with no header that begins U+0500, then a character from U+0300 to U+03FF, then
  -- any third one of the basic plane (up to U+FFFF), loses these three characters: DecodeMessage takes
  -- them for a header.
  pub decode_message-ucs2_loss :
      (c x : ℕ) (rs : List ℕ)
      → c < 256
      → IsScalar x
      → x < 0x10000
      → All IsScalar rs
      → decode_message lib (ucs2_bytes (0x500 ∷ (0x300 + c) ∷ x ∷ rs)) lib.ucs2_type
        ≡ some (utf8 rs)
  decode_message-ucs2_loss c x rs hc v hx h =
      decode_message-strip_udh 0x500 ((0x300 + c) ∷ x ∷ utf16_encode rs) (ap unit_bytes units)
        (strip_udh_cuts c x (utf16_encode rs) hc)
      ∙ decode_body-ucs2 (ucs2_bytes rs)
      ∙ ap some (decode_ucs2-ucs2_bytes rs h)
    where
      units :
          utf16_encode (0x500 ∷ (0x300 + c) ∷ x ∷ rs) ≡ 0x500 ∷ (0x300 + c) ∷ x ∷ utf16_encode rs
      units =
          utf16_encode_bmp 0x500 _ (inl (omega arith)) (omega arith)
          ∙ ap (◌∷◌ 0x500) (
              utf16_encode_bmp (0x300 + c) _ (inl (omega arith)) (omega arith)
              ∙ ap (◌∷◌ (0x300 + c)) (utf16_encode_bmp x rs v hx))
