-- ===== src/Message/Tlv.antt =====
-- ParseTLV of internal/smsc/utils.go: the optional parameters at the end of a PDU.
use smpp_smsc.Base.{
  ℕ, zero, suc, ◌/◌, ◌%◌, ◌≤◌, ◌<◌, ◌≡◌, refl, ap, false, List, [], ◌∷◌, ◌++◌, Bytes, nat_eq, ltb,
  leb, if◌then◌else◌, length, length-append, inl, inr, Bool-cases, take, drop, arith,
}
use smpp_smsc.Base.Maps.{insert}
use smpp_smsc.Base.Octets.{be16}

-- `fuel` is the number of bytes; a parameter that is cut off ends the loop.
unfoldable pub tlvs_from : ℕ → Bytes → List (ℕ × Bytes) → List (ℕ × Bytes)
tlvs_from zero octets tlvs = tlvs
tlvs_from (suc fuel) (a ∷ b ∷ c ∷ d ∷ rest) tlvs =
    let size = be16 c d in
    let later = tlvs_from fuel (drop size rest) (insert (be16 a b) (take size rest) tlvs) in
    if ltb (length rest) size then tlvs else later
tlvs_from (suc fuel) _ tlvs = tlvs

unfoldable pub parse_tlv : Bytes → ℕ → List (ℕ × Bytes)
unfolding tlvs_from
parse_tlv octets offset =
    if leb (length octets) offset then [] else tlvs_from (length octets) (drop offset octets) []

-- A parameter as SMPP 3.4 writes it: tag, length and value.
abbrev pub write_tlv : ℕ → Bytes → Bytes
write_tlv tag value = tag / 256 ∷ tag % 256 ∷ length value / 256 ∷ length value % 256 ∷ value

abbrev pub write_tlvs : List (ℕ × Bytes) → Bytes → Bytes
write_tlvs [] tail = tail
write_tlvs ((tag, value) ∷ tlvs) tail = write_tlv tag value ++ write_tlvs tlvs tail

abbrev pub store_tlvs : List (ℕ × Bytes) → List (ℕ × Bytes) → List (ℕ × Bytes)
store_tlvs [] m = m
store_tlvs ((tag, value) ∷ tlvs) m = store_tlvs tlvs (insert tag value m)

short_tail :
    (fuel : ℕ) (tail : Bytes) (m : List (ℕ × Bytes)) → length tail < 4 → tlvs_from fuel tail m ≡ m
unfolding tlvs_from
short_tail zero tail m h = refl
short_tail (suc fuel) [] m h = refl
short_tail (suc fuel) (a ∷ []) m h = refl
short_tail (suc fuel) (a ∷ b ∷ []) m h = refl
short_tail (suc fuel) (a ∷ b ∷ c ∷ []) m h = refl
short_tail (suc fuel) (a ∷ b ∷ c ∷ d ∷ r) m h = absurd (omega (arith, h))

take-append : (xs ys : Bytes) → take (length xs) (xs ++ ys) ≡ xs
take-append [] ys = refl
take-append (x ∷ xs) ys = ap (λ t. x ∷ t) (take-append xs ys)

drop-append : (xs ys : Bytes) → drop (length xs) (xs ++ ys) ≡ ys
drop-append [] ys = refl
drop-append (x ∷ xs) ys = drop-append xs ys

tlvs_from-write :
    (fuel : ℕ) (tlvs : List (ℕ × Bytes)) (tail : Bytes) (m : List (ℕ × Bytes))
    → length (write_tlvs tlvs tail) ≤ fuel
    → length tail < 4
    → tlvs_from fuel (write_tlvs tlvs tail) m ≡ store_tlvs tlvs m
unfolding tlvs_from
tlvs_from-write fuel [] tail m f h = short_tail fuel tail m h
tlvs_from-write zero ((tag, value) ∷ tlvs) tail m f h = absurd (omega (arith, f))
tlvs_from-write (suc fuel) ((tag, value) ∷ tlvs) tail m f h =
    let next = write_tlvs tlvs tail in
    let number : be16 (tag / 256) (tag % 256) ≡ tag = omega arith in
    let size : be16 (length value / 256) (length value % 256) ≡ length value = omega arith in
    let room : ltb (length (value ++ next)) (length value) ≡ false =
      ground (arith, length-append value next) in
    rw (number, size, room)
      (rw (take-append value next, drop-append value next)
        (tlvs_from-write fuel tlvs tail (insert tag value m)
          (omega (arith, f, length-append value next)) h))

-- ParseTLV reads back parameters as SMPP writes them, the last of those with one tag, and leaves out
-- up to three bytes at the end, which are too few for another.
pub parse_tlv-write :
    (tlvs : List (ℕ × Bytes)) (tail : Bytes)
    → length tail < 4
    → parse_tlv (write_tlvs tlvs tail) 0 ≡ store_tlvs tlvs []
unfolding parse_tlv
parse_tlv-write [] tail h = elim (Bool-cases (leb (length tail) 0)) [
  | inl e ↦ rw (e, parse_tlv) refl
  | inr e ↦ rw (e, parse_tlv) (short_tail (length tail) tail [] h)
]
parse_tlv-write ((tag, value) ∷ tlvs) tail h =
    let octets = write_tlvs ((tag, value) ∷ tlvs) tail in
    elim (Bool-cases (leb (length octets) 0)) [
      | inl e ↦ absurd (ground (arith, e))
      | inr e ↦
          rw (e, parse_tlv)
            (tlvs_from-write (length octets) ((tag, value) ∷ tlvs) tail [] (omega arith) h)
    ]
