-- ===== src/Deliver/Split.antt =====
-- Splitting a text: the parts joined are the text again, each fits, and there are no more than
-- needed.
use smpp_smsc.Base.{
  ℕ, zero, suc, ◌+◌, ◌*◌, ◌-◌, ◌/◌, ◌≤◌, ◌<◌, ◌≡◌, ◌⊎◌, inl, inr, refl, sym, ap, ◌∙◌, subst, ◌||◌,
  ◌==◌, if◌then◌else◌, List, [], ◌∷◌, ◌++◌, Bytes, nat_eq, leb, length, take, drop, All, All-take,
  All-drop, take-append-drop, length-drop, length-take, Bool-cases, arith,
}
use mathlib.Core.List.{append-nil}
use smpp_smsc.Text.{runes, utf8}
use smpp_smsc.Text.RoundTrip.{IsScalar, utf8-append, runes-utf8, runes-IsScalar}
use smpp_smsc.Wire.{GoSmpp}
use smpp_smsc.Deliver.Segmented.{slices, split_text_into_segments, max_len, max_multi_len}

abbrev pub joined_parts : List Bytes → Bytes
joined_parts [] = []
joined_parts (p ∷ ps) = p ++ joined_parts ps

-- A part has at most `width` runes.
abbrev pub Fits : ℕ → Bytes → Type 0
Fits width p = length (runes p) ≤ width

slices_joined :
    (width fuel : ℕ) (rs : List ℕ)
    → 0 < width
    → length rs ≤ fuel
    → joined_parts (slices width fuel rs) ≡ utf8 rs
unfolding slices utf8
slices_joined width fuel [] w f = refl
slices_joined width zero (r ∷ rs) w f = absurd (ground (arith, f))
slices_joined width (suc fuel) (r ∷ rs) w f =
    ap (λ t. utf8 (take width (r ∷ rs)) ++ t)
      (slices_joined width fuel (drop width (r ∷ rs)) w
        (ground (arith, length-drop width (r ∷ rs))))
    ∙ sym (utf8-append (take width (r ∷ rs)) (drop width (r ∷ rs)))
    ∙ ap utf8 (take-append-drop width (r ∷ rs))

slices-Fits :
    (width fuel : ℕ) (rs : List ℕ) → All IsScalar rs → All (Fits width) (slices width fuel rs)
unfolding slices
slices-Fits width fuel [] s = tt
slices-Fits width zero (r ∷ rs) s = tt
slices-Fits width (suc fuel) (r ∷ rs) s = (
  subst (λ l. length l ≤ width)
      (sym (runes-utf8 (take width (r ∷ rs)) (All-take IsScalar width (r ∷ rs) s)))
      (ground (arith, length-take width (r ∷ rs))),
  slices-Fits width fuel (drop width (r ∷ rs)) (All-drop IsScalar width (r ∷ rs) s),
)

slices_empty : (width fuel : ℕ) (rs : List ℕ) → length rs ≡ 0 → length (slices width fuel rs) ≡ 0
unfolding slices
slices_empty width fuel [] e = refl
slices_empty width fuel (r ∷ rs) e = absurd (ground (arith, e))

slices_fewest :
    (width fuel : ℕ) (rs : List ℕ)
    → 0 < width
    → width * length (slices width fuel rs) < length rs + width
unfolding slices
slices_fewest width fuel [] w = ground arith
slices_fewest width zero (r ∷ rs) w = ground arith
slices_fewest width (suc fuel) (r ∷ rs) w =
    let rest = drop width (r ∷ rs) in
    let n : length rest ≡ length (r ∷ rs) - width = length-drop width (r ∷ rs) in
    elim (Bool-cases (leb (length (r ∷ rs)) width)) [
      | inl e ↦
          let none_left : length (slices width fuel rest) ≡ 0 =
            slices_empty width fuel rest (ground (arith, e, n)) in
          subst (λ k. width * suc k < length (r ∷ rs) + width) (sym none_left) (omega arith)
      | inr e ↦
          let later = slices_fewest width fuel rest w in
          let long : width < length (r ∷ rs) = ground (arith, e) in omega (arith, later, n, long)
    ]

max_multi_len_bounds :
    (lib : GoSmpp) (data_coding : ℕ)
    → (0 < max_multi_len lib data_coding)
      × (max_multi_len lib data_coding ≤ max_len lib data_coding)
unfolding max_len max_multi_len
max_multi_len_bounds lib data_coding = ground arith

All-weaken : (n k : ℕ) (ps : List Bytes) → n ≤ k → All (Fits n) ps → All (Fits k) ps
All-weaken n k [] h a = tt
All-weaken n k (p ∷ ps) h a = (omega (arith, a.0), All-weaken n k ps h a.1)

-- A text is split so that no part has more runes than `single`, and where there are several, each
-- has at most `part`, and one part fewer would be too small: the parts joined have its runes in order.
abbrev pub IsSplitBy : (single part : ℕ) → Bytes → List Bytes → Type 0
IsSplitBy single part t parts =
    (runes (joined_parts parts) ≡ runes t)
    × All (Fits single) parts
    × ((parts ≡ t ∷ []) ⊎ (All (Fits part) parts × (part * length parts < length (runes t) + part)))

slices-IsSplitBy :
    (single part : ℕ) (t : Bytes)
    → 0 < part
    → part ≤ single
    → IsSplitBy single part t (slices part (length (runes t)) (runes t))
slices-IsSplitBy single part t positive narrow =
    let fit = slices-Fits part (length (runes t)) (runes t) (runes-IsScalar t) in
    (
      ap runes (slices_joined part (length (runes t)) (runes t) positive (omega arith))
          ∙ runes-utf8 (runes t) (runes-IsScalar t),
      All-weaken part single _ narrow fit,
      inr (fit, slices_fewest part (length (runes t)) (runes t) positive),
    )

single-IsSplitBy :
    (single part : ℕ) (t : Bytes) → length (runes t) ≤ single → IsSplitBy single part t (t ∷ [])
single-IsSplitBy single part t h = (ap runes (append-nil t), (h, tt), inl refl)

-- The bits of a character: 7 in the default coding, 8 in Latin-1 and ISO-8859-5, else 16 (UCS-2).
abbrev pub char_bits : GoSmpp → ℕ → ℕ
char_bits lib data_coding =
    if data_coding == lib.default_type
    then 7
    else if data_coding == lib.latin1_type || data_coding == lib.iso88595_type
    then 8
    else 16

-- The widths of the code are the characters of 140 octets, and of the 134 that a header leaves.
widths :
    (lib : GoSmpp) (data_coding : ℕ)
    → (max_len lib data_coding ≡ 140 * 8 / char_bits lib data_coding)
      × (max_multi_len lib data_coding ≡ 134 * 8 / char_bits lib data_coding)
unfolding max_len max_multi_len
widths lib data_coding = ground arith

IsSplitBy-widths :
    (lib : GoSmpp) (t : Bytes) (data_coding : ℕ)
    → IsSplitBy
        (max_len lib data_coding)
        (max_multi_len lib data_coding)
        t
        (split_text_into_segments lib t data_coding)
unfolding split_text_into_segments
IsSplitBy-widths lib t data_coding =
    let single = max_len lib data_coding in
    let part = max_multi_len lib data_coding in
    let (positive, narrow) = max_multi_len_bounds lib data_coding in
    elim (Bool-cases (leb (length (runes t)) single)) [
      | inl e ↦
          subst (IsSplitBy single part t) (sym (rw (e, split_text_into_segments)))
            (single-IsSplitBy single part t (ground (arith, e)))
      | inr e ↦
          subst (IsSplitBy single part t) (sym (rw (e, split_text_into_segments)))
            (slices-IsSplitBy single part t positive narrow)
    ]

-- The parts that a text is split into, joined, have its runes in their order. Counted in runes, each
-- of as many bits as its data coding has for a character (7, 8 or 16; a rune beyond U+FFFF counts
-- once), no part is longer than 140 octets; and a text in several parts has parts of at most 134
-- octets, one fewer of which could not hold it.
pub split_text_into_segments-IsSplitBy :
    (lib : GoSmpp) (t : Bytes) (data_coding : ℕ)
    → IsSplitBy
        (140 * 8 / char_bits lib data_coding)
        (134 * 8 / char_bits lib data_coding)
        t
        (split_text_into_segments lib t data_coding)
split_text_into_segments-IsSplitBy lib t data_coding =
    let (single, part) = widths lib data_coding in
    let split = split_text_into_segments lib t data_coding in
    subst (λ w. IsSplitBy w (134 * 8 / char_bits lib data_coding) t split) single
      (subst (λ w. IsSplitBy (max_len lib data_coding) w t split) part
        (IsSplitBy-widths lib t data_coding))
