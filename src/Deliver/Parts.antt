-- ===== src/Deliver/Parts.antt =====
-- The parts of a long text: the header that each carries, and how many are sent.
use smpp_smsc.Base.{
  ℕ, zero, suc, ◌+◌, ◌*◌, ◌/◌, ◌%◌, ◌≤◌, ◌<◌, ◌≡◌, ◌≢◌, ◌⊎◌, inl, inr, refl, ap, ◌∙◌, subst, Bool,
  true, false, ◌||◌, Option, none, some, List, [], ◌∷◌, Bytes, nat_eq, leb, ltb, ◌==◌,
  if◌then◌else◌, length, take, length-take, Bool-cases, Option-cases, arith,
}
use smpp_smsc.Text.{runes}
use smpp_smsc.Wire.{GoSmpp}
use smpp_smsc.Message.{UdhInfo, parse_udh}
use smpp_smsc.Deliver.{
  DeliverSmParams, new_deliver_sm_params, empty_text, no_session_id, no_addresses, ServerError,
  DeliverResult, refused, delivered,
}
use smpp_smsc.Deliver.Segmented.{
  Progress, part_message, part_params, after_single, send_single, send_parts, send_split,
  send_segmented_deliver_sm, split_text_into_segments, slices, max_len, max_multi_len, cut_text,
}

long_header :
    (a b total n : ℕ) (octets : Bytes)
    → 0 < n
    → n ≤ total
    → parse_udh (6 ∷ 8 ∷ 4 ∷ a ∷ b ∷ total ∷ n ∷ octets)
      ≡ some (record { message_ref = a * 256 + b; total_segments = total; segment_number = n })
unfolding parse_udh
long_header a b total n octets p h = ground arith

abbrev numbers : ℕ → ℕ → ℕ → UdhInfo
numbers a b c = record { message_ref = a; total_segments = b; segment_number = c }

header_numbers : {a b c x y z : ℕ} → a ≡ x → b ≡ y → c ≡ z → numbers a b c ≡ numbers x y z
header_numbers p q r = ground (arith, p, q, r)

cut_length :
    (n limit : ℕ) (octets : Bytes)
    → n + 7 ≡ limit
    → length (if ltb limit (length octets + 7) then take n octets else octets) ≤ n
cut_length n limit octets e = ground (arith, length-take n octets)

-- The message of a part is at most 255 bytes, and a receiver reads its header back as the reference
-- number, the number of parts and the part's own number, counted from 1.
pub parse_udh-part_message :
    (ref total i : ℕ) (octets : Bytes)
    → ref < 65536
    → i < total
    → total < 256
    → (parse_udh (part_message ref total i octets)
        ≡ some (record { message_ref = ref; total_segments = total; segment_number = i + 1 }))
      × (length (part_message ref total i octets) ≤ 255)
unfolding parse_udh part_message
parse_udh-part_message ref total i octets r h t =
    let read =
      long_header (ref / 256 % 256) (ref % 256) (total % 256) ((i + 1) % 256)
        (if ltb 255 (length octets + 7) then take 248 octets else octets) (omega arith)
        (omega arith) in
    let low : ref / 256 % 256 * 256 + ref % 256 ≡ ref = omega arith in
    let all : total % 256 ≡ total = omega arith in
    let own : (i + 1) % 256 ≡ i + 1 = omega arith in
    (read ∙ ap some (header_numbers low all own), omega (arith, cut_length 248 255 octets refl))

-- All of `total` parts were sent, or fewer and there is an error.
abbrev pub Counted : ℕ → ℕ → Option ServerError → Type 0
Counted total n e = ((e ≡ none) × (n ≡ total)) ⊎ ((e ≢ none) × (n < total))

slices_some :
    (width fuel : ℕ) (rs : List ℕ)
    → 0 < length rs
    → length rs ≤ fuel
    → 0 < length (slices width fuel rs)
unfolding slices
slices_some width fuel [] p f = absurd (ground (arith, p))
slices_some width zero (r ∷ rs) p f = absurd (ground (arith, f))
slices_some width (suc fuel) (r ∷ rs) p f = omega arith

split_text_into_segments_some :
    (lib : GoSmpp) (t : Bytes) (data_coding : ℕ)
    → 0 < length (split_text_into_segments lib t data_coding)
unfolding split_text_into_segments
split_text_into_segments_some lib t data_coding =
    elim (Bool-cases (leb (length (runes t)) (max_len lib data_coding))) [
      | inl e ↦ rw (e, split_text_into_segments) (omega arith)
      | inr e ↦
          rw (e, split_text_into_segments)
            (slices_some (max_multi_len lib data_coding) (length (runes t)) (runes t)
              (ground (arith, e)) (omega arith))
    ]

pick-Counted :
    {St : Type 0} (c : Bool) (e : ServerError) (k : ℕ) (st : St) (r : Progress St)
    → 0 < k
    → Counted k r.0 r.1
    → Counted k (if c then (0, some e, st) else r).0 (if c then (0, some e, st) else r).1
pick-Counted true e k st r p h = inr (ground arith, p)
pick-Counted false e k st r p h = h

pub DeliverResult-cases :
    (r : DeliverResult) → ((e : ServerError) × (r ≡ refused e)) ⊎ ((seq : ℕ) × (r ≡ delivered seq))
DeliverResult-cases (refused e) = inl (e, refl)
DeliverResult-cases (delivered seq) = inr (seq, refl)

module _ {St : Type 0} (lib : GoSmpp) (send : Bool → DeliverSmParams → St → DeliverResult × St)
    (encode : Bytes → ℕ → Option Bytes) (expired : ℕ → Bool) where
  send_parts-Counted :
      (source dest : Bytes) (data_coding ref total i : ℕ) (segments : List Bytes) (st : St)
      → let r =
          send_parts lib send encode expired source dest data_coding ref total i segments st in
        Counted (i + length segments) r.0 r.1
  unfolding send_parts
  send_parts-Counted source dest data_coding ref total i [] st = inl (refl, omega arith)
  send_parts-Counted source dest data_coding ref total i (segment ∷ segments) st =
      elim (Bool-cases (expired (2 * i))) [
        | inl x ↦ rw (x, send_parts) (inr (ground arith, omega arith))
        | inr x ↦ elim (Option-cases (encode segment data_coding)) [
          | inl c ↦ rw (x, c, send_parts) (inr (ground arith, omega arith))
          | inr (octets, c) ↦
              elim (DeliverResult-cases
                (send (expired (2 * i + 1))
                  (part_params lib send encode expired source dest data_coding
                    (part_message ref total i octets))
                  st).0) [
                    | inl (e, d) ↦ rw (x, c, d, send_parts) (inr (ground arith, omega arith))
                    | inr (seq, d) ↦
                        let st1 =
                          (send (expired (2 * i + 1))
                            (part_params lib send encode expired source dest data_coding
                              (part_message ref total i octets))
                            st).1 in
                        let rest =
                          send_parts lib send encode expired source dest data_coding ref total
                            (i + 1) segments st1 in
                        let next : i + 1 + length segments ≡ i + length (segment ∷ segments) =
                          omega arith in
                        rw (x, c, d, send_parts)
                          (subst (λ n. Counted n rest.0 rest.1) next
                            (send_parts-Counted source dest data_coding ref total (i + 1) segments
                              st1))
                  ]
        ]
      ]

  after_single-Counted :
      (source dest : Bytes) (data_coding : ℕ) (result : DeliverResult) (st : St)
      → let r = after_single lib send encode expired source dest data_coding (result, st) in
        Counted 1 r.0 r.1
  unfolding after_single
  after_single-Counted source dest data_coding (refused e) st = inr (ground arith, omega arith)
  after_single-Counted source dest data_coding (delivered seq) st = inl (refl, refl)

  send_single-Counted :
      (source dest : Bytes) (data_coding : ℕ) (t : Bytes) (o : Option Bytes) (st : St)
      → let r = send_single lib send encode expired source dest data_coding t o st in
        Counted 1 r.0 r.1
  unfolding send_single
  send_single-Counted source dest data_coding t none st = inr (ground arith, omega arith)
  send_single-Counted source dest data_coding t (some payload) st =
      let whole = record (new_deliver_sm_params lib source dest payload) {
        data_coding = data_coding;
      } in
      let (result, st1) = send (expired 0) whole st in
      after_single-Counted source dest data_coding result st1

  send_split-Counted :
      (source dest : Bytes) (data_coding ref : ℕ) (t : Bytes) (segments : List Bytes) (st : St)
      → let r = send_split lib send encode expired source dest data_coding ref t segments st in
        Counted (length segments) r.0 r.1
  unfolding send_split
  send_split-Counted source dest data_coding ref t segments st =
      let loop =
        send_parts lib send encode expired source dest data_coding ref (length segments) 0 segments
          st in
      let single =
        send_single lib send encode expired source dest data_coding t (encode t data_coding) st in
      elim (Bool-cases (length segments == 1)) [
        | inr n ↦
            let zero_more : 0 + length segments ≡ length segments = omega arith in
            rw (n, send_split)
              (subst (λ k. Counted k loop.0 loop.1) zero_more
                (send_parts-Counted source dest data_coding ref (length segments) 0 segments st))
        | inl n ↦
            let one : 1 ≡ length segments = ground (arith, n) in
            rw (n, send_split)
              (subst (λ k. Counted k single.0 single.1) one
                (send_single-Counted source dest data_coding t (encode t data_coding) st))
      ]

  -- SendSegmentedDeliverSM reports as many parts as the text is split into once it is cut to the limit
  -- of runes (what is behind the cut is dropped in silence), and no error; or fewer, and an error.
  pub send_segmented_deliver_sm-Counted :
      (determine : Bytes → ℕ) (limit ref : ℕ) (session_id source dest t : Bytes) (st : St)
      → let r =
          send_segmented_deliver_sm lib send determine encode expired limit ref session_id source
            dest t st in
        Counted (length (split_text_into_segments lib (cut_text limit t) (determine t))) r.0 r.1
  unfolding send_segmented_deliver_sm
  send_segmented_deliver_sm-Counted determine limit ref session_id source dest t st =
      let coding = determine t in
      let parts = split_text_into_segments lib (cut_text limit t) coding in
      let some_part = split_text_into_segments_some lib (cut_text limit t) coding in
      let split =
        send_split lib send encode expired source dest coding ref (cut_text limit t) parts st in
      pick-Counted (length t == 0) empty_text (length parts) st
        (if length session_id == 0
          then (0, some no_session_id, st)
          else if length source == 0 || length dest == 0
          then (0, some no_addresses, st)
          else split)
        some_part
        (pick-Counted (length session_id == 0) no_session_id (length parts) st
          (if length source == 0 || length dest == 0 then (0, some no_addresses, st) else split)
          some_part
          (pick-Counted (length source == 0 || length dest == 0) no_addresses (length parts) st
            split some_part
            (send_split-Counted source dest coding ref (cut_text limit t) parts st)))
