-- ===== src/Session/Parse/Segmentation.antt =====
-- What parse_submit_sm guarantees of the parameters it returns, and of their segment.
use smpp_smsc.Base.{
  ℕ, ◌<◌, ◌≡◌, inl, inr, refl, subst, ◌∙◌, sym, Bool, true, false, not, Option, none, some, List,
  [], ◌∷◌, Bytes, bytes_eq, nat_eq, ◌==◌, if◌then◌else◌, length, is_some, arith, Option-cases,
}
use smpp_smsc.Wire.{GoSmpp, Packet, Udh, FieldName}
use smpp_smsc.Types.{SubmitSmParams, get_message, get_tlv_uint16}
use smpp_smsc.Message.{UdhInfo, parse_udh}
use smpp_smsc.Segments.{MessageSegment}
use smpp_smsc.Session.Parse.{
  ParseResult, parsed, rejected, parse_submit_sm, check_submit, finish_parse, add_segments,
  is_supported, coding_of, with_octets, add_udh_segment, add_sar_segment, add_payload_segment,
  read_udh, read_element, blank_segment, sar_segment, payload_segment, segment_or_blank, text_of,
  udh_value,
}

-- The coding that a segment carries to add_segment; a message that is not split has none.
abbrev pub segment_encoding : Option MessageSegment → ℕ
segment_encoding none = 0
segment_encoding (some s) = s.encoding

read_element_encoding :
    (iei : ℕ) (octets : Bytes) (s : MessageSegment)
    → (read_element iei octets s).encoding ≡ s.encoding
unfolding read_element
read_element_encoding iei [] s = refl
read_element_encoding iei (a ∷ []) s = refl
read_element_encoding iei (a ∷ b ∷ []) s = refl
read_element_encoding iei (a ∷ b ∷ c ∷ []) s = ground arith
read_element_encoding iei (a ∷ b ∷ c ∷ d ∷ []) s = ground arith
read_element_encoding iei (a ∷ b ∷ c ∷ d ∷ e ∷ r) s = refl

read_udh_encoding : (l : List Udh) (s : MessageSegment) → (read_udh l s).encoding ≡ s.encoding
unfolding read_udh
read_udh_encoding [] s = refl
read_udh_encoding (u ∷ r) s =
    read_udh_encoding r (read_element u.iei u.ie_data s) ∙ read_element_encoding u.iei u.ie_data s

-- What the three sources of a segment leave alone.
pub record OnlySegment (p q : SubmitSmParams) : Type 0 where
  pub same_source : q.source_addr ≡ p.source_addr
  pub same_dest : q.dest_addr ≡ p.dest_addr
  pub same_coding : q.data_coding ≡ p.data_coding
  pub same_seq : q.seq_num ≡ p.seq_num
  pub same_short : q.short_message ≡ p.short_message
  pub no_encoding : segment_encoding p.segment ≡ 0 → segment_encoding q.segment ≡ 0

only_trans : {p q r : SubmitSmParams} → OnlySegment p q → OnlySegment q r → OnlySegment p r
only_trans a b = record {
  same_source = b.same_source ∙ a.same_source;
  same_dest = b.same_dest ∙ a.same_dest;
  same_coding = b.same_coding ∙ a.same_coding;
  same_seq = b.same_seq ∙ a.same_seq;
  same_short = b.same_short ∙ a.same_short;
  no_encoding = λ h. b.no_encoding (a.no_encoding h);
}

only_set :
    (p : SubmitSmParams) (s : MessageSegment)
    → (segment_encoding p.segment ≡ 0 → s.encoding ≡ 0)
    → OnlySegment p (record p { segment = some s })
only_set p s h = record {
  same_source = refl;
  same_dest = refl;
  same_coding = refl;
  same_seq = refl;
  same_short = refl;
  no_encoding = h;
}

only_refl : (p : SubmitSmParams) → OnlySegment p p
only_refl p = record {
  same_source = refl;
  same_dest = refl;
  same_coding = refl;
  same_seq = refl;
  same_short = refl;
  no_encoding = λ h. h;
}

only_if :
    {p : SubmitSmParams} (b : Bool) (q r : SubmitSmParams)
    → OnlySegment p q
    → OnlySegment p r
    → OnlySegment p (if b then q else r)
only_if true q r m n = m
only_if false q r m n = n

udh-OnlySegment :
    (now : ℕ) (pkt : Packet) (p : SubmitSmParams) → OnlySegment p (add_udh_segment now pkt p)
unfolding add_udh_segment blank_segment
udh-OnlySegment now pkt p =
    let start = record (blank_segment now) { text = get_message p } in
    let list = udh_value (pkt.fields FieldName.gsm_user_data) in
    only_if _ _ _ (only_set p (read_udh list start) (λ h. read_udh_encoding list start))
      (only_refl p)

segment_or_blank_encoding :
    (now : ℕ) (o : Option MessageSegment)
    → segment_encoding o ≡ 0
    → (segment_or_blank now o).encoding ≡ 0
unfolding segment_or_blank blank_segment
segment_or_blank_encoding now none h = refl
segment_or_blank_encoding now (some s) h = h

sar-OnlySegment :
    (lib : GoSmpp) (now : ℕ) (p : SubmitSmParams) → OnlySegment p (add_sar_segment lib now p)
unfolding add_sar_segment sar_segment
sar-OnlySegment lib now p = elim (Option-cases (get_tlv_uint16 p lib.tag_sar_msg_ref_num)) [
  | inl e ↦ rw (e, add_sar_segment) (only_refl p)
  | inr (ref, e) ↦
      rw (e, add_sar_segment)
        (only_set p (sar_segment lib p ref (segment_or_blank now p.segment))
          (segment_or_blank_encoding now p.segment))
]

found-OnlySegment :
    (now : ℕ) (p : SubmitSmParams) (u : UdhInfo) → OnlySegment p (payload_segment now p u)
unfolding payload_segment blank_segment
found-OnlySegment now p u = only_if _ _ _ (only_set p _ (λ h. refl)) (only_refl p)

payload-OnlySegment : (now : ℕ) (p : SubmitSmParams) → OnlySegment p (add_payload_segment now p)
unfolding add_payload_segment
payload-OnlySegment now p = elim (Option-cases (parse_udh p.message_payload)) [
  | inl e ↦ rw (e, add_payload_segment) (only_if _ _ _ (only_refl p) (only_refl p))
  | inr (u, e) ↦
      rw (e, add_payload_segment) (only_if _ _ _ (found-OnlySegment now p u) (only_refl p))
]

guards :
    (a b c : Bool) (x y z : ℕ) (r : ParseResult) (q : SubmitSmParams)
    → (if a then rejected x else if b then rejected y else if c then rejected z else r) ≡ parsed q
    → (a ≡ false) × (b ≡ false) × (c ≡ false) × (r ≡ parsed q)
guards a b c x y z r q e = ground (arith, e)

not-false : (b : Bool) → not b ≡ false → b ≡ true
not-false b e = ground (arith, e)

module _ (lib : GoSmpp) (digest : Bytes → Bytes) where
  add_segments-OnlySegment :
      (now : ℕ) (pkt : Packet) (p : SubmitSmParams)
      → OnlySegment p (add_segments lib digest now pkt p)
  unfolding add_segments
  add_segments-OnlySegment now pkt p =
      let a = udh-OnlySegment now pkt p in
      let b = sar-OnlySegment lib now (add_udh_segment now pkt p) in
      only_trans a (only_trans b (payload-OnlySegment now _))

  -- What the end of the parser makes of the parameters.
  finish_parse_lem :
      (p q : SubmitSmParams)
      → finish_parse lib digest p ≡ parsed q
      → (q.source_addr ≡ p.source_addr)
        × (q.dest_addr ≡ p.dest_addr)
        × (q.data_coding ≡ p.data_coding)
        × (q.seq_num ≡ p.seq_num)
        × (segment_encoding q.segment ≡ segment_encoding p.segment)
        × (is_some q.segment ≡ is_some p.segment)
  unfolding finish_parse
  finish_parse_lem p q e = ground (arith, e)

  -- The parameters of the five texts, where all of them are there.
  parse_texts :
      (now : ℕ) (pkt : Packet) (q : SubmitSmParams)
      → parse_submit_sm lib digest now pkt ≡ parsed q
      → (service : Bytes) × (source : Bytes) × (dest : Bytes) × (schedule : Bytes)
        × (validity : Bytes) × (check_submit lib digest now pkt service source dest schedule
              validity
            ≡ parsed q)
  unfolding parse_submit_sm
  parse_texts now pkt q e = elim (Option-cases (text_of lib pkt FieldName.service_type)) [
    | inl a ↦ absurd (ground (arith, a, e))
    | inr (service, a) ↦ elim (Option-cases (text_of lib pkt FieldName.source_addr)) [
      | inl b ↦ absurd (ground (arith, a, b, e))
      | inr (source, b) ↦ elim (Option-cases (text_of lib pkt FieldName.destination_addr)) [
        | inl c ↦ absurd (ground (arith, a, b, c, e))
        | inr (dest, c) ↦ elim (Option-cases (text_of lib pkt FieldName.schedule_delivery_time)) [
          | inl d ↦ absurd (ground (arith, a, b, c, d, e))
          | inr (schedule, d) ↦ elim (Option-cases (text_of lib pkt FieldName.validity_period)) [
            | inl f ↦ absurd (ground (arith, a, b, c, d, f, e))
            | inr (validity, f) ↦
                (service, source, dest, schedule, validity, ground (arith, a, b, c, d, f, e))
          ]
        ]
      ]
    ]
  ]

  checked :
      (now : ℕ) (pkt : Packet) (service source dest schedule validity : Bytes) (q : SubmitSmParams)
      → check_submit lib digest now pkt service source dest schedule validity ≡ parsed q
      → (0 < length source)
        × (0 < length dest)
        × (is_supported lib digest (coding_of lib digest pkt) ≡ true)
        × (finish_parse lib digest (
              add_segments lib digest now pkt
                (with_octets lib digest now pkt service source dest schedule validity))
            ≡ parsed q)
  unfolding check_submit
  checked now pkt service source dest schedule validity q e =
      let (a, b, c, d) =
        guards (length source == 0) (length dest == 0)
          (not (is_supported lib digest (coding_of lib digest pkt))) _ _ _ _ q e in
      (ground (arith, a), ground (arith, b), not-false _ c, d)

  check_submit_lem :
      (now : ℕ) (pkt : Packet) (service source dest schedule validity : Bytes) (q : SubmitSmParams)
      → check_submit lib digest now pkt service source dest schedule validity ≡ parsed q
      → (0 < length q.source_addr)
        × (0 < length q.dest_addr)
        × (is_supported lib digest q.data_coding ≡ true)
        × (q.data_coding ≡ coding_of lib digest pkt)
        × (q.seq_num ≡ pkt.seq)
        × (segment_encoding q.segment ≡ 0)
  unfolding check_submit with_octets
  check_submit_lem now pkt service source dest schedule validity q e =
      let p = with_octets lib digest now pkt service source dest schedule validity in
      let only = add_segments-OnlySegment now pkt p in
      let (a, b, c, d) = checked now pkt service source dest schedule validity q e in
      let (source_kept, dest_kept, coding_kept, seq_kept, encoding_kept, _) =
        finish_parse_lem (add_segments lib digest now pkt p) q d in
      let coding : q.data_coding ≡ coding_of lib digest pkt = coding_kept ∙ only.same_coding in
      (
        subst (λ l. 0 < length l) (sym (source_kept ∙ only.same_source)) a,
        subst (λ l. 0 < length l) (sym (dest_kept ∙ only.same_dest)) b,
        subst (λ n. is_supported lib digest n ≡ true) (sym coding) c,
        coding,
        seq_kept ∙ only.same_seq,
        encoding_kept ∙ only.no_encoding refl,
      )

-- A submit_sm that the parser accepts has a source and a destination, one of the four supported
-- codings and the sequence number of its PDU; and the coding of its segment, if it has one, is 0
-- whatever the data coding of the PDU is.
pub parse_submit_sm-parsed :
    (lib : GoSmpp) (digest : Bytes → Bytes) (now : ℕ) (pkt : Packet) (q : SubmitSmParams)
    → parse_submit_sm lib digest now pkt ≡ parsed q
    → (0 < length q.source_addr)
      × (0 < length q.dest_addr)
      × (is_supported lib digest q.data_coding ≡ true)
      × (q.data_coding ≡ coding_of lib digest pkt)
      × (q.seq_num ≡ pkt.seq)
      × (segment_encoding q.segment ≡ 0)
parse_submit_sm-parsed lib digest now pkt q e =
    let (service, source, dest, schedule, validity, checked) = parse_texts lib digest now pkt q e in
    check_submit_lem lib digest now pkt service source dest schedule validity q checked
