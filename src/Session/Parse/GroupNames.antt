-- ===== src/Session/Parse/GroupNames.antt =====
-- The names under which the segments of one message are gathered (`fillSegmentGroupID`).
use smpp_smsc.Base.{
  ◌<◌, ◌≡◌, ◌≢◌, ◌⊎◌, inl, inr, refl, ◌∙◌, sym, true, Option, none, some, Bytes, All, ◌∷◌, ◌++◌,
  nat_eq, bytes_eq, bytes_beq_iff, ◌==◌, Bool-cases, arith,
}
use mathlib.Core.Option.{some-injective}
use smpp_smsc.Wire.{GoSmpp}
use smpp_smsc.Base.Decimal.{decimal, decimal-injective, split_at_separator}
use smpp_smsc.Types.{SubmitSmParams}
use smpp_smsc.Segments.{MessageSegment}
use smpp_smsc.Session.Parse.{ParseResult, panicked, rejected, parsed, finish_parse, group_prefix}

-- No "|", as in an address of digits or letters.
abbrev pub HasNoBar : Bytes → Type 0
HasNoBar = All (λ c. c ≢ 124)

several_parts :
    (p : SubmitSmParams) (s : MessageSegment)
    → 1 < s.segments_count
    → group_prefix p s ≡ p.source_addr ++ (124 ∷ (p.dest_addr ++ (124 ∷ decimal s.message_ref_num)))
unfolding group_prefix
several_parts p s h = ground arith

prefixes_agree :
    (p q : SubmitSmParams) (s r : MessageSegment)
    → 1 < s.segments_count
    → 1 < r.segments_count
    → HasNoBar p.source_addr
    → HasNoBar q.source_addr
    → HasNoBar p.dest_addr
    → HasNoBar q.dest_addr
    → group_prefix p s ≡ group_prefix q r
    → (p.source_addr ≡ q.source_addr)
      × (p.dest_addr ≡ q.dest_addr)
      × (s.message_ref_num ≡ r.message_ref_num)
prefixes_agree p q s r h k a b c d e =
    let f = sym (several_parts p s h) ∙ e ∙ several_parts q r k in
    let (same_source, g) = split_at_separator 124 p.source_addr q.source_addr _ _ a b f in
    let (same_dest, i) = split_at_separator 124 p.dest_addr q.dest_addr _ _ c d g in
    (same_source, same_dest, decimal-injective _ _ i)

-- The name of the group that a parsed submit_sm's segment goes to.
abbrev pub group_name : ParseResult → Option Bytes
group_name panicked = none
group_name (rejected status) = none
group_name (parsed p) = elim p.segment [ none ↦ none | some s ↦ some s.segment_group_id ]

group_name-digest :
    (lib : GoSmpp) (digest : Bytes → Bytes) (p : SubmitSmParams) (s : MessageSegment)
    → p.segment ≡ some s
    → group_name (finish_parse lib digest p) ≡ some (digest (group_prefix p s))
unfolding finish_parse group_prefix
group_name-digest lib digest p s e = rw (e, finish_parse) refl

-- Segments of messages of several parts, between addresses without "|", get one group name only if
-- source, destination and reference number all agree, or else the hash (MD5 in hex) of two different
-- texts is the same.
pub group_name-injective :
    (lib : GoSmpp) (digest : Bytes → Bytes) (p q : SubmitSmParams) (s r : MessageSegment)
    → p.segment ≡ some s
    → q.segment ≡ some r
    → 1 < s.segments_count
    → 1 < r.segments_count
    → HasNoBar p.source_addr
    → HasNoBar q.source_addr
    → HasNoBar p.dest_addr
    → HasNoBar q.dest_addr
    → group_name (finish_parse lib digest p) ≡ group_name (finish_parse lib digest q)
    → ((p.source_addr ≡ q.source_addr)
        × (p.dest_addr ≡ q.dest_addr)
        × (s.message_ref_num ≡ r.message_ref_num))
      ⊎ ((x : Bytes) × (y : Bytes) × (x ≢ y) × (digest x ≡ digest y))
group_name-injective lib digest p q s r in_p in_q h k a b c d same =
    let x = group_prefix p s in
    let y = group_prefix q r in
    elim (Bool-cases (x == y)) [
      | inl e ↦ inl (prefixes_agree p q s r h k a b c d ((bytes_beq_iff x y).0 e))
      | inr e ↦ inr (
        x,
        y,
        (λ f. let g : (x == y) ≡ true = (bytes_beq_iff x y).1 f in absurd (cc)),
        some-injective (digest x) (digest y) (
            sym (group_name-digest lib digest p s in_p)
            ∙ same
            ∙ group_name-digest lib digest q r in_q),
      )
    ]
