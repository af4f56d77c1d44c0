-- ===== src/Segments/Held.antt =====
-- What is held of a message while its segments arrive, and the group that the next call works on.
use smpp_smsc.Base.{
  ℕ, ◌≤◌, ◌<◌, ◌≡◌, sym, ap, ◌∙◌, inl, inr, Bool, true, false, Option, none, some, List, [], Bytes,
  nat_eq, bytes_eq, replicate, arith, Option-cases,
}
use native.Mathlib.Decide.{ℕ_discrete}
use smpp_smsc.Wire.{GoSmpp}
use smpp_smsc.Wire.Constants.{status_ok}
use smpp_smsc.Message.{decode_message}
use smpp_smsc.Segments.{
  MessageSegment, SegmentGroup, SegmentsManager, AddResult, find_group, drop_group, is_complete,
  join_texts, group_encoding, stored_id, shared_id, new_group, is_invalid, add_segment,
  add_to_group, finish, get_complete_message, waiting, first_stored,
}
use smpp_smsc.Segments.Groups.{Each, Piece, first_stored-Each, first_stored-some, count_present}
use smpp_smsc.Segments.WellFormed.{
  Slots, ManagerOk, IsValid, IsValid→is_invalid, new_group-Slots, add_segment_new, add_segment_old,
}

-- The slots that a manager has for a message of `n` segments: all empty where it has no group.
abbrev pub slots_at : SegmentsManager → Bytes → ℕ → List (Option MessageSegment)
slots_at m key n = elim (find_group m key) [ none ↦ replicate n none | some g ↦ g.list ]

-- Whether a segment that arrived asked for a delivery receipt.
abbrev pub receipt_at : SegmentsManager → Bytes → Bool
receipt_at m key = elim (find_group m key) [ none ↦ false | some g ↦ g.delivery_receipt_requested ]

-- The result of the call that completes a message, from the outcome of the decoder.
abbrev pub completed : ℕ → Bool → Option Bytes → AddResult
completed id receipt decoded = elim decoded [
  | none ↦ record {
    message_id = id;
    status = status_ok;
    text = [];
    complete = true;
    receipt_requested = receipt;
    failed = true;
  }
  | some t ↦ record {
    message_id = id;
    status = status_ok;
    text = t;
    complete = true;
    receipt_requested = receipt;
    failed = false;
  }
]

pub finish_waits :
    (lib : GoSmpp) (m : SegmentsManager) (key : Bytes) (g : SegmentGroup) (id : ℕ)
    → is_complete g ≡ false
    → finish lib m key g id ≡ (waiting id, m)
unfolding finish get_complete_message
finish_waits lib m key g id c = rw (c, finish)

pub finish_completes :
    (lib : GoSmpp) (m : SegmentsManager) (key : Bytes) (g : SegmentGroup) (id : ℕ)
    → is_complete g ≡ true
    → finish lib m key g id ≡ (
      completed id g.delivery_receipt_requested (
          decode_message lib (join_texts g.expected g.list) (group_encoding lib g.expected g.list)),
      drop_group m key,
    )
unfolding finish get_complete_message
finish_completes lib m key g id c = rw (c, finish)

module _ (t : ℕ → Bytes) (coding : ℕ) (key : Bytes) (n : ℕ) where
  -- One of the `n` segments of the message with group ID `key`.
  pub record Part (s : MessageSegment) : Type 0 where
    pub group : s.segment_group_id ≡ key
    pub of : s.segments_count ≡ n
    pub from_one : 1 ≤ s.segment_seq_num
    pub to_n : s.segment_seq_num ≤ n
    pub text : s.text ≡ t s.segment_seq_num
    pub encoded : s.encoding ≡ coding

module _ (lib : GoSmpp) (t : ℕ → Bytes) (coding id : ℕ) (key : Bytes) (n : ℕ) where
  -- `f` segments of the message have arrived, the first of them under the message ID `id`.
  pub record Run (m : SegmentsManager) (f : ℕ) : Type 0 where
    pub ok : ManagerOk m
    pub allowed : (2 ≤ n) × (n ≤ m.max_segments)
    pub fits : (g : SegmentGroup) → find_group m key ≡ some g → g.expected ≡ n
    pub held : count_present (slots_at m key n) ≡ f
    pub pieces : Each (Piece t coding id) 0 (slots_at m key n)

  Part-IsValid :
      {m : SegmentsManager} {f : ℕ} {s : MessageSegment}
      → Run m f
      → Part t coding key n s
      → IsValid m s
  Part-IsValid r p = record {
    several = rw p.of r.allowed.0;
    numbered = p.from_one;
    in_range = rw p.of p.to_n;
    allowed = rw p.of r.allowed.1;
  }

  -- The group that a call works on.
  unfoldable pub Works : SegmentsManager → MessageSegment → ℕ → ℕ → SegmentGroup → Type 0
  Works m s new now g =
      (add_segment lib m s (some new) now ≡ add_to_group lib m s new g)
      × Slots m.max_segments g
      × (g.expected ≡ n)
      × (g.list ≡ slots_at m key n)
      × (g.delivery_receipt_requested ≡ receipt_at m key)

  pub Works-on :
      (m : SegmentsManager) (f : ℕ) (s : MessageSegment) (new now : ℕ)
      → Run m f
      → Part t coding key n s
      → (g : SegmentGroup) × Works m s new now g
  unfolding Works new_group
  Works-on m f s new now r p = elim (Option-cases (find_group m key)) [
    | inl e ↦ (
      new_group s now,
      (
        add_segment_new lib m s new now good (rw p.group e),
        new_group-Slots m s now (Part-IsValid r p),
        p.of,
        rw (e, slots_at, p.of),
        rw (e, receipt_at),
      ),
    )
    | inr (g, e) ↦ (
      g,
      (
        add_segment_old lib m s new now g good (rw p.group e) (r.fits g e ∙ sym p.of),
        (r.ok.groups key g e).slots,
        r.fits g e,
        rw (e, slots_at),
        rw (e, receipt_at),
      ),
    )
  ]
    where
      good : is_invalid m s ≡ false
      good = IsValid→is_invalid m s r.ok (Part-IsValid r p)

  -- Every segment of a group carries the group's message ID, the new one too.
  pub shared_id_lem :
      (m : SegmentsManager) (f : ℕ) (g : SegmentGroup) (s : MessageSegment) (new : ℕ)
      → Run m f
      → g.list ≡ slots_at m key n
      → g.count ≡ f
      → (f ≡ 0 → new ≡ id)
      → (shared_id g new ≡ id) × (stored_id g s new ≡ id)
  unfolding shared_id stored_id
  shared_id_lem m f g s new r e c first = elim (ℕ_discrete f 0) [
    | yes z ↦ let here : new ≡ id = first z in ground arith
    | no z ↦ shared (omega arith)
  ]
    where
      shared : 0 < f → (shared_id g new ≡ id) × (stored_id g s new ≡ id)
      shared more =
          let (u, held) = first_stored-some (slots_at m key n) (omega (arith, r.held, more)) in
          let same : u.message_id ≡ id =
            first_stored-Each t coding id 0 (slots_at m key n) u held r.pieces in
          let found : first_stored g.list ≡ some u = ap first_stored e ∙ held in ground arith
