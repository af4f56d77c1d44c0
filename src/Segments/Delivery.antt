-- ===== src/Segments/Delivery.antt =====
-- A whole message: its segments handed to AddSegment one after the other, in any order.
use smpp_smsc.Base.{
  ℕ, ◌+◌, ◌-◌, ◌≤◌, ◌<◌, ◌≡◌, ◌≢◌, refl, sym, ap, subst, ◌∙◌, Bool, true, false, ◌||◌, none, some,
  List, [], ◌∷◌, Bytes, All, set, nat_eq, ◌==◌, if◌then◌else◌, length, arith,
}
use mathlib.Core.Bool.{or_assoc}
use smpp_smsc.Wire.{GoSmpp}
use smpp_smsc.Message.{decode_message}
use smpp_smsc.Segments.{
  MessageSegment, SegmentsManager, find_group, is_empty_slot, add_segment, waiting,
}
use smpp_smsc.Segments.Groups.{
  texts_from, Each-replicate, Piece, is_empty_slot-replicate, is_empty_slot-set_ne,
  count_present-replicate,
}
use smpp_smsc.Segments.WellFormed.{ManagerOk}
use smpp_smsc.Segments.Held.{slots_at, receipt_at, completed, Part, Run}
use smpp_smsc.Segments.Assembly.{Arrival, waits, completes}

-- The segments that arrive, each with the ID that the generator would give it.
abbrev pub Arrivals : Type 0
Arrivals = List (MessageSegment × ℕ)

unfoldable pub arrive : GoSmpp → ℕ → SegmentsManager → Arrivals → SegmentsManager
arrive lib now m [] = m
arrive lib now m ((s, new) ∷ r) = arrive lib now (add_segment lib m s (some new) now).1 r

-- The ID of the segment that comes first.
abbrev pub first_id : Arrivals → ℕ → ℕ
first_id [] new = new
first_id ((s, i) ∷ r) new = i

abbrev pub any_receipt : Arrivals → Bool
any_receipt [] = false
any_receipt ((s, i) ∷ r) = s.delivery_receipt_requested || any_receipt r

-- No segment of the list has the number `k`; no two have the same number.
abbrev pub Lacks : ℕ → Arrivals → Type 0
Lacks k = All (λ p. k ≢ p.0.segment_seq_num)

abbrev pub Distinct : Arrivals → Type 0
Distinct [] = Unit {0}
Distinct ((s, i) ∷ r) = Lacks s.segment_seq_num r × Distinct r

module _ (lib : GoSmpp) (t : ℕ → Bytes) (coding id : ℕ) (key : Bytes) (n now : ℕ) where
  abbrev Parts : Arrivals → Type 0
  Parts = All (λ p. Part t coding key n p.0)

  -- The slots of the numbers in the list are empty.
  abbrev Free : SegmentsManager → Arrivals → Type 0
  Free m = All (λ p. is_empty_slot (slots_at m key n) (p.0.segment_seq_num - 1) ≡ true)

  -- What holds after all segments of a list that does not complete the message.
  pub record Waiting (m m' : SegmentsManager) (f : ℕ) (r : Arrivals) : Type 0 where
    pub run : Run lib t coding id key n m' (f + length r)
    pub receipt : receipt_at m' key ≡ (receipt_at m key || any_receipt r)
    pub others :
        (k : ℕ)
        → 1 ≤ k
        → Lacks k r
        → is_empty_slot (slots_at m key n) (k - 1) ≡ true
        → is_empty_slot (slots_at m' key n) (k - 1) ≡ true

  slot_kept :
      (m m' : SegmentsManager) (s u : MessageSegment) (k : ℕ)
      → slots_at m' key n ≡ set (slots_at m key n) (s.segment_seq_num - 1) (some u)
      → 1 ≤ s.segment_seq_num
      → 1 ≤ k
      → k ≢ s.segment_seq_num
      → is_empty_slot (slots_at m key n) (k - 1) ≡ true
      → is_empty_slot (slots_at m' key n) (k - 1) ≡ true
  slot_kept m m' s u k e one pos ne x =
      ap (λ l. is_empty_slot l (k - 1)) e
      ∙ is_empty_slot-set_ne (slots_at m key n) (s.segment_seq_num - 1) (k - 1) u (omega arith)
      ∙ x

  Free-after :
      (m m' : SegmentsManager) (s u : MessageSegment) (r : Arrivals)
      → slots_at m' key n ≡ set (slots_at m key n) (s.segment_seq_num - 1) (some u)
      → 1 ≤ s.segment_seq_num
      → Parts r
      → Lacks s.segment_seq_num r
      → Free m r
      → Free m' r
  Free-after m m' s u [] e one p d h = tt
  Free-after m m' s u (q ∷ r) e one p d h = (
    slot_kept m m' s u q.0.segment_seq_num e one p.0.from_one (λ x. d.0 (sym x)) h.0,
    Free-after m m' s u r e one p.1 d.1 h.1,
  )

  arrive-Waiting :
      (r : Arrivals) (m : SegmentsManager) (f : ℕ)
      → Run lib t coding id key n m f
      → Parts r
      → Distinct r
      → Free m r
      → (f ≡ 0 → first_id r id ≡ id)
      → f + length r < n
      → Waiting m (arrive lib now m r) f r
  unfolding arrive
  arrive-Waiting [] m f run p d e first h = record {
    run = subst (Run lib t coding id key n m) (omega arith) run;
    receipt = ground arith;
    others = λ k _ _ x. x;
  }
  arrive-Waiting ((s, new) ∷ r) m f run p d e first h =
      let w = waits lib t coding id key n m f s new now a (omega arith) in
      let free : Free m' r =
        Free-after m m' s (record s { message_id = id }) r w.1 p.0.from_one p.1 d.0 e.1 in
      let rest : Waiting m' (arrive lib now m' r) (f + 1) r =
        arrive-Waiting r m' (f + 1) w.3 p.1 d.1 free (λ z. absurd (omega arith)) (omega arith) in
      record {
        run = subst (Run lib t coding id key n (arrive lib now m' r)) (omega arith) rest.run;
        receipt =
            rest.receipt
            ∙ ap (λ b. b || any_receipt r) w.2
            ∙ or_assoc (receipt_at m key) s.delivery_receipt_requested (any_receipt r);
        others = λ k pos l x.
            rest.others k pos l.1
              (slot_kept m m' s (record s { message_id = id }) k w.1 p.0.from_one pos l.0 x);
      }
    where
      m' : SegmentsManager
      m' = (add_segment lib m s (some new) now).1

      a : Arrival lib t coding id key n m f s new now
      a = record { run = run; part = p.0; empty = e.0; first = first }

  -- Where no group has the ID, the first segment may be any of the message's.
  Run-start :
      (m : SegmentsManager)
      → ManagerOk m
      → find_group m key ≡ none
      → 2 ≤ n
      → n ≤ m.max_segments
      → Run lib t coding id key n m 0
  Run-start m v e lo hi = record {
    ok = v;
    allowed = (lo, hi);
    fits = λ g x. let k : none ≡ some g = sym e ∙ x in cc;
    held = rw (e, slots_at) (count_present-replicate n);
    pieces = rw (e, slots_at) (Each-replicate (Piece t coding id) 0 n);
  }

  Free-start : (m : SegmentsManager) (r : Arrivals) → find_group m key ≡ none → Parts r → Free m r
  Free-start m [] e p = tt
  Free-start m (q ∷ r) e p = (
    rw (e, slots_at)
        (is_empty_slot-replicate n (q.0.segment_seq_num - 1)
          (omega (arith, p.0.from_one, p.0.to_n))),
    Free-start m r e p.1,
  )

first_id_again : (r : Arrivals) (new : ℕ) → first_id r (first_id r new) ≡ first_id r new
first_id_again [] new = refl
first_id_again ((s, i) ∷ r) new = refl

first_id_none : (r : Arrivals) (new : ℕ) → length r ≡ 0 → new ≡ first_id r new
first_id_none [] new h = refl
first_id_none (q ∷ r) new h = absurd (omega arith)

module _ (lib : GoSmpp) (t : ℕ → Bytes) (coding : ℕ) (key : Bytes) (n now : ℕ) (m : SegmentsManager)
    (r : Arrivals) (s : MessageSegment) (new : ℕ) (v : ManagerOk m) (e : find_group m key ≡ none)
    (lo : 2 ≤ n) (hi : n ≤ m.max_segments) (p : All (λ p. Part t coding key n p.0) r)
    (q : Part t coding key n s) (d : Distinct r) (l : Lacks s.segment_seq_num r) where
  abbrev id : ℕ
  id = first_id r new

  before_last : length r < n → Waiting lib t coding id key n now m (arrive lib now m r) 0 r
  before_last h =
      arrive-Waiting lib t coding id key n now r m 0
        (Run-start lib t coding id key n now m v e lo hi) p d
        (Free-start lib t coding id key n now m r e p) (λ z. first_id_again r new) (omega arith)

  last_arrival :
      length r < n → Arrival lib t coding id key n (arrive lib now m r) (length r) s new now
  last_arrival h = record {
    run = subst (Run lib t coding id key n (arrive lib now m r)) (omega arith) w.run;
    part = q;
    empty = w.others s.segment_seq_num q.from_one l start;
    first = first_id_none r new;
  }
    where
      w : Waiting lib t coding id key n now m (arrive lib now m r) 0 r
      w = before_last h

      start : is_empty_slot (slots_at m key n) (s.segment_seq_num - 1) ≡ true
      start = (Free-start lib t coding id key n now m ((s, new) ∷ []) e (q, tt)).0

-- A message of n segments, 2 <= n <= max_segments, of which none has arrived: whatever the order in
-- which its segments, all of one coding, come with n different numbers from 1 to n, the last
-- call of AddSegment completes it. It reports the ID that the first segment got, whether any of
-- them asked for a receipt, and the decoder's outcome on the texts in the order of their
-- numbers; and the group is gone.
pub arrive-completes :
    (lib : GoSmpp) (t : ℕ → Bytes) (coding : ℕ) (key : Bytes) (n now : ℕ) (m : SegmentsManager)
    (r : Arrivals) (s : MessageSegment) (new : ℕ)
    → ManagerOk m
    → find_group m key ≡ none
    → 2 ≤ n
    → n ≤ m.max_segments
    → All (λ p. Part t coding key n p.0) r
    → Part t coding key n s
    → Distinct r
    → Lacks s.segment_seq_num r
    → length r + 1 ≡ n
    → ((add_segment lib (arrive lib now m r) s (some new) now).0
        ≡ completed (first_id r new) (any_receipt r || s.delivery_receipt_requested) (
            decode_message lib
              (texts_from t 0 n)
              (if coding == lib.ucs2_type then lib.ucs2_type else lib.default_type)))
      × (find_group (add_segment lib (arrive lib now m r) s (some new) now).1 key ≡ none)
arrive-completes lib t coding key n now m r s new v e lo hi p q d l h =
    let a : Arrival lib t coding (first_id r new) key n (arrive lib now m r) (length r) s new now =
      last_arrival lib t coding key n now m r s new v e lo hi p q d l (omega arith) in
    let w = before_last lib t coding key n now m r s new v e lo hi p q d l (omega arith) in
    let c =
      completes lib t coding (first_id r new) key n (arrive lib now m r) (length r) s new now a h in
    (
      c.0
          ∙ ap
              (λ b. completed (first_id r new) (b || s.delivery_receipt_requested) (
                decode_message lib (texts_from t 0 n)
                  (if coding == lib.ucs2_type then lib.ucs2_type else lib.default_type)))
              (w.receipt ∙ rw (e, receipt_at)),
      c.1,
    )

-- A message of n segments, 2 <= n <= max_segments, of which none has arrived: in whatever order fewer
-- than n segments, all of one coding, come with different numbers from 1 to n, the last of these
-- calls answers StatusOK with the ID that the first one got and no text.
pub arrive-waits :
    (lib : GoSmpp) (t : ℕ → Bytes) (coding : ℕ) (key : Bytes) (n now : ℕ) (m : SegmentsManager)
    (r : Arrivals) (s : MessageSegment) (new : ℕ)
    → ManagerOk m
    → find_group m key ≡ none
    → 2 ≤ n
    → n ≤ m.max_segments
    → All (λ p. Part t coding key n p.0) r
    → Part t coding key n s
    → Distinct r
    → Lacks s.segment_seq_num r
    → length r + 1 < n
    → (add_segment lib (arrive lib now m r) s (some new) now).0 ≡ waiting (first_id r new)
arrive-waits lib t coding key n now m r s new v e lo hi p q d l h =
    (waits lib t coding (first_id r new) key n (arrive lib now m r) (length r) s new now
      (last_arrival lib t coding key n now m r s new v e lo hi p q d l (omega arith)) h).0
