-- ===== src/Receipt/Contents.antt =====
-- What the text of a receipt tells of the message it is about.
use smpp_smsc.Base.{
  ℕ, ◌/◌, ◌≤◌, ◌<◌, ◌≡◌, ◌≢◌, refl, ap, sym, ◌∙◌, Bool, true, false, ◌&&◌, Option, none, some, [],
  ◌∷◌, ◌++◌, Bytes, All, nat_beq, nat_eq, bytes_eq, if◌then◌else◌, length, arith,
}
use smpp_smsc.Base.Octets.{holds_below, holds_below→holds}
use smpp_smsc.Base.Decimal.{padded, digits_value, split_at_separator}
use smpp_smsc.Text.{codes}
use smpp_smsc.Types.{PendingRequest}
use smpp_smsc.Receipt.{
  DeliveryReceiptFields, format_receipt_date_time, format_sub_dlvrd3, segment_count_for_receipt,
  format_delivery_receipt_string, build_delivery_receipt_from_pending,
}
use smpp_smsc.Receipt.Dates.{
  length-format_receipt_date_time, read_receipt_date_time, read_receipt_date_time-format,
}

split_at_length : (a b x y : Bytes) → length a ≡ length b → a ++ x ≡ b ++ y → (a ≡ b) × (x ≡ y)
split_at_length [] [] x y h e = (refl, e)
split_at_length [] (d ∷ b) x y h e = absurd (omega (arith, h))
split_at_length (c ∷ a) [] x y h e = absurd (omega (arith, h))
split_at_length (c ∷ a) (d ∷ b) x y h e =
    let heads : c ≡ d = cc in
    let rests : a ++ x ≡ b ++ y = cc in
    let (p, q) = split_at_length a b x y (omega (arith, h)) rests in (cc, q)

abbrev is_value : ℕ → Option ℕ → Bool
is_value n none = false
is_value n (some m) = nat_beq m n

abbrev three_read : ℕ → Bool
three_read n = nat_beq (length (padded 3 n)) 3 && is_value n (digits_value 0 (padded 3 n))

-- A separator of the receipt's text is the same in every receipt.
after_label : (label x y : Bytes) → label ++ x ≡ label ++ y → x ≡ y
after_label label x y e = (split_at_length label label x y refl e).1

-- The fields whose widths are fixed.
pub record HasWidths (r : DeliveryReceiptFields) : Type 0 where
  pub no_space : All (λ c. c ≢ 32) r.id
  pub three_sub : length r.sub ≡ 3
  pub three_dlvrd : length r.dlvrd ≡ 3
  pub ten_submit : length r.submit_date ≡ 10
  pub ten_done : length r.done_date ≡ 10
  pub seven_stat : length r.stat ≡ 7
  pub three_err : length r.err ≡ 3

-- Receipts of these widths have one text only if they agree in every field.
format_delivery_receipt_string-injective :
    (r s : DeliveryReceiptFields)
    → HasWidths r
    → HasWidths s
    → format_delivery_receipt_string r ≡ format_delivery_receipt_string s
    → r ≡ s
unfolding format_delivery_receipt_string
format_delivery_receipt_string-injective r s h k e =
    let e0 = after_label (codes "id:") _ _ e in
    let (same_id, e1) = split_at_separator 32 r.id s.id _ _ h.no_space k.no_space e0 in
    let e2 = after_label (codes "sub:") _ _ e1 in
    let (same_sub, e3) = split_at_length r.sub s.sub _ _ (h.three_sub ∙ sym k.three_sub) e2 in
    let e4 = after_label (codes " dlvrd:") _ _ e3 in
    let (same_dlvrd, e5) =
      split_at_length r.dlvrd s.dlvrd _ _ (h.three_dlvrd ∙ sym k.three_dlvrd) e4 in
    let e6 = after_label (codes " submit date:") _ _ e5 in
    let (same_submit, e7) =
      split_at_length r.submit_date s.submit_date _ _ (h.ten_submit ∙ sym k.ten_submit) e6 in
    let e8 = after_label (codes " done date:") _ _ e7 in
    let (same_done, e9) =
      split_at_length r.done_date s.done_date _ _ (h.ten_done ∙ sym k.ten_done) e8 in
    let e10 = after_label (codes " stat:") _ _ e9 in
    let (same_stat, e11) =
      split_at_length r.stat s.stat _ _ (h.seven_stat ∙ sym k.seven_stat) e10 in
    let e12 = after_label (codes " err:") _ _ e11 in
    let (same_err, e13) = split_at_length r.err s.err _ _ (h.three_err ∙ sym k.three_err) e12 in
    let same_text = after_label (codes " text:") _ _ e13 in
    λ i. record {
      id = same_id i;
      sub = same_sub i;
      dlvrd = same_dlvrd i;
      submit_date = same_submit i;
      done_date = same_done i;
      stat = same_stat i;
      err = same_err i;
      text = same_text i;
    }

threes : holds_below three_read 1000 ≡ true
unfolding holds_below padded digits_value
threes = refl

is_value_iff : (n : ℕ) (o : Option ℕ) → is_value n o ≡ true → o ≡ some n
is_value_iff n none h = cc
is_value_iff n (some m) h = ap some (ground (arith, h))

padded_three :
    (n : ℕ) → n < 1000 → (length (padded 3 n) ≡ 3) × (digits_value 0 (padded 3 n) ≡ some n)
padded_three n h =
    let both : three_read n ≡ true = holds_below→holds three_read 1000 threes n h in
    (ground (arith, both), is_value_iff n _ (ground (arith, both)))

padded_three-injective : (n m : ℕ) → n < 1000 → m < 1000 → padded 3 n ≡ padded 3 m → n ≡ m
padded_three-injective n m h k e =
    let same : some n ≡ some m =
      sym (padded_three n h).1 ∙ ap (digits_value 0) e ∙ (padded_three m k).1 in
    cc

-- A nanosecond of the years from 2000 to 2099.
abbrev pub InCentury : ℕ → Type 0
InCentury t = (946_684_800_000_000_000 ≤ t) × (t < 4_102_444_800_000_000_000)

sub_short :
    (n : ℕ)
    → n < 256
    → format_sub_dlvrd3 (segment_count_for_receipt n) ≡ padded 3 (segment_count_for_receipt n)
unfolding format_sub_dlvrd3 segment_count_for_receipt
sub_short n h = ground arith

count_small : (n : ℕ) → n < 256 → segment_count_for_receipt n < 1000
unfolding segment_count_for_receipt
count_small n h = ground arith

module _ (id : Bytes) (pr : PendingRequest) (success : Bool) (now : ℕ) where
  -- A pending request as the session stores it, a message ID without a space, and two times.
  pub record IsUsual : Type 0 where
    pub no_space : All (λ c. c ≢ 32) id
    pub one_octet : pr.segments_count < 256
    pub submitted : InCentury pr.created_at
    pub finished : InCentury now

  build-HasWidths : IsUsual → HasWidths (build_delivery_receipt_from_pending id pr success now)
  unfolding build_delivery_receipt_from_pending
  build-HasWidths u =
      let three : length (format_sub_dlvrd3 (segment_count_for_receipt pr.segments_count)) ≡ 3 =
        ap length (sub_short pr.segments_count u.one_octet)
        ∙ (padded_three (segment_count_for_receipt pr.segments_count)
            (count_small pr.segments_count u.one_octet)).0 in
      record {
        no_space = u.no_space;
        three_sub = three;
        three_dlvrd = ground (arith, three);
        ten_submit = length-format_receipt_date_time pr.created_at u.submitted.0 u.submitted.1;
        ten_done = length-format_receipt_date_time now u.finished.0 u.finished.1;
        seven_stat = ground arith;
        three_err = ground arith;
      }

same_minute :
    (t u : ℕ)
    → InCentury t
    → InCentury u
    → format_receipt_date_time t ≡ format_receipt_date_time u
    → t / 60_000_000_000 ≡ u / 60_000_000_000
same_minute t u h k e =
    let same : some (t / 60_000_000_000) ≡ some (u / 60_000_000_000) =
      sym (read_receipt_date_time-format t h.0 h.1)
      ∙ ap read_receipt_date_time e
      ∙ read_receipt_date_time-format u k.0 k.1 in
    cc

stat_tells :
    (a b : Bool)
    → (if a then codes "000" else codes "069") ≡ (if b then codes "000" else codes "069")
    → a ≡ b
stat_tells a b e = ground (arith, e)

-- The text of a receipt says what it is about. Two receipts that BuildDeliveryReceiptFromPending
-- makes, from message IDs without a space, counts of one octet and times of the years from 2000 to
-- 2099, have one text only if the message ID, the number of segments, the outcome, and the minutes of
-- submission and of completion all agree.
pub receipt_tells :
    (id id' : Bytes) (pr pr' : PendingRequest) (success success' : Bool) (now now' : ℕ)
    → IsUsual id pr success now
    → IsUsual id' pr' success' now'
    → format_delivery_receipt_string (build_delivery_receipt_from_pending id pr success now)
      ≡ format_delivery_receipt_string (build_delivery_receipt_from_pending id' pr' success' now')
    → (id ≡ id')
      × (segment_count_for_receipt pr.segments_count ≡ segment_count_for_receipt pr'.segments_count)
      × (success ≡ success')
      × (pr.created_at / 60_000_000_000 ≡ pr'.created_at / 60_000_000_000)
      × (now / 60_000_000_000 ≡ now' / 60_000_000_000)
unfolding build_delivery_receipt_from_pending
receipt_tells id id' pr pr' success success' now now' u v e =
    let same =
      format_delivery_receipt_string-injective
        (build_delivery_receipt_from_pending id pr success now)
        (build_delivery_receipt_from_pending id' pr' success' now')
        (build-HasWidths id pr success now u) (build-HasWidths id' pr' success' now' v) e in
    let subs : padded 3 (segment_count_for_receipt pr.segments_count)
        ≡ padded 3 (segment_count_for_receipt pr'.segments_count) =
      sym (sub_short pr.segments_count u.one_octet)
      ∙ ap (λ r. r.sub) same
      ∙ sub_short pr'.segments_count v.one_octet in
    (
      ap (λ r. r.id) same,
      padded_three-injective _ _ (count_small pr.segments_count u.one_octet)
          (count_small pr'.segments_count v.one_octet) subs,
      stat_tells success success' (ap (λ r. r.err) same),
      same_minute pr.created_at pr'.created_at u.submitted v.submitted
          (ap (λ r. r.submit_date) same),
      same_minute now now' u.finished v.finished (ap (λ r. r.done_date) same),
    )
