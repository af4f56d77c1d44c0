-- ===== src/Deliver/Keeps.antt =====
-- SendSegmentedDeliverSM of internal/smsc/server.go changes the state only by its sends.
use smpp_smsc.Base.{
  ℕ, ◌+◌, ◌*◌, inl, inr, Bool, true, false, ◌||◌, Option, none, some, List, [], ◌∷◌, Bytes, nat_eq,
  ◌==◌, if◌then◌else◌, length, Option-cases, Bool-cases,
}
use smpp_smsc.Wire.{GoSmpp}
use smpp_smsc.Deliver.{DeliverSmParams, new_deliver_sm_params, DeliverResult, refused, delivered}
use smpp_smsc.Deliver.Segmented.{
  Progress, send_segmented_deliver_sm, send_split, send_single, after_single, send_parts,
  part_params, part_message, cut_text, split_text_into_segments,
}
use smpp_smsc.Deliver.Parts.{DeliverResult-cases}

-- A sender that keeps `P` keeps it over all parts of a text.
module _ {St : Type 0} (P : St → Type 0) (lib : GoSmpp)
    (send : Bool → DeliverSmParams → St → DeliverResult × St)
    (sends : (e : Bool) (p : DeliverSmParams) (st : St) → P st → P (send e p st).1)
    (encode : Bytes → ℕ → Option Bytes) (expired : ℕ → Bool) (source dest : Bytes) where
  kept_if : (b : Bool) (x y : Progress St) → P x.2 → P y.2 → P (if b then x else y).2
  kept_if true x y p q = p
  kept_if false x y p q = q

  after_single-kept :
      (data_coding : ℕ) (r : DeliverResult) (st : St)
      → P st
      → P (after_single lib send encode expired source dest data_coding (r, st)).2
  unfolding after_single
  after_single-kept data_coding (refused e) st v = v
  after_single-kept data_coding (delivered seq) st v = v

  send_parts-kept :
      (data_coding ref total i : ℕ) (segments : List Bytes) (st : St)
      → P st
      → P (send_parts lib send encode expired source dest data_coding ref total i segments st).2
  unfolding send_parts
  send_parts-kept data_coding ref total i [] st v = v
  send_parts-kept data_coding ref total i (segment ∷ segments) st v =
      elim (Bool-cases (expired (2 * i))) [
        | inl x ↦ rw (x, send_parts) v
        | inr x ↦ elim (Option-cases (encode segment data_coding)) [
          | inl c ↦ rw (x, c, send_parts) v
          | inr (octets, c) ↦
              let p =
                part_params lib send encode expired source dest data_coding
                  (part_message ref total i octets) in
              let w : P (send (expired (2 * i + 1)) p st).1 = sends (expired (2 * i + 1)) p st v in
              elim (DeliverResult-cases (send (expired (2 * i + 1)) p st).0) [
                | inl (e, d) ↦ rw (x, c, d, send_parts) w
                | inr (seq, d) ↦
                    rw (x, c, d, send_parts)
                      (send_parts-kept data_coding ref total (i + 1) segments
                        (send (expired (2 * i + 1)) p st).1 w)
              ]
        ]
      ]

  send_single-kept :
      (data_coding : ℕ) (t : Bytes) (o : Option Bytes) (st : St)
      → P st
      → P (send_single lib send encode expired source dest data_coding t o st).2
  unfolding send_single
  send_single-kept data_coding t none st v = v
  send_single-kept data_coding t (some payload) st v =
      let whole = record (new_deliver_sm_params lib source dest payload) {
        data_coding = data_coding;
      } in
      after_single-kept data_coding (send (expired 0) whole st).0 _ (sends (expired 0) whole st v)

  pub send_segmented_deliver_sm-kept :
      (determine : Bytes → ℕ) (limit ref : ℕ) (session_id t : Bytes) (st : St)
      → P st
      → P
          (send_segmented_deliver_sm lib send determine encode expired limit ref session_id source
            dest t st).2
  unfolding send_segmented_deliver_sm send_split
  send_segmented_deliver_sm-kept determine limit ref session_id t st v =
      let coding = determine t in
      let cut = cut_text limit t in
      let segments = split_text_into_segments lib cut coding in
      kept_if (length t == 0) _ _ v (
        kept_if (length session_id == 0) _ _ v (
          kept_if (length source == 0 || length dest == 0) _ _ v (
            kept_if (length segments == 1)
              (send_single lib send encode expired source dest coding cut (encode cut coding) st) _
              (send_single-kept coding cut (encode cut coding) st v)
              (send_parts-kept coding ref (length segments) 0 segments st v))))
