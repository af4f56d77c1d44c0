-- ===== src/Deliver/Segmented.antt =====
-- The sending of a text in parts, of internal/smsc/server.go: how a text is split, the message of a
-- part, and the loop that sends the parts one after the other.
use smpp_smsc.Base.{
  ℕ, zero, suc, ◌+◌, ◌*◌, ◌-◌, ◌/◌, ◌%◌, Bool, true, false, ◌||◌, Option, none, some, List, [], ◌∷◌,
  ◌++◌, Bytes, nat_eq, ltb, leb, ◌==◌, if◌then◌else◌, length, take, drop,
}
use smpp_smsc.Text.{runes, utf8}
use smpp_smsc.Wire.{GoSmpp}
use smpp_smsc.Charset.{is_gsm7_bit}
use smpp_smsc.Deliver.{
  DeliverSmParams, new_deliver_sm_params, set_udh_indicator, ServerError, context_error,
  encoding_failed, empty_text, no_session_id, no_addresses, DeliverResult, refused, delivered,
}

unfoldable pub max_len : GoSmpp → ℕ → ℕ
max_len lib data_coding =
    if data_coding == lib.default_type
    then 160
    else if data_coding == lib.latin1_type || data_coding == lib.iso88595_type
    then 140
    else 70

unfoldable pub max_multi_len : GoSmpp → ℕ → ℕ
max_multi_len lib data_coding =
    if data_coding == lib.default_type
    then 153
    else if data_coding == lib.latin1_type || data_coding == lib.iso88595_type
    then 134
    else 67

-- The loop over `start`: `fuel` counts the slices still allowed, and is the number of runes.
unfoldable pub slices : ℕ → ℕ → List ℕ → List Bytes
slices width fuel [] = []
slices width zero (r ∷ rs) = []
slices width (suc fuel) (r ∷ rs) =
    utf8 (take width (r ∷ rs)) ∷ slices width fuel (drop width (r ∷ rs))

unfoldable pub split_text_into_segments : GoSmpp → Bytes → ℕ → List Bytes
unfolding max_len max_multi_len slices
split_text_into_segments lib text data_coding =
    let rs = runes text in
    if leb (length rs) (max_len lib data_coding)
    then text ∷ []
    else slices (max_multi_len lib data_coding) (length rs) rs

unfoldable pub all_latin1 : List ℕ → Bool
all_latin1 [] = true
all_latin1 (r ∷ rs) = if ltb 255 r then false else all_latin1 rs

unfoldable pub is_latin1_encodable : Bytes → Bool
unfolding all_latin1
is_latin1_encodable text = all_latin1 (runes text)

-- The data coding that SendDeliverSMText chooses.
unfoldable pub text_encoding : GoSmpp → Bytes → ℕ
unfolding is_latin1_encodable
text_encoding lib text =
    if is_gsm7_bit text
    then lib.default_type
    else if is_latin1_encodable text
    then lib.latin1_type
    else lib.ucs2_type

-- The message of part `i`, counted from 0: a header with a 16-bit reference, and what fits.
unfoldable pub part_message : ℕ → ℕ → ℕ → Bytes → Bytes
part_message ref total i octets =
    let header = 6 ∷ 8 ∷ 4 ∷ ref / 256 % 256 ∷ ref % 256 ∷ total % 256 ∷ (i + 1) % 256 ∷ [] in
    header
    ++ (if ltb 255 (length octets + length header)
        then take (255 - length header) octets
        else octets)

-- How many parts were sent, the error if one was not, and the state after.
abbrev pub Progress : Type 0 → Type 0
Progress St = ℕ × Option ServerError × St

-- `send` is SendDeliverSMWithParams on whatever holds the session. `expired` gives what the n-th
-- look at the caller's context finds.
module _ {St : Type 0} (lib : GoSmpp) (send : Bool → DeliverSmParams → St → DeliverResult × St)
    (encode : Bytes → ℕ → Option Bytes) (expired : ℕ → Bool) (source dest : Bytes)
    (data_coding : ℕ) where
  unfoldable pub part_params : Bytes → DeliverSmParams
  unfolding new_deliver_sm_params set_udh_indicator
  part_params message =
      set_udh_indicator
        (record (new_deliver_sm_params lib source dest message) { data_coding = data_coding })

  unfoldable pub send_parts : ℕ → ℕ → ℕ → List Bytes → St → Progress St
  unfolding part_params
  send_parts ref total i [] st = (i, none, st)
  send_parts ref total i (segment ∷ segments) st = elim (expired (2 * i)) [
    | true ↦ (i, some context_error, st)
    | false ↦ elim (encode segment data_coding) [
      | none ↦ (i, some encoding_failed, st)
      | some octets ↦
          let (result, st1) =
            send (expired (2 * i + 1)) (part_params (part_message ref total i octets)) st in
          elim result [
            | refused e ↦ (i, some e, st1)
            | delivered seq ↦ send_parts ref total (i + 1) segments st1
          ]
    ]
  ]

  unfoldable pub after_single : DeliverResult × St → Progress St
  after_single (refused e, st) = (0, some e, st)
  after_single (delivered seq, st) = (1, none, st)

  unfoldable pub send_single : Bytes → Option Bytes → St → Progress St
  unfolding new_deliver_sm_params after_single
  send_single text none st = (0, some encoding_failed, st)
  send_single text (some payload) st = after_single (
      send (expired 0)
        (record (new_deliver_sm_params lib source dest payload) { data_coding = data_coding }) st)

  -- One segment is sent as the text itself, without a header.
  unfoldable pub send_split : ℕ → Bytes → List Bytes → St → Progress St
  unfolding send_single send_parts
  send_split ref text segments st =
      if length segments == 1
      then send_single text (encode text data_coding) st
      else send_parts ref (length segments) 0 segments st

-- The text is cut to `limit` runes (cfg.DefaultMaxSegsCount).
unfoldable pub cut_text : ℕ → Bytes → Bytes
cut_text limit text =
    if ltb limit (length text)
    then (if ltb limit (length (runes text)) then utf8 (take limit (runes text)) else text)
    else text

unfoldable pub send_segmented_deliver_sm :
    {St : Type 0}
    → GoSmpp
    → (Bool → DeliverSmParams → St → DeliverResult × St)
    → (Bytes → ℕ)
    → (Bytes → ℕ → Option Bytes)
    → (ℕ → Bool)
    → ℕ
    → ℕ
    → Bytes
    → Bytes
    → Bytes
    → Bytes
    → St
    → Progress St
unfolding cut_text send_split split_text_into_segments
send_segmented_deliver_sm lib send determine encode expired limit ref session_id source dest text
      st =
    if length text == 0
    then (0, some empty_text, st)
    else if length session_id == 0
    then (0, some no_session_id, st)
    else if length source == 0 || length dest == 0
    then (0, some no_addresses, st)
    else let data_coding = determine text in
      let cut = cut_text limit text in
      send_split lib send encode expired source dest data_coding ref cut
        (split_text_into_segments lib cut data_coding) st
