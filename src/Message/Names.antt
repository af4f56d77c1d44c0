-- ===== src/Message/Names.antt =====
-- The small text helpers of internal/smsc/utils.go: names of commands and statuses, phone numbers,
-- digits, and C strings.
use smpp_smsc.Base.{
  ◌&&◌, ℕ, zero, suc, ◌+◌, ◌/◌, ◌%◌, Bool, true, false, ◌&&◌, ◌||◌, Option, none, some, List, [],
  ◌∷◌, ◌++◌, Bytes, nat_eq, ltb, ◌==◌, if◌then◌else◌, length,
}
use smpp_smsc.Base.Decimal.{is_digit}
use smpp_smsc.Text.{codes, runes}
use smpp_smsc.Wire.Constants.{
  bind_transmitter, bind_transmitter_resp, bind_receiver, bind_receiver_resp, bind_transceiver,
  bind_transceiver_resp, unbind, unbind_resp, submit_sm, submit_sm_resp, deliver_sm,
  deliver_sm_resp, enquire_link, enquire_link_resp, generic_nack, status_ok, status_inv_msg_len,
  status_inv_cmd_len, status_inv_cmd_id, status_inv_bnd, status_aly_bnd, status_throttled,
}

hex_digit : ℕ → ℕ
hex_digit d = if ltb d 10 then 48 + d else 87 + d

-- `%0wx` of a number below 16 ^ w.
hex : ℕ → ℕ → Bytes → Bytes
unfolding hex_digit
hex zero n tail = tail
hex (suc width) n tail = hex width (n / 16) (hex_digit (n % 16) ∷ tail)

named : List (ℕ × Bytes) → Bytes → ℕ → Bytes
named [] other n = other
named ((k, name) ∷ names) other n = if k == n then name else named names other n

pub command_names : List (ℕ × Bytes)
command_names =
    (bind_transmitter, codes "bind_transmitter")
    ∷ (bind_transmitter_resp, codes "bind_transmitter_resp")
    ∷ (bind_receiver, codes "bind_receiver")
    ∷ (bind_receiver_resp, codes "bind_receiver_resp")
    ∷ (bind_transceiver, codes "bind_transceiver")
    ∷ (bind_transceiver_resp, codes "bind_transceiver_resp")
    ∷ (unbind, codes "unbind")
    ∷ (unbind_resp, codes "unbind_resp")
    ∷ (submit_sm, codes "submit_sm")
    ∷ (submit_sm_resp, codes "submit_sm_resp")
    ∷ (deliver_sm, codes "deliver_sm")
    ∷ (deliver_sm_resp, codes "deliver_sm_resp")
    ∷ (enquire_link, codes "enquire_link")
    ∷ (enquire_link_resp, codes "enquire_link_resp")
    ∷ (generic_nack, codes "generic_nack")
    ∷ []

unfoldable pub command_id_to_string : ℕ → Bytes
unfolding named command_names hex
command_id_to_string command_id =
    named command_names (codes "unknown_0x" ++ hex 8 command_id []) command_id

pub status_names : List (ℕ × Bytes)
status_names =
    (status_ok, codes "ESME_ROK (ok)")
    ∷ (status_inv_msg_len, codes "ESME_RINVMSGLEN")
    ∷ (status_inv_cmd_len, codes "ESME_RINVCMDLEN")
    ∷ (status_inv_cmd_id, codes "ESME_RINVCMDID")
    ∷ (status_inv_bnd, codes "ESME_RINVBNDSTS")
    ∷ (status_aly_bnd, codes "ESME_RALYBND")
    ∷ (status_throttled, codes "ESME_RTHROTTLED")
    ∷ []

unfoldable pub command_status_to_string : ℕ → Bytes
unfolding named status_names hex
command_status_to_string status =
    named status_names (codes "ESME_RUNKNOWNERR (0x" ++ hex 8 status (codes ")")) status

-- What the pattern [^0-9+] leaves.
keep_dialled : Bytes → Bytes
unfolding is_digit
keep_dialled [] = []
keep_dialled (c ∷ s) = let rest = keep_dialled s in if is_digit c || c == 43 then c ∷ rest else rest

without_prefix : Bytes → Bytes
without_prefix [] = []
without_prefix (c ∷ s) =
    if c == 43 then s else if length (c ∷ s) == 11 && c == 56 then 55 ∷ s else c ∷ s

-- strings.TrimSpace is an input.
unfoldable pub format_phone : (Bytes → Bytes) → Bytes → Bytes
unfolding keep_dialled without_prefix
format_phone trim_space phone =
    let trimmed = trim_space phone in
    if length trimmed == 0 then [] else without_prefix (keep_dialled trimmed)

all_digits : List ℕ → Bool
unfolding is_digit
all_digits [] = true
all_digits (r ∷ rs) = if is_digit r then all_digits rs else false

unfoldable pub is_numeric : Bytes → Bool
unfolding all_digits
is_numeric s = if length s == 0 then false else all_digits (runes s)

in_ussd_class : ℕ → Bool
unfolding is_digit
in_ussd_class c = is_digit c || (c == 42 || c == 35)

-- [0-9*#]+# to the end.
ussd_rest : Bytes → Bool
unfolding in_ussd_class
ussd_rest [] = false
ussd_rest (c ∷ []) = false
ussd_rest (c ∷ d ∷ []) = in_ussd_class c && d == 35
ussd_rest (c ∷ d ∷ e ∷ s) = in_ussd_class c && ussd_rest (d ∷ e ∷ s)

-- ^\*[0-9*#]+#$
unfoldable pub is_ussd : Bytes → Bool
unfolding ussd_rest
is_ussd [] = false
is_ussd (c ∷ s) = c == 42 && ussd_rest s

-- The string before the next zero byte and what the reader has left, or the reader's error at its
-- end.
unfoldable pub read_c_string : Bytes → Option (Bytes × Bytes)
read_c_string [] = none
read_c_string (zero ∷ left) = some ([], left)
read_c_string (suc b ∷ left) = elim (read_c_string left) [
  | none ↦ none
  | some r ↦ some (suc b ∷ r.0, r.1)
]
