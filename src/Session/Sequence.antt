-- ===== src/Session/Sequence.antt =====
-- Sequence numbers of the PDUs that the session sends.
use smpp_smsc.Base.{ℕ, zero, suc, ◌+◌, ◌%◌, ◌≤◌, ◌<◌, ◌≡◌, ◌≢◌, refl, ◌∙◌, arith}
use smpp_smsc.Session.{Session, get_next_sequence, max_sequence}

-- The session after `k` calls of `getNextSequence`.
pub after_calls : ℕ → Session → Session
after_calls zero s = s
after_calls (suc k) s = (get_next_sequence (after_calls k s)).1

next_number :
    (n k x : ℕ)
    → x ≡ (n + k) % max_sequence + 1
    → (s : Session) → s.sequence_number ≡ x
    → (get_next_sequence s).0 ≡ (n + suc k) % max_sequence + 1
unfolding get_next_sequence
next_number n k x e s f = ground arith

-- The number that a call returns is the one that the session has afterwards.
returned_kept : (s : Session) → (get_next_sequence s).1.sequence_number ≡ (get_next_sequence s).0
unfolding get_next_sequence
returned_kept s = refl

first_number :
    (s : Session)
    → s.sequence_number ≤ max_sequence
    → (get_next_sequence s).0 ≡ (s.sequence_number + 0) % max_sequence + 1
unfolding get_next_sequence
first_number s l = ground arith

-- From a number n up to 0x7fffffff the call after k others returns (n + k) mod 0x7fffffff + 1: the
-- numbers run through the range in order and start again at 1.
pub after_calls-sequence :
    (s : Session) (k : ℕ)
    → s.sequence_number ≤ max_sequence
    → (get_next_sequence (after_calls k s)).0 ≡ (s.sequence_number + k) % max_sequence + 1
unfolding after_calls
after_calls-sequence s zero l = first_number s l
after_calls-sequence s (suc k) l =
    next_number s.sequence_number k _ refl (get_next_sequence (after_calls k s)).1
      (returned_kept (after_calls k s) ∙ after_calls-sequence s k l)

-- In a session whose number is at most 0x7fffffff (0 in a new one), the number that a call of
-- getNextSequence returns after j calls is from 1 to 0x7fffffff, and differs from the one that a
-- later call returns, fewer than 0x7fffffff calls after it.
pub after_calls_distinct :
    (s : Session) (j k : ℕ)
    → s.sequence_number ≤ max_sequence
    → j < k
    → k < j + max_sequence
    → ((get_next_sequence (after_calls j s)).0 ≢ (get_next_sequence (after_calls k s)).0)
      × (0 < (get_next_sequence (after_calls j s)).0)
      × ((get_next_sequence (after_calls j s)).0 ≤ max_sequence)
after_calls_distinct s j k l lt near =
    let e = after_calls-sequence s j l in
    let f = after_calls-sequence s k l in
    (λ same. absurd (omega (arith, same)), omega arith, omega arith)
