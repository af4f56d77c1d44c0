-- ===== src/Types/Receipts.antt =====
-- Which outcomes of a message ask for a delivery receipt, by its registered_delivery octet.
use smpp_smsc.Base.{ℕ, ◌%◌, ◌<◌, ◌≡◌, true, false, nat_eq, ◌==◌, ◌||◌, arith}
use smpp_smsc.Base.Octets.{low_two}
use smpp_smsc.Types.{requires_delivery_receipt, should_send_delivery_receipt}

-- On a byte the two low bits decide: a receipt goes out after a success for 1 and 3, after a failure
-- for 1 and 2, and the octet asks for one exactly where one of the outcomes would send it.
receipt_cases :
    (r : ℕ)
    → r < 256
    → (should_send_delivery_receipt r true ≡ (r % 4 == 1 || r % 4 == 3))
      × (should_send_delivery_receipt r false ≡ (r % 4 == 1 || r % 4 == 2))
      × (requires_delivery_receipt r
          ≡ (should_send_delivery_receipt r true || should_send_delivery_receipt r false))
unfolding requires_delivery_receipt should_send_delivery_receipt
receipt_cases r h = ground (arith, low_two r h)
