-- ===== src/Session/Sound/Tests.antt =====
-- A run of the reading loop of session.go that ends.
use smpp_smsc.Base.{◌≡◌, [], ◌∷◌, Bytes, nat_eq}
use smpp_smsc.Wire.Samples.{smpp34}
use smpp_smsc.Session.Samples.{idle, sample_packet, moment}
use smpp_smsc.Session.Handler.{default_handler}
use smpp_smsc.Session.Cleanup.{read, timeout, failure, read_loop}
use smpp_smsc.Session.Sound.Samples.{idle-SessionOk}
use smpp_smsc.Session.Sound.Handlers.{default_handler-IsSound}
use smpp_smsc.Session.Sound.Reads.{IsOver, read_loop-IsOver}

abbrev digest : Bytes → Bytes
digest d = d

-- An enquire_link, a timeout, an error, and a PDU that is not read any more.
read_loop-IsOver_example :
    (read_loop smpp34 default_handler digest
        (read moment (sample_packet 0x15) ∷ timeout ∷ failure ∷ read moment (sample_packet 9) ∷ [])
        idle
      ≡ read_loop smpp34 default_handler digest
          (read moment (sample_packet 0x15) ∷ timeout ∷ failure ∷ [])
          idle)
    × IsOver (
        read_loop smpp34 default_handler digest
          (read moment (sample_packet 0x15)
            ∷ timeout
            ∷ failure
            ∷ read moment (sample_packet 9)
            ∷ [])
          idle)
read_loop-IsOver_example =
    read_loop-IsOver smpp34 default_handler digest default_handler-IsSound
      (read moment (sample_packet 0x15) ∷ timeout ∷ []) (read moment (sample_packet 9) ∷ []) idle
      idle-SessionOk
