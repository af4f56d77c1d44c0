-- ===== src/Command/Tests.antt =====
-- The command after a failed Accept and a connection, and the server that it builds.
use smpp_smsc.Base.{◌≡◌, ◌⊎◌, refl, true, false, none, some, [], ◌∷◌, ◌++◌, Bytes}
use smpp_smsc.Text.{codes}
use smpp_smsc.Controller.Samples.{sessions_list, ids_list}
use smpp_smsc.Server.Samples.{stopped_server, client}
use smpp_smsc.Server.Listen.{Server, accepted, failed}
use smpp_smsc.Command.{run}
use smpp_smsc.Command.Reason.{IsLeft, run_reason}

-- With a signal there as well as the error, the select takes the error.
run_reason_example :
    let r =
      run sessions_list ids_list none
        (accepted client ∷ failed (codes "e") ∷ [])
        false
        (some (codes "interrupt"))
        stopped_server in
    ((r ≡ none) × (true ≡ false) × (some (codes "interrupt") ≡ none))
    ⊎ ((reason : Bytes) × (t : Server sessions_list ids_list) × (r ≡ some (reason, some t))
        × (((reason ≡ codes "server_error") × (true ≡ true))
            ⊎ ((name : Bytes) × (some (codes "interrupt") ≡ some name)
                × (reason ≡ codes "signal:" ++ name)))
        × IsLeft sessions_list ids_list t)
run_reason_example =
    run_reason sessions_list ids_list none (accepted client ∷ failed (codes "e") ∷ []) false
      (some (codes "interrupt")) stopped_server refl refl
