-- ===== src/Controller/Tests.antt =====
-- Runs of the controller over a cache that is a list.
use smpp_smsc.Base.{
  All, arith, false, ◌∷◌, [], ◌≡◌, ◌⊎◌, inl, refl, none, some, Bytes, nat_eq, bytes_eq,
}
use smpp_smsc.Base.Maps.{lookup}
use smpp_smsc.Text.{codes}
use smpp_smsc.Session.{message, pending_key_eq, load_pending}
use smpp_smsc.Controller.Caches.{IsIn}
use smpp_smsc.Controller.Samples.{sessions_list, ids_list, empty_controller, one_session}
use smpp_smsc.Config.{default_config}
use smpp_smsc.Controller.Inactive.{checks, inactive_deleted}
use smpp_smsc.Controller.{
  is_active, initialize_session, delete_session, on_deletion, get_session_by_id, cached_session,
  get_sessions_by_application_id,
}
use smpp_smsc.Controller.Index.{Indexed}
use smpp_smsc.Controller.Reach.{Reach, here, next, initialized, Reach-Indexed}
use smpp_smsc.Controller.Search.{get_sessions_by_application_id_exact}
use smpp_smsc.Controller.Closing.{IsClosed}
use smpp_smsc.Controller.Routes.{Gone}
use smpp_smsc.Controller.Lifecycle.{delete_session_stops}

empty-Indexed : Indexed sessions_list ids_list [] empty_controller
unfolding cached_session lookup
empty-Indexed id a o e = absurd (cc)

abbrev after_connection :
    Reach sessions_list ids_list empty_controller []
      (initialize_session sessions_list ids_list 7 empty_controller)
after_connection = next here (initialized 7 refl refl)

Reach-Indexed_example :
    Indexed sessions_list ids_list [] (initialize_session sessions_list ids_list 7 empty_controller)
Reach-Indexed_example = Reach-Indexed sessions_list ids_list empty-Indexed after_connection

still_open : (initialize_session sessions_list ids_list 7 empty_controller).closed ≡ false
unfolding initialize_session
still_open = refl

get_sessions_by_application_id_exact_example :
    let t = initialize_session sessions_list ids_list 7 empty_controller in
    let found = get_sessions_by_application_id sessions_list ids_list (codes "app") t in
    (IsIn 7 found
      × ((id : Bytes) × (get_session_by_id sessions_list ids_list id t ≡ some (some 7))
          × ((t.heap 7).application_id ≡ codes "app")))
    ⊎ (¬ IsIn 7 found
        × ¬ (
            (id : Bytes) × (get_session_by_id sessions_list ids_list id t ≡ some (some 7))
            × ((t.heap 7).application_id ≡ codes "app")
            × ¬ IsIn id []))
get_sessions_by_application_id_exact_example =
    get_sessions_by_application_id_exact sessions_list ids_list empty_controller
      (initialize_session sessions_list ids_list 7 empty_controller) [] (codes "app") 7
      empty-Indexed after_connection still_open

s1_cached : get_session_by_id sessions_list ids_list (codes "s1") one_session ≡ some (some 7)
unfolding get_session_by_id lookup
s1_cached = refl

delete_session_stops_example :
    let t = delete_session sessions_list ids_list (codes "s1") one_session in
    let u = on_deletion sessions_list ids_list (7 ∷ []) t in
    (get_session_by_id sessions_list ids_list (codes "s1") t ≡ some none)
    × ¬ IsIn (codes "s1") t.session_ids
    × IsIn 7 t.notices
    × IsClosed (u.heap 7)
    × ((load_pending (one_session.heap 7) (message 1000) ≡ none)
        ⊎ Gone sessions_list ids_list 1000 u)
delete_session_stops_example =
    delete_session_stops sessions_list ids_list (codes "s1") 7 1000 (7 ∷ []) one_session s1_cached
      refl refl (inl refl)

silent :
    All
      (λ now. is_active now one_session.cfg.inactivity_timeout (one_session.heap 7) ≡ false)
      (1 ∷ 2 ∷ 3 ∷ 4 ∷ [])
unfolding is_active
silent = (refl, (refl, (refl, (refl, tt))))

limit_is : one_session.cfg.max_enquire_link_retry ≡ 3
unfolding default_config
limit_is = refl

inactive_deleted_example :
    cached_session sessions_list ids_list
      (codes "s1")
      (checks sessions_list ids_list 0x15 (1 ∷ 2 ∷ 3 ∷ 4 ∷ []) 7 one_session)
    ≡ none
inactive_deleted_example =
    inactive_deleted sessions_list ids_list 0x15 (1 ∷ 2 ∷ 3 ∷ 4 ∷ []) 7 one_session silent
      (omega (arith, limit_is)) (omega (arith, limit_is))
