-- ===== src/Server/Unrouted.antt =====
-- A delivery report at the server: what it does to the route of its message.
use smpp_smsc.Base.{ℕ, ◌≡◌, inl, refl, sym, ◌∙◌, subst, true, none, some, [], ◌∷◌, Bytes, arith}
use smpp_smsc.Wire.{GoSmpp}
use smpp_smsc.Session.{Session, unregister}
use smpp_smsc.Controller.Caches.{Cache, IsIn}
use smpp_smsc.Controller.{cached_session, put_back}
use smpp_smsc.Controller.Routes.{Gone, Unregisters, apply_routes-Gone}
use smpp_smsc.Deliver.Report.{Request, report_on}
use smpp_smsc.Deliver.Once.{report_on-Finished}
use smpp_smsc.Server.{Sessions, report_to, send_delivery_report}

module _ (sessions_cache : Cache Bytes ℕ) (ids_cache : Cache ℕ Bytes) where
  put_back-Gone :
      (n a : ℕ) (m : Sessions sessions_cache ids_cache) (s : Session)
      → s.routes ≡ unregister n ∷ []
      → Gone sessions_cache ids_cache n (put_back sessions_cache ids_cache a s m)
  unfolding put_back
  put_back-Gone n a m s e =
      apply_routes-Gone sessions_cache ids_cache n s.routes s.id _ (subst Unregisters (sym e) tt)
        (subst (IsIn (unregister n)) (sym e) (inl refl))

  report_to-Gone :
      (lib : GoSmpp) (trim_space : Bytes → Bytes) (now later : ℕ) (q : Request) (a : ℕ)
      (m : Sessions sessions_cache ids_cache)
      → (m.heap a).has_routes ≡ true
      → (m.heap a).routes ≡ []
      → (report_to sessions_cache ids_cache lib trim_space now later q (some a) m).1 ≡ none
      → Gone sessions_cache ids_cache q.internal_id
          (report_to sessions_cache ids_cache lib trim_space now later q (some a) m).2
  unfolding report_to
  report_to-Gone lib trim_space now later q a m h l ok =
      let s = m.heap a in
      let finished = report_on-Finished lib trim_space now later q s ok in
      put_back-Gone q.internal_id a m (report_on lib trim_space now later q s).2
        (finished.unrouted ∙ ground (arith, h, l))

  -- A report that SendDeliveryReport answers without an error, for a session with the server's
  -- callbacks, leaves no route for its message: the controller then finds no session by that ID.
  pub send_delivery_report-Gone :
      (lib : GoSmpp) (trim_space : Bytes → Bytes) (now later : ℕ) (q : Request) (id : Bytes) (a : ℕ)
      (m : Sessions sessions_cache ids_cache)
      → cached_session sessions_cache ids_cache id m ≡ some a
      → (m.heap a).has_routes ≡ true
      → (m.heap a).routes ≡ []
      → (send_delivery_report sessions_cache ids_cache lib trim_space now later q id m).1 ≡ none
      → Gone sessions_cache ids_cache q.internal_id
          (send_delivery_report sessions_cache ids_cache lib trim_space now later q id m).2
  unfolding send_delivery_report
  send_delivery_report-Gone lib trim_space now later q id a m e h l ok =
      subst
        (λ o.
          (report_to sessions_cache ids_cache lib trim_space now later q o m).1 ≡ none
          → Gone sessions_cache ids_cache q.internal_id
              (report_to sessions_cache ids_cache lib trim_space now later q o m).2)
        (sym e) (report_to-Gone lib trim_space now later q a m h l) ok
