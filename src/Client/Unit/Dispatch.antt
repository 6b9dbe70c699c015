-- ===== src/Client/Unit/Dispatch.antt =====
-- What the calls of a controller do to the unit (the controller_on_ functions of
-- rubetek/client/controller/impl/unit.cpp).
use rubetek_ios_cpp_releases.Prelude.{
  ℕ, ◌≡◌, refl, sym, ◌∙◌, ◌&&◌, List, [], ◌∷◌, none, if◌then◌else◌, arith,
}
use rubetek_ios_cpp_releases.Client.Action.{Result, returned}
use rubetek_ios_cpp_releases.Client.Table.{update}
use rubetek_ios_cpp_releases.Client.Controller.{
  Controller, change_status, switch_links, change_remote_connection, make_known,
  removed_from_controller, set_offline_notice, rename, Effect, sends, reports, notifies,
}
use rubetek_ios_cpp_releases.Client.Controller.Callbacks.{online}
use rubetek_ios_cpp_releases.Client.Controller.Links.{goes_offline}
use rubetek_ios_cpp_releases.Client.Unit.{
  ControllersUnit, is_active_id, on_change_remote_connection, on_set_offline, on_notice,
  dispatch_one, dispatch, settle,
}

-- The active controller is given up when it says that it is offline.
unfoldable pub after : ℕ → List Effect → ControllersUnit → ControllersUnit
unfolding is_active_id
after id es u = record u {
  active_controller = if goes_offline es && is_active_id id u then none else u.active_controller;
}

dispatch_one-state :
    (id : ℕ) (c : Controller) (e : Effect) (u : ControllersUnit)
    → (dispatch_one id c e u).0 ≡ after id (e ∷ []) u
unfolding dispatch_one on_notice on_change_remote_connection on_set_offline is_active_id online
    after
dispatch_one-state id c (sends m) u = refl
dispatch_one-state id c (reports r) u = refl
dispatch_one-state id c (notifies change_status) u = refl
dispatch_one-state id c (notifies switch_links) u = ground arith
dispatch_one-state id c (notifies change_remote_connection) u = ground arith
dispatch_one-state id c (notifies make_known) u = refl
dispatch_one-state id c (notifies removed_from_controller) u = refl
dispatch_one-state id c (notifies set_offline_notice) u = ground arith
dispatch_one-state id c (notifies rename) u = refl

dispatch_one-returned :
    (id : ℕ) (c : Controller) (e : Effect) (u : ControllersUnit)
    → (dispatch_one id c e u).2 ≡ returned tt
unfolding dispatch_one on_notice on_change_remote_connection on_set_offline is_active_id online
dispatch_one-returned id c (sends m) u = refl
dispatch_one-returned id c (reports r) u = refl
dispatch_one-returned id c (notifies change_status) u = refl
dispatch_one-returned id c (notifies switch_links) u = ground arith
dispatch_one-returned id c (notifies change_remote_connection) u = ground arith
dispatch_one-returned id c (notifies make_known) u = refl
dispatch_one-returned id c (notifies removed_from_controller) u = refl
dispatch_one-returned id c (notifies set_offline_notice) u = ground arith
dispatch_one-returned id c (notifies rename) u = refl

after-after :
    (id : ℕ) (e : Effect) (es : List Effect) (u : ControllersUnit)
    → after id es (after id (e ∷ []) u) ≡ after id (e ∷ es) u
unfolding after is_active_id
after-after id e es u = ground arith

after-nil : (id : ℕ) (u : ControllersUnit) → after id [] u ≡ u
unfolding after
after-nil id u = ground arith

pub dispatch_lem :
    (id : ℕ) (c : Controller) (es : List Effect) (u : ControllersUnit)
    → ((dispatch id c es u).0 ≡ after id es u) × ((dispatch id c es u).2 ≡ returned tt)
unfolding dispatch
dispatch_lem id c [] u = (sym (after-nil id u), refl)
dispatch_lem id c (e ∷ es) u =
    let (state, end) = dispatch_lem id c es (after id (e ∷ []) u) in
    rw (dispatch_one-returned id c e u, dispatch_one-state id c e u)
      (state ∙ after-after id e es u, end)

-- A call that ends: its controller is kept, and the result is that of the controller.
pub settle_lem :
    {A : Type 0} (id : ℕ) (c : Controller) (es : List Effect) (r : Result A) (u : ControllersUnit)
    → let u' : ControllersUnit = record u { controllers = update id c u.controllers } in
      ((settle id (c, es, r) u).0 ≡ after id es u') × ((settle id (c, es, r) u).2 ≡ r)
unfolding settle
settle_lem id c es r u =
    let (state, end) =
      dispatch_lem id c es (record u { controllers = update id c u.controllers }) in
    rw end (state, refl)
