-- ===== src/Client/Unit/Steps.antt =====
-- The calls of the unit keep its invariant (rubetek/client/controller/impl/unit.cpp).
use rubetek_ios_cpp_releases.Prelude.{
  ℕ, ◌≡◌, refl, sym, ◌∙◌, inl, inr, Bool, List, [], ◌∷◌, Option, none, some, Bool-cases, All-append,
}
use rubetek_ios_cpp_releases.Client.Action.{Result, returned, thrown, dangling, follow, ◌>>◌}
use rubetek_ios_cpp_releases.Client.Action.Keeps.{Keeps, Keeps-bind, Keeps-when}
use rubetek_ios_cpp_releases.Client.Table.{lookup}
use rubetek_ios_cpp_releases.Client.Table.Laws.{
  lookup-update_self, lookup-insert_old, lookup-Values, insert-IsUnique, insert-Values,
}
use rubetek_ios_cpp_releases.Client.Controller
use rubetek_ios_cpp_releases.Client.Controller.{
  Text, Controller, Effect, Call, DeviceInfo, offline, rank, is_in, has_links, construct,
}
use rubetek_ios_cpp_releases.Client.Controller.Links.{
  Linked, Up, IsGood, disconnect-IsGood, remove_local_link-IsGood, remove_remote_link-IsGood,
  make_unknown-IsGood, connect-IsGood, connect-Up,
}
use rubetek_ios_cpp_releases.Client.Controller.Callbacks.{online}
use rubetek_ios_cpp_releases.Client.Unit.{
  ControllersUnit, Event, is_active_id, settle, call_at, call_or, call, call_kept, add_controller,
  push_removal, remove_local_link, remove_remote_link, disconnect_online, disconnect_at,
  disconnect_active_controller, disconnect_if_active, remove_known_controller, call_active,
  call_active_at, connect_to, disconnect_any, activate, has_active_controller,
}
use rubetek_ios_cpp_releases.Client.Unit.Dispatch.{after, settle_lem}
use rubetek_ios_cpp_releases.Client.Unit.Invariant.{Has, Inv, All-map, settle-Inv, call-Inv}

pub add_controller-Inv : (id : ℕ) (known : Bool) → Keeps Inv (add_controller id known)
unfolding add_controller construct
add_controller-Inv id known u inv =
    let new : Controller = construct id known in
    record {
      unique = insert-IsUnique id new u.controllers inv.unique;
      linked = insert-Values Linked id new u.controllers inv.linked refl;
      active_up = λ a act.
          let (c, e, up) = inv.active_up a act in
          (c, lookup-insert_old a id new c u.controllers e, up);
      present =
          All-map u.potentially_removal
            (λ j (c, e). (c, lookup-insert_old j id new c u.controllers e)) inv.present;
    }

push_removal-Inv :
    (id : ℕ) (u : ControllersUnit) → Inv u → Has id u.controllers → Inv (push_removal id u).0
unfolding push_removal
push_removal-Inv id u inv has = record {
  unique = inv.unique;
  linked = inv.linked;
  active_up = inv.active_up;
  present =
      All-append (λ j. Has j u.controllers) u.potentially_removal (id ∷ []) inv.present (has, tt);
}

settle-Has :
    {A : Type 0} (id : ℕ) (old c : Controller) (es : List Effect) (r : Result A)
    (u : ControllersUnit)
    → lookup id u.controllers ≡ some old
    → Has id (settle id (c, es, r) u).0.controllers
unfolding after
settle-Has id old c es r u e =
    rw ((settle_lem id c es r u).0) (c, lookup-update_self id c old u.controllers e)

follow-push :
    (id : ℕ) (s : ControllersUnit) (es : List Event) (r : Result (Unit {0}))
    → Inv s
    → Has id s.controllers
    → Inv (follow s es r (λ _. push_removal id)).0
follow-push id s es (returned _) inv has = push_removal-Inv id s inv has
follow-push id s es thrown inv has = inv
follow-push id s es dangling inv has = inv

-- A link that is lost: the controller may be removed.
call-push-Inv : (id : ℕ) (m : Call (Unit {0})) → IsGood m → Keeps Inv (call id m >> push_removal id)
unfolding call call_or
call-push-Inv id m good u inv = by_controller (lookup id u.controllers) refl
  where
    by_controller :
        (o : Option Controller)
        → lookup id u.controllers ≡ o
        → Inv ((call_at thrown id m o >> push_removal id) u).0
    by_controller none e = inv
    by_controller (some c) e =
        let good' = good c (lookup-Values Linked id c u.controllers inv.linked e) in
        let end = settle id (m c) u in
        follow-push id end.0 end.1 end.2 (settle-Inv id c (m c).0 (m c).1 (m c).2 u inv e good')
          (settle-Has id c (m c).0 (m c).1 (m c).2 u e)

pub remove_local_link-Inv : (id : ℕ) → Keeps Inv (remove_local_link id)
unfolding remove_local_link
remove_local_link-Inv id = call-push-Inv id Controller.remove_local_link remove_local_link-IsGood

pub remove_remote_link-Inv : (id : ℕ) → Keeps Inv (remove_remote_link id)
unfolding remove_remote_link
remove_remote_link-Inv id = call-push-Inv id Controller.remove_remote_link remove_remote_link-IsGood

disconnect_online-IsGood : IsGood disconnect_online
unfolding disconnect_online online
disconnect_online-IsGood c h = elim (Bool-cases (is_in offline c)) [
  | inl e ↦ rw e (h, inl λ up. up)
  | inr e ↦ rw e (disconnect-IsGood c h)
]

-- No controller is active.
without_active-Inv : (u : ControllersUnit) → Inv u → Inv (record u { active_controller = none })
without_active-Inv u inv = record {
  unique = inv.unique;
  linked = inv.linked;
  active_up = λ a e. absurd (cc e);
  present = inv.present;
}

disconnect_at-Inv : (o : Option ℕ) → Keeps Inv (disconnect_at o)
unfolding disconnect_at call_kept
disconnect_at-Inv none u inv = inv
disconnect_at-Inv (some a) u inv =
    call-Inv dangling a disconnect_online (record u { active_controller = none })
      disconnect_online-IsGood (without_active-Inv u inv)

pub disconnect_active_controller-Inv : Keeps Inv disconnect_active_controller
unfolding disconnect_active_controller
disconnect_active_controller-Inv u = disconnect_at-Inv u.active_controller u

pub remove_known_controller-Inv : (id : ℕ) → Keeps Inv (remove_known_controller id)
unfolding remove_known_controller disconnect_if_active call
remove_known_controller-Inv id =
    let unknown = call id Controller.make_unknown in
    Keeps-bind Inv (unknown >> disconnect_if_active id) (λ _. remove_remote_link id)
      (Keeps-bind Inv unknown (λ _. disconnect_if_active id)
        (λ u inv. call-Inv thrown id Controller.make_unknown u make_unknown-IsGood inv)
        (λ _ u.
          Keeps-when Inv (is_active_id id u) disconnect_active_controller
            disconnect_active_controller-Inv u))
      (λ _. remove_remote_link-Inv id)

pub call_active_at-Inv :
    {A : Type 0} (m : Call A) (o : Option ℕ) → IsGood m → Keeps Inv (call_active_at m o)
unfolding call_active_at call_kept
call_active_at-Inv m none good u inv = inv
call_active_at-Inv m (some a) good u inv = call-Inv dangling a m u good inv

pub call_active-Inv : {A : Type 0} (m : Call A) → IsGood m → Keeps Inv (call_active m)
unfolding call_active
call_active-Inv m good u = call_active_at-Inv m u.active_controller good u

disconnect_any-Inv : Keeps Inv disconnect_any
unfolding disconnect_any
disconnect_any-Inv u =
    Keeps-when Inv (has_active_controller u) (call_active Controller.disconnect)
      (call_active-Inv Controller.disconnect disconnect-IsGood) u

activate-Inv :
    (id : ℕ) (c : Controller) (u : ControllersUnit)
    → Inv u
    → lookup id u.controllers ≡ some c
    → Up 2 c
    → Inv (activate id u).0
unfolding activate
activate-Inv id c u inv e up = record {
  unique = inv.unique;
  linked = inv.linked;
  active_up = λ a act. let eq : a ≡ id = cc act in (c, rw eq e, up);
  present = inv.present;
}

follow-activate :
    (id : ℕ) (c : Controller) (s : ControllersUnit) (es : List Event) (r : Result (Unit {0}))
    → Inv s
    → lookup id s.controllers ≡ some c
    → (r ≡ returned tt → Up 2 c)
    → Inv (follow s es r (λ _. activate id)).0
follow-activate id c s es (returned _) inv e up = activate-Inv id c s inv e (up refl)
follow-activate id c s es thrown inv e up = inv
follow-activate id c s es dangling inv e up = inv

module _ (id : ℕ) (device : DeviceInfo) (crc : ℕ) (alias : Text) where
  connect_at-Inv :
      (o : Option Controller) (u : ControllersUnit)
      → Inv u
      → lookup id u.controllers ≡ o
      → Inv ((call_at thrown id (Controller.connect device crc alias) o >> activate id) u).0
  unfolding call_at after
  connect_at-Inv none u inv e = inv
  connect_at-Inv (some c) u inv e =
      let good = lookup-Values Linked id c u.controllers inv.linked e in
      let (c', es, r) = Controller.connect device crc alias c in
      let (state, end) = settle_lem id c' es r u in
      let s = settle id (c', es, r) u in
      follow-activate id c' s.0 s.1 s.2
        (settle-Inv id c c' es r u inv e (connect-IsGood device crc alias c good))
        (rw state (lookup-update_self id c' c u.controllers e))
        (λ h. connect-Up device crc alias c good (sym end ∙ h))

  pub connect_to-Inv : Keeps Inv (connect_to id device crc alias)
  unfolding connect_to call call_or
  connect_to-Inv =
      Keeps-bind Inv disconnect_any
        (λ _. call id (Controller.connect device crc alias) >> activate id) disconnect_any-Inv
        (λ _ u inv. connect_at-Inv (lookup id u.controllers) u inv refl)
