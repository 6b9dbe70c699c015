-- ===== src/Client/Unit/Online.antt =====
-- What can be relied on whenever the unit is called (rubetek/client/controller/impl/unit.cpp).
use rubetek_ios_cpp_releases.Prelude.{
  ℕ, ◌≡◌, refl, ◌≤◌, ◌⊎◌, inl, inr, Bool, true, false, List, [], ◌∷◌, Option, none, some,
  Bool-cases, arith,
}
use rubetek_ios_cpp_releases.Client.Action.{Result, returned, thrown, dangling}
use rubetek_ios_cpp_releases.Client.Action.Keeps.{Keeps}
use rubetek_ios_cpp_releases.Client.Table.{lookup}
use rubetek_ios_cpp_releases.Client.Table.Laws.{lookup-Values}
use rubetek_ios_cpp_releases.Client.Controller
use rubetek_ios_cpp_releases.Client.Controller.{
  Text, Controller, Call, Message, has_links, rank, is_in, offline, transmit,
}
use rubetek_ios_cpp_releases.Client.Controller.Callbacks.{on_property, online}
use rubetek_ios_cpp_releases.Client.Controller.Links.{
  Linked, Up, add_local_link-IsGood, add_remote_link-IsGood, set_auto_known-IsGood, transmit-IsGood,
}
use rubetek_ios_cpp_releases.Client.Packets.{Codes, internal_process_ihap_packet}
use rubetek_ios_cpp_releases.Client.Packets.Links.{internal_process_ihap_packet-Up, property-Up}
use rubetek_ios_cpp_releases.Client.Unit.{
  ControllersUnit, sent, no_controllers, settle, call, add_controller, add_local_link,
  add_remote_link, set_auto_known, send_active, receive, receive_at, call_active, call_active_at,
  call_kept, call_or, call_at, dispatch, dispatch_one,
}
use rubetek_ios_cpp_releases.Client.Unit.Invariant.{Inv, settle-Inv, call-Inv}
use rubetek_ios_cpp_releases.Client.Unit.Steps.{
  add_controller-Inv, remove_local_link-Inv, remove_remote_link-Inv,
  disconnect_active_controller-Inv, remove_known_controller-Inv, call_active-Inv, connect_to-Inv,
}
use rubetek_ios_cpp_releases.Client.Unit.Removal.{idle-Inv}
use rubetek_ios_cpp_releases.Client.Unit.Runs.{
  Input, local_link_added, remote_link_added, local_link_removed, remote_link_removed,
  controller_added, known_controller_removed, auto_known_set, connected, disconnected, ticked,
  message_sent, packet_received, property_received, apply, goes_on, and_then, run,
}

Linked-Up : (c : Controller) → Linked c → has_links c ≡ true → Up 1 c
Linked-Up c h l = ground arith

Up-Linked : (c : Controller) → Up 1 c → Linked c
Up-Linked c h = ground arith

module _ (id : ℕ) (m : Call (Unit {0})) (up : (k : ℕ) → k ≤ 2 → Keeps (Up k) m) where
  receive_at-Inv :
      (o : Option Controller) (u : ControllersUnit)
      → Inv u
      → lookup id u.controllers ≡ o
      → Inv (receive_at id m o u).0
  unfolding receive_at
  receive_at-Inv none u inv e = inv
  receive_at-Inv (some c) u inv e = elim (Bool-cases (has_links c)) [
    | inl l ↦
        let linked = lookup-Values Linked id c u.controllers inv.linked e in
        let c' = (m c).0 in
        rw l (
          settle-Inv id c c' (m c).1 (returned tt) u inv e (
            Up-Linked c' (up 1 (omega arith) c (Linked-Up c linked l)),
            inl (up 2 (omega arith) c),
          ))
    | inr n ↦ rw n inv
  ]

  receive-Inv : Keeps Inv (receive id m)
  unfolding receive
  receive-Inv u inv = receive_at-Inv (lookup id u.controllers) u inv refl

add_local_link-Inv : (id : ℕ) (ip : Text) (known : Bool) → Keeps Inv (add_local_link id ip known)
unfolding add_local_link call add_controller
add_local_link-Inv id ip known u inv =
    call-Inv thrown id (Controller.add_local_link ip known) (add_controller id false u).0
      (add_local_link-IsGood ip known) (add_controller-Inv id false u inv)

add_remote_link-Inv : (id : ℕ) (ip channel : Text) → Keeps Inv (add_remote_link id ip channel)
unfolding add_remote_link call add_controller
add_remote_link-Inv id ip channel u inv =
    call-Inv thrown id (Controller.add_remote_link ip channel) (add_controller id false u).0
      (add_remote_link-IsGood ip channel) (add_controller-Inv id false u inv)

goes_on-Inv :
    (u v : ControllersUnit) (r : Result (Unit {0}))
    → (r ≡ dangling) ⊎ Inv u
    → goes_on u r ≡ some v
    → Inv v
goes_on-Inv u v r (inl d) e = absurd (cc (d, e))
goes_on-Inv u v (returned _) (inr inv) e = let eq : v ≡ u = cc e in rw eq inv
goes_on-Inv u v thrown (inr inv) e = let eq : v ≡ u = cc e in rw eq inv
goes_on-Inv u v dangling (inr inv) e = absurd (cc e)

and_then-Inv :
    (o : Option ControllersUnit) (f : ControllersUnit → Option ControllersUnit)
    (w : ControllersUnit)
    → ((v : ControllersUnit) → o ≡ some v → Inv v)
    → ((v : ControllersUnit) → Inv v → f v ≡ some w → Inv w)
    → and_then o f ≡ some w
    → Inv w
and_then-Inv none f w h k e = absurd (cc e)
and_then-Inv (some v) f w h k e = k v (h v refl) e

module _ (codes : Codes) where
  apply-Inv :
      (i : Input) (u : ControllersUnit)
      → Inv u
      → ((apply codes i u).2 ≡ dangling) ⊎ Inv (apply codes i u).0
  unfolding apply set_auto_known send_active call
  apply-Inv (local_link_added id ip known) u inv = inr (add_local_link-Inv id ip known u inv)
  apply-Inv (remote_link_added id ip channel) u inv = inr (add_remote_link-Inv id ip channel u inv)
  apply-Inv (local_link_removed id) u inv = inr (remove_local_link-Inv id u inv)
  apply-Inv (remote_link_removed id) u inv = inr (remove_remote_link-Inv id u inv)
  apply-Inv (controller_added id known) u inv = inr (add_controller-Inv id known u inv)
  apply-Inv (known_controller_removed id) u inv = inr (remove_known_controller-Inv id u inv)
  apply-Inv (auto_known_set id) u inv =
      inr (call-Inv thrown id Controller.set_auto_known u set_auto_known-IsGood inv)
  apply-Inv (connected id device crc alias) u inv = inr (connect_to-Inv id device crc alias u inv)
  apply-Inv disconnected u inv = inr (disconnect_active_controller-Inv u inv)
  apply-Inv ticked u inv = idle-Inv u inv
  apply-Inv (message_sent message) u inv =
      inr (call_active-Inv (transmit message) (transmit-IsGood message) u inv)
  apply-Inv (packet_received id pkt) u inv = inr (
      receive-Inv id (internal_process_ihap_packet codes pkt)
        (λ k small. internal_process_ihap_packet-Up k small codes pkt) u inv)
  apply-Inv (property_received id list) u inv =
      inr (receive-Inv id (on_property list) (λ k small. property-Up k small list) u inv)

  pub run-Inv : (is : List Input) (u v : ControllersUnit) → Inv u → run codes is u ≡ some v → Inv v
  unfolding run
  run-Inv [] u v inv e = let eq : v ≡ u = cc e in rw eq inv
  run-Inv (i ∷ is) u w inv e =
      let end = apply codes i u in
      and_then-Inv (goes_on end.0 end.2) (run codes is) w
        (λ v. goes_on-Inv end.0 v end.2 (apply-Inv i u inv)) (λ v h. run-Inv is v w h) e

  pub no_controllers-Inv : Inv no_controllers
  no_controllers-Inv = record {
    unique = tt;
    linked = tt;
    active_up = λ a e. absurd (cc e);
    present = tt;
  }

  sends_lem :
      (a : ℕ) (message : Message) (u : ControllersUnit) (c : Controller)
      → lookup a u.controllers ≡ some c
      → has_links c ≡ true
      → (u.active_controller ≡ some a)
      → let (_, events, end) = send_active message u in
        (events ≡ sent a message ∷ []) × (end ≡ returned tt)
  unfolding send_active call_active call_active_at call_kept call_or call_at settle dispatch
      dispatch_one transmit
  sends_lem a message u c e l act = rw (act, e, l) (refl, refl)

  online_lem : (c : Controller) → Up 2 c → online c ≡ true
  unfolding online
  online_lem c up = ground arith

  -- Whatever has happened before, as long as no dangling iterator was used: the controller that
  -- the unit counts as active is there and online, and a message to it goes out, without an
  -- exception.
  pub active_reachable :
      (is : List Input) (message : Message) (u : ControllersUnit) (a : ℕ)
      → run codes is no_controllers ≡ some u
      → u.active_controller ≡ some a
      → let (_, events, end) = send_active message u in
        (events ≡ sent a message ∷ [])
        × (end ≡ returned tt)
        × (c : Controller) × (lookup a u.controllers ≡ some c)
        × (online c ≡ true)
  active_reachable is message u a e act =
      let inv = run-Inv is no_controllers u no_controllers-Inv e in
      let (c, found, up) = inv.active_up a act in
      let (events, end) = sends_lem a message u c found up.0 act in
      (events, end, c, found, online_lem c up)
