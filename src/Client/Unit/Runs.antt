-- ===== src/Client/Unit/Runs.antt =====
-- rubetek/client/controller/impl/unit.cpp: everything that can happen to the controllers.
use rubetek_ios_cpp_releases.Prelude.{ℕ, Bool, List, [], ◌∷◌, Option, none, some}
use rubetek_ios_cpp_releases.Client.Action.{Result, returned, thrown, dangling}
use rubetek_ios_cpp_releases.Client.Controller.{Text, DeviceInfo, Message}
use rubetek_ios_cpp_releases.Client.Controller.Callbacks.{on_property}
use rubetek_ios_cpp_releases.Client.Packets.{Codes, Packet, internal_process_ihap_packet}
use rubetek_ios_cpp_releases.Client.Unit.{
  ControllersUnit, UnitCall, add_local_link, remove_local_link, add_remote_link, remove_remote_link,
  add_controller, remove_known_controller, connect_to, disconnect_active_controller, send_active,
  set_auto_known, idle, receive,
}

-- A call of the unit by the application, by a link or by its timer.
pub data Input : Type 0 where
  local_link_added : ℕ → Text → Bool → Input
  remote_link_added : ℕ → Text → Text → Input
  local_link_removed remote_link_removed : ℕ → Input
  controller_added : ℕ → Bool → Input
  known_controller_removed auto_known_set : ℕ → Input
  connected : ℕ → DeviceInfo → ℕ → Text → Input
  disconnected ticked : Input
  message_sent : Message → Input
  packet_received : ℕ → Packet → Input
  property_received : ℕ → Text → Input

-- An exception ends a call, but not the run; a dangling iterator ends the run.
abbrev pub goes_on : ControllersUnit → Result (Unit {0}) → Option ControllersUnit
goes_on u (returned _) = some u
goes_on u thrown = some u
goes_on u dangling = none

abbrev pub and_then :
    Option ControllersUnit → (ControllersUnit → Option ControllersUnit) → Option ControllersUnit
and_then none f = none
and_then (some u) f = f u

module _ (codes : Codes) where
  unfoldable pub apply : Input → UnitCall (Unit {0})
  apply (local_link_added id ip known) = add_local_link id ip known
  apply (remote_link_added id ip channel) = add_remote_link id ip channel
  apply (local_link_removed id) = remove_local_link id
  apply (remote_link_removed id) = remove_remote_link id
  apply (controller_added id known) = add_controller id known
  apply (known_controller_removed id) = remove_known_controller id
  apply (auto_known_set id) = set_auto_known id
  apply (connected id device crc alias) = connect_to id device crc alias
  apply disconnected = disconnect_active_controller
  apply ticked = idle
  apply (message_sent message) = send_active message
  apply (packet_received id pkt) = receive id (internal_process_ihap_packet codes pkt)
  apply (property_received id list) = receive id (on_property list)

  unfoldable pub run : List Input → ControllersUnit → Option ControllersUnit
  unfolding apply
  run [] u = some u
  run (i ∷ is) u = let (u', _, r) = apply i u in and_then (goes_on u' r) (run is)
