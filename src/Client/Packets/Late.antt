-- ===== src/Client/Packets/Late.antt =====
-- Answers of a controller that come when the application has disconnected
-- (ihap_transceiver_new.hpp over controller.cpp of rubetek/client/controller).
use rubetek_ios_cpp_releases.Prelude.{
  ℕ, ◌≡◌, refl, [], ◌∷◌, Bool-cases, true, false, some, inl, inr,
}
use rubetek_ios_cpp_releases.Client.Action.{Result, thrown}
use rubetek_ios_cpp_releases.Client.Controller.{
  Text, DeviceInfo, Controller, standby, set_state, set_known, report, connect,
}
use rubetek_ios_cpp_releases.Client.Controller.Callbacks.{
  is_active, can_connect, on_no_project, on_ready, on_query_password, on_update_project,
}
use rubetek_ios_cpp_releases.Client.Packets.{
  Codes, Packet, no_project, ready, password, project_size, process_of, take_password,
  internal_process_ihap_packet,
}

-- The packets that answer activate, with what thrift has to read of them.
pub data Answers (codes : Codes) : Packet → Type 0 where
  no_project_answer : {p : Text} → Answers codes (record { type = no_project; payload = p })
  ready_answer : {p : Text} → Answers codes (record { type = ready; payload = p })
  old_password_answer : Answers codes (record { type = password; payload = [] })
  password_answer :
      {b : ℕ} {p who : Text}
      → codes.password_request (b ∷ p) ≡ some who
      → Answers codes (record { type = password; payload = b ∷ p })
  size_answer :
      {p : Text} {size : ℕ}
      → codes.project_size p ≡ some size
      → Answers codes (record { type = project_size; payload = p })

-- The answer throws, but the controller counts as active, and cannot be connected to.
abbrev pub IsStuck : Controller → Result (Unit {0}) → Type 0
IsStuck c end =
    (end ≡ thrown)
    × (is_active c ≡ true)
    × (can_connect c ≡ false)
    × ((device : DeviceInfo) (crc : ℕ) (alias : Text) → (connect device crc alias c).2 ≡ thrown)

-- A controller at standby to which the application is not connected, and an answer to activate
-- that comes late, either without a project, ready, a request for the password that is empty, as
-- old controllers send it, or that thrift can read, or a project size that thrift can read: the
-- call throws, but the controller counts as active afterwards, and no connection to it can be
-- made.
pub late_answer :
    (codes : Codes) (pkt : Packet) (c : Controller)
    → Answers codes pkt
    → c.state ≡ standby
    → c.active_back_interface ≡ false
    → let (c', _, end) = internal_process_ihap_packet codes pkt c in IsStuck c' end
unfolding internal_process_ihap_packet process_of on_no_project on_ready take_password
    on_query_password on_update_project set_known set_state report is_active can_connect connect
late_answer codes pkt c no_project_answer at_standby alone = elim (Bool-cases c.known) [
  | inl known ↦ rw (known, at_standby, alone) (refl, refl, refl, λ device crc alias. refl)
  | inr new ↦ rw (new, at_standby, alone) (refl, refl, refl, λ device crc alias. refl)
]
late_answer codes pkt c ready_answer at_standby alone = elim (Bool-cases c.known) [
  | inl known ↦ rw (known, at_standby, alone) (refl, refl, refl, λ device crc alias. refl)
  | inr new ↦ rw (new, at_standby, alone) (refl, refl, refl, λ device crc alias. refl)
]
late_answer codes pkt c old_password_answer at_standby alone =
    rw (at_standby, alone) (refl, refl, refl, λ device crc alias. refl)
late_answer codes pkt c (password_answer says) at_standby alone =
    rw (says, at_standby, alone) (refl, refl, refl, λ device crc alias. refl)
late_answer codes pkt c (size_answer says) at_standby alone = elim (Bool-cases c.known) [
  | inl known ↦ rw (says, known, at_standby, alone) (refl, refl, refl, λ device crc alias. refl)
  | inr new ↦ rw (says, new, at_standby, alone) (refl, refl, refl, λ device crc alias. refl)
]
