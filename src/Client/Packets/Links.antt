-- ===== src/Client/Packets/Links.antt =====
-- No packet of a controller takes away a link, or takes the controller back behind standby
-- (ihap_transceiver_new.hpp over controller.cpp).
use rubetek_ios_cpp_releases.Prelude.{ℕ, ◌≤◌, arith, Option, none, some}
use rubetek_ios_cpp_releases.Client.Action.{◌>>=◌}
use rubetek_ios_cpp_releases.Client.Action.Keeps.{Keeps}
use rubetek_ios_cpp_releases.Client.Controller.{
  Text, Call, Info, report, transmit, Message, set_state, set_known, reset_large_block_transaction,
}
use rubetek_ios_cpp_releases.Client.Controller.Callbacks.{
  on_controller_info, on_controller_rename, on_remove, on_query_password, on_no_project,
  on_update_project, on_large_block, on_large_block_enriched, on_loading_cancel, on_project,
  on_ready, on_property, on_module_command,
}
use rubetek_ios_cpp_releases.Client.Controller.Links.{Up}
use rubetek_ios_cpp_releases.Client.Packets.{
  Codes, PacketType, controller_info, rename, remove, password, no_project, project_size,
  large_begin, large_block, large_end, loading_cancel, project, ready, module_command, other,
  Packet, or_throw, reserve, push_to_large_block, take_part, take_begin, take_block, take_end,
  take_password, process_of, internal_process_ihap_packet,
}

module _ (k : ℕ) (small : k ≤ 2) where
  abbrev pub KeepsUp : {A : Type 0} → Call A → Type 0
  KeepsUp m = Keeps (Up k) m

  info-Up : (i : Info) → KeepsUp (on_controller_info i)
  unfolding on_controller_info set_state
  info-Up i c h = ground arith

  rename-Up : (name : Text) → KeepsUp (on_controller_rename name)
  unfolding on_controller_rename set_state
  rename-Up name c h = ground arith

  password-Up : (who : Option Text) → KeepsUp (on_query_password who)
  unfolding on_query_password set_state report
  password-Up who c h = ground arith

  no_project-Up : KeepsUp on_no_project
  unfolding on_no_project set_known set_state report
  no_project-Up c h = ground arith

  ready-Up : KeepsUp on_ready
  unfolding on_ready set_known set_state report
  ready-Up c h = ground arith

  update_project-Up : (size : ℕ) → KeepsUp (on_update_project size)
  unfolding on_update_project set_known set_state report
  update_project-Up size c h = ground arith

  large_block-Up : (block : Text) → KeepsUp (on_large_block block)
  unfolding on_large_block report
  large_block-Up block c h = ground arith

  enriched-Up : (f : ℕ → ℕ → ℕ) (size : ℕ) → KeepsUp (on_large_block_enriched f size)
  unfolding on_large_block_enriched report
  enriched-Up f size c h = ground arith

  cancel-Up : KeepsUp on_loading_cancel
  unfolding on_loading_cancel set_state reset_large_block_transaction
  cancel-Up c h = ground arith

  project-Up : (crc : ℕ) → KeepsUp (on_project crc)
  unfolding on_project
  project-Up crc c h = ground arith

  module_command-Up : (cmd : Text) → KeepsUp (on_module_command cmd)
  unfolding on_module_command report
  module_command-Up cmd c h = ground arith

  push-Up : (part : Text) → KeepsUp (push_to_large_block part)
  unfolding push_to_large_block
  push-Up part c h = ground arith

  reserve-Up : (count : ℕ) → KeepsUp (reserve count)
  unfolding reserve
  reserve-Up count c h = ground arith

  transmit-Up : (m : Message) → KeepsUp (transmit m)
  unfolding transmit
  transmit-Up m c h = ground arith

  pub property-Up : (list : Text) → KeepsUp (on_property list)
  unfolding on_property report
  property-Up list c h = ground arith

  or_throw-Up :
      {A : Type 0} (o : Option A) (f : A → Call (Unit {0}))
      → ((a : A) → KeepsUp (f a))
      → KeepsUp (or_throw o >>= f)
  or_throw-Up none f k c h = h
  or_throw-Up (some a) f k c h = k a c h

  module _ (codes : Codes) where
    part-Up : (part : Text) → KeepsUp (take_part codes part)
    unfolding take_part push_to_large_block transmit on_large_block_enriched report
    part-Up part c h = ground arith

    begin-Up : (p : Text) → KeepsUp (take_begin codes p)
    unfolding take_begin take_part push_to_large_block transmit on_large_block_enriched report
        reserve
    begin-Up p c h = ground arith

    block-Up : (p : Text) → KeepsUp (take_block codes p)
    unfolding take_block take_part push_to_large_block transmit on_large_block_enriched report
    block-Up p c h = ground arith

    end-Up : (p : Text) → KeepsUp (take_end codes p)
    unfolding take_end push_to_large_block on_large_block_enriched on_large_block
        reset_large_block_transaction report
    end-Up p c h = ground arith

    take_password-Up : (p : Text) → KeepsUp (take_password codes p)
    unfolding take_password on_query_password set_state report
    take_password-Up p c h = ground arith

    process_of-Up : (t : PacketType) (p : Text) → KeepsUp (process_of codes t p)
    unfolding process_of on_remove reset_large_block_transaction
    process_of-Up controller_info p c h =
        or_throw-Up (codes.controller_info p) on_controller_info info-Up c h
    process_of-Up rename p c h = or_throw-Up (codes.rename p) on_controller_rename rename-Up c h
    process_of-Up remove p c h = h
    process_of-Up password p c h = take_password-Up p c h
    process_of-Up no_project p c h = no_project-Up c h
    process_of-Up project_size p c h =
        or_throw-Up (codes.project_size p) on_update_project update_project-Up c h
    process_of-Up large_begin p c h = begin-Up p c h
    process_of-Up large_block p c h = block-Up p c h
    process_of-Up large_end p c h = end-Up p c h
    process_of-Up loading_cancel p c h = cancel-Up _ h
    process_of-Up project p c h = or_throw-Up (codes.project p) on_project project-Up c h
    process_of-Up ready p c h = ready-Up c h
    process_of-Up module_command p c h =
        or_throw-Up (codes.module_command p) on_module_command module_command-Up c h
    process_of-Up other p c h = h

    pub internal_process_ihap_packet-Up :
        (pkt : Packet) → KeepsUp (internal_process_ihap_packet codes pkt)
    unfolding internal_process_ihap_packet
    internal_process_ihap_packet-Up pkt = process_of-Up pkt.type pkt.payload
