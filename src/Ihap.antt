-- ===== src/Ihap.antt =====
-- rubetek/proto/ihap/transceiver_base_new.hpp: packets of thrift between the application and a
-- controller, with module commands of any size. A callback returns; a packet that cannot be read
-- ends in the catch branch, before anything has changed.
pub mod Commands
mod Tests
use rubetek_ios_cpp_releases.Prelude.{
  ℕ, zero, suc, ◌*◌, List, [], ◌∷◌, ◌++◌, map, Option, none, some, length, take, drop, ltb, ◌==◌,
  if◌then◌else◌,
}

-- proto::ihap::packet: its type, and the payload, "" if it is not set.
pub record Packet : Type 0 where
  pub type : ℕ
  pub payload : List ℕ

-- The types that the transceiver looks at, by their values in proto::ihap::packet_type.
abbrev pub version : ℕ
version = 0

abbrev pub property : ℕ
property = 16

abbrev pub module_command : ℕ
module_command = 18

abbrev pub module_command_large : ℕ
module_command_large = 22

abbrev pub module_command_end : ℕ
module_command_end = 23

-- What a packet is cut to.
abbrev pub chunk : ℕ
chunk = 60 * 1024

-- What the transceiver relies on: thrift_serialize and thrift_deserialize of a packet, of a
-- module_command and of a property, by their payloads, and pack and unpack of lists of the
-- properties of devices.
pub record Codes (Properties : Type 0) : Type 0 where
  pub serialize : Packet → List ℕ
  pub deserialize : List ℕ → Option Packet
  pub serialize_command : List ℕ → List ℕ
  pub deserialize_command : List ℕ → Option (List ℕ)
  pub serialize_property : List ℕ → List ℕ
  pub deserialize_property : List ℕ → Option (List ℕ)
  pub pack : List Properties → List ℕ
  pub unpack : List ℕ → Option (List Properties)

-- A call of one of the two virtual functions.
pub data Event (Properties : Type 0) : Type 0 where
  internal_process : Packet → Event Properties
  on_property : Properties → Event Properties

module _ {Properties : Type 0} (codes : Codes Properties) where
  -- What ihap_packet_ready_ gets.
  unfoldable pub send : ℕ → List ℕ → List ℕ
  send type pay = codes.serialize (record { type = type; payload = pay })

  unfoldable pub send_device_properties : List Properties → List ℕ
  unfolding send
  send_device_properties list = send property (codes.serialize_property (codes.pack list))

  unfoldable pub send_property : Properties → List ℕ
  unfolding send_device_properties
  send_property p = send_device_properties (p ∷ [])

  -- A round takes a byte at least.
  unfoldable pub send_large_loop : ℕ → List ℕ → List (List ℕ)
  unfolding send
  send_large_loop fuel [] = []
  send_large_loop zero (b ∷ bs) = []
  send_large_loop (suc fuel) (b ∷ bs) =
      send module_command_large (codes.serialize_command (take chunk (b ∷ bs)))
      ∷ send_large_loop fuel (drop chunk (b ∷ bs))

  unfoldable pub send_large_module_command : List ℕ → List (List ℕ)
  unfolding send_large_loop send
  send_large_module_command cmd =
      send_large_loop (length cmd) cmd ++ send module_command_end [] ∷ []

  unfoldable pub send_module_command : List ℕ → List (List ℕ)
  unfolding send_large_module_command send
  send_module_command cmd =
      if ltb (length cmd) chunk
      then send module_command (codes.serialize_command cmd) ∷ []
      else send_large_module_command cmd

  unfoldable pub process_property : List ℕ → List (Event Properties)
  process_property packet = elim (codes.unpack packet) [
    | none ↦ []
    | some list ↦ map on_property list
  ]

  -- `command` is module_command_; the result is its new value and the calls.
  unfoldable pub process_packet : Packet → List ℕ → List ℕ × List (Event Properties)
  unfolding process_property
  process_packet pkt command =
      if pkt.type == version
      then (command, [])
      else (if pkt.type == property
          then elim (codes.deserialize_property pkt.payload) [
            | none ↦ (command, [])
            | some pay ↦ (command, process_property pay)
          ]
          else (if pkt.type == module_command_large
              then elim (codes.deserialize_command pkt.payload) [
                | none ↦ (command, [])
                | some pay ↦ (command ++ pay, [])
              ]
              else (if pkt.type == module_command_end
                  then (
                    [],
                    internal_process (record {
                      type = module_command;
                      payload = codes.serialize_command command;
                    })
                        ∷ [],
                  )
                  else (command, internal_process pkt ∷ []))))

  unfoldable pub process_ihap_packet : List ℕ → List ℕ → List ℕ × List (Event Properties)
  unfolding process_packet
  process_ihap_packet packet command = elim (codes.deserialize packet) [
    | none ↦ (command, [])
    | some pkt ↦ process_packet pkt command
  ]

  unfoldable pub ihap_reset : List ℕ → List ℕ
  ihap_reset command = []

  -- Packets one after the other.
  unfoldable pub process_all : List (List ℕ) → List ℕ → List ℕ × List (Event Properties)
  process_all [] command = (command, [])
  process_all (p ∷ ps) command =
      let (next, events) = process_ihap_packet p command in
      let (last, more) = process_all ps next in (last, events ++ more)
