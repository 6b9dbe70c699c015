-- ===== src/Ihap/Tests.antt =====
-- Runs of the transceiver with plain codes, and its theorem at a large command.
use rubetek_ios_cpp_releases.Prelude.{ℕ, ◌≡◌, refl, List, [], ◌∷◌, Option, none, some, replicate}
use rubetek_ios_cpp_releases.Ihap.{
  Packet, Codes, internal_process, on_property, module_command, send_property, send_module_command,
  process_ihap_packet, process_all,
}
use rubetek_ios_cpp_releases.Ihap.Commands.{IsReadBack, command_delivered}

abbrev read_packet : List ℕ → Option Packet
read_packet [] = none
read_packet (t ∷ ps) = some (record { type = t; payload = ps })

-- A property is a number here.
abbrev codes : Codes ℕ
codes = record {
  serialize = λ p. p.type ∷ p.payload;
  deserialize = read_packet;
  serialize_command = λ c. c;
  deserialize_command = some;
  serialize_property = λ c. c;
  deserialize_property = some;
  pack = λ ps. ps;
  unpack = some;
}

codes-IsReadBack : IsReadBack codes
codes-IsReadBack = record { packets = λ p. refl; commands = λ c. refl }

property_run :
    process_ihap_packet codes (send_property codes 7) (5 ∷ []) ≡ (5 ∷ [], on_property 7 ∷ [])
unfolding process_ihap_packet send_property
property_run = refl

-- What has come of a command before the connection was lost goes before the next large one, unless
-- the client calls ihap_reset.
stale_part :
    process_all codes ((22 ∷ 1 ∷ []) ∷ (23 ∷ []) ∷ []) (9 ∷ [])
    ≡ ([], internal_process (record { type = module_command; payload = 9 ∷ 1 ∷ [] }) ∷ [])
unfolding process_all process_ihap_packet
stale_part = refl

unfoldable large_command : List ℕ
large_command = replicate 100000 7

command_delivered_example :
    process_all codes (send_module_command codes large_command) []
    ≡ ([], internal_process (record { type = module_command; payload = large_command }) ∷ [])
command_delivered_example = command_delivered codes codes-IsReadBack large_command
