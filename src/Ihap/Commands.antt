-- ===== src/Ihap/Commands.antt =====
-- Module commands of any size (rubetek/proto/ihap/transceiver_base_new.hpp) from one side to the
-- other.
use rubetek_ios_cpp_releases.Prelude.{
  ℕ, zero, suc, ◌≤◌, ◌≡◌, refl, sym, ap, ◌∙◌, inl, inr, List, [], ◌∷◌, ◌++◌, append_assoc,
  append-nil, some, length, length-drop, take, drop, take-append-drop, ltb, Bool-cases, arith,
}
use rubetek_ios_cpp_releases.Ihap.{
  Packet, Codes, internal_process, module_command, module_command_large, module_command_end, chunk,
  send, send_large_loop, send_large_module_command, send_module_command, process_packet,
  process_ihap_packet, process_all,
}

-- What thrift has written it reads back.
pub record IsReadBack {Properties : Type 0} (codes : Codes Properties) : Type 0 where
  pub packets : (p : Packet) → codes.deserialize (codes.serialize p) ≡ some p
  pub commands : (c : List ℕ) → codes.deserialize_command (codes.serialize_command c) ≡ some c

module _ {Properties : Type 0} (codes : Codes Properties) (h : IsReadBack codes) where
  process-send :
      (type : ℕ) (pay command : List ℕ)
      → process_ihap_packet codes (send codes type pay) command
        ≡ process_packet codes (record { type = type; payload = pay }) command
  unfolding process_ihap_packet send
  process-send type pay command =
      rw (h.packets (record { type = type; payload = pay }), process_ihap_packet) refl

  process_part :
      (part command : List ℕ)
      → process_packet codes
          (record { type = module_command_large; payload = codes.serialize_command part })
          command
        ≡ (command ++ part, [])
  unfolding process_packet
  process_part part command = rw (h.commands part) refl

  -- All parts of a command are put together.
  parts_gathered :
      (fuel : ℕ) (cmd command : List ℕ) (rest : List (List ℕ))
      → length cmd ≤ fuel
      → process_all codes (send_large_loop codes fuel cmd ++ rest) command
        ≡ process_all codes rest (command ++ cmd)
  unfolding process_all send_large_loop
  parts_gathered fuel [] command rest hf = ap (process_all codes rest) (sym (append-nil command))
  parts_gathered zero (b ∷ bs) command rest hf = absurd (omega arith)
  parts_gathered (suc fuel) (b ∷ bs) command rest hf =
      let cmd : List ℕ = b ∷ bs in
      let part : List ℕ = take chunk cmd in
      let first =
        process-send module_command_large (codes.serialize_command part) command
        ∙ process_part part command in
      let others =
        parts_gathered fuel (drop chunk cmd) (command ++ part) rest
          (omega (arith, length-drop chunk cmd)) in
      rw first others
      ∙ ap (process_all codes rest) (
          append_assoc command part (drop chunk cmd)
          ∙ ap (◌++◌ command) (take-append-drop chunk cmd))

  -- A module command of any size arrives as one packet with the whole command, and nothing of it
  -- stays behind, where no part of another one has come before. That thrift reads back what it has
  -- written is the hypothesis IsReadBack.
  pub command_delivered :
      (cmd : List ℕ)
      → process_all codes (send_module_command codes cmd) [] ≡ (
        [],
        internal_process (record { type = module_command; payload = codes.serialize_command cmd })
            ∷ [],
      )
  unfolding send_module_command send_large_module_command process_all process_packet
  command_delivered cmd = elim (Bool-cases (ltb (length cmd) chunk)) [
    | inl small ↦ rw (small, process-send module_command (codes.serialize_command cmd) []) refl
    | inr large ↦ rw large (
        parts_gathered (length cmd) cmd [] (send codes module_command_end [] ∷ []) (omega arith)
        ∙ rw (process-send module_command_end [] cmd) refl)
  ]
