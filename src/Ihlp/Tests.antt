-- ===== src/Ihlp/Tests.antt =====
-- Runs of the transceiver on concrete input, and its theorems at such input.
use rubetek_ios_cpp_releases.Prelude.{ℕ, ◌≡◌, refl, true, false, List, [], ◌∷◌, Option, some, arith}
use rubetek_ios_cpp_releases.Prelude.Outcome.{done, thrown}
use rubetek_ios_cpp_releases.Spp.Framing.{frame}
use rubetek_ios_cpp_releases.Ihlp.{
  Transceiver, default_timeouts, construct, zzz_wait_sending_keep_alive, zzz_process_packet, send,
  process_tcp_payload, code, is_early,
}
use rubetek_ios_cpp_releases.Ihlp.Answers.{IsReady, Sends, answer, payload_answered}
use rubetek_ios_cpp_releases.Ihlp.Timeout.{check_all, silence_detected}
use rubetek_ios_cpp_releases.Ihlp.Link.{packet_delivered}

abbrev two : Transceiver
two = record {
  creation_time = 7;
  response_time = 5;
  keep_alive_time = 60;
  next_reaction_time = 67;
  wait_response = false;
  spp_packer = record { front = []; buf = []; capacity = 1024; last_packet_len = 0; sent = [] };
  spp_unpacker = record { buf = [] };
}

two-IsReady : IsReady two
two-IsReady = record { buf_empty = refl; front_empty = refl }

-- The constructor leaves the transceiver ready, with its first reaction after the keep-alive time.
construct_two : (construct 7 (default_timeouts 1)).next_reaction_time ≡ 67
unfolding construct default_timeouts zzz_wait_sending_keep_alive
construct_two = refl

-- A callback that sends back what it has got.
abbrev echo : List ℕ → Option (List (List ℕ))
echo packet = some (packet ∷ [])

-- A callback that takes everything.
abbrev take_it : List ℕ → Option (List (List ℕ))
take_it packet = some []

bad_type : zzz_process_packet 2 echo 9 (3 ∷ []) two ≡ thrown
unfolding zzz_process_packet
bad_type = refl

is_early_late : is_early 100 5 two ≡ true
unfolding is_early
is_early_late = refl

payload_answered_example :
    (u : Transceiver) × (zzz_process_packet 2 echo 9 (1 ∷ 4 ∷ []) two ≡ done (u, (4 ∷ []) ∷ []))
    × Sends 2 two (answer ((4 ∷ []) ∷ [])) u
    × (u.wait_response ≡ true)
    × (u.next_reaction_time ≡ 14)
unfolding code
payload_answered_example =
    payload_answered 2 echo 9 (4 ∷ []) ((4 ∷ []) ∷ []) two (omega arith) two-IsReady refl
      (omega arith, tt)

silence_detected_example :
    (u : Transceiver) × (check_all 2 (20 ∷ 68 ∷ 70 ∷ []) two ≡ done (u, true))
    × (check_all 2 (20 ∷ 68 ∷ 70 ∷ 74 ∷ []) two ≡ done (u, false))
    × (u.spp_packer.sent ≡ frame 2 (0 ∷ []) ∷ [])
unfolding code
silence_detected_example =
    silence_detected 2 68 74 (20 ∷ []) (70 ∷ []) two (omega arith) two-IsReady refl
      (omega arith, tt) (omega arith) (omega arith, tt) (omega arith)

packet_delivered_example :
    (a1 a2 b1 : Transceiver) × (send 2 10 (4 ∷ []) two ≡ done a1)
    × (a1.spp_packer.sent ≡ frame 2 (1 ∷ 4 ∷ []) ∷ [])
    × (a1.wait_response ≡ true)
    × (process_tcp_payload 2 take_it 11 (frame 2 (1 ∷ 4 ∷ [])) two ≡ done (b1, (4 ∷ []) ∷ []))
    × (b1.spp_packer.sent ≡ frame 2 (2 ∷ []) ∷ [])
    × (process_tcp_payload 2 echo 12 (frame 2 (2 ∷ [])) a1 ≡ done (a2, []))
    × (a2.wait_response ≡ false)
    × (a2.next_reaction_time ≡ 72)
unfolding code
packet_delivered_example =
    packet_delivered 2 10 11 12 echo take_it (4 ∷ []) two two (omega arith) (omega arith)
      two-IsReady two-IsReady refl refl refl
