-- ===== src/PlainTrain/Tests.antt =====
-- The plain train on concrete input, and its theorems at such input.
use rubetek_ios_cpp_releases.Prelude.{
  ℕ, ◌≤◌, ◌≡◌, refl, List, [], ◌∷◌, ◌++◌, arith, All, length, false, of_le,
}
use rubetek_ios_cpp_releases.Prelude.Outcome.{done}
use rubetek_ios_cpp_releases.Spp
use rubetek_ios_cpp_releases.PlainTrain.{
  Wrapper, Unwrapper, fresh, construct, send_all, receive_all, add_packet,
}
use rubetek_ios_cpp_releases.PlainTrain.Receive.{numbered}
use rubetek_ios_cpp_releases.PlainTrain.Transfer.{transfer}
use rubetek_ios_cpp_releases.PlainTrain.Loss.{IsInSync, receive_all_loss}

abbrev blocks : List (List (List ℕ))
blocks = ((7 ∷ []) ∷ (8 ∷ []) ∷ []) ∷ ((9 ∷ []) ∷ []) ∷ []

abbrev in_sync : Unwrapper
in_sync = record {
  uint_size = 8;
  first_packet = false;
  counter = 5;
  counter_errors = 0;
  protocol_errors = 0;
}

receive_cut_off :
    add_packet 1 1 (5 ∷ 1 ∷ 7 ∷ 2 ∷ 8 ∷ []) in_sync
    ≡ done (record in_sync { counter = 6; protocol_errors = 1 }, (7 ∷ []) ∷ [])
unfolding add_packet Spp.unpack Spp.unpack_loop Spp.unpack_one of_le
receive_cut_off = refl

transfer_example :
    (t t' : Wrapper) × (pkts : List (List ℕ)) × (u : Unwrapper) × (construct 1 (0 ∷ 0 ∷ []) 5
      ≡ done t)
    × (send_all 1 2 blocks t ≡ done (t', pkts))
    × All (λ (pkt : List ℕ). length pkt ≤ 5) pkts
    × (receive_all 1 2 pkts (fresh 4) ≡ done (u, (7 ∷ 8 ∷ []) ∷ (9 ∷ []) ∷ []))
    × (u.counter_errors ≡ 0)
    × (u.protocol_errors ≡ 0)
transfer_example =
    transfer 1 2 4 5 (0 ∷ 0 ∷ []) blocks (omega arith) (omega arith) refl (omega arith)

receive_all_loss_example :
    (v : Unwrapper) × (receive_all 1 1
        (numbered 1 1 5 (((7 ∷ []) ∷ []) ∷ []) ++ numbered 1 1 7 (((8 ∷ []) ∷ []) ∷ []))
        in_sync
      ≡ done (v, (7 ∷ []) ∷ (8 ∷ []) ∷ []))
    × (v.counter_errors ≡ 1)
    × (v.protocol_errors ≡ 0)
    × IsInSync 8 v
receive_all_loss_example =
    receive_all_loss 1 1 5 (((7 ∷ []) ∷ []) ∷ []) (((4 ∷ []) ∷ []) ∷ []) ((8 ∷ []) ∷ []) [] in_sync
      (omega arith) (omega arith) (omega arith) (omega arith)
      (record { started = refl; expects = refl }) (omega arith) (omega arith)
