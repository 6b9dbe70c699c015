-- ===== src/Train/Tests.antt =====
-- Runs of the trains on concrete blocks, and the wrapper's theorems at such blocks.
use rubetek_ios_cpp_releases.Prelude.{
  ◌≢◌, ◌≤◌, ℕ, to_le, of_le, ◌≡◌, refl, inl, List, [], ◌∷◌, length, concat, replicate,
  length-replicate, arith, leb, if◌then◌else◌,
}
use rubetek_ios_cpp_releases.Prelude.Outcome.{exhausted, Outcome, done, thrown, aborted, ◌>>=◌}
use rubetek_ios_cpp_releases.Train.{Block}
use rubetek_ios_cpp_releases.Train.Wrapper
use rubetek_ios_cpp_releases.Train.Wrapper.{Wrapper, mod_back, wagon_header}
use rubetek_ios_cpp_releases.Train.Wrapper.Stream.{IsOpen, payloads}
use rubetek_ios_cpp_releases.Train.Wrapper.Blocks.{Wagons, add_block_too_large, add_all_sent}
use rubetek_ios_cpp_releases.Train.Unwrapper
use rubetek_ios_cpp_releases.Train.Unwrapper.Ends.{add_packet_ends}
use rubetek_ios_cpp_releases.Train.Unwrapper.{Unwrapper, fresh}
use rubetek_ios_cpp_releases.Train.Transfer.{in_step, IsSendable}
use rubetek_ios_cpp_releases.Train.Transfer.Rounds.{at}
use rubetek_ios_cpp_releases.Train.Transfer.Blocks.{blocks_delivered}

unfoldable memory : List ℕ
memory = replicate 65523 0

length-memory : length memory ≡ 65523
unfolding memory
length-memory = length-replicate {A = ℕ} 65523 0

abbrev idle : Wrapper
idle = record { packet_size = 64; packet = []; memory = memory; counter = 0 }

idle-IsOpen : IsOpen idle
idle-IsOpen = record { large = omega arith; room = omega arith; begun = inl refl }

abbrev block_of : ℕ → Block
block_of n = record { bytes = replicate n 7; pid = 1; lid = 2; ext = 3 }

-- One block through a wrapper, and its packets through an unwrapper that is not in step: the
-- blocks delivered, and the protocol errors.
abbrev received : Outcome (Unwrapper × List Block) → Outcome (List Block × ℕ)
received m = m >>= λ r. done (r.1, r.0.protocol_errors)

unfoldable over_train : ℕ → Outcome (List Block × ℕ)
unfolding Wrapper.add_all Unwrapper.add_all
over_train n = received (
    Wrapper.add_all (block_of n ∷ []) (record idle { memory = replicate 200 0 }) >>= λ r.
    Unwrapper.add_all r.1 (fresh 4))

-- A block of 70 bytes takes two packets, and arrives.
short_block_arrives : over_train 70 ≡ done (block_of 70 ∷ [], 0)
unfolding over_train Wrapper.add_block mod_back Wrapper.add_wagon wagon_header to_le
    Wrapper.add_wagon_loop Wrapper.flush Unwrapper.add_packet of_le Wrapper.pointer
short_block_arrives = refl

-- A block of 150 bytes takes three packets. A receiver that is not in step drops the second.
first_long_block_lost : over_train 150 ≡ done ([], 1)
unfolding over_train Wrapper.add_block mod_back Wrapper.add_wagon wagon_header to_le
    Wrapper.add_wagon_loop Wrapper.flush Unwrapper.add_packet of_le Wrapper.pointer
first_long_block_lost = refl

abbrev large_block : Block
large_block = record { bytes = memory; pid = 1; lid = 2; ext = 3 }

add_block_too_large_example :
    Wrapper.add_block large_block idle ≡ (if leb 65523 (length memory) then thrown else aborted)
add_block_too_large_example = add_block_too_large large_block idle (omega (arith, length-memory))

add_all_sent_example :
    (u : Wrapper) × (sent wagons : List (List ℕ)) × (Wrapper.add_all
        (block_of 2 ∷ block_of 70 ∷ [])
        idle
      ≡ done (u, sent))
    × Wagons (block_of 2 ∷ block_of 70 ∷ []) wagons
    × (payloads sent ≡ concat wagons)
    × (u.packet ≡ [])
add_all_sent_example =
    add_all_sent (block_of 2 ∷ block_of 70 ∷ []) idle idle-IsOpen length-memory
      (omega arith, (omega arith, tt))

-- A packet whose pointer says that a wagon of 255 bytes starts with it.
abbrev begun : List ℕ
begun = 0 ∷ 0 ∷ 0 ∷ 0 ∷ 255 ∷ 0 ∷ 0 ∷ 0 ∷ []

add_packet_ends_example : Unwrapper.add_packet begun (fresh 4) ≢ exhausted
add_packet_ends_example = add_packet_ends begun (fresh 4)

block_of-IsSendable : (n : ℕ) → n ≤ 65520 → IsSendable (block_of n)
block_of-IsSendable n h = record {
  small = omega (arith, length-replicate {A = ℕ} n 7);
  pid_fits = omega arith;
  lid_fits = omega arith;
  ext_fits = omega arith;
}

blocks_delivered_example :
    (t : Wrapper) × (sent : List (List ℕ)) × (c : ℕ) × (Wrapper.add_all
        (block_of 2 ∷ block_of 150 ∷ [])
        (at 64 [] memory 65535)
      ≡ done (t, sent))
    × (Unwrapper.add_all sent (in_step [] 65535 4 0 0)
        ≡ done (in_step [] c 4 0 0, block_of 2 ∷ block_of 150 ∷ []))
blocks_delivered_example =
    blocks_delivered (block_of 2 ∷ block_of 150 ∷ []) 64 65535 4 0 0 memory
      (record { words = omega arith; low = omega arith; high = omega arith }) (omega arith)
      length-memory
      (block_of-IsSendable 2 (omega arith), (block_of-IsSendable 150 (omega arith), tt))
