-- ===== src/Train/Transfer.antt =====
-- From the wrapper (train/wrapper.hpp) to an unwrapper that is in step with it
-- (train/unwrapper.hpp).
pub mod Wagon
pub mod Receive
pub mod Continue
pub mod Held
pub mod Taken
pub mod Rounds
pub mod Loads
pub mod Tails
pub mod Wagons
pub mod Blocks
use rubetek_ios_cpp_releases.Prelude.{
  ℕ, ◌+◌, ◌*◌, ◌^◌, ◌%◌, ◌++◌, ◌<◌, ◌≤◌, ◌≡◌, true, List, [], ◌∷◌, length, take, of_le,
}
use rubetek_ios_cpp_releases.Train.{Block}
use rubetek_ios_cpp_releases.Train.Unwrapper.{Unwrapper, fit_in_words, unload_wagon}

-- An unwrapper that has met the beginning of the wagon that it is in.
abbrev pub in_step : List ℕ → ℕ → ℕ → ℕ → ℕ → Unwrapper
in_step w c uint_size counter_errors protocol_errors = record {
  uint_size = uint_size;
  sync = true;
  wagon = w;
  counter = c;
  counter_errors = counter_errors;
  protocol_errors = protocol_errors;
}

-- The words that the length field of a wagon announces behind the first one.
abbrev pub announced : List ℕ → ℕ
announced w = fit_in_words (of_le (take 2 w))

-- A wagon, as the unwrapper reads it.
pub record WagonOf (b : Block) (w : List ℕ) : Type 0 where
  pub whole : length w ≡ 4 * (announced w + 1)
  pub headed : 2 ≤ announced w
  pub fits : announced w ≤ 16383
  pub unloads :
      (c us ce pe : ℕ) → unload_wagon (in_step w c us ce pe) ≡ (in_step [] c us ce pe, b ∷ [], true)

pub data WagonsOf : List Block → List (List ℕ) → Type 0 where
  none_of : WagonsOf [] []
  then_of :
      {b : Block} {bs : List Block} {w : List ℕ} {ws : List (List ℕ)}
      → WagonOf b w
      → WagonsOf bs ws
      → WagonsOf (b ∷ bs) (w ∷ ws)

-- Nothing, or the beginning of a wagon, in whole words.
pub data Part : List ℕ → Type 0 where
  no_part : Part []
  part_of :
      {p : List ℕ} (b : Block) (tail : List ℕ)
      → WagonOf b (p ++ tail)
      → 4 ≤ length p
      → length p % 4 ≡ 0
      → 0 < length tail
      → Part p

-- What the packet's field for identifiers can hold.
pub record IsSendable (b : Block) : Type 0 where
  pub small : length b.bytes ≤ 65520
  pub pid_fits : b.pid < 2 ^ 32
  pub lid_fits : b.lid < 2 ^ 32
  pub ext_fits : b.ext < 2 ^ 16
