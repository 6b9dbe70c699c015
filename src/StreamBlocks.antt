-- ===== src/StreamBlocks.antt =====
-- libnet/msw/proto/stream2blocks.hpp: a byte stream cut into blocks of one size.
pub mod Cuts
pub mod Laws
mod Tests
use rubetek_ios_cpp_releases.Prelude.{
  ℕ, zero, suc, ◌+◌, ◌-◌, ◌%◌, min, max, Bool, true, false, List, [], ◌∷◌, ◌++◌, length, is_empty,
  take, drop, ltb, ◌==◌, if◌then◌else◌,
}
use rubetek_ios_cpp_releases.Prelude.Outcome.{Outcome, done, aborted, exhausted, ◌>>=◌}

-- `receive_buffer_`: its contents and its capacity, which is the block size.
pub record Stream : Type 0 where
  pub received : List ℕ
  pub capacity : ℕ

unfoldable pub construct : ℕ → Stream
construct block_size = record { received = []; capacity = block_size }

unfoldable pub block_size : Stream → ℕ
block_size s = s.capacity

-- push_back: the memory grows when it has to.
push_back : Stream → List ℕ → Stream
push_back s r = record {
  received = s.received ++ r;
  capacity = max s.capacity (length s.received + length r);
}

-- The branch for an empty buffer: all whole blocks at once, and the tail is kept. `size` asserts
-- that it does not divide by 0, and push_back_silent that the tail fits.
pub process_whole : List ℕ → Stream → Outcome (List (List ℕ) × Stream)
process_whole block s =
    if s.capacity == 0
    then aborted
    else (let tail = length block % s.capacity in
        let front = take (length block - tail) block in
        let kept = drop (length block - tail) block in
        if ltb s.capacity (length kept)
        then aborted
        else done
            (if is_empty front then [] else front ∷ [], record s { received = s.received ++ kept }))

-- The blocks that `block_ready_` receives, and the new state. `rounds` counts the calls of
-- `process`, which calls itself after a buffer has filled up.
unfoldable pub process_in : ℕ → List ℕ → Stream → Outcome (List (List ℕ) × Stream)
unfolding push_back process_whole
process_in zero block s = exhausted
process_in (suc rounds) block s =
    let free = s.capacity - length s.received in
    let n = min (length block) free in
    let t = push_back s (take n block) in
    let rest = process_in rounds (drop n block) (record t { received = [] }) in
    if is_empty s.received
    then process_whole block s
    else (if length t.received == t.capacity
        then (rest >>= λ r. done (t.received ∷ r.0, r.1))
        else done ([], t))

-- The buffer is empty in the second call, which makes no other.
unfoldable pub process : List ℕ → Stream → Outcome (List (List ℕ) × Stream)
process block s = process_in 2 block s

-- `stream2blocks`: the callback cuts what it receives into blocks of the block size.
unfoldable pub cut_in : ℕ → ℕ → List ℕ → Outcome (List (List ℕ))
cut_in zero n [] = done []
cut_in zero n (b ∷ bs) = exhausted
cut_in (suc fuel) n [] = done []
cut_in (suc fuel) n (b ∷ bs) = elim (ltb (length (b ∷ bs)) n) [
  | true ↦ aborted
  | false ↦ cut_in fuel n (drop n (b ∷ bs)) >>= λ r. done (take n (b ∷ bs) ∷ r)
]

-- A block takes a byte at least.
unfoldable pub cut : ℕ → List ℕ → Outcome (List (List ℕ))
cut n block = cut_in (length block) n block

unfoldable pub cut_all : ℕ → List (List ℕ) → Outcome (List (List ℕ))
cut_all n [] = done []
cut_all n (b ∷ bs) = cut n b >>= λ xs. cut_all n bs >>= λ ys. done (xs ++ ys)

unfoldable pub process_blocks : ℕ → List ℕ → Stream → Outcome (List (List ℕ) × Stream)
process_blocks n block s = process block s >>= λ r. cut_all n r.0 >>= λ bs. done (bs, r.1)

-- A client that hands over the pieces of a stream one after the other.
unfoldable pub process_all : ℕ → List (List ℕ) → Stream → Outcome (List (List ℕ) × Stream)
process_all n [] s = done ([], s)
process_all n (p ∷ ps) s =
    process_blocks n p s >>= λ r. process_all n ps r.1 >>= λ t. done (r.0 ++ t.0, t.1)
