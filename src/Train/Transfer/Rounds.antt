-- ===== src/Train/Transfer/Rounds.antt =====
-- The rounds of add_wagon (train/wrapper.hpp), by what fits the packet.
use rubetek_ios_cpp_releases.Prelude.{
  ℕ, zero, suc, ◌+◌, ◌-◌, ◌%◌, ◌<◌, ◌≤◌, min, ◌≡◌, refl, sym, true, false, List, [], ◌∷◌, ◌++◌,
  length, take, drop, to_le, arith, ltb, ◌==◌, length-append, length-take, le→ltb, ==_iff, is_empty,
  take-all, drop-all,
}
use rubetek_ios_cpp_releases.Prelude.Outcome.{done, ◌>>=◌}
use rubetek_ios_cpp_releases.Train.Wrapper.{Wrapper, start_packet, pointer, add_wagon_loop, flush}
use rubetek_ios_cpp_releases.Train.Transfer.Held.{packet}

abbrev pub at : ℕ → List ℕ → List ℕ → ℕ → Wrapper
at size q memory k = record { packet_size = size; packet = q; memory = memory; counter = k }

pub start_idle :
    (wagon_size left size k : ℕ) (memory : List ℕ)
    → start_packet wagon_size left (at size [] memory k)
      ≡ at size (packet k (pointer size wagon_size left) []) memory ((k + 1) % 65536)
unfolding start_packet to_le
start_idle wagon_size left size k memory = refl

pub start_open :
    (wagon_size left size k x : ℕ) (q memory : List ℕ)
    → start_packet wagon_size left (at size (x ∷ q) memory k) ≡ at size (x ∷ q) memory k
unfolding start_packet
start_open wagon_size left size k x q memory = refl

nonempty : (xs ys : List ℕ) → 0 < length xs → is_empty (xs ++ ys) ≡ false
nonempty [] ys h = absurd (omega arith)
nonempty (x ∷ xs) ys h = refl

-- The packet is full after `n` bytes of those left.
pub round_full :
    (fuel wagon_size size k n : ℕ) (left q memory : List ℕ) (t : Wrapper)
    → start_packet wagon_size (length left) t ≡ at size q memory k
    → 0 < length q
    → 0 < n
    → n ≤ length left
    → length q + n ≡ size
    → add_wagon_loop (suc fuel) wagon_size left t ≡ (
        add_wagon_loop fuel wagon_size (drop n left) (at size [] memory k) >>= λ r.
        done (r.0, (q ++ take n left) ∷ r.1))
unfolding add_wagon_loop flush
round_full fuel wagon_size size k n [] q memory t hs hq hp hn e = absurd (omega arith)
round_full fuel wagon_size size k n (b ∷ bs) q memory t hs hq hp hn e =
    let left : List ℕ = b ∷ bs in
    let takes : min (length left) (size - length q) ≡ n = omega arith in
    let long : length (q ++ take n left) ≡ size =
      omega (arith, length-append q (take n left), length-take n left) in
    let full : (size == length (q ++ take n left)) ≡ true = (==_iff _ _).1 (sym long) in
    let within : ltb size (length (q ++ take n left)) ≡ false = le→ltb _ _ (omega (arith, long)) in
    rw (hs, takes, full, within, nonempty q (take n left) hq) refl

pub loop_nil :
    (fuel wagon_size : ℕ) (t : Wrapper) → add_wagon_loop fuel wagon_size [] t ≡ done (t, [])
unfolding add_wagon_loop
loop_nil zero wagon_size t = refl
loop_nil (suc fuel) wagon_size t = refl

-- All that is left fits, and the packet stays open.
pub round_open :
    (fuel wagon_size size k : ℕ) (left q memory : List ℕ) (t : Wrapper)
    → start_packet wagon_size (length left) t ≡ at size q memory k
    → 0 < length left
    → length q + length left < size
    → add_wagon_loop (suc fuel) wagon_size left t ≡ done (at size (q ++ left) memory k, [])
unfolding add_wagon_loop
round_open fuel wagon_size size k [] q memory t hs hp e = absurd (omega arith)
round_open fuel wagon_size size k (b ∷ bs) q memory t hs hp e =
    let left : List ℕ = b ∷ bs in
    let takes : min (length left) (size - length q) ≡ length left = omega arith in
    let all : take (length left) left ≡ left = take-all (length left) left (omega arith) in
    let rest : drop (length left) left ≡ [] = drop-all (length left) left (omega arith) in
    let partly : (size == length (q ++ left)) ≡ false = ground (arith, length-append q left) in
    let within : ltb size (length (q ++ left)) ≡ false =
      le→ltb _ _ (omega (arith, length-append q left)) in
    rw
      (
        hs,
        takes,
        all,
        rest,
        partly,
        within,
        loop_nil fuel wagon_size (at size (q ++ left) memory k),
      )
      refl
