-- ===== src/Train/Wrapper.antt =====
-- libnet/msw/proto/train/wrapper.hpp.
pub mod Stream
pub mod Blocks
use rubetek_ios_cpp_releases.Prelude.{
  ℕ, zero, suc, ◌+◌, ◌-◌, ◌%◌, ◌/◌, ◌^◌, min, Bool, ◌||◌, not, List, [], ◌∷◌, ◌++◌, length,
  is_empty, take, drop, to_le, of_le, ltb, leb, ◌==◌, if◌then◌else◌,
}
use rubetek_ios_cpp_releases.Prelude.Outcome.{Outcome, done, thrown, aborted, exhausted, ◌>>=◌}
use rubetek_ios_cpp_releases.Dimension
use rubetek_ios_cpp_releases.Train.{
  Block, min_packet_size, max_packet_size, wagon_max_size, packet_header_size, wagon_header_size,
}

-- `packet` holds the contents of `packet_`. `memory` is the memory of `wagon_` behind the header:
-- the bytes past a block are what earlier blocks, or nobody, left there.
pub record Wrapper : Type 0 where
  pub packet_size : ℕ
  pub packet : List ℕ
  pub memory : List ℕ
  pub counter : ℕ

unfoldable pub construct : List ℕ → ℕ → Outcome Wrapper
construct memory packet_size =
    if not (packet_size % 4 == 0)
      || ltb packet_size min_packet_size
      || ltb max_packet_size packet_size
    then thrown
    else done (record { packet_size = packet_size; packet = []; memory = memory; counter = 0 })

-- size::mod_back
unfoldable pub mod_back : ℕ → ℕ → ℕ
mod_back n s = if n % s == 0 then 0 else s - n % s

-- The wagon header in memory; the length counts the last 8 bytes of the header too.
unfoldable pub wagon_header : Block → List ℕ
wagon_header b =
    to_le 2 ((length b.bytes + 8) % 2 ^ 16) ++ (to_le 2 b.ext ++ (to_le 4 b.pid ++ to_le 4 b.lid))

-- The packets that `packet_ready_` receives, and the new state.
unfoldable pub flush : Wrapper → Wrapper × List (List ℕ)
flush t = if is_empty t.packet then (t, []) else (record t { packet = [] }, t.packet ∷ [])

-- The pointer of a new packet: 0 where a wagon starts with it, else what is left of the current
-- wagon, or 0xffff if that fills the packet.
unfoldable pub pointer : ℕ → ℕ → ℕ → ℕ
pointer packet_size wagon_size left =
    if wagon_size == left
    then 0
    else (if leb (packet_size - packet_header_size) left then 0xffff else left % 2 ^ 16)

unfoldable pub start_packet : ℕ → ℕ → Wrapper → Wrapper
unfolding Dimension.increment
start_packet wagon_size left t =
    if is_empty t.packet
    then (let (next, value) = Dimension.increment 2 1 t.counter in
        record t {
          packet = to_le 2 value ++ to_le 2 (pointer t.packet_size wagon_size left);
          counter = next;
        })
    else t

-- A round takes a byte at least, since a full packet is flushed at once.
unfoldable pub add_wagon_loop : ℕ → ℕ → List ℕ → Wrapper → Outcome (Wrapper × List (List ℕ))
unfolding start_packet
add_wagon_loop fuel wagon_size [] t = done (t, [])
add_wagon_loop zero wagon_size (b ∷ bs) t = exhausted
add_wagon_loop (suc fuel) wagon_size (b ∷ bs) t =
    let u = start_packet wagon_size (length (b ∷ bs)) t in
    let n = min (length (b ∷ bs)) (u.packet_size - length u.packet) in
    let v = record u { packet = u.packet ++ take n (b ∷ bs) } in
    let (x, sent) = if v.packet_size == length v.packet then flush v else (v, []) in
    let rest = add_wagon_loop fuel wagon_size (drop n (b ∷ bs)) x in
    if ltb v.packet_size (length v.packet) then aborted else (rest >>= λ r. done (r.0, sent ++ r.1))

unfoldable pub add_wagon : List ℕ → Wrapper → Outcome (Wrapper × List (List ℕ))
add_wagon wagon t =
    if length wagon % 4 == 0 then add_wagon_loop (length wagon) (length wagon) wagon t else aborted

-- increase_size_silent asserts that the padding fits the memory of `wagon_`.
unfoldable pub add_block : Block → Wrapper → Outcome (Wrapper × List (List ℕ))
add_block b t =
    let n = length b.bytes in
    let pad = mod_back n 4 in
    let memory = b.bytes ++ drop n t.memory in
    if leb (wagon_max_size - wagon_header_size) n
    then thrown
    else (if ltb wagon_max_size (wagon_header_size + n + pad)
        then aborted
        else add_wagon (wagon_header b ++ take (n + pad) memory) (record t { memory = memory }))

-- A client: blocks one after the other, and the flush of the destructor.
unfoldable pub add_all : List Block → Wrapper → Outcome (Wrapper × List (List ℕ))
add_all [] t = done (flush t)
add_all (b ∷ bs) t = add_block b t >>= λ r. add_all bs r.0 >>= λ s. done (s.0, r.1 ++ s.1)
