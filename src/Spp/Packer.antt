-- ===== src/Spp/Packer.antt =====
-- libnet/msw/proto/spp/packer.hpp: packets that are put together piece by piece in a buffer.
-- `w` is sizeof(size_type). A buffer is its contents and its capacity.
pub mod Laws
pub mod Blocks
use rubetek_ios_cpp_releases.Prelude.{
  ℕ, zero, suc, ◌+◌, ◌-◌, ◌%◌, ◌^◌, max, Bool, List, [], ◌∷◌, ◌++◌, length, take, drop, is_empty,
  to_le, of_le, ltb, ◌==◌, if◌then◌else◌, concat,
}
use rubetek_ios_cpp_releases.Prelude.Outcome.{Outcome, done, thrown, aborted, ◌>>=◌}
use rubetek_ios_cpp_releases.Spp.{max_size}

-- `front` is what stands in the first `offset_` bytes of the buffer's memory: `resize(offset_)`
-- shows these bytes, and the packer never writes them. `sent` lists the packets that
-- `packet_ready_` has received.
pub record Packer : Type 0 where
  pub front : List ℕ
  pub buf : List ℕ
  pub capacity : ℕ
  pub last_packet_len : ℕ
  pub sent : List (List ℕ)

unfoldable pub init : List ℕ → ℕ → Packer
init front capacity = record {
  front = front;
  buf = [];
  capacity = capacity;
  last_packet_len = 0;
  sent = [];
}

unfoldable pub offset : Packer → ℕ
offset p = length p.front

unfoldable pub zzz_flush : Packer → Packer
zzz_flush p = record p { sent = p.sent ++ p.buf ∷ []; last_packet_len = 0; buf = [] }

unfoldable pub flush : Packer → Packer
unfolding zzz_flush
flush p = if is_empty p.buf then p else zzz_flush p

unfoldable pub reset : Packer → Packer
reset p = record p { buf = []; last_packet_len = 0 }

-- push_back of a range: the memory grows when it has to.
push_back : Packer → List ℕ → Packer
push_back p r = record p { buf = p.buf ++ r; capacity = max p.capacity (length p.buf + length r) }

-- push_back_silent of a range: MSW_ASSERT wants the room to be there.
push_back_silent : Packer → List ℕ → Outcome Packer
push_back_silent p r =
    if ltb p.capacity (length p.buf + length r)
    then aborted
    else done (record p { buf = p.buf ++ r })

-- `if (buf_.empty()) buf_.resize(offset_)`
start : Packer → Packer
start p =
    if is_empty p.buf
    then record p { buf = p.front; capacity = max p.capacity (length p.front) }
    else p

unfoldable pub zzz_add_header : ℕ → Packer → Packer
unfolding start push_back
zzz_add_header w p = record (push_back (start p) (to_le w 0)) { last_packet_len = 0 }

unfoldable pub zzz_add_header_silent : ℕ → Packer → Outcome Packer
unfolding start push_back_silent
zzz_add_header_silent w p =
    push_back_silent (start p) (to_le w 0) >>= λ q. done (record q { last_packet_len = 0 })

-- Rewrites the header of the last packet in place. `back` asserts that the buffer reaches so far,
-- and the last line that header and member agree.
unfoldable pub zzz_add_last_packet_len : ℕ → ℕ → Packer → Outcome Packer
zzz_add_last_packet_len w len p =
    if ltb (length p.buf) (p.last_packet_len + w)
    then aborted
    else (let at = length p.buf - (p.last_packet_len + w) in
        let header = take w (drop at p.buf) in
        let packet_len = (of_le header + len) % 256 ^ w in
        let last = (p.last_packet_len + len) % 256 ^ w in
        let buf = take at p.buf ++ (to_le w packet_len ++ drop (at + w) p.buf) in
        if packet_len == last
        then done (record p { buf = buf; last_packet_len = last })
        else aborted)

unfoldable pub put_to_last_packet : ℕ → List ℕ → Packer → Outcome Packer
unfolding zzz_add_last_packet_len push_back zzz_add_header
put_to_last_packet w block p =
    if ltb (max_size w) (p.last_packet_len + length block)
    then thrown
    else (let p' = if is_empty p.buf then zzz_add_header w p else p in
        zzz_add_last_packet_len w (length block % 256 ^ w) p' >>= λ q. done (push_back q block))

unfoldable pub put_to_last_packet_silent : ℕ → List ℕ → Packer → Outcome Packer
unfolding zzz_add_last_packet_len push_back_silent zzz_add_header_silent
put_to_last_packet_silent w block p =
    if ltb (max_size w) (p.last_packet_len + length block)
    then aborted
    else ((if is_empty p.buf then zzz_add_header_silent w p else done p) >>= λ p'.
        zzz_add_last_packet_len w (length block % 256 ^ w) p' >>= λ q. push_back_silent q block)

-- The overloads over several blocks: one after the other.
unfoldable pub put_blocks : ℕ → List (List ℕ) → Packer → Outcome Packer
put_blocks w [] p = done p
put_blocks w (b ∷ bs) p = put_to_last_packet w b p >>= put_blocks w bs

unfoldable pub put_blocks_silent : ℕ → List (List ℕ) → Packer → Outcome Packer
put_blocks_silent w [] p = done p
put_blocks_silent w (b ∷ bs) p = put_to_last_packet_silent w b p >>= put_blocks_silent w bs

unfoldable pub put_packet : ℕ → List (List ℕ) → Packer → Outcome Packer
put_packet w bs p = put_blocks w bs (zzz_add_header w p)

unfoldable pub put_packet_silent : ℕ → List (List ℕ) → Packer → Outcome Packer
put_packet_silent w bs p = zzz_add_header_silent w p >>= put_blocks_silent w bs

unfoldable pub add_packet : ℕ → List (List ℕ) → Packer → Outcome Packer
add_packet w bs p = put_packet w bs (flush p) >>= λ q. done (zzz_flush q)

unfoldable pub add_packet_silent : ℕ → List (List ℕ) → Packer → Outcome Packer
add_packet_silent w bs p = put_packet_silent w bs (flush p) >>= λ q. done (zzz_flush q)
