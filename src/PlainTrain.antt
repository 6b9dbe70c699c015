-- ===== src/PlainTrain.antt =====
-- libnet/msw/proto/plain_train: numbered packets of framed blocks, wrapper.hpp and unwrapper.hpp.
-- `w` is sizeof(SizeType), `c` sizeof(CounterType). `uint_size` is sizeof(uint) of the target, 4 or
-- 8 (msw/int.hpp), the width of the unwrapper's error counters.
pub mod Transfer
pub mod Receive
mod Tests
pub mod Loss
use rubetek_ios_cpp_releases.Prelude.{
  ℕ, zero, suc, ◌+◌, ◌%◌, ◌^◌, Bool, true, false, not, List, [], ◌∷◌, ◌++◌, length, take, drop,
  to_le, of_le, ltb, ◌==◌, if◌then◌else◌,
}
use rubetek_ios_cpp_releases.Prelude.Outcome.{Outcome, done, aborted, ◌>>=◌}
use rubetek_ios_cpp_releases.Dimension
use rubetek_ios_cpp_releases.Dimension.Trigger
use rubetek_ios_cpp_releases.Spp
use rubetek_ios_cpp_releases.Spp.{UnpackError, no_error, bad_header, bad_len}
use rubetek_ios_cpp_releases.Spp.Packer.{Packer}
use rubetek_ios_cpp_releases.Spp.Accum

-- `packer.sent` holds the packets that the packer has handed to the wrapper's callback and that
-- the callback has not numbered yet.
pub record Wrapper : Type 0 where
  pub counter : ℕ
  pub packer : Packer

-- The constructor: the packer leaves sizeof(CounterType) bytes free at the front of every packet.
-- `front` is what its fresh memory holds there.
unfoldable pub construct : ℕ → List ℕ → ℕ → Outcome Wrapper
construct w front packet_size =
    Accum.construct w front packet_size >>= λ p. done (record { counter = 0; packer = p })

-- The callback: number the packet and hand it on.
unfoldable pub on_packet : ℕ → ℕ → List ℕ → Outcome (ℕ × List ℕ)
unfolding Dimension.increment
on_packet c counter packet =
    if ltb (length packet) c
    then aborted
    else (let (next, value) = Dimension.increment c 1 counter in
        done (next, to_le c value ++ drop c packet))

unfoldable pub on_packets : ℕ → ℕ → List (List ℕ) → Outcome (ℕ × List (List ℕ))
on_packets c counter [] = done (counter, [])
on_packets c counter (p ∷ ps) =
    on_packet c counter p >>= λ r. on_packets c r.0 ps >>= λ s. done (s.0, r.1 ∷ s.1)

-- Every packet that the packer sent goes through the callback; the new state, and what `pkt_ready`
-- receives.
deliver : ℕ → ℕ → Packer → Outcome (Wrapper × List (List ℕ))
deliver c counter p = on_packets c counter p.sent >>= λ r.
    done (record { counter = r.0; packer = record p { sent = [] } }, r.1)

unfoldable pub add_block : ℕ → ℕ → List (List ℕ) → Wrapper → Outcome (Wrapper × List (List ℕ))
unfolding deliver
add_block w c bs t = Accum.add_packet w bs t.packer >>= λ p. deliver c t.counter p

-- Also the destructor.
unfoldable pub flush : ℕ → Wrapper → Outcome (Wrapper × List (List ℕ))
unfolding deliver
flush c t = deliver c t.counter (Accum.flush t.packer)

-- A client: blocks one after the other, and a flush at the end.
unfoldable pub send_all : ℕ → ℕ → List (List (List ℕ)) → Wrapper → Outcome (Wrapper × List (List ℕ))
send_all w c [] t = flush c t
send_all w c (bs ∷ bss) t =
    add_block w c bs t >>= λ r. send_all w c bss r.0 >>= λ s. done (s.0, r.1 ++ s.1)

pub record Unwrapper : Type 0 where
  pub uint_size : ℕ
  pub first_packet : Bool
  pub counter : ℕ
  pub counter_errors : ℕ
  pub protocol_errors : ℕ

abbrev pub fresh : ℕ → Unwrapper
fresh uint_size = record {
  uint_size = uint_size;
  first_packet = true;
  counter = 0;
  counter_errors = 0;
  protocol_errors = 0;
}

unfoldable pub add_protocol_error : Unwrapper → Unwrapper
unfolding Dimension.increment
add_protocol_error u = record u {
  protocol_errors = (Dimension.increment u.uint_size 1 u.protocol_errors).0;
}

-- The number of a packet is compared with the one expected, but for the first packet.
check_counter : ℕ → Unwrapper → Unwrapper
unfolding Dimension.increment Trigger.reset
check_counter field u =
    if u.first_packet
    then record u { first_packet = Trigger.reset u.first_packet }
    else (if field == u.counter
        then u
        else record u { counter_errors = (Dimension.increment u.uint_size 1 u.counter_errors).0 })

-- A packet that does not parse to its end is an error; the blocks before the fault are delivered.
finish : Unwrapper → List (List ℕ) × UnpackError → Unwrapper × List (List ℕ)
unfolding add_protocol_error
finish u (blocks, no_error) = (u, blocks)
finish u (blocks, bad_header) = (add_protocol_error u, blocks)
finish u (blocks, bad_len) = (add_protocol_error u, blocks)

-- The new state, and what `block_ready_` receives.
unfoldable pub add_packet : ℕ → ℕ → List ℕ → Unwrapper → Outcome (Unwrapper × List (List ℕ))
unfolding add_protocol_error check_counter finish Dimension.set
add_packet w c packet u =
    if ltb (length packet) c
    then done (add_protocol_error u, [])
    else (let field = of_le (take c packet) in
        let v = check_counter field u in
        Dimension.set c 1 (field + 1) >>= λ next.
        Spp.unpack w (drop c packet) >>= λ r. done (finish (record v { counter = next }) r))

-- A client that hands over the packets that arrive.
unfoldable pub receive_all : ℕ → ℕ → List (List ℕ) → Unwrapper → Outcome (Unwrapper × List (List ℕ))
receive_all w c [] u = done (u, [])
receive_all w c (p ∷ ps) u =
    add_packet w c p u >>= λ r. receive_all w c ps r.0 >>= λ s. done (s.0, r.1 ++ s.1)
