-- ===== src/ThriftLink.antt =====
-- rubetek/proto/thrift/transceiver.hpp: packets of thrift over a TCP stream, each behind its length
-- of 4 bytes, the highest first. `deserialize` is thrift_deserialize into the packet's type: none
-- where it reports an error.
pub mod Reading
pub mod Stream
pub mod Pieces
pub mod Delivery
mod Tests
use rubetek_ios_cpp_releases.Prelude.{
  ℕ, zero, suc, ◌+◌, ◌*◌, ◌%◌, ◌/◌, ◌^◌, Bool, true, false, List, [], ◌∷◌, ◌++◌, Option, none, some,
  of_le, ◌==◌, if◌then◌else◌,
}
use rubetek_ios_cpp_releases.Prelude.Outcome.{Outcome, done, ◌>>=◌}
use rubetek_ios_cpp_releases.Elastic
use rubetek_ios_cpp_releases.Elastic.{Receiver, Request, receive_size, receive_still_size}

-- msw/regibits/transform/byte_reverse.hpp, for a type of `w` bytes: a round moves the lowest byte
-- of `val` to `ret`.
unfoldable pub byte_reverse_loop : ℕ → ℕ → ℕ → ℕ → ℕ
byte_reverse_loop w zero ret val = ret
byte_reverse_loop w (suc n) ret val =
    byte_reverse_loop w n ((ret * 256 + val % 256) % 256 ^ w) (val / 256)

unfoldable pub byte_reverse : ℕ → ℕ → ℕ
unfolding byte_reverse_loop
byte_reverse w val = byte_reverse_loop w w 0 val

-- The two callbacks of receive_packet.
pub data Callback : Type 0 where
  hdr_len payload : Callback

-- What the callbacks change: the error flag, what packet_ready_ has received, and how often
-- on_thrift_error_ has been called.
pub record Client (Packet : Type 0) : Type 0 where
  pub thrift_error : Bool
  pub packets : List Packet
  pub errors : ℕ

module _ {Packet : Type 0} (deserialize : List ℕ → Option Packet) where
  -- The inner callback; packet_ready_ returns.
  unfoldable pub on_packet :
      List ℕ → Client Packet → Outcome (Client Packet × List (Request Callback))
  on_packet block s = if s.thrift_error then done (s, []) else elim (deserialize block) [
    | none ↦ done (record s { thrift_error = true }, [])
    | some p ↦ done (record s { packets = s.packets ++ p ∷ [] }, receive_size 4 hdr_len ∷ [])
  ]

  unfoldable pub run :
      Callback → List ℕ → Client Packet → Outcome (Client Packet × List (Request Callback))
  unfolding on_packet byte_reverse
  run hdr_len block s =
      let len = byte_reverse 4 (of_le block) in
      if len == 0
      then done (s, receive_size 4 hdr_len ∷ [])
      else done (s, receive_still_size len payload ∷ [])
  run payload block s = on_packet block s

  abbrev pub State : Type 0
  State = Receiver Callback × Client Packet

  unfoldable pub reset : State → Outcome State
  reset (r, s) =
      Elastic.request run (receive_size 4 hdr_len)
        (Elastic.fresh, record s { thrift_error = false })

  unfoldable pub process_tcp_payload : List ℕ → State → Outcome State
  process_tcp_payload block x = Elastic.external_on_receive run block x >>= λ y.
      if y.1.thrift_error
      then (reset y >>= λ z. done (z.0, record (z.1) { errors = z.1.errors + 1 }))
      else done y

  -- The pieces of a stream, one after the other.
  unfoldable pub process_all : List (List ℕ) → State → Outcome State
  process_all [] x = done x
  process_all (b ∷ bs) x = process_tcp_payload b x >>= process_all bs
