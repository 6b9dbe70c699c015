-- ===== src/ThriftLink/Tests.antt =====
-- Runs of the thrift transceiver on packets of one byte, and its theorem at such packets.
use rubetek_ios_cpp_releases.Prelude.{
  ℕ, ◌≡◌, refl, false, List, [], ◌∷◌, Option, none, some, of_le, arith,
}
use rubetek_ios_cpp_releases.Prelude.Outcome.{Outcome, done, ◌>>=◌}
use rubetek_ios_cpp_releases.Elastic
use rubetek_ios_cpp_releases.ThriftLink.{
  Client, State, byte_reverse, run, reset, process_tcp_payload, process_all,
}
use rubetek_ios_cpp_releases.ThriftLink.Reading.{IsFramed, head}
use rubetek_ios_cpp_releases.ThriftLink.Delivery.{packets_delivered}

abbrev serialize : ℕ → List ℕ
serialize p = 0 ∷ 0 ∷ 0 ∷ 1 ∷ p ∷ []

abbrev deserialize : List ℕ → Option ℕ
deserialize (a ∷ b ∷ c ∷ d ∷ p ∷ []) = some p
deserialize _ = none

serialize-IsFramed : IsFramed serialize deserialize
serialize-IsFramed = record {
  body = λ p. p ∷ [];
  framed = λ p. refl;
  some_bytes = λ p. omega arith;
  small = λ p. omega arith;
  reads = λ p. refl;
}

abbrev client : Client ℕ
client = record { thrift_error = false; packets = []; errors = 0 }

byte_reverse_run : byte_reverse 4 0x01020304 ≡ 0x04030201
unfolding byte_reverse
byte_reverse_run = refl

-- A packet of two bytes cannot be read: the error is reported, and the connection begins anew.
unfoldable bad_packet : Outcome (State deserialize)
bad_packet =
    reset deserialize (Elastic.fresh, client)
    >>= process_all deserialize ((0 ∷ 0 ∷ 0 ∷ 1 ∷ 7 ∷ 0 ∷ 0 ∷ []) ∷ (0 ∷ 2 ∷ 8 ∷ 8 ∷ 9 ∷ []) ∷ [])

bad_packet_run : bad_packet ≡ done (head [], record client { packets = 7 ∷ []; errors = 1 })
unfolding bad_packet reset process_all Elastic.request Elastic.set Elastic.process_receive_buffer
    Elastic.process_taken_block process_tcp_payload Elastic.external_on_receive Elastic.has_request
    Elastic.call run of_le
bad_packet_run = refl

packets_delivered_example :
    (reset deserialize (Elastic.fresh, client)
      >>= process_all deserialize
          ((0 ∷ 0 ∷ []) ∷ (0 ∷ 1 ∷ 7 ∷ 0 ∷ 0 ∷ 0 ∷ []) ∷ (1 ∷ []) ∷ [] ∷ (8 ∷ []) ∷ []))
    ≡ done (head [], record client { packets = 7 ∷ 8 ∷ [] })
packets_delivered_example =
    packets_delivered serialize deserialize serialize-IsFramed Elastic.fresh client (7 ∷ 8 ∷ [])
      ((0 ∷ 0 ∷ []) ∷ (0 ∷ 1 ∷ 7 ∷ 0 ∷ 0 ∷ 0 ∷ []) ∷ (1 ∷ []) ∷ [] ∷ (8 ∷ []) ∷ []) refl
