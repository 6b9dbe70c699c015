-- ===== src/Ihlp.antt =====
-- rubetek/proto/ihlp/transceiver.hpp and timeouts.hpp: packets over a TCP stream, each answered in
-- time or the connection counts as lost. `w` is sizeof(SizeType); a time point and a duration
-- count the ticks of the steady clock, and each operation takes the time at which it is called.
pub mod Answers
pub mod Timeout
pub mod Link
mod Tests
use rubetek_ios_cpp_releases.Prelude.{
  ℕ, zero, suc, ◌+◌, ◌*◌, ◌-◌, ◌&&◌, ◌||◌, Bool, true, false, not, List, [], ◌∷◌, ◌++◌, length,
  Option, none, some, ltb, ◌==◌, if◌then◌else◌,
}
use rubetek_ios_cpp_releases.Prelude.Outcome.{Outcome, done, thrown, ◌>>=◌}
use rubetek_ios_cpp_releases.Dimension.Trigger
use rubetek_ios_cpp_releases.Spp.Packer
use rubetek_ios_cpp_releases.Spp.Packer.{Packer}
use rubetek_ios_cpp_releases.Spp.Unpacker
use rubetek_ios_cpp_releases.Spp.Unpacker.{Unpacker}

-- timeouts.hpp; `second` is the ticks of a second.
pub record Timeouts : Type 0 where
  pub response : ℕ
  pub keep_alive : ℕ

unfoldable pub default_timeouts : ℕ → Timeouts
default_timeouts second = record { response = 5 * second; keep_alive = 60 * second }

unfoldable pub equal : Timeouts → Timeouts → Bool
equal a b = a.response == b.response && a.keep_alive == b.keep_alive

unfoldable pub differ : Timeouts → Timeouts → Bool
differ a b = not (a.response == b.response) || not (a.keep_alive == b.keep_alive)

pub record Transceiver : Type 0 where
  pub creation_time : ℕ
  pub response_time : ℕ
  pub keep_alive_time : ℕ
  pub next_reaction_time : ℕ
  pub wait_response : Bool
  pub spp_packer : Packer
  pub spp_unpacker : Unpacker

pub data PacketType : Type 0 where
  keep_alive payload response : PacketType

unfoldable pub code : PacketType → ℕ
code keep_alive = 0
code payload = 1
code response = 2

-- The packet type that a byte stands for; none is the switch's default branch.
unfoldable pub packet_type : ℕ → Option PacketType
packet_type c =
    if c == 0
    then some keep_alive
    else (if c == 1 then some payload else (if c == 2 then some response else none))

unfoldable pub zzz_set_next_reaction_time : ℕ → ℕ → Transceiver → Transceiver
zzz_set_next_reaction_time now duration t = record t { next_reaction_time = now + duration }

unfoldable pub zzz_wait_sending_keep_alive : ℕ → Transceiver → Transceiver
unfolding Trigger.reset zzz_set_next_reaction_time
zzz_wait_sending_keep_alive now t =
    zzz_set_next_reaction_time now t.keep_alive_time
      (record t { wait_response = Trigger.reset t.wait_response })

unfoldable pub zzz_wait_reception_response : ℕ → Transceiver → Transceiver
unfolding Trigger.set zzz_set_next_reaction_time
zzz_wait_reception_response now t =
    zzz_set_next_reaction_time now t.response_time
      (record t { wait_response = Trigger.set true t.wait_response })

-- `spp_packer_` has the packer's default capacity, msw::KB * 64, and no offset.
unfoldable pub construct : ℕ → Timeouts → Transceiver
unfolding zzz_wait_sending_keep_alive Packer.init
construct now timeouts = zzz_wait_sending_keep_alive now (record {
  creation_time = now;
  response_time = timeouts.response;
  keep_alive_time = timeouts.keep_alive;
  next_reaction_time = 0;
  wait_response = false;
  spp_packer = Packer.init [] (1024 * 64);
  spp_unpacker = Unpacker.fresh;
})

-- One packet for `spp_packer_`: the type and what follows it.
unfoldable pub add_packet : ℕ → List (List ℕ) → Transceiver → Outcome Transceiver
unfolding Packer.add_packet
add_packet w blocks t =
    Packer.add_packet w blocks t.spp_packer >>= λ p. done (record t { spp_packer = p })

unfoldable pub zzz_send_service_packet : ℕ → PacketType → Transceiver → Outcome Transceiver
unfolding add_packet code
zzz_send_service_packet w type t = add_packet w ((code type ∷ []) ∷ []) t

unfoldable pub send : ℕ → ℕ → List ℕ → Transceiver → Outcome Transceiver
unfolding add_packet code zzz_wait_reception_response
send w now packet t = add_packet w ((code payload ∷ []) ∷ packet ∷ []) t >>= λ u.
    done (zzz_wait_reception_response now u)

unfoldable pub send_all : ℕ → ℕ → List (List ℕ) → Transceiver → Outcome Transceiver
unfolding send
send_all w now [] t = done t
send_all w now (p ∷ ps) t = send w now p t >>= send_all w now ps

-- The new state, and the result.
unfoldable pub check_timeout : ℕ → ℕ → Transceiver → Outcome (Transceiver × Bool)
unfolding zzz_send_service_packet zzz_wait_reception_response
check_timeout w now t =
    if ltb t.next_reaction_time now
    then (if t.wait_response
        then done (t, false)
        else (zzz_send_service_packet w keep_alive t >>= λ u.
            done (zzz_wait_reception_response now u, true)))
    else done (t, true)

-- The comparison of the source: true when more than the duration has passed.
unfoldable pub is_early : ℕ → ℕ → Transceiver → Bool
is_early now duration t = ltb duration (now - t.creation_time)

unfoldable pub set_keep_alive_time : ℕ → ℕ → Transceiver → Transceiver
unfolding zzz_wait_sending_keep_alive
set_keep_alive_time now keep_alive_time t =
    let u = record t { keep_alive_time = keep_alive_time } in
    if not u.wait_response then zzz_wait_sending_keep_alive now u else u

-- `pay_ready` is the callback `payload_ready_`: none when it throws, else the packets that it hands
-- to `send` before it returns. It makes no other call of this transceiver.
module _ (w : ℕ) (pay_ready : List ℕ → Option (List (List ℕ))) where
  -- The branch for a payload.
  unfoldable pub process_payload : ℕ → List ℕ → Transceiver → Outcome Transceiver
  unfolding send_all zzz_send_service_packet
  process_payload now packet t = elim (pay_ready packet) [
    | none ↦ thrown
    | some replies ↦ send_all w now replies t >>= λ u.
        if not u.wait_response then zzz_send_service_packet w response u else done u
  ]

  -- The new state, and the payloads that `payload_ready_` has received.
  unfoldable pub zzz_process_packet :
      ℕ → List ℕ → Transceiver → Outcome (Transceiver × List (List ℕ))
  unfolding packet_type process_payload zzz_send_service_packet zzz_wait_sending_keep_alive
  zzz_process_packet now [] t = thrown
  zzz_process_packet now (c ∷ packet) t =
      let u = zzz_wait_sending_keep_alive now t in
      elim (packet_type c) [
        | some keep_alive ↦ zzz_send_service_packet w response u >>= λ v. done (v, [])
        | some payload ↦ process_payload now packet u >>= λ v. done (v, packet ∷ [])
        | some response ↦ done (u, [])
        | none ↦ thrown
      ]

  unfoldable pub process_packets :
      ℕ → List (List ℕ) → Transceiver → Outcome (Transceiver × List (List ℕ))
  unfolding zzz_process_packet
  process_packets now [] t = done (t, [])
  process_packets now (p ∷ ps) t =
      zzz_process_packet now p t >>= λ r. process_packets now ps r.0 >>= λ s. done (s.0, r.1 ++ s.1)

  -- The unpacker does not look at the rest of the state, so that its packets can be handled behind it.
  unfoldable pub process_tcp_payload :
      ℕ → List ℕ → Transceiver → Outcome (Transceiver × List (List ℕ))
  unfolding process_packets Unpacker.unpack
  process_tcp_payload now packet t = Unpacker.unpack w t.spp_unpacker packet >>= λ r.
      process_packets now r.0 (record t { spp_unpacker = r.1 })
