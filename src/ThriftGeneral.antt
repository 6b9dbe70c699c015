-- ===== src/ThriftGeneral.antt =====
-- rubetek/proto/thrift/general.hpp: packets of thrift, each answered with a response, and a ping
-- from time to time. A time point and a duration count the ticks of the steady clock; each
-- operation takes the time at which it is called.
pub mod Responses
pub mod Pings
mod Tests
use rubetek_ios_cpp_releases.Prelude.{
  ℕ, ◌+◌, ◌-◌, Bool, true, false, List, [], ◌∷◌, ◌++◌, Option, none, some, ltb, leb, ◌==◌,
  if◌then◌else◌,
}
use rubetek_ios_cpp_releases.Prelude.Outcome.{Outcome, done, thrown}

-- proto::Packet; a payload that is not set is "".
pub record Packet : Type 0 where
  pub type : ℕ
  pub sender : ℕ
  pub payload : List ℕ

-- The types that process_in_packet looks at, by their values in proto::PacketType.
abbrev pub ping_type : ℕ
ping_type = 5

abbrev pub response_type : ℕ
response_type = 7

abbrev pub version_type : ℕ
version_type = 8

-- proto::Response: whether the code is OK, and the message.
pub record Response : Type 0 where
  pub ok : Bool
  pub message : List ℕ

-- What a call ends in: a value, or an exception with its text.
pub data Attempt (A : Type 0) : Type 0 where
  returned : A → Attempt A
  raised : List ℕ → Attempt A

-- thrift_deserialize and thrift_serialize of responses and versions, and the two callbacks:
-- in_packet_ready_ with the packets that it sends before it ends, and on_check_version_.
pub record Client : Type 0 where
  pub deserialize_version : List ℕ → Attempt ℕ
  pub deserialize_response : List ℕ → Attempt Response
  pub serialize_response : Response → List ℕ
  pub on_check_version : ℕ → Attempt (Unit {0})
  pub in_packet_ready : Packet → List Packet × Attempt (Unit {0})

pub record General : Type 0 where
  pub sender : ℕ
  pub ping_interval : ℕ
  pub response_timeout : ℕ
  pub next_ping_time : ℕ
  pub last_response_time : ℕ

unfoldable pub construct : ℕ → ℕ → ℕ → ℕ → Outcome General
construct now sender ping_interval response_timeout =
    if leb response_timeout ping_interval
    then thrown
    else done (record {
      sender = sender;
      ping_interval = ping_interval;
      response_timeout = response_timeout;
      next_ping_time = 0;
      last_response_time = now;
    })

-- What out_packet_ready_ gets.
unfoldable pub send : ℕ → List ℕ → General → Packet
send type pay g = record { type = type; sender = g.sender; payload = pay }

unfoldable pub send_version : General → Packet
send_version g = record { type = version_type; sender = g.sender; payload = [] }

unfoldable pub ping : General → Packet
ping g = record { type = ping_type; sender = g.sender; payload = [] }

module _ (client : Client) where
  unfoldable pub respond : Response → General → List Packet
  unfolding send
  respond response g = send response_type (client.serialize_response response) g ∷ []

  -- The end of process_in_packet, in and behind the catch branch.
  unfoldable pub conclude : Attempt (Unit {0}) → General → List Packet
  unfolding respond
  conclude (returned _) g = respond (record { ok = true; message = [] }) g
  conclude (raised message) g = respond (record { ok = false; message = message }) g

  -- The case of a version.
  unfoldable pub check_version : List ℕ → Attempt (Unit {0})
  check_version payload = elim (client.deserialize_version payload) [
    | returned value ↦ client.on_check_version value
    | raised message ↦ raised message
  ]

  -- The case of a response, which ends there if it can be read.
  unfoldable pub take_response : List ℕ → General → List Packet
  unfolding conclude
  take_response payload g = elim (client.deserialize_response payload) [
    | returned response ↦ []
    | raised message ↦ conclude (raised message) g
  ]

  -- The new state, and the packets sent.
  unfoldable pub process_in_packet : ℕ → Packet → General → General × List Packet
  unfolding conclude check_version take_response
  process_in_packet now pkt g =
      let g' = record g { last_response_time = now } in
      if pkt.type == version_type
      then (g', conclude (check_version pkt.payload) g')
      else (if pkt.type == ping_type
          then (g', conclude (returned tt) g')
          else (if pkt.type == response_type
              then (g', take_response pkt.payload g')
              else (let (sent, end) = client.in_packet_ready pkt in (g', sent ++ conclude end g'))))

-- What the timer's call does: on_response_timeout_, or a ping.
pub data Tick : Type 0 where
  quiet response_timeout : Tick
  pings : Packet → Tick

unfoldable pub idle : ℕ → General → General × Tick
unfolding ping
idle now g =
    if ltb g.response_timeout (now - g.last_response_time)
    then (record g { last_response_time = now }, response_timeout)
    else (if ltb g.next_ping_time now
        then (record g { next_ping_time = now + g.ping_interval }, pings (ping g))
        else (g, quiet))
