-- ===== src/ThriftGeneral/Tests.antt =====
-- The theorems of thrift_general at a client that counts.
use rubetek_ios_cpp_releases.Prelude.{
  ℕ, ◌≡◌, ◌≢◌, refl, Bool, true, false, List, [], ◌∷◌, All, ◌==◌, arith,
}
use rubetek_ios_cpp_releases.ThriftGeneral.{
  Packet, Response, Attempt, returned, raised, Client, General, response_timeout, pings, ping,
  send_version, process_in_packet, idle,
}
use rubetek_ios_cpp_releases.ThriftGeneral.Responses.{IsAnswer, answered_once}
use rubetek_ios_cpp_releases.ThriftGeneral.Pings.{idle_all, silence_reported}

abbrev read_version : List ℕ → Attempt ℕ
read_version [] = raised (1 ∷ [])
read_version (v ∷ vs) = returned v

abbrev read_response : List ℕ → Attempt Response
read_response [] = raised (1 ∷ [])
read_response (c ∷ message) = returned (record { ok = c == 0; message = message })

abbrev code_of : Bool → ℕ
code_of true = 0
code_of false = 1

abbrev client : Client
client = record {
  deserialize_version = read_version;
  deserialize_response = read_response;
  serialize_response = λ r. code_of r.ok ∷ r.message;
  on_check_version = λ v. returned tt;
  in_packet_ready = λ p. (p ∷ [], raised (9 ∷ []));
}

reads : (r : Response) → client.deserialize_response (client.serialize_response r) ≡ returned r
reads r = read_back r.ok r.message
  where
    read_back :
        (ok : Bool) (message : List ℕ)
        → read_response (code_of ok ∷ message) ≡ returned (record { ok = ok; message = message })
    read_back true message = refl
    read_back false message = refl

abbrev general : General
general = record {
  sender = 1;
  ping_interval = 15;
  response_timeout = 40;
  next_ping_time = 0;
  last_response_time = 100;
}

abbrev own_packet : Packet
own_packet = record { type = 4; sender = 1; payload = [] }

abbrev answer_of : ℕ → List ℕ → Packet
answer_of code message = record { type = 7; sender = 1; payload = code ∷ message }

-- The packet of send_version has no payload, so that a client that wants one refuses it.
version_refused :
    (process_in_packet client 110 (send_version general) general).1 ≡ answer_of 1 (1 ∷ []) ∷ []
unfolding process_in_packet send_version
version_refused = refl

ping_run : (idle 110 general).1 ≡ pings (ping general)
unfolding idle
ping_run = refl

answered_once_example :
    (p : Packet) × ((process_in_packet client 110 own_packet general).1 ≡ own_packet ∷ p ∷ [])
    × IsAnswer client 111 general p
    × ((process_in_packet client 110 own_packet general).0.last_response_time ≡ 110)
answered_once_example = answered_once client client 110 111 own_packet general general refl reads

silence_reported_example :
    All (λ tick. tick ≢ response_timeout) (idle_all (120 ∷ 140 ∷ []) general).1
    × ((idle 141 (idle_all (120 ∷ 140 ∷ []) general).0).1 ≡ response_timeout)
silence_reported_example =
    silence_reported (120 ∷ 140 ∷ []) 141 general (omega arith, (omega arith, tt)) (omega arith)
