-- ===== src/Ihmlp/Async.antt =====
-- rubetek/proto/ihmlp/async_transceiver.hpp: a queue before the transceiver. The client's two
-- callbacks take what they get and call nothing; they are the events `received` and
-- `disconnected`.
use rubetek_ios_cpp_releases.Prelude.{ℕ, List, [], ◌∷◌, ◌++◌, is_empty, if◌then◌else◌}
use rubetek_ios_cpp_releases.Prelude.Outcome.{Outcome, done, ◌>>=◌}
use rubetek_ios_cpp_releases.Ihmlp
use rubetek_ios_cpp_releases.Ihmlp.{Transceiver, Event, received, disconnected}

-- `packets_`, the front first.
abbrev pub Packets : Type 0
Packets = List (List ℕ)

abbrev pub State : Type 0
State = Transceiver × Packets

abbrev pub Result : Type 0
Result = Outcome (State × List Event)

abbrev pub fresh : State
fresh = (Ihmlp.fresh, [])

-- The front of the queue, if there is one.
unfoldable pub send_front : State → Result
unfolding Ihmlp.send_packet
send_front (t, []) = done ((t, []), [])
send_front (t, p ∷ ps) = Ihmlp.send_packet p t >>= λ r. done ((r.0, ps), r.1)

unfoldable pub payload_ready : List ℕ → State → Result
unfolding send_front
payload_ready packet s =
    send_front s >>= λ r. done (r.0, r.1 ++ (if is_empty packet then [] else received packet ∷ []))

unfoldable pub all_links_disconnected : Packets → Packets × List Event
all_links_disconnected packets = ([], disconnected ∷ [])

unfoldable pub process_ihmlp_packet : List ℕ → State → Result
unfolding Ihmlp.process_ihmlp_packet payload_ready all_links_disconnected
process_ihmlp_packet packet s =
    Ihmlp.process_ihmlp_packet payload_ready all_links_disconnected packet s

unfoldable pub reset_primary_link : State → State × List Event
unfolding Ihmlp.reset_primary_link payload_ready all_links_disconnected
reset_primary_link s = Ihmlp.reset_primary_link payload_ready all_links_disconnected s

unfoldable pub reset_secondary_link : State → State × List Event
unfolding Ihmlp.reset_secondary_link payload_ready all_links_disconnected
reset_secondary_link s = Ihmlp.reset_secondary_link payload_ready all_links_disconnected s

unfoldable pub send : List ℕ → State → Result
unfolding Ihmlp.send_packet Ihmlp.can_send
send packet (t, packets) =
    if Ihmlp.can_send t
    then (Ihmlp.send_packet packet t >>= λ r. done ((r.0, packets), r.1))
    else done ((t, packets ++ packet ∷ []), [])
