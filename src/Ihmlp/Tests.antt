-- ===== src/Ihmlp/Tests.antt =====
-- Runs of the transceivers on concrete packets, and their theorems at such runs.
use rubetek_ios_cpp_releases.Prelude.{ℕ, ◌+◌, ◌≡◌, refl, true, false, List, [], ◌∷◌, arith}
use rubetek_ios_cpp_releases.Prelude.Outcome.{Outcome, done, thrown, ◌>>=◌}
use rubetek_ios_cpp_releases.Ihmlp
use rubetek_ios_cpp_releases.Ihmlp.{
  Event, sent, received, primary_link, secondary_link, set_primary_link, set_secondary_link,
  has_primary_link,
}
use rubetek_ios_cpp_releases.Ihmlp.Async
use rubetek_ios_cpp_releases.Ihmlp.Async.{State, Packets}
use rubetek_ios_cpp_releases.Ihmlp.Turns.{linked, numbered}
use rubetek_ios_cpp_releases.Ihmlp.Repeats.{failover_once}
use rubetek_ios_cpp_releases.Ihmlp.Network.{
  System, Side, swap, client_sends, arrives, Reach, here, next_step, sends, takes, other, settle,
  pending, at_rest,
}
use rubetek_ios_cpp_releases.Ihmlp.Network.Flow.{End, side}
use rubetek_ios_cpp_releases.Ihmlp.Network.Start.{new_side, first_contact}
use rubetek_ios_cpp_releases.Ihmlp.Network.Steps.{Accounted, Reach-Accounted}
use rubetek_ios_cpp_releases.Ihmlp.Network.Settles.{Reach-settles}

abbrev fresh_side : Side
fresh_side = new_side true false

fresh_side_lem : fresh_side.state ≡ (set_primary_link Ihmlp.fresh, [])
unfolding set_primary_link
fresh_side_lem = refl

unfoldable first_exchange : Outcome System
unfolding client_sends arrives
first_exchange = client_sends (5 ∷ []) (fresh_side, fresh_side) >>= λ s.
    arrives (swap s) >>= λ t. arrives (swap t)

-- One side has sent a packet of one byte, and the other one has answered it.
abbrev met : End
met = record {
  in_counter = 1;
  out_counter = 1;
  buf = [];
  primary = true;
  secondary = false;
  packets = [];
  flight = [];
  accepted = [];
  delivered = [];
}

abbrev met_sender : End
met_sender = record met { accepted = (5 ∷ []) ∷ [] }

abbrev met_receiver : End
met_receiver = record met { delivered = (5 ∷ []) ∷ [] }

first_exchange_run : first_exchange ≡ done (side met_sender, side met_receiver)
unfolding first_exchange
first_exchange_run = refl

-- Two sides that have begun at the same time, and what is left of it when the first client sends
-- once more.
abbrev ignored : End
ignored = record {
  in_counter = 1;
  out_counter = 1;
  buf = numbered 1 (6 ∷ []);
  primary = true;
  secondary = false;
  packets = [];
  flight = [];
  accepted = (5 ∷ []) ∷ (6 ∷ []) ∷ [];
  delivered = (7 ∷ []) ∷ [];
}

abbrev ignored_too : End
ignored_too = record ignored {
  buf = numbered 1 (8 ∷ []);
  accepted = (7 ∷ []) ∷ (8 ∷ []) ∷ [];
  delivered = (5 ∷ []) ∷ [];
}

abbrev sent_on : End
sent_on = record ignored { packets = (9 ∷ []) ∷ []; accepted = (5 ∷ []) ∷ (6 ∷ []) ∷ (9 ∷ []) ∷ [] }

-- An empty packet that is queued makes the reception of the next packet fail.
abbrev waiting : State
waiting = (linked 1 1 (numbered 1 (5 ∷ [])) true false, [])

empty_queued :
    (Async.send [] waiting >>= λ r. Async.process_ihmlp_packet (numbered 2 (9 ∷ [])) r.0) ≡ thrown
unfolding Async.send Async.process_ihmlp_packet
empty_queued = refl

-- The first packet has another header: when it comes again, the connection starts anew, and the
-- packet is delivered again.
abbrev first_packet : List ℕ
first_packet = 0x66 ∷ 1 ∷ 5 ∷ []

abbrev events_of : Outcome (State × List Event) → Outcome (List Event)
events_of m = m >>= λ r. done r.1

first_packet_again :
    events_of (Async.process_ihmlp_packet first_packet (linked 1 1 [] true false, []))
    ≡ done (received (5 ∷ []) ∷ sent primary_link (numbered 1 []) ∷ [])
unfolding Async.process_ihmlp_packet
first_packet_again = refl

third_taken :
    Async.process_ihmlp_packet (numbered 3 (5 ∷ [])) (linked 2 5 [] true false, [])
    ≡ done
        ((linked 3 6 [] true false, []), received (5 ∷ []) ∷ sent primary_link (numbered 6 []) ∷ [])
unfolding Async.process_ihmlp_packet
third_taken = refl

failover_once_example :
    Async.process_ihmlp_packet (numbered 3 (5 ∷ [])) (linked 3 6 [] true false, [])
    ≡ done ((linked 3 6 [] true false, []), [])
failover_once_example =
    (failover_once 4 3 3 5 [] true [] (linked 2 5 [] true false, []) (linked 3 6 [] true false, [])
      (received (5 ∷ []) ∷ sent primary_link (numbered 6 []) ∷ []) (omega arith) third_taken).2

-- The first side has sent a packet of one byte, and the other one has got it.
abbrev begun : System
begun = (
  side (record met_sender { in_counter = 0; buf = 0x66 ∷ 1 ∷ 5 ∷ [] }),
  side (record met_receiver { flight = numbered 1 [] ∷ [] }),
)

begun_run : first_contact (5 ∷ []) (fresh_side, fresh_side) ≡ done begun
unfolding first_contact client_sends arrives
begun_run = refl

-- After the answer the first side sends two packets more, and the first one arrives.
abbrev sent_once : End
sent_once = record met_sender {
  out_counter = 2;
  buf = numbered 2 (7 ∷ []);
  flight = numbered 2 (7 ∷ []) ∷ [];
  accepted = (5 ∷ []) ∷ (7 ∷ []) ∷ [];
}

abbrev sent_twice : End
sent_twice = record sent_once {
  packets = (8 ∷ []) ∷ [];
  accepted = (5 ∷ []) ∷ (7 ∷ []) ∷ (8 ∷ []) ∷ [];
}

abbrev arrived : System
arrived = (
  side (record sent_twice { flight = [] }),
  side (record met_receiver {
    in_counter = 2;
    out_counter = 2;
    flight = numbered 2 [] ∷ [];
    delivered = (5 ∷ []) ∷ (7 ∷ []) ∷ [];
  }),
)

begun-Reach : Reach begun arrived
unfolding client_sends arrives
begun-Reach =
    next_step {t = (side sent_twice, side met_receiver)}
      (next_step {t = (side sent_once, side met_receiver)}
        (next_step {t = (side met_sender, side met_receiver)} (next_step here (takes refl))
          (sends (7 ∷ []) refl refl))
        (sends (8 ∷ []) refl refl))
      (other (takes refl))

Reach-Accounted_example : Accounted arrived.0 arrived.1 × Accounted arrived.1 arrived.0
Reach-Accounted_example =
    Reach-Accounted true false true false (5 ∷ []) begun arrived refl refl refl begun_run
      begun-Reach

Reach-settles_example :
    (u : System) × (settle (pending arrived.0 + pending arrived.1) arrived ≡ done u)
    × (u.1.delivered ≡ (5 ∷ []) ∷ (7 ∷ []) ∷ (8 ∷ []) ∷ [])
    × (u.0.delivered ≡ [])
    × (at_rest u ≡ true)
Reach-settles_example =
    Reach-settles true false true false (5 ∷ []) begun arrived refl refl refl begun_run begun-Reach
