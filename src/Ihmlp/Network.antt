-- ===== src/Ihmlp/Network.antt =====
-- Two queued transceivers (async_transceiver.hpp) over a connection that loses and reorders
-- nothing.
pub mod Flow
pub mod Start
pub mod Both
pub mod Delivery
pub mod Steps
pub mod Settles
use rubetek_ios_cpp_releases.Prelude.{
  ℕ, zero, suc, ◌+◌, ◌*◌, ◌≡◌, Bool, true, false, ◌||◌, ◌&&◌, List, [], ◌∷◌, ◌++◌, is_empty, length,
  if◌then◌else◌,
}
use rubetek_ios_cpp_releases.Prelude.Outcome.{Outcome, done, exhausted, ◌>>=◌}
use rubetek_ios_cpp_releases.Ihmlp.{Event, sent, received, disconnected}
use rubetek_ios_cpp_releases.Ihmlp.Async
use rubetek_ios_cpp_releases.Ihmlp.Async.{State, Packets}

-- One end, with what it has sent and the other end has not got yet, what its client has handed to
-- `send`, and what its client has received.
pub record Side : Type 0 where
  pub state : State
  pub flight : Packets
  pub accepted : Packets
  pub delivered : Packets

abbrev pub System : Type 0
System = Side × Side

abbrev pub swap : System → System
swap (x, y) = (y, x)

-- What the callbacks do: a packet goes on its way, a payload to the client.
abbrev pub log : List Event → Side → Side
log [] x = x
log (sent l packet ∷ es) x = log es (record x { flight = x.flight ++ packet ∷ [] })
log (received packet ∷ es) x = log es (record x { delivered = x.delivered ++ packet ∷ [] })
log (disconnected ∷ es) x = log es x

-- The client of the first side sends.
unfoldable pub client_sends : List ℕ → System → Outcome System
unfolding Async.send
client_sends packet (x, y) = Async.send packet x.state >>= λ r.
    done (log r.1 (record x { state = r.0; accepted = x.accepted ++ packet ∷ [] }), y)

unfoldable take_first : Packets → System → Outcome System
unfolding Async.process_ihmlp_packet
take_first [] (x, y) = done (x, y)
take_first (packet ∷ packets) (x, y) = Async.process_ihmlp_packet packet x.state >>= λ r.
    done (log r.1 (record x { state = r.0 }), record y { flight = packets })

-- The first side gets the oldest packet on its way to it.
unfoldable pub arrives : System → Outcome System
unfolding take_first
arrives (x, y) = take_first y.flight (x, y)

-- Clients send packets that are not empty, and packets arrive, at either side and in any order.
pub data Step : System → System → Type 0 where
  sends :
      {s t : System} (packet : List ℕ)
      → is_empty packet ≡ false
      → client_sends packet s ≡ done t
      → Step s t
  takes : {s t : System} → arrives s ≡ done t → Step s t
  other : {s t : System} → Step (swap s) (swap t) → Step s t

pub data Reach (s : System) : System → Type 0 where
  here : Reach s s
  next_step : {t u : System} → Reach s t → Step t u → Reach s u

-- Nothing is on its way.
abbrev pub at_rest : System → Bool
at_rest (x, y) = is_empty x.flight && is_empty y.flight

-- Packets arrive at the two sides by turns until nothing is on its way.
unfoldable pub settle : ℕ → System → Outcome System
unfolding arrives
settle zero s = if at_rest s then done s else exhausted
settle (suc n) s =
    if at_rest s then done s else (arrives s >>= λ t. arrives (swap t) >>= λ u. settle n (swap u))

-- The payloads among packets with a header and a counter.
abbrev pub payload : List ℕ → Packets
payload [] = []
payload (b ∷ bs) = (b ∷ bs) ∷ []

abbrev pub body : List ℕ → Packets
body [] = []
body (h ∷ []) = []
body (h ∷ c ∷ bytes) = payload bytes

abbrev pub bodies : Packets → Packets
bodies [] = []
bodies (p ∷ ps) = body p ++ bodies ps

-- No more packets than this can arrive unless a client sends: every payload is answered once.
abbrev pub pending : Side → ℕ
pending x = length x.flight + length (bodies x.flight) + 2 * length x.state.1
