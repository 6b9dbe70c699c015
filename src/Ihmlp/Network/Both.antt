-- ===== src/Ihmlp/Network/Both.antt =====
-- Two transceivers (async_transceiver.hpp) that begin at the same time.
use rubetek_ios_cpp_releases.Prelude.{ℕ, ◌≡◌, Bool, List, [], ◌∷◌}
use rubetek_ios_cpp_releases.Prelude.Outcome.{Outcome, done, ◌>>=◌}
use rubetek_ios_cpp_releases.Dimension
use rubetek_ios_cpp_releases.Ihmlp
use rubetek_ios_cpp_releases.Ihmlp.Async
use rubetek_ios_cpp_releases.Ihmlp.Async.{Packets}
use rubetek_ios_cpp_releases.Ihmlp.Turns.{linked}
use rubetek_ios_cpp_releases.Ihmlp.Network.{Side, System, swap, client_sends, arrives}

-- Both clients send two packets; then packets arrive at the two sides by turns, twice.
unfoldable pub both_begin : List ℕ → List ℕ → List ℕ → List ℕ → System → Outcome System
both_begin a a' b b' s = client_sends a s >>= λ s1. client_sends a' s1 >>= λ s2.
    client_sends b (swap s2) >>= λ s3. client_sends b' s3 >>= λ s4. arrives (swap s4) >>= λ s5.
    arrives (swap s5) >>= λ s6.
    arrives (swap s6) >>= λ s7. arrives (swap s7) >>= λ s8. done (swap s8)

-- A side that waits for an answer, with nothing on its way to the other side.
record Waits (delivered : Packets) (z : Side) : Type 0 where
  in_counter : ℕ
  out_counter : ℕ
  header : ℕ
  packet : List ℕ
  primary : Bool
  secondary : Bool
  queue : Packets
  waits : z.state ≡ (linked in_counter out_counter (header ∷ packet) primary secondary, queue)
  quiet : z.flight ≡ []
  received_all : z.delivered ≡ delivered

abbrev Stuck : Packets → Packets → System → Type 0
Stuck d e s = Waits d s.0 × Waits e s.1
