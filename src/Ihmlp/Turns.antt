-- ===== src/Ihmlp/Turns.antt =====
-- What the queued transceiver (async_transceiver.hpp over transceiver.hpp) does once the first
-- packets have been exchanged, case by case.
use rubetek_ios_cpp_releases.Prelude.{
  ℕ, ◌+◌, ◌%◌, ◌^◌, ◌≡◌, refl, ◌||◌, Bool, true, false, List, [], ◌∷◌, ◌++◌, is_empty, arith, ◌==◌,
  if◌then◌else◌,
}
use rubetek_ios_cpp_releases.Prelude.Outcome.{done, ◌>>=◌}
use rubetek_ios_cpp_releases.Dimension
use rubetek_ios_cpp_releases.Dimension.{set_one}
use rubetek_ios_cpp_releases.Ihmlp
use rubetek_ios_cpp_releases.Ihmlp.{
  Transceiver, Event, sent, received, payload_header, link, process_numbered,
}
use rubetek_ios_cpp_releases.Ihmlp.Async.{
  Packets, process_ihmlp_packet, payload_ready, all_links_disconnected, send, send_front,
}

-- The counter's successor, in a byte.
abbrev pub next : ℕ → ℕ
next c = (c + 1) % 256

abbrev pub numbered : ℕ → List ℕ → List ℕ
numbered c body = payload_header ∷ c ∷ body

-- A transceiver that has got or sent a packet since it was reset.
abbrev pub linked : ℕ → ℕ → List ℕ → Bool → Bool → Transceiver
linked i o buf p s = record {
  init = false;
  in_counter = i;
  out_counter = o;
  buf = buf;
  primary = p;
  secondary = s;
}

next_other : (i : ℕ) → (next i == i) ≡ false
next_other i = ground arith

set_next : (i : ℕ) → Dimension.set 1 1 (next i) ≡ done (next i)
set_next i = let e : next i % 256 ^ 1 ≡ next i = omega arith in rw (set_one 1 (next i), e) refl

-- Up to the client's callback.
process_next :
    (i o : ℕ) (buf body : List ℕ) (p s : Bool) (packets : Packets)
    → process_ihmlp_packet (numbered (next i) body) (linked i o buf p s, packets) ≡ (
        payload_ready body (linked (next i) o [] p s, packets)
        >>= Ihmlp.acknowledge payload_ready all_links_disconnected body)
unfolding process_ihmlp_packet Ihmlp.process_ihmlp_packet Ihmlp.process_numbered
process_next i o buf body p s packets = rw (next_other i, set_next i) refl

-- The queue is empty, and an acknowledgement has come.
pub process_next_quiet :
    (i o : ℕ) (buf : List ℕ) (p s : Bool)
    → process_ihmlp_packet (numbered (next i) []) (linked i o buf p s, [])
      ≡ done ((linked (next i) o [] p s, []), [])
unfolding payload_ready Ihmlp.acknowledge
process_next_quiet i o buf p s = rw (process_next i o buf [] p s []) refl

-- The queue is empty, and a payload has come: it is acknowledged.
pub process_next_acknowledged :
    (i o : ℕ) (buf : List ℕ) (b : ℕ) (body : List ℕ) (p s : Bool)
    → (p || s) ≡ true
    → process_ihmlp_packet (numbered (next i) (b ∷ body)) (linked i o buf p s, [])
      ≡ done (
        (linked (next i) (next o) [] p s, []),
        received (b ∷ body)
            ∷ sent (if p then Ihmlp.primary_link else Ihmlp.secondary_link) (numbered (next o) [])
            ∷ [],
      )
unfolding payload_ready Ihmlp.acknowledge Ihmlp.zzz_send_ihmlp_packet Dimension.increment
process_next_acknowledged i o buf b body p s h = rw (process_next i o buf (b ∷ body) p s [], h) refl

-- The queue's front goes out with the next packet that comes.
pub process_next_queued :
    (i o : ℕ) (buf body : List ℕ) (q : ℕ) (qs : List ℕ) (packets : Packets) (p s : Bool)
    → (p || s) ≡ true
    → process_ihmlp_packet (numbered (next i) body) (linked i o buf p s, (q ∷ qs) ∷ packets)
      ≡ done (
        (linked (next i) (next o) (numbered (next o) (q ∷ qs)) p s, packets),
        sent (if p then Ihmlp.primary_link else Ihmlp.secondary_link) (numbered (next o) (q ∷ qs))
            ∷ (if is_empty body then [] else received body ∷ []),
      )
unfolding payload_ready Ihmlp.acknowledge Ihmlp.zzz_send_ihmlp_packet Dimension.increment
    Ihmlp.send_packet Ihmlp.has_links send_front
process_next_queued i o buf [] q qs packets p s h =
    rw (process_next i o buf [] p s ((q ∷ qs) ∷ packets), h) refl
process_next_queued i o buf (b ∷ bs) q qs packets p s h =
    rw (process_next i o buf (b ∷ bs) p s ((q ∷ qs) ∷ packets), h) refl

-- Nothing waits for the peer: the packet goes out.
pub send_open :
    (i o q : ℕ) (qs : List ℕ) (packets : Packets) (p s : Bool)
    → (p || s) ≡ true
    → send (q ∷ qs) (linked i o [] p s, packets)
      ≡ done (
        (linked i (next o) (numbered (next o) (q ∷ qs)) p s, packets),
        sent (if p then Ihmlp.primary_link else Ihmlp.secondary_link) (numbered (next o) (q ∷ qs))
            ∷ [],
      )
unfolding send Ihmlp.zzz_send_ihmlp_packet Dimension.increment Ihmlp.send_packet Ihmlp.has_links
    Ihmlp.can_send
send_open i o q qs packets p s h = rw h refl

-- Else it is queued.
pub send_waiting :
    (i o b : ℕ) (buf packet : List ℕ) (packets : Packets) (p s : Bool)
    → send packet (linked i o (b ∷ buf) p s, packets)
      ≡ done ((linked i o (b ∷ buf) p s, packets ++ packet ∷ []), [])
unfolding send Ihmlp.can_send
send_waiting i o b buf packet packets p s = refl
