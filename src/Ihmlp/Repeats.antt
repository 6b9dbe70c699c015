-- ===== src/Ihmlp/Repeats.antt =====
-- A packet that comes again (process_ihmlp_packet in transceiver.hpp), as it does when the primary
-- link is lost before the answer has come (reset_primary_link).
use mathlib.Core.Path.{subst}
use rubetek_ios_cpp_releases.Prelude.{
  ℕ, ◌≡◌, refl, sym, ap, ◌∙◌, inl, inr, ◌||◌, ◌&&◌, not, Bool, true, false, List, [], ◌∷◌, is_empty,
  arith, ◌==◌, Bool-cases, ==_iff, IsByte,
}
use rubetek_ios_cpp_releases.Prelude.Outcome.{
  done, Returns, returns, throws, aborts, Returns-bind, Returns-if, Returns-value,
}
use rubetek_ios_cpp_releases.Dimension
use rubetek_ios_cpp_releases.Dimension.{set_one}
use rubetek_ios_cpp_releases.Ihmlp
use rubetek_ios_cpp_releases.Ihmlp.{
  Transceiver, Event, sent, Link, secondary_link, init_header, payload_header,
  zzz_send_ihmlp_packet,
}
use rubetek_ios_cpp_releases.Ihmlp.Async.{
  State, Packets, process_ihmlp_packet, payload_ready, all_links_disconnected, send_front,
  reset_primary_link,
}
use rubetek_ios_cpp_releases.Ihmlp.Turns.{numbered, linked}

-- The number of the last packet that has come is `c`.
abbrev Counts : ℕ → Transceiver × List Event → Type 0
Counts c (t, events) = t.in_counter ≡ c

abbrev CountsState : ℕ → State × List Event → Type 0
CountsState c ((t, packets), events) = t.in_counter ≡ c

zzz_send-Counts :
    (packet : List ℕ) (t : Transceiver)
    → Returns (Counts t.in_counter) (zzz_send_ihmlp_packet packet t)
unfolding zzz_send_ihmlp_packet
zzz_send-Counts packet t =
    Returns-if (not (Ihmlp.has_links t) || not (is_empty t.buf)) aborts (returns refl)

send_packet-Counts :
    (packet : List ℕ) (t : Transceiver) → Returns (Counts t.in_counter) (Ihmlp.send_packet packet t)
unfolding Ihmlp.send_packet
send_packet-Counts packet t =
    Returns-if (not (Ihmlp.has_links t) || is_empty packet || not (is_empty t.buf)) throws
      (zzz_send-Counts packet t)

send_front-Counts :
    (t : Transceiver) (packets : Packets)
    → Returns (CountsState t.in_counter) (send_front (t, packets))
unfolding send_front
send_front-Counts t [] = returns refl
send_front-Counts t (p ∷ ps) = Returns-bind (send_packet-Counts p t) (λ r h. returns h)

payload_ready-Counts :
    (packet : List ℕ) (t : Transceiver) (packets : Packets)
    → Returns (CountsState t.in_counter) (payload_ready packet (t, packets))
unfolding payload_ready
payload_ready-Counts packet t packets =
    Returns-bind (send_front-Counts t packets) (λ r h. returns h)

acknowledge-Counts :
    (c : ℕ) (packet : List ℕ) (r : State × List Event)
    → CountsState c r
    → Returns (CountsState c) (Ihmlp.acknowledge payload_ready all_links_disconnected packet r)
unfolding Ihmlp.acknowledge
acknowledge-Counts c packet ((t, packets), events) h =
    Returns-if (not (is_empty packet) && is_empty t.buf)
      (Returns-bind (zzz_send-Counts [] t) (λ r k. returns (k ∙ h))) (returns h)

-- The number of a packet is kept, whatever the packet.
process_numbered-Counts :
    (c : ℕ) (packet : List ℕ) (t : Transceiver) (packets : Packets)
    → IsByte c
    → Returns
        (CountsState c)
        (Ihmlp.process_numbered payload_ready all_links_disconnected (c ∷ packet) (t, packets))
unfolding Ihmlp.process_numbered
process_numbered-Counts c packet t packets h =
    let stored : Dimension.set 1 1 c ≡ done c = set_one 1 c ∙ ap done (omega arith) in
    elim (Bool-cases (c == t.in_counter)) [
      | inl e ↦ rw e (returns (sym ((==_iff c t.in_counter).0 e)))
      | inr e ↦
          rw (e, stored)
            (Returns-bind
              (payload_ready-Counts packet (record t { in_counter = c; buf = [] }) packets)
              (λ r k. acknowledge-Counts c packet r k))
    ]

-- A packet with a payload header.
process_payload :
    (packet : List ℕ) (s : State)
    → process_ihmlp_packet (payload_header ∷ packet) s
      ≡ Ihmlp.process_numbered payload_ready all_links_disconnected packet s
unfolding process_ihmlp_packet Ihmlp.process_ihmlp_packet
process_payload packet (t, packets) = refl

process_numbered-repeated :
    (c : ℕ) (packet : List ℕ) (t : Transceiver) (packets : Packets)
    → t.in_counter ≡ c
    → Ihmlp.process_numbered payload_ready all_links_disconnected (c ∷ packet) (t, packets)
      ≡ done ((t, packets), [])
unfolding Ihmlp.process_numbered
process_numbered-repeated c packet t packets h = rw ((==_iff c t.in_counter).1 (sym h)) refl

-- A packet with a payload header is ignored when it comes again.
process_numbered_twice :
    (c : ℕ) (packet : List ℕ) (s s' : State) (events : List Event)
    → IsByte c
    → process_ihmlp_packet (numbered c packet) s ≡ done (s', events)
    → process_ihmlp_packet (numbered c packet) s' ≡ done (s', [])
process_numbered_twice c packet s s' events hc e =
    let kept : CountsState c (s', events) = Returns-value (
      subst (Returns (CountsState c)) (sym (process_payload (c ∷ packet) s) ∙ e)
        (process_numbered-Counts c packet s.0 s.1 hc)) in
    process_payload (c ∷ packet) s' ∙ process_numbered-repeated c packet s'.0 s'.1 kept

-- The sender has a secondary link, and a packet with a payload header waits for an answer; the
-- other side has taken it, and the sender loses its primary link before the answer has come. The
-- packet goes out again on the secondary link, still waits, and the other side neither delivers
-- nor answers it again.
pub failover_once :
    (i o c b : ℕ) (packet : List ℕ) (p : Bool) (queue : Packets) (s s' : State)
    (events : List Event)
    → let waiting = numbered c (b ∷ packet) in
      IsByte c
      → process_ihmlp_packet waiting s ≡ done (s', events)
      → let (u, calls) = reset_primary_link (linked i o waiting p true, queue) in
        (calls ≡ sent secondary_link waiting ∷ [])
        × (u ≡ (linked i o waiting false true, queue))
        × (process_ihmlp_packet waiting s' ≡ done (s', []))
unfolding reset_primary_link Ihmlp.reset_primary_link Ihmlp.zzz_if_no_links Ihmlp.has_links
failover_once i o c b packet p queue s s' events hc e =
    (refl, refl, process_numbered_twice c (b ∷ packet) s s' events hc e)
