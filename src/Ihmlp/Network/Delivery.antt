-- ===== src/Ihmlp/Network/Delivery.antt =====
-- Queued transceivers (async_transceiver.hpp) over a connection that loses and reorders nothing:
-- what arrives, and when all has arrived.
use mathlib.Core.Path.{subst}
use rubetek_ios_cpp_releases.Prelude.{
  ℕ, ◌+◌, ◌≤◌, ◌≡◌, refl, sym, ap, ◌∙◌, Bool, true, false, not, ◌||◌, List, [], ◌∷◌, ◌++◌,
  append-nil, is_empty, length, length-append, arith, if◌then◌else◌,
}
use rubetek_ios_cpp_releases.Prelude.Outcome.{Outcome, done}
use rubetek_ios_cpp_releases.Ihmlp.{received}
use rubetek_ios_cpp_releases.Ihmlp.Async.{Packets}
use rubetek_ios_cpp_releases.Ihmlp.Turns.{
  next, numbered, process_next_quiet, process_next_acknowledged, process_next_queued,
}
use rubetek_ios_cpp_releases.Ihmlp.Network.{Side, System, log, payload, bodies, pending, arrives}
use rubetek_ios_cpp_releases.Ihmlp.Network.Flow.{
  End, side, Half, Chain-append, bodies-append, is_empty-append, taken, sent_payload,
}

-- A run from two sides ends well, and nobody's client has sent anything.
pub record Goes (m : Outcome System) (x y : End) (spent : ℕ) : Type 0 where
  pub x' : End
  pub y' : End
  pub run : m ≡ done (side x', side y')
  pub to_y : Half x' y'
  pub to_x : Half y' x'
  pub still_on_way : is_empty x.flight ≡ false → is_empty x'.flight ≡ false
  pub accepted_x : x'.accepted ≡ x.accepted
  pub accepted_y : y'.accepted ≡ y.accepted
  pub fewer : pending (side x') + pending (side y') + spent ≤ pending (side x) + pending (side y)

abbrev arriving : End → List ℕ → Packets → End
arriving y bytes ps = record y { flight = bytes ∷ ps }

length-bodies_snoc :
    (ps : Packets) (p : List ℕ)
    → length (bodies (ps ++ p ∷ [])) ≡ length (bodies ps) + length (bodies (p ∷ []))
length-bodies_snoc ps p =
    ap length (bodies-append ps (p ∷ [])) ∙ length-append (bodies ps) (bodies (p ∷ []))

pub some_on_way :
    (a b : Bool) (ps : Packets) (p : List ℕ) → (a || (b || not (is_empty (ps ++ p ∷ [])))) ≡ true
some_on_way a b ps p = rw (is_empty-append ps (p ∷ []) refl) (ground arith)

-- An acknowledgement, and nothing is queued.
arrives_quiet :
    (x y : End) (ps : Packets)
    → let x0 = record x { packets = [] } in
      let y0 = arriving y (numbered (next x.in_counter) []) ps in
      Half x0 y0 → Half y0 x0 → Goes (arrives (side x0, side y0)) x0 y0 1
unfolding arrives
arrives_quiet x y ps hx hy =
    let x0 : End = record x { packets = []; in_counter = next x.in_counter; buf = [] } in
    record {
      x' = x0;
      y' = record y { flight = ps };
      run = rw (process_next_quiet x.in_counter x.out_counter x.buf x.primary x.secondary) refl;
      to_y = record {
        chain = hx.chain;
        account = hx.account;
        proper = tt;
        queued = refl;
        answer = refl;
        has_links = hx.has_links;
      };
      to_x =
          taken (record x { packets = [] }) y x0 [] ps hy refl (sym (append-nil x.delivered))
            hy.answer;
      still_on_way = λ h. h;
      accepted_x = refl;
      accepted_y = refl;
      fewer = omega arith;
    }

-- A payload, and nothing is queued: an acknowledgement goes out.
arrives_acknowledged :
    (x y : End) (b : ℕ) (bytes : List ℕ) (ps : Packets)
    → let x0 = record x { packets = [] } in
      let y0 = arriving y (numbered (next x.in_counter) (b ∷ bytes)) ps in
      Half x0 y0 → Half y0 x0 → Goes (arrives (side x0, side y0)) x0 y0 1
unfolding arrives
arrives_acknowledged x y b bytes ps hx hy =
    let out = next x.out_counter in
    let ack : List ℕ = numbered out [] in
    let x1 : End = record x {
      packets = [];
      in_counter = next x.in_counter;
      out_counter = out;
      buf = [];
      flight = x.flight ++ ack ∷ [];
      delivered = x.delivered ++ (b ∷ bytes) ∷ [];
    } in
    let same : bodies (x.flight ++ ack ∷ []) ≡ bodies x.flight =
      bodies-append x.flight (ack ∷ []) ∙ append-nil (bodies x.flight) in
    record {
      x' = x1;
      y' = record y { flight = ps };
      run =
          rw
            (process_next_acknowledged x.in_counter x.out_counter x.buf b bytes x.primary
              x.secondary hx.has_links)
            refl;
      to_y = record {
        chain = Chain-append y.in_counter x.flight x.out_counter [] hx.chain;
        account = cc (hx.account, same);
        proper = tt;
        queued = refl;
        answer = refl;
        has_links = hx.has_links;
      };
      to_x =
          taken (record x { packets = [] }) y x1 (b ∷ bytes) ps hy refl refl
            (some_on_way (is_empty y.buf) (not (is_empty (bodies ps))) x.flight ack);
      still_on_way = λ _. is_empty-append x.flight (ack ∷ []) refl;
      accepted_x = refl;
      accepted_y = refl;
      fewer = omega (arith, length-append x.flight (ack ∷ []), ap length same);
    }

log_received :
    (bytes : List ℕ) (x : Side)
    → log (if is_empty bytes then [] else received bytes ∷ []) x
      ≡ record x { delivered = x.delivered ++ payload bytes }
log_received [] x = ap (λ d. record x { delivered = d }) (sym (append-nil x.delivered))
log_received (b ∷ bytes) x = refl

-- The front of the queue goes out.
arrives_queued :
    (x y : End) (b : ℕ) (own : List ℕ) (queue : Packets) (bytes : List ℕ) (ps : Packets)
    → let x0 = record x { packets = (b ∷ own) ∷ queue } in
      let y0 = arriving y (numbered (next x.in_counter) bytes) ps in
      Half x0 y0 → Half y0 x0 → Goes (arrives (side x0, side y0)) x0 y0 1
unfolding arrives
arrives_queued x y b own queue bytes ps hx hy =
    let out = next x.out_counter in
    let packet : List ℕ = numbered out (b ∷ own) in
    let x0 : End = record x {
      in_counter = next x.in_counter;
      delivered = x.delivered ++ payload bytes;
    } in
    let x1 : End = record x0 {
      packets = queue;
      out_counter = out;
      buf = packet;
      flight = x.flight ++ packet ∷ [];
    } in
    record {
      x' = x1;
      y' = record y { flight = ps };
      run =
          rw
            (process_next_queued x.in_counter x.out_counter x.buf bytes b own queue x.primary
              x.secondary hx.has_links)
            (ap (λ z. done (z, side (record y { flight = ps })))
              (log_received bytes (side (record x1 { delivered = x.delivered }))));
      to_y =
          sent_payload x0 y b own queue x.accepted ps hx.chain hx.account hx.proper.1 hx.has_links;
      to_x =
          taken (record x { packets = (b ∷ own) ∷ queue }) y x1 bytes ps hy refl refl
            (some_on_way (is_empty y.buf) (not (is_empty (bodies ps))) x.flight packet);
      still_on_way = λ _. is_empty-append x.flight (packet ∷ []) refl;
      accepted_x = refl;
      accepted_y = refl;
      fewer = omega (
        arith,
        length-append x.flight (packet ∷ []),
        length-bodies_snoc x.flight packet,
        length-append (payload bytes) (bodies ps),
      );
    }

arrives-numbered :
    (x y : End) (queue : Packets) (bytes : List ℕ) (ps : Packets)
    → let x0 = record x { packets = queue } in
      let y0 = arriving y (numbered (next x.in_counter) bytes) ps in
      Half x0 y0 → Half y0 x0 → Goes (arrives (side x0, side y0)) x0 y0 1
arrives-numbered x y [] [] ps hx hy = arrives_quiet x y ps hx hy
arrives-numbered x y [] (b ∷ bytes) ps hx hy = arrives_acknowledged x y b bytes ps hx hy
arrives-numbered x y ([] ∷ queue) bytes ps hx hy = absurd (cc (hx.proper.0))
arrives-numbered x y ((b ∷ own) ∷ queue) bytes ps hx hy =
    arrives_queued x y b own queue bytes ps hx hy

-- What is on its way is taken, and one packet less can arrive from then on.
pub arrives_lem :
    (x y : End) (ys : Packets)
    → let y0 = record y { flight = ys } in
      Half x y0 → Half y0 x → Goes (arrives (side x, side y0)) x y0 (if is_empty ys then 0 else 1)
unfolding arrives
arrives_lem x y [] hx hy = record {
  x' = x;
  y' = record y { flight = [] };
  run = refl;
  to_y = hx;
  to_x = hy;
  still_on_way = λ h. h;
  accepted_x = refl;
  accepted_y = refl;
  fewer = omega arith;
}
arrives_lem x y (p ∷ ps) hx hy =
    let (bytes, e, rest) = hy.chain in
    subst
      (λ q.
        Half x (arriving y q ps)
        → Half (arriving y q ps) x
        → Goes (arrives (side x, side (arriving y q ps))) x (arriving y q ps) 1)
      (sym e) (arrives-numbered x y x.packets bytes ps) hx hy
