-- ===== src/Ihmlp/Network/Steps.antt =====
-- Queued transceivers (async_transceiver.hpp) over a connection that loses and reorders nothing:
-- every run.
use rubetek_ios_cpp_releases.Prelude.{
  ℕ, ◌≡◌, refl, ap, Bool, true, false, not, ◌||◌, List, [], ◌∷◌, ◌++◌, append-nil, append_assoc,
  is_empty, All-append,
}
use rubetek_ios_cpp_releases.Prelude.Outcome.{done, ◌>>=◌}
use rubetek_ios_cpp_releases.Ihmlp.Async.{Packets}
use rubetek_ios_cpp_releases.Ihmlp.Turns.{next, numbered, send_open, send_waiting}
use rubetek_ios_cpp_releases.Ihmlp.Network.{
  Side, System, swap, log, bodies, client_sends, Step, sends, takes, other, Reach, here, next_step,
}
use rubetek_ios_cpp_releases.Ihmlp.Network.Flow.{End, side, Half, sent_payload}
use rubetek_ios_cpp_releases.Ihmlp.Network.Start.{
  new_side, first_contact, first_contact_lem, caller, called, caller-Half, called-Half,
}
use rubetek_ios_cpp_releases.Ihmlp.Network.Delivery.{arrives_lem, some_on_way}

-- Both sides are past their first packets, and the packets between them are in order.
pub record Good (s : System) : Type 0 where
  pub x : End
  pub y : End
  pub sides : s ≡ (side x, side y)
  pub to_y : Half x y
  pub to_x : Half y x

-- What the client's packet does to its side.
abbrev Sends : List ℕ → End → End → Type 0
Sends packet x y =
    (x' : End) × (client_sends packet (side x, side y) ≡ done (side x', side y))
    × Half x' y
    × Half y x'

Sends-open :
    (x y : End) (b : ℕ) (bytes : List ℕ)
    → let x0 = record x { buf = []; packets = [] } in Half x0 y → Half y x0 → Sends (b ∷ bytes) x0 y
unfolding client_sends
Sends-open x y b bytes hx hy =
    let out = next x.out_counter in
    let packet : List ℕ = numbered out (b ∷ bytes) in
    let x0 : End = record x { accepted = x.accepted ++ (b ∷ bytes) ∷ [] } in
    (
      record x0 { out_counter = out; buf = packet; packets = []; flight = x.flight ++ packet ∷ [] },
      rw (send_open x.in_counter x.out_counter b bytes [] x.primary x.secondary hx.has_links) refl,
      sent_payload x0 y b bytes [] x0.accepted y.flight hx.chain
          (cc (
            hx.account,
            append-nil (bodies x.flight),
            append_assoc y.delivered (bodies x.flight) ((b ∷ bytes) ∷ []),
          ))
          tt hx.has_links,
      record {
        chain = hy.chain;
        account = hy.account;
        proper = hy.proper;
        queued = hy.queued;
        answer = some_on_way (is_empty y.buf) (not (is_empty (bodies y.flight))) x.flight packet;
        has_links = hy.has_links;
      },
    )

Sends-waiting :
    (x y : End) (b : ℕ) (bytes packet : List ℕ)
    → let x0 = record x { buf = b ∷ bytes } in
      is_empty packet ≡ false → Half x0 y → Half y x0 → Sends packet x0 y
unfolding client_sends
Sends-waiting x y b bytes packet hp hx hy = (
  record x {
    buf = b ∷ bytes;
    packets = x.packets ++ packet ∷ [];
    accepted = x.accepted ++ packet ∷ [];
  },
  ap
      (λ m. m >>= λ r. done (
        log r.1 (record (side (record x { buf = b ∷ bytes })) {
          state = r.0;
          accepted = x.accepted ++ packet ∷ [];
        }),
        side y,
      ))
      (send_waiting x.in_counter x.out_counter b bytes packet x.packets x.primary x.secondary),
  record {
    chain = hx.chain;
    account = cc (
      hx.account,
      append_assoc y.delivered (bodies x.flight ++ x.packets) (packet ∷ []),
      append_assoc (bodies x.flight) x.packets (packet ∷ []),
    );
    proper = All-append (λ p. is_empty p ≡ false) x.packets (packet ∷ []) hx.proper (hp, tt);
    queued = refl;
    answer = hx.answer;
    has_links = hx.has_links;
  },
  record {
    chain = hy.chain;
    account = hy.account;
    proper = hy.proper;
    queued = hy.queued;
    answer = hy.answer;
    has_links = hy.has_links;
  },
)

Sends-cases :
    (x y : End) (buf packet : List ℕ) (queue : Packets)
    → let x0 = record x { buf = buf; packets = queue } in
      is_empty packet ≡ false → Half x0 y → Half y x0 → Sends packet x0 y
Sends-cases x y [] [] queue hp hx hy = absurd (cc hp)
Sends-cases x y [] (b ∷ bytes) [] hp hx hy = Sends-open x y b bytes hx hy
Sends-cases x y [] (b ∷ bytes) (q ∷ queue) hp hx hy = absurd (cc (hx.queued))
Sends-cases x y (c ∷ buf) packet queue hp hx hy =
    Sends-waiting (record x { packets = queue }) y c buf packet hp hx hy

Step-Good : (s t : System) → Step s t → Good s → Good t
Step-Good s t (sends packet hp e) g =
    let (x', run, to_y, to_x) = Sends-cases g.x g.y g.x.buf packet g.x.packets hp g.to_y g.to_x in
    record { x = x'; y = g.y; sides = cc (e, run, g.sides); to_y = to_y; to_x = to_x }
Step-Good s t (takes e) g =
    let h = arrives_lem g.x g.y g.y.flight g.to_y g.to_x in
    record { x = h.x'; y = h.y'; sides = cc (e, h.run, g.sides); to_y = h.to_y; to_x = h.to_x }
Step-Good s t (other st) g =
    let h =
      Step-Good (swap s) (swap t) st
        (record { x = g.y; y = g.x; sides = ap swap g.sides; to_y = g.to_x; to_x = g.to_y }) in
    record { x = h.y; y = h.x; sides = ap swap h.sides; to_y = h.to_x; to_x = h.to_y }

pub Reach-Good : (s t : System) → Good s → Reach s t → Good t
Reach-Good s t g here = g
Reach-Good s t g (next_step {t = r} path step) = Step-Good r t step (Reach-Good s r g path)

pub first-Good :
    (primary secondary primary' secondary' : Bool) (first : List ℕ) (s : System)
    → (primary || secondary) ≡ true
    → (primary' || secondary') ≡ true
    → is_empty first ≡ false
    → first_contact first (new_side primary secondary, new_side primary' secondary') ≡ done s
    → Good s
first-Good p q p' q' [] s h h' some_first met = absurd (cc some_first)
first-Good p q p' q' (b ∷ bytes) s h h' some_first met = record {
  x = caller p q p' q' b bytes;
  y = called p q p' q' b bytes;
  sides = cc (met, first_contact_lem p q p' q' b bytes h h');
  to_y = caller-Half p q p' q' b bytes h;
  to_x = called-Half p q p' q' b bytes h';
}

-- What the client of one side has sent, seen from the other side.
abbrev pub Accounted : Side → Side → Type 0
Accounted x y = x.accepted ≡ y.delivered ++ (bodies x.flight ++ x.state.1)

-- Two new queued transceivers, each with a link, over a connection that loses and reorders
-- nothing. The client of one sends a packet that is not empty, and the other side gets it before
-- anything else happens. From there, while the links stay, whatever the clients send, but empty
-- packets, and in whatever order packets arrive at the two sides: what a client has sent is what
-- the other one has received, then what is on its way, then what is queued, in this order.
pub Reach-Accounted :
    (primary secondary primary' secondary' : Bool) (first : List ℕ) (s t : System)
    → (primary || secondary) ≡ true
    → (primary' || secondary') ≡ true
    → is_empty first ≡ false
    → first_contact first (new_side primary secondary, new_side primary' secondary') ≡ done s
    → Reach s t
    → Accounted t.0 t.1 × Accounted t.1 t.0
Reach-Accounted p q p' q' first s t h h' some_first met path =
    let g = Reach-Good s t (first-Good p q p' q' first s h h' some_first met) path in
    rw g.sides (g.to_y.account, g.to_x.account)
