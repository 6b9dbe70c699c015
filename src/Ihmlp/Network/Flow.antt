-- ===== src/Ihmlp/Network/Flow.antt =====
-- The numbers and the payloads of the packets on their way from one queued transceiver
-- (async_transceiver.hpp) to another.
use rubetek_ios_cpp_releases.Prelude.{
  ℕ, ◌≡◌, refl, sym, ap, ◌∙◌, Bool, true, false, not, ◌||◌, List, [], ◌∷◌, ◌++◌, append_assoc,
  is_empty, All,
}
use rubetek_ios_cpp_releases.Ihmlp.Async.{Packets}
use rubetek_ios_cpp_releases.Ihmlp.Turns.{next, numbered, linked}
use rubetek_ios_cpp_releases.Ihmlp.Network.{Side, payload, body, bodies}

-- A side that has got or sent a packet since it was reset.
pub record End : Type 0 where
  pub in_counter : ℕ
  pub out_counter : ℕ
  pub buf : List ℕ
  pub primary : Bool
  pub secondary : Bool
  pub packets : Packets
  pub flight : Packets
  pub accepted : Packets
  pub delivered : Packets

abbrev pub side : End → Side
side x = record {
  state = (linked x.in_counter x.out_counter x.buf x.primary x.secondary, x.packets);
  flight = x.flight;
  accepted = x.accepted;
  delivered = x.delivered;
}

-- The packets are numbered from the one behind the first number to the last number.
abbrev pub Chain : ℕ → Packets → ℕ → Type 0
Chain c [] d = c ≡ d
Chain c (p ∷ ps) d = (bytes : List ℕ) × (p ≡ numbered (next c) bytes) × Chain (next c) ps d

pub Chain-append :
    (c : ℕ) (ps : Packets) (d : ℕ) (bytes : List ℕ)
    → Chain c ps d
    → Chain c (ps ++ numbered (next d) bytes ∷ []) (next d)
Chain-append c [] d bytes h = (bytes, ap (λ e. numbered (next e) bytes) (sym h), ap next h)
Chain-append c (p ∷ ps) d bytes (own, e, h) = (own, e, Chain-append (next c) ps d bytes h)

pub bodies-append : (ps qs : Packets) → bodies (ps ++ qs) ≡ bodies ps ++ bodies qs
bodies-append [] qs = refl
bodies-append (p ∷ ps) qs =
    ap (◌++◌ (body p)) (bodies-append ps qs) ∙ sym (append_assoc (body p) (bodies ps) (bodies qs))

-- What holds of the packets of `x` to `y`: they are numbered on from what `y` has got; what the
-- client of `x` has sent is what `y` has delivered, what is on its way, and what is queued, in this
-- order; there is a queue only while a packet waits for an answer, and while one does, it or
-- something from `y` is on its way.
pub record Half (x y : End) : Type 0 where
  pub chain : Chain y.in_counter x.flight x.out_counter
  pub account : x.accepted ≡ y.delivered ++ (bodies x.flight ++ x.packets)
  pub proper : All (λ p. is_empty p ≡ false) x.packets
  pub queued : (not (is_empty x.buf) || is_empty x.packets) ≡ true
  pub answer :
      (is_empty x.buf || (not (is_empty (bodies x.flight)) || not (is_empty y.flight))) ≡ true
  pub has_links : (x.primary || x.secondary) ≡ true

pub is_empty-append :
    {A : Type 0} (xs ys : List A) → is_empty ys ≡ false → is_empty (xs ++ ys) ≡ false
is_empty-append [] ys h = h
is_empty-append (x ∷ xs) ys h = refl

-- `x` has taken the oldest packet of `y`.
pub taken :
    (x y x' : End) (bytes : List ℕ) (ps : Packets)
    → Half (record y { flight = numbered (next x.in_counter) bytes ∷ ps }) x
    → x'.in_counter ≡ next x.in_counter
    → x'.delivered ≡ x.delivered ++ payload bytes
    → (is_empty y.buf || (not (is_empty (bodies ps)) || not (is_empty x'.flight))) ≡ true
    → Half (record y { flight = ps }) x'
taken x y x' bytes ps h hi hd ha = record {
  chain = rw hi h.chain.2;
  account =
      h.account
      ∙ cc (
        hd,
        append_assoc (payload bytes) (bodies ps) y.packets,
        append_assoc x.delivered (payload bytes) (bodies ps ++ y.packets),
      );
  proper = h.proper;
  queued = h.queued;
  answer = ha;
  has_links = h.has_links;
}

-- `x` has sent a packet that was not empty, and the queue before it has been empty.
pub sent_payload :
    (x y : End) (b : ℕ) (bytes : List ℕ) (packets accepted ys : Packets)
    → Chain y.in_counter x.flight x.out_counter
    → accepted ≡ y.delivered ++ (bodies x.flight ++ (b ∷ bytes) ∷ packets)
    → All (λ p. is_empty p ≡ false) packets
    → (x.primary || x.secondary) ≡ true
    → Half
        (record x {
          out_counter = next x.out_counter;
          buf = numbered (next x.out_counter) (b ∷ bytes);
          packets = packets;
          flight = x.flight ++ numbered (next x.out_counter) (b ∷ bytes) ∷ [];
          accepted = accepted;
        })
        (record y { flight = ys })
sent_payload x y b bytes packets accepted ys hc ha hp hl =
    let out = next x.out_counter in
    let e : bodies (x.flight ++ numbered out (b ∷ bytes) ∷ [])
        ≡ bodies x.flight ++ (b ∷ bytes) ∷ [] =
      bodies-append x.flight (numbered out (b ∷ bytes) ∷ []) in
    record {
      chain = Chain-append y.in_counter x.flight x.out_counter (b ∷ bytes) hc;
      account = cc (ha, e, append_assoc (bodies x.flight) ((b ∷ bytes) ∷ []) packets);
      proper = hp;
      queued = refl;
      answer = rw (e, is_empty-append (bodies x.flight) ((b ∷ bytes) ∷ []) refl) refl;
      has_links = hl;
    }
