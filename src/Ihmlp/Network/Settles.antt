-- ===== src/Ihmlp/Network/Settles.antt =====
-- Queued transceivers (async_transceiver.hpp) over a connection that loses and reorders nothing:
-- how a run ends.
use rubetek_ios_cpp_releases.Prelude.{
  ℕ, zero, suc, ◌+◌, ◌≤◌, ◌≡◌, inl, inr, refl, sym, ◌∙◌, Bool, true, false, not, ◌||◌, ◌&&◌, List,
  [], ◌∷◌, append-nil, is_empty, length, arith, if◌then◌else◌, Bool-cases,
}
use rubetek_ios_cpp_releases.Prelude.Outcome.{done}
use rubetek_ios_cpp_releases.Ihmlp.Async.{Packets}
use rubetek_ios_cpp_releases.Ihmlp.Network.{System, bodies, pending, settle, at_rest, Reach}
use rubetek_ios_cpp_releases.Ihmlp.Network.Flow.{End, side, Half}
use rubetek_ios_cpp_releases.Ihmlp.Network.Delivery.{arrives_lem}
use rubetek_ios_cpp_releases.Ihmlp.Network.Steps.{Reach-Good, first-Good}
use rubetek_ios_cpp_releases.Ihmlp.Network.Start.{new_side, first_contact}

empty_lem : {A : Type 0} (xs : List A) → is_empty xs ≡ true → xs ≡ []
empty_lem [] h = refl
empty_lem (x ∷ xs) h = absurd (cc h)

-- Without anything on its way, nothing is queued.
no_queue :
    (buf : List ℕ) (packets flight back : Packets)
    → is_empty flight ≡ true
    → is_empty back ≡ true
    → (not (is_empty buf) || is_empty packets) ≡ true
    → (is_empty buf || (not (is_empty (bodies flight)) || not (is_empty back))) ≡ true
    → packets ≡ []
no_queue buf [] flight back hf hb hq ha = refl
no_queue [] (p ∷ ps) flight back hf hb hq ha = absurd (cc hq)
no_queue (b ∷ bs) (p ∷ ps) [] [] hf hb hq ha = absurd (cc ha)
no_queue (b ∷ bs) (p ∷ ps) (f ∷ fs) back hf hb hq ha = absurd (cc hf)
no_queue (b ∷ bs) (p ∷ ps) [] (f ∷ fs) hf hb hq ha = absurd (cc hb)

quiet-delivered :
    (x y : End)
    → Half x y
    → is_empty x.flight ≡ true
    → is_empty y.flight ≡ true
    → x.accepted ≡ y.delivered
quiet-delivered x y h hx hy =
    let queue : x.packets ≡ [] =
      no_queue x.buf x.packets x.flight y.flight hx hy h.queued h.answer in
    let flight : x.flight ≡ [] = empty_lem x.flight hx in
    h.account ∙ cc (queue, flight, append-nil y.delivered)

-- What `settle` ends with.
record Settled (n : ℕ) (x y : End) : Type 0 where
  pub t : System
  pub run : settle n (side x, side y) ≡ done t
  pub delivered_y : t.1.delivered ≡ x.accepted
  pub delivered_x : t.0.delivered ≡ y.accepted
  pub rest : at_rest t ≡ true

settled :
    (n : ℕ) (x y : End)
    → Half x y
    → Half y x
    → is_empty x.flight ≡ true
    → is_empty y.flight ≡ true
    → Settled n x y
unfolding settle
settled zero x y hx hy ex ey = record {
  t = (side x, side y);
  run = rw (ex, ey) refl;
  delivered_y = sym (quiet-delivered x y hx ex ey);
  delivered_x = sym (quiet-delivered y x hy ey ex);
  rest = rw (ex, ey) refl;
}
settled (suc n) x y hx hy ex ey = record {
  t = (side x, side y);
  run = rw (ex, ey) refl;
  delivered_y = sym (quiet-delivered x y hx ex ey);
  delivered_x = sym (quiet-delivered y x hy ey ex);
  rest = rw (ex, ey) refl;
}

nothing_pending : (ps : Packets) → length ps ≤ 0 → is_empty ps ≡ true
nothing_pending [] h = refl
nothing_pending (p ∷ ps) h = absurd (omega arith)

-- Of two rounds one takes a packet.
one_less :
    (x y x1 : Bool) (before after n : ℕ) (u v : ℕ)
    → (x && y) ≡ false
    → (x ≡ false → x1 ≡ false)
    → u + v + (if y then 0 else 1) ≤ before
    → after + (if x1 then 0 else 1) ≤ v + u
    → before ≤ suc n
    → after ≤ n
one_less true true x1 before after n u v e still hy hx h = absurd (cc e)
one_less true false true before after n u v e still hy hx h = omega arith
one_less true false false before after n u v e still hy hx h = omega arith
one_less false y true before after n u v e still hy hx h = absurd (cc (still refl))
one_less false true false before after n u v e still hy hx h = omega arith
one_less false false false before after n u v e still hy hx h = omega arith

swapped : (u v n : ℕ) → u + v ≤ n → v + u ≤ n
swapped u v n h = omega arith

settle_round :
    (n : ℕ) (x y : End)
    → ((v w : End) → Half v w → Half w v → pending (side v) + pending (side w) ≤ n → Settled n v w)
    → Half x y
    → Half y x
    → pending (side x) + pending (side y) ≤ suc n
    → (is_empty x.flight && is_empty y.flight) ≡ false
    → Settled (suc n) x y
unfolding settle
settle_round n x y ih hx hy hn e =
    let g = arrives_lem x y y.flight hx hy in
    let k = arrives_lem g.y' g.x' g.x'.flight g.to_x g.to_y in
    let s = ih k.y' k.x' k.to_x k.to_y (
      swapped (pending (side k.x')) (pending (side k.y')) n (
        one_less (is_empty x.flight) (is_empty y.flight) (is_empty g.x'.flight)
          (pending (side x) + pending (side y)) (pending (side k.x') + pending (side k.y')) n
          (pending (side g.x')) (pending (side g.y')) e g.still_on_way g.fewer k.fewer hn)) in
    record {
      t = s.t;
      run = rw (e, g.run, k.run) s.run;
      delivered_y = s.delivered_y ∙ k.accepted_y ∙ g.accepted_x;
      delivered_x = s.delivered_x ∙ k.accepted_x ∙ g.accepted_y;
      rest = s.rest;
    }

settle_lem :
    (n : ℕ) (x y : End)
    → Half x y
    → Half y x
    → pending (side x) + pending (side y) ≤ n
    → Settled n x y
settle_lem zero x y hx hy hn =
    settled zero x y hx hy (nothing_pending x.flight (omega arith))
      (nothing_pending y.flight (omega arith))
settle_lem (suc n) x y hx hy hn = elim (Bool-cases (is_empty x.flight && is_empty y.flight)) [
  | inl e ↦ settled (suc n) x y hx hy (ground arith) (ground arith)
  | inr e ↦ settle_round n x y (settle_lem n) hx hy hn e
]

-- Two new queued transceivers, each with a link, over a connection that loses and reorders
-- nothing. The client of one sends a packet that is not empty, and the other side gets it before
-- anything else happens. From there, while the links stay, clients send packets that are not empty
-- and packets arrive, at either side and in any order. However far this has come: if from then on
-- packets arrive at the two sides by turns and no client sends, nothing is on its way after as
-- many rounds as packets are pending, and each client has received what the other one has sent, in
-- order and each packet once.
pub Reach-settles :
    (primary secondary primary' secondary' : Bool) (first : List ℕ) (s t : System)
    → (primary || secondary) ≡ true
    → (primary' || secondary') ≡ true
    → is_empty first ≡ false
    → first_contact first (new_side primary secondary, new_side primary' secondary') ≡ done s
    → Reach s t
    → (u : System) × (settle (pending t.0 + pending t.1) t ≡ done u)
      × (u.1.delivered ≡ t.0.accepted)
      × (u.0.delivered ≡ t.1.accepted)
      × (at_rest u ≡ true)
Reach-settles p q p' q' first s t k k' some_first met path =
    let h = Reach-Good s t (first-Good p q p' q' first s k k' some_first met) path in
    let r =
      settle_lem (pending (side h.x) + pending (side h.y)) h.x h.y h.to_y h.to_x (omega arith) in
    rw h.sides (r.t, r.run, r.delivered_y, r.delivered_x, r.rest)
