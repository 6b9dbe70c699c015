-- ===== src/PlainTrain/Transfer.antt =====
-- Sender and receiver together: what goes in comes out.
use native.Mathlib.Nat.{one-le-pow}
use rubetek_ios_cpp_releases.Prelude.{
  ℕ, ◌+◌, ◌^◌, ◌≤◌, ◌<◌, ◌≡◌, refl, sym, ap, ◌∙◌, List, [], ◌∷◌, ◌++◌, append-nil, append_assoc,
  length, to_le, All, All-append, concat, concat-append, map, arith, le→ltb, length-append,
  length-to_le, drop-append_eq,
}
use rubetek_ios_cpp_releases.Prelude.Outcome.{done}
use rubetek_ios_cpp_releases.Spp.Framing.{frames, Fits}
use rubetek_ios_cpp_releases.Spp.Packer.{Packer}
use rubetek_ios_cpp_releases.Spp.Accum.Laws.{add_packet_taken, flush_all}
use rubetek_ios_cpp_releases.Spp.Accum.Gathering.{IsGathering, gathered, construct-IsGathering}
use rubetek_ios_cpp_releases.PlainTrain.{
  Wrapper, Unwrapper, fresh, construct, on_packet, on_packets, deliver, add_block, flush, send_all,
  receive_all,
}
use rubetek_ios_cpp_releases.PlainTrain.Receive.{
  numbered, next, after, numbered-append, receive_all-numbered,
}

on_packets-gathered :
    (w c n : ℕ) (front : List ℕ) (gs : List (List (List ℕ)))
    → length front ≡ c
    → All (λ (g : List (List ℕ)). 0 < length g) gs
    → on_packets c n (map (gathered w front) gs) ≡ done (after c n gs, numbered w c n gs)
unfolding on_packets on_packet
on_packets-gathered w c n front [] e h = refl
on_packets-gathered w c n front ([] ∷ gs) e h = absurd (omega arith)
on_packets-gathered w c n front ((b ∷ bs) ∷ gs) e h =
    let long : c ≤ length (front ++ frames w (b ∷ bs)) =
      omega (arith, length-append front (frames w (b ∷ bs))) in
    rw (le→ltb _ _ long, drop-append_eq c front (frames w (b ∷ bs)) (sym e))
      (rw (on_packets-gathered w c (next c n) front gs e h.1))

-- A gathered packet and the numbered one have the same length.
numbered_bounds :
    (w c n limit : ℕ) (front : List ℕ) (gs : List (List (List ℕ)))
    → length front ≡ c
    → All (λ (g : List (List ℕ)). 0 < length g) gs
    → All (λ (pkt : List ℕ). length pkt ≤ limit) (map (gathered w front) gs)
    → All (λ (pkt : List ℕ). length pkt ≤ limit) (numbered w c n gs)
numbered_bounds w c n limit front [] e h k = tt
numbered_bounds w c n limit front ([] ∷ gs) e h k = absurd (omega arith)
numbered_bounds w c n limit front ((b ∷ bs) ∷ gs) e h k =
    let p = frames w (b ∷ bs) in
    (
      omega (arith, k.0, length-append front p, length-append (to_le c n) p, length-to_le c n),
      numbered_bounds w c (next c n) limit front gs e h.1 k.1,
    )

-- The sender between two calls: nothing is waiting for its number.
abbrev pub IsReady : (w limit : ℕ) (front : List ℕ) (cs : List (List ℕ)) (t : Wrapper) → Type 0
IsReady w limit front cs t = IsGathering w limit front [] cs t.packer

module _ (w c limit : ℕ) (front : List ℕ) (hw : 0 < w) (hl : limit < 256 ^ w)
    (hc : length front ≡ c) where
  deliver_lem :
      (n : ℕ) (gs : List (List (List ℕ))) (cs : List (List ℕ)) (p : Packer)
      → IsGathering w limit front gs cs p
      → (t : Wrapper) × (deliver c n p ≡ done (t, numbered w c n gs))
        × IsReady w limit front cs t
        × (t.counter ≡ after c n gs)
        × All (λ (pkt : List ℕ). length pkt ≤ limit) (numbered w c n gs)
  unfolding deliver
  deliver_lem n gs cs p g =
      let ran = on_packets-gathered w c n front gs hc g.busy in
      (
        record { counter = after c n gs; packer = record p { sent = [] } },
        rw (g.sends, ran),
        record {
          fronts = g.fronts;
          limits = g.limits;
          holds = g.holds;
          within = g.within;
          sends = refl;
          bounds = tt;
          busy = tt;
        },
        refl,
        numbered_bounds w c n limit front gs hc g.busy (rw g.sends at g.bounds),
      )

  -- All blocks are sent, in order, in numbered packets within the limit.
  pub send_all_lem :
      (cs : List (List ℕ)) (bss : List (List (List ℕ))) (t : Wrapper)
      → IsReady w limit front cs t
      → All (λ (bs : List (List ℕ)). c + w + length (concat bs) ≤ limit) bss
      → (t' : Wrapper) × (gs : List (List (List ℕ))) × (send_all w c bss t
          ≡ done (t', numbered w c t.counter gs))
        × (concat gs ≡ cs ++ map concat bss)
        × All (λ (pkt : List ℕ). length pkt ≤ limit) (numbered w c t.counter gs)
  unfolding send_all flush add_block
  send_all_lem cs [] t g h =
      let (gs, g', m) = flush_all w limit front hw hl [] cs t.packer g in
      let (t', run, r, n, b) = deliver_lem t.counter gs [] _ g' in
      (t', gs, run, m ∙ sym (append-nil cs), b)
  send_all_lem cs (bs ∷ bss) t g h =
      let (p, gs, ds, e, g', m) =
        add_packet_taken w limit front hw hl [] cs bs t.packer g (omega (arith, h.0)) in
      let (t', run, r, n, b) = deliver_lem t.counter gs ds p g' in
      let (t'', hs, run', m', b') = send_all_lem ds bss t' r h.1 in
      let joined : numbered w c t.counter gs ++ numbered w c t'.counter hs
          ≡ numbered w c t.counter (gs ++ hs) =
        ap (λ k. numbered w c t.counter gs ++ numbered w c k hs) n
        ∙ sym (numbered-append w c t.counter gs hs) in
      (
        t'',
        gs ++ hs,
        rw (e, run) (rw (run', joined)),
        concat-append gs hs
            ∙ ap (◌++◌ (concat gs)) m'
            ∙ sym (append_assoc (concat gs) ds (map concat bss))
            ∙ ap (λ xs. xs ++ map concat bss) m
            ∙ append_assoc cs (concat bs ∷ []) (map concat bss),
        rw (← joined) (All-append _ (numbered w c t.counter gs) _ b b'),
      )

All-split {ℓ κ} :
    {A : Type ℓ} (P : A → Type κ) (xs ys : List A) → All P (xs ++ ys) → All P xs × All P ys
All-split P [] ys h = (tt, h)
All-split P (x ∷ xs) ys h = let (a, b) = All-split P xs ys h.1 in ((h.0, a), b)

All-groups {ℓ κ} :
    {A : Type ℓ} (P : A → Type κ) (xss : List (List A)) → All P (concat xss) → All (All P) xss
All-groups P [] h = tt
All-groups P (xs ∷ xss) h = let (a, b) = All-split P xs (concat xss) h in (a, All-groups P xss b)

Fits-of_room :
    (w c limit : ℕ) (bss : List (List (List ℕ)))
    → limit < 256 ^ w
    → All (λ (bs : List (List ℕ)). c + w + length (concat bs) ≤ limit) bss
    → All (Fits w) (map concat bss)
Fits-of_room w c limit [] hl h = tt
Fits-of_room w c limit (bs ∷ bss) hl h = (omega (arith, h.0), Fits-of_room w c limit bss hl h.1)

-- Blocks that each fit a packet of `limit` bytes behind the counter and the length field arrive at
-- a new receiver as they were sent, in order and each one whole, in packets of at most `limit`
-- bytes, and no error is counted. The limit is a number that the length field can hold, and
-- `front` is as long as the counter.
pub transfer :
    (w c uint_size limit : ℕ) (front : List ℕ) (bss : List (List (List ℕ)))
    → 0 < w
    → limit < 256 ^ w
    → length front ≡ c
    → All (λ (bs : List (List ℕ)). c + w + length (concat bs) ≤ limit) bss
    → (t t' : Wrapper) × (pkts : List (List ℕ)) × (u : Unwrapper) × (construct w front limit
        ≡ done t)
      × (send_all w c bss t ≡ done (t', pkts))
      × All (λ (pkt : List ℕ). length pkt ≤ limit) pkts
      × (receive_all w c pkts (fresh uint_size) ≡ done (u, map concat bss))
      × (u.counter_errors ≡ 0)
      × (u.protocol_errors ≡ 0)
unfolding construct
transfer w c uint_size limit front bss hw hl hc h =
    let (p, made, g) = construct-IsGathering w front limit hl in
    let start : IsReady w limit front [] (record { counter = 0; packer = p }) = g in
    let (t', gs, sent, m, b) = send_all_lem w c limit front hw hl hc [] bss _ start h in
    let fit : All (All (Fits w)) gs =
      All-groups (Fits w) gs (rw m (Fits-of_room w c limit bss hl h)) in
    let (u, got, ce, pe, x) =
      receive_all-numbered w c 0 gs (fresh uint_size) hw (one-le-pow c 256 (omega arith)) fit
        refl in
    (
      record { counter = 0; packer = p },
      t',
      numbered w c 0 gs,
      u,
      rw made,
      sent,
      b,
      got ∙ ap (λ bs. done (u, bs)) m,
      ce,
      pe,
    )
