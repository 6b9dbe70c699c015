-- ===== src/PlainTrain/Loss.antt =====
-- Packets that the network drops between a sender and a receiver.
use native.Mathlib.Nat.{mod-eq_of_lt, mod-add-mod, add-zero}
use native.Mathlib.Decide.{dec_lt}
use rubetek_ios_cpp_releases.Prelude.{
  ℕ, suc, ◌+◌, ◌-◌, ◌%◌, ◌^◌, ◌<◌, ◌≡◌, refl, sym, ap, ◌∙◌, ◌≢◌, false, List, [], ◌∷◌, ◌++◌,
  append-nil, append_assoc, length, ◌==◌, All, concat, arith, ==_iff,
}
use rubetek_ios_cpp_releases.Prelude.Outcome.{done}
use rubetek_ios_cpp_releases.Spp.Framing.{Fits}
use rubetek_ios_cpp_releases.PlainTrain.{Unwrapper, receive_all}
use rubetek_ios_cpp_releases.PlainTrain.Receive.{
  numbered, next, next-lt, after, after-lt, noted, add_packet_numbered,
}

after_count :
    (c n : ℕ) (gs : List (List (List ℕ))) → n < 256 ^ c → after c n gs ≡ (n + length gs) % 256 ^ c
after_count c n [] h = rw add-zero (sym (mod-eq_of_lt h))
after_count c n (g ∷ gs) h =
    let e : n + 1 + length gs ≡ n + suc (length gs) = omega arith in
    after_count c (next c n) gs (next-lt c n)
    ∙ mod-add-mod (n + 1) (256 ^ c) (length gs)
    ∙ ap (λ k. k % 256 ^ c) e

-- Fewer lost packets than there are numbers change the number.
moved : (m n k : ℕ) → n < m → 0 < k → k < m → (n + k) % m ≢ n
moved m n k hn h hk e = elim (dec_lt (n + k) m) [
  | yes l ↦ absurd (omega (arith, mod-eq_of_lt l))
  | no l ↦ let f : (n + k) % m ≡ n + k - m = grind arith in absurd (omega arith)
]

-- The receiver has had a packet, and expects the number `n`.
pub record IsInSync (n : ℕ) (u : Unwrapper) : Type 0 where
  pub started : u.first_packet ≡ false
  pub expects : u.counter ≡ n

-- A run of packets in sync, whatever comes behind it.
sync_run :
    (w c n : ℕ) (gs : List (List (List ℕ))) (u : Unwrapper)
    → 0 < w
    → n < 256 ^ c
    → All (All (Fits w)) gs
    → IsInSync n u
    → (v : Unwrapper) × IsInSync (after c n gs) v
      × (v.uint_size ≡ u.uint_size)
      × (v.counter_errors ≡ u.counter_errors)
      × (v.protocol_errors ≡ u.protocol_errors)
      × ((qs ds : List (List ℕ)) (x : Unwrapper)
          → receive_all w c qs v ≡ done (x, ds)
          → receive_all w c (numbered w c n gs ++ qs) u ≡ done (x, concat gs ++ ds))
unfolding receive_all
sync_run w c n [] u hw hn h s = (u, s, refl, refl, refl, λ qs ds x e. e)
sync_run w c n (g ∷ gs) u hw hn h s =
    let same : (noted c n u).counter_errors ≡ u.counter_errors =
      rw (s.started, (==_iff n u.counter).1 (sym s.expects)) in
    let (v, s', us, ce, pe, on) =
      sync_run w c (next c n) gs (noted c n u) hw (next-lt c n) h.1
        (record { started = refl; expects = refl }) in
    (
      v,
      s',
      us,
      ce ∙ same,
      pe,
      λ qs ds x e.
          rw (add_packet_numbered w c n g u hw hn h.0)
            (rw (on qs ds x e, append_assoc g (concat gs) ds) refl),
    )

-- A packet with another number than the expected one counts once, and the receiver goes on from it.
resync :
    (w c n m : ℕ) (h : List (List ℕ)) (hs : List (List (List ℕ))) (u : Unwrapper)
    → 0 < w
    → n < 256 ^ c
    → All (All (Fits w)) (h ∷ hs)
    → IsInSync m u
    → n ≢ m
    → (v : Unwrapper) × IsInSync (after c n (h ∷ hs)) v
      × (v.counter_errors ≡ (u.counter_errors + 1) % 256 ^ u.uint_size)
      × (v.protocol_errors ≡ u.protocol_errors)
      × (receive_all w c (numbered w c n (h ∷ hs)) u ≡ done (v, concat (h ∷ hs)))
unfolding receive_all
resync w c n m h hs u hw hn fit s differ =
    let missed : (n == u.counter) ≡ false = ground (arith, s.expects, differ) in
    let counted : (noted c n u).counter_errors ≡ (u.counter_errors + 1) % 256 ^ u.uint_size =
      rw (s.started, missed) in
    let (v, s', us, ce, pe, on) =
      sync_run w c (next c n) hs (noted c n u) hw (next-lt c n) fit.1
        (record { started = refl; expects = refl }) in
    let rest : receive_all w c (numbered w c (next c n) hs) (noted c n u) ≡ done (v, concat hs) =
      rw (append-nil, append-nil) at (on [] [] v refl) in
    (v, s', ce ∙ counted, pe, rw (add_packet_numbered w c n h u hw hn fit.0) (rw rest))

-- A receiver in sync gets numbered packets of blocks that the length field can count, but for a
-- run of lost ones, which is neither empty nor as long as there are numbers, and a packet after
-- it: all blocks that were not lost are delivered, exactly one counter error is counted, in a
-- counter as wide as uint is on the target, and no protocol error, and the receiver is in sync
-- again.
pub receive_all_loss :
    (w c n : ℕ) (gs lost : List (List (List ℕ))) (h : List (List ℕ)) (hs : List (List (List ℕ)))
    (u : Unwrapper)
    → 0 < w
    → n < 256 ^ c
    → All (All (Fits w)) gs
    → All (All (Fits w)) (h ∷ hs)
    → IsInSync n u
    → 0 < length lost
    → length lost < 256 ^ c
    → let m = after c (after c n gs) lost in
      (v : Unwrapper) × (receive_all w c (numbered w c n gs ++ numbered w c m (h ∷ hs)) u
        ≡ done (v, concat gs ++ concat (h ∷ hs)))
      × (v.counter_errors ≡ (u.counter_errors + 1) % 256 ^ u.uint_size)
      × (v.protocol_errors ≡ u.protocol_errors)
      × IsInSync (after c m (h ∷ hs)) v
receive_all_loss w c n gs lost h hs u hw hn fit fit' s some_lost few_lost =
    let k : ℕ = after c n gs in
    let hk : k < 256 ^ c = after-lt c n gs hn in
    let m : ℕ = after c k lost in
    let differ : m ≢ k = λ e.
      moved (256 ^ c) k (length lost) hk some_lost few_lost (sym (after_count c k lost hk) ∙ e) in
    let (v, s', us, ce, pe, on) = sync_run w c n gs u hw hn fit s in
    let (x, s'', ce', pe', run) = resync w c m k h hs v hw (after-lt c k lost hk) fit' s' differ in
    (x, on (numbered w c m (h ∷ hs)) (concat (h ∷ hs)) x run, ce' ∙ cc (us, ce), pe' ∙ pe, s'')
