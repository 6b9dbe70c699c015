-- ===== src/Train/Transfer/Taken.antt =====
-- A packet of the wrapper (train/wrapper.hpp) at the unwrapper that has got all packets before it
-- (add_packet in train/unwrapper.hpp).
use mathlib.Core.Path.{subst}
use rubetek_ios_cpp_releases.Prelude.{
  ℕ, ◌+◌, ◌*◌, ◌/◌, ◌%◌, ◌<◌, ◌≤◌, ◌≡◌, refl, ap, ◌∙◌, true, false, List, [], ◌∷◌, ◌++◌, concat,
  length, of_le, to_le, of_le-to_le, arith, ltb, ◌==◌, length-append, le→ltb, ==_iff,
}
use rubetek_ios_cpp_releases.Prelude.Outcome.{done}
use rubetek_ios_cpp_releases.Train.{Block}
use rubetek_ios_cpp_releases.Train.Unwrapper.{
  Unwrapper, dissect_payload, middle, process_payload, add_packet,
}
use rubetek_ios_cpp_releases.Train.Transfer.{in_step, WagonOf, Part, no_part, part_of}
use rubetek_ios_cpp_releases.Train.Transfer.Receive.{dissect_wagons}
use rubetek_ios_cpp_releases.Train.Transfer.Continue.{dissect_rest, middle_part, middle_end}
use rubetek_ios_cpp_releases.Train.Transfer.Held.{packet, Held, begins, finishes, goes_on, fills}

of_two : (n : ℕ) → n < 65536 → of_le (to_le 2 n) ≡ n
of_two n h = of_le-to_le 2 n h

-- The two header fields are read back.
add_packet_lem :
    (c us ce pe ptr : ℕ) (w body p : List ℕ) (bs : List Block)
    → c < 65536
    → ptr < 65536
    → 4 ≤ length body
    → length body % 4 ≡ 0
    → process_payload ptr body (in_step w c us ce pe) ≡ done (in_step p c us ce pe, bs)
    → add_packet (packet c ptr body) (in_step w c us ce pe)
      ≡ done (in_step p ((c + 1) % 65536) us ce pe, bs)
unfolding add_packet to_le
add_packet_lem c us ce pe ptr w body p bs hc hp hl hm e =
    let number : of_le (c % 256 ∷ c / 256 % 256 ∷ []) ≡ c = of_two c hc in
    let place : of_le (ptr % 256 ∷ ptr / 256 % 256 ∷ []) ≡ ptr = of_two ptr hp in
    let same : (c == c) ≡ true = ground arith in
    let even : (length (0 ∷ 0 ∷ 0 ∷ 0 ∷ body) % 4 == 0) ≡ true = (==_iff _ _).1 (omega arith) in
    let long : ltb (length (0 ∷ 0 ∷ 0 ∷ 0 ∷ body)) 8 ≡ false = le→ltb _ _ (omega arith) in
    rw (number, place, same, even, long, e) refl

module _ (c us ce pe : ℕ) where
  process_pointed :
      (ptr : ℕ) (body w p : List ℕ) (bs : List Block)
      → ptr < 0xffff
      → ptr % 4 ≡ 0
      → ptr ≤ length body
      → dissect_payload (2 * length body) (ptr / 4) body (in_step w c us ce pe)
        ≡ done (in_step p c us ce pe, bs)
      → process_payload ptr body (in_step w c us ce pe) ≡ done (in_step p c us ce pe, bs)
  unfolding process_payload
  process_pointed ptr body w p bs hp hm hl e =
      let other : (ptr == 0xffff) ≡ false = ground arith in
      let even : (ptr % 4 == 0) ≡ true = (==_iff _ _).1 hm in
      let within : ltb (length body / 4) (ptr / 4) ≡ false = le→ltb _ _ (omega arith) in
      rw (other, even, within, e) refl

  process_middle : (body : List ℕ) (u : Unwrapper) → process_payload 0xffff body u ≡ middle body u
  unfolding process_payload
  process_middle body u = refl

  pub length-packet : (ptr : ℕ) (body : List ℕ) → length (packet c ptr body) ≡ 4 + length body
  unfolding to_le
  length-packet ptr body = omega arith

  goes_on-middle :
      (p w m : List ℕ)
      → Part p
      → p ≡ w ++ m
      → 4 ≤ length w
      → length w % 4 ≡ 0
      → length m % 4 ≡ 0
      → middle m (in_step w c us ce pe) ≡ done (in_step (w ++ m) c us ce pe, [])
  goes_on-middle p w m no_part e hw hn hm = absurd (omega (arith, ap length e, length-append w m))
  goes_on-middle p w m (part_of b tail h _ _ ht) e hw hn hm =
      middle_part c us ce pe b w m tail (subst (λ l. WagonOf b (l ++ tail)) e h) hw hn hm ht

  -- The packet is taken as a whole.
  pub received :
      (w q : List ℕ) (bs : List Block) (p : List ℕ)
      → Held w q c bs p
      → Part p
      → c < 65536
      → 8 ≤ length q
      → length q % 4 ≡ 0
      → add_packet q (in_step w c us ce pe) ≡ done (in_step p ((c + 1) % 65536) us ce pe, bs)
  received w q bs p (begins ws ew eq hs) hp hc hl hm =
      let body : List ℕ = concat ws ++ p in
      let size = length-packet 0 body in
      rw (ew, eq)
        (add_packet_lem c us ce pe 0 [] body p bs hc (omega arith)
          (omega (arith, size, ap length eq)) (omega (arith, size, ap length eq))
          (process_pointed 0 body [] p bs (omega arith) (omega arith) (omega arith)
            (dissect_wagons c us ce pe (2 * length body) bs ws p hs hp (omega arith))))
  received w q bs p (finishes b later r ws h hw hn hr hf eq eb hs) hp hc hl hm =
      let body : List ℕ = r ++ (concat ws ++ p) in
      let size = length-packet (length r) body in
      rw (eb, eq)
        (add_packet_lem c us ce pe (length r) w body p (b ∷ later) hc (omega (arith, hf))
          (omega (arith, size, ap length eq)) (omega (arith, size, ap length eq))
          (process_pointed (length r) body w p (b ∷ later) hf
            (omega (arith, h.whole, length-append w r))
            (omega (arith, length-append r (concat ws ++ p)))
            (dissect_rest c us ce pe (2 * length body) b later w r ws p h hw hn hr hs hp
              (omega arith))))
  received w q bs p (goes_on m hw hn eq eb ep) hp hc hl hm =
      let size = length-packet 0xffff m in
      rw (eb, eq, ep)
        (add_packet_lem c us ce pe 0xffff w m (w ++ m) [] hc (omega arith)
          (omega (arith, size, ap length eq)) (omega (arith, size, ap length eq))
          (process_middle m (in_step w c us ce pe)
            ∙ (goes_on-middle p w m hp ep hw hn (omega (arith, size, ap length eq)))))
  received w q bs p (fills b m h hw hn eq eb ep) hp hc hl hm =
      let size = length-packet 0xffff m in
      rw (eb, eq, ep)
        (add_packet_lem c us ce pe 0xffff w m [] (b ∷ []) hc (omega arith)
          (omega (arith, size, ap length eq)) (omega (arith, size, ap length eq))
          (process_middle m (in_step w c us ce pe) ∙ middle_end c us ce pe b w m h hw hn))
