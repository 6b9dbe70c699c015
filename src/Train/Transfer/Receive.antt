-- ===== src/Train/Transfer/Receive.antt =====
-- An unwrapper in step reads the packets of its wrapper (dissect_payload and middle in
-- train/unwrapper.hpp).
use rubetek_ios_cpp_releases.Prelude.{
  ℕ, zero, suc, ◌+◌, ◌*◌, ◌/◌, ◌%◌, ◌<◌, ◌≤◌, min, ◌≡◌, refl, ap, true, false, List, [], ◌∷◌, ◌++◌,
  append_assoc, concat, length, take, drop, arith, ◌==◌, length-append, take-append_eq,
  drop-append_eq, take-all, drop-all, le→ltb, ==_iff,
}
use rubetek_ios_cpp_releases.Prelude.Outcome.{done, ◌>>=◌}
use rubetek_ios_cpp_releases.Train.{Block}
use rubetek_ios_cpp_releases.Train.Unwrapper.{
  push, load_wagon, begin_wagon, block_len, dissect_payload,
}
use rubetek_ios_cpp_releases.Train.Transfer.{
  in_step, announced, WagonOf, WagonsOf, none_of, then_of, Part, no_part, part_of,
}

pub push_fits :
    (bytes w : List ℕ) (c us ce pe : ℕ)
    → length w / 4 + length bytes / 4 ≤ 16384
    → push bytes (in_step w c us ce pe) ≡ done (in_step (w ++ bytes) c us ce pe)
unfolding push
push_fits bytes w c us ce pe h = rw (le→ltb 16384 (length w / 4 + length bytes / 4) h) refl

module _ (c us ce pe : ℕ) where
  -- A wagon that starts here, as a whole.
  load_whole :
      (b : Block) (w rest : List ℕ)
      → WagonOf b w
      → load_wagon (w ++ rest) (in_step [] c us ce pe)
        ≡ done (in_step [] c us ce pe, rest, b ∷ [], true)
  unfolding load_wagon block_len
  load_whole b (x ∷ y ∷ z ∷ t ∷ w) rest h =
      let k : ℕ = announced (x ∷ y ∷ z ∷ t ∷ w) in
      let n_is : min (length (w ++ rest) / 4) k ≡ k =
        omega (arith, h.whole, length-append w rest) in
      let own : take (4 * k) (w ++ rest) ≡ w =
        take-append_eq (4 * k) w rest (omega (arith, h.whole)) in
      let behind : drop (4 * k) (w ++ rest) ≡ rest =
        drop-append_eq (4 * k) w rest (omega (arith, h.whole)) in
      let full : (length (x ∷ y ∷ z ∷ t ∷ w) / 4 == k + 1) ≡ true =
        (==_iff _ _).1 (omega (arith, h.whole)) in
      rw
        (
          n_is,
          own,
          behind,
          push_fits w (x ∷ y ∷ z ∷ t ∷ []) c us ce pe (omega (arith, h.whole, h.fits)),
          full,
          h.unloads c us ce pe,
        )
        refl
  load_whole b [] rest h = absurd (omega (arith, h.whole))
  load_whole b (x ∷ []) rest h = absurd (omega (arith, h.whole))
  load_whole b (x ∷ y ∷ []) rest h = absurd (omega (arith, h.whole))
  load_whole b (x ∷ y ∷ z ∷ []) rest h = absurd (omega (arith, h.whole))

  -- The beginning of a wagon, and no more.
  load_part :
      (b : Block) (p tail : List ℕ)
      → WagonOf b (p ++ tail)
      → 4 ≤ length p
      → length p % 4 ≡ 0
      → 0 < length tail
      → load_wagon p (in_step [] c us ce pe) ≡ done (in_step p c us ce pe, [], [], true)
  unfolding load_wagon block_len
  load_part b (x ∷ y ∷ z ∷ t ∷ p) tail h hl hm ht =
      let k : ℕ = announced (x ∷ y ∷ z ∷ t ∷ p) in
      let size : 4 + length p + length tail ≡ 4 * (k + 1) =
        omega (arith, h.whole, length-append p tail) in
      let n_is : min (length p / 4) k ≡ length p / 4 = omega (arith, size) in
      let own : take (4 * (length p / 4)) p ≡ p = take-all _ p (omega arith) in
      let behind : drop (4 * (length p / 4)) p ≡ [] = drop-all _ p (omega arith) in
      let open_end : (length (x ∷ y ∷ z ∷ t ∷ p) / 4 == k + 1) ≡ false = ground (arith, size) in
      rw
        (
          n_is,
          own,
          behind,
          push_fits p (x ∷ y ∷ z ∷ t ∷ []) c us ce pe (omega (arith, size, h.fits)),
          open_end,
        )
        refl
  load_part b [] tail h hl hm ht = absurd (omega arith)
  load_part b (x ∷ []) tail h hl hm ht = absurd (omega arith)
  load_part b (x ∷ y ∷ []) tail h hl hm ht = absurd (omega arith)
  load_part b (x ∷ y ∷ z ∷ []) tail h hl hm ht = absurd (omega arith)

  -- Nothing is skipped.
  begin_now :
      (x : ℕ) (xs w : List ℕ)
      → begin_wagon 0 (x ∷ xs) (in_step w c us ce pe) ≡ load_wagon (x ∷ xs) (in_step w c us ce pe)
  unfolding begin_wagon
  begin_now x xs w = refl

  dissect_whole :
      (fuel : ℕ) (b : Block) (w rest : List ℕ)
      → WagonOf b w
      → dissect_payload (suc fuel) 0 (w ++ rest) (in_step [] c us ce pe)
        ≡ (dissect_payload fuel 0 rest (in_step [] c us ce pe) >>= λ s. done (s.0, b ∷ s.1))
  unfolding dissect_payload
  dissect_whole fuel b (x ∷ w) rest h =
      rw (begin_now x (w ++ rest) [], load_whole b (x ∷ w) rest h) refl
  dissect_whole fuel b [] rest h = absurd (omega (arith, h.whole))

  dissect-Part :
      (fuel : ℕ) (p : List ℕ)
      → Part p
      → length p ≤ fuel
      → dissect_payload fuel 0 p (in_step [] c us ce pe) ≡ done (in_step p c us ce pe, [])
  unfolding dissect_payload
  dissect-Part zero [] no_part hf = refl
  dissect-Part (suc fuel) [] no_part hf = refl
  dissect-Part (suc zero) (x ∷ p) (part_of b tail h hl hm ht) hf = absurd (omega arith)
  dissect-Part zero (x ∷ p) (part_of b tail h hl hm ht) hf = absurd (omega arith)
  dissect-Part (suc (suc fuel)) (x ∷ p) (part_of b tail h hl hm ht) hf =
      rw (begin_now x p [], load_part b (x ∷ p) tail h hl hm ht) refl
  dissect-Part fuel [] (part_of b tail h hl hm ht) hf = absurd (omega arith)

  -- Whole wagons, and the beginning of one more.
  pub dissect_wagons :
      (fuel : ℕ) (bs : List Block) (ws : List (List ℕ)) (p : List ℕ)
      → WagonsOf bs ws
      → Part p
      → length (concat ws ++ p) ≤ fuel
      → dissect_payload fuel 0 (concat ws ++ p) (in_step [] c us ce pe)
        ≡ done (in_step p c us ce pe, bs)
  dissect_wagons fuel [] [] p none_of hp hf = dissect-Part fuel p hp hf
  dissect_wagons zero (b ∷ bs) (w ∷ ws) p (then_of h hs) hp hf =
      absurd (omega (arith, h.whole, length-append (w ++ concat ws) p, length-append w (concat ws)))
  dissect_wagons (suc fuel) (b ∷ bs) (w ∷ ws) p (then_of h hs) hp hf =
      let less : length (concat ws ++ p) ≤ fuel = omega (
        arith,
        h.whole,
        length-append w (concat ws ++ p),
        ap length (append_assoc w (concat ws) p),
      ) in
      rw
        (
          append_assoc w (concat ws) p,
          dissect_whole fuel b w (concat ws ++ p) h,
          dissect_wagons fuel bs ws p hs hp less,
        )
        refl
  dissect_wagons fuel [] (w ∷ ws) p hs hp hf = elim hs [ ]
  dissect_wagons fuel (b ∷ bs) [] p hs hp hf = elim hs [ ]
