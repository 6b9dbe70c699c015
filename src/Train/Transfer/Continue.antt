-- ===== src/Train/Transfer/Continue.antt =====
-- An unwrapper in step goes on with a wagon in the next packet (train/unwrapper.hpp).
use rubetek_ios_cpp_releases.Prelude.{
  ℕ, zero, suc, ◌+◌, ◌*◌, ◌-◌, ◌/◌, ◌%◌, ◌<◌, ◌≤◌, ◌≡◌, refl, true, false, List, [], ◌∷◌, ◌++◌,
  concat, length, take, drop, arith, ltb, ◌==◌, length-append, take-append_eq, drop-append_eq,
  le→ltb, ==_iff,
}
use rubetek_ios_cpp_releases.Prelude.Outcome.{done}
use rubetek_ios_cpp_releases.Train.{Block}
use rubetek_ios_cpp_releases.Train.Unwrapper.{block_len, continue_wagon, dissect_payload, middle}
use rubetek_ios_cpp_releases.Train.Transfer.{in_step, announced, WagonOf, WagonsOf, Part}
use rubetek_ios_cpp_releases.Train.Transfer.Receive.{push_fits, dissect_wagons}

module _ (c us ce pe : ℕ) where
  -- The rest of the wagon.
  continue_rest :
      (b : Block) (w r rest : List ℕ)
      → WagonOf b (w ++ r)
      → 4 ≤ length w
      → length w % 4 ≡ 0
      → continue_wagon (length r / 4) (r ++ rest) (in_step w c us ce pe)
        ≡ done (in_step [] c us ce pe, rest, b ∷ [], true)
  unfolding continue_wagon block_len
  continue_rest b (x ∷ y ∷ z ∷ t ∷ w) r rest h hl hm =
      let k : ℕ = announced (x ∷ y ∷ z ∷ t ∷ w) in
      let size : 4 + length w + length r ≡ 4 * (k + 1) =
        omega (arith, h.whole, length-append w r) in
      let joins : (k == length (x ∷ y ∷ z ∷ t ∷ w) / 4 - 1 + length r / 4) ≡ true =
        (==_iff _ _).1 (omega (arith, size)) in
      let own : take (4 * (length r / 4)) (r ++ rest) ≡ r =
        take-append_eq _ r rest (omega (arith, size)) in
      let behind : drop (4 * (length r / 4)) (r ++ rest) ≡ rest =
        drop-append_eq _ r rest (omega (arith, size)) in
      rw
        (
          joins,
          own,
          behind,
          push_fits r (x ∷ y ∷ z ∷ t ∷ w) c us ce pe (omega (arith, size, h.fits)),
          h.unloads c us ce pe,
        )
        refl
  continue_rest b [] r rest h hl hm = absurd (omega arith)
  continue_rest b (x ∷ []) r rest h hl hm = absurd (omega arith)
  continue_rest b (x ∷ y ∷ []) r rest h hl hm = absurd (omega arith)
  continue_rest b (x ∷ y ∷ z ∷ []) r rest h hl hm = absurd (omega arith)

  -- The rest of a wagon, whole wagons, and the beginning of one more.
  pub dissect_rest :
      (fuel : ℕ) (b : Block) (bs : List Block) (w r : List ℕ) (ws : List (List ℕ)) (p : List ℕ)
      → WagonOf b (w ++ r)
      → 4 ≤ length w
      → length w % 4 ≡ 0
      → 0 < length r
      → WagonsOf bs ws
      → Part p
      → length (r ++ (concat ws ++ p)) ≤ fuel
      → dissect_payload fuel (length r / 4) (r ++ (concat ws ++ p)) (in_step w c us ce pe)
        ≡ done (in_step p c us ce pe, b ∷ bs)
  unfolding dissect_payload
  dissect_rest zero b bs w (x ∷ r) ws p h hl hm hr hs hp hf = absurd (omega arith)
  dissect_rest (suc fuel) b bs (y ∷ w) (x ∷ r) ws p h hl hm hr hs hp hf =
      let less : length (concat ws ++ p) ≤ fuel =
        omega (arith, length-append (x ∷ r) (concat ws ++ p)) in
      rw
        (
          continue_rest b (y ∷ w) (x ∷ r) (concat ws ++ p) h hl hm,
          dissect_wagons c us ce pe fuel bs ws p hs hp less,
        )
        refl
  dissect_rest fuel b bs [] r ws p h hl hm hr hs hp hf = absurd (omega arith)
  dissect_rest fuel b bs w [] ws p h hl hm hr hs hp hf = absurd (omega arith)

  -- A packet of the wagon's middle.
  pub middle_part :
      (b : Block) (w m tail : List ℕ)
      → WagonOf b ((w ++ m) ++ tail)
      → 4 ≤ length w
      → length w % 4 ≡ 0
      → length m % 4 ≡ 0
      → 0 < length tail
      → middle m (in_step w c us ce pe) ≡ done (in_step (w ++ m) c us ce pe, [])
  unfolding middle block_len
  middle_part b (x ∷ y ∷ z ∷ t ∷ w) m tail h hl hm hn ht =
      let k : ℕ = announced (x ∷ y ∷ z ∷ t ∷ w) in
      let size : 4 + length w + length m + length tail ≡ 4 * (k + 1) =
        omega (arith, h.whole, length-append (w ++ m) tail, length-append w m) in
      let within : ltb k (length (x ∷ y ∷ z ∷ t ∷ w) / 4 - 1 + length m / 4) ≡ false =
        le→ltb _ _ (omega (arith, size)) in
      let open_end : (k == length (x ∷ y ∷ z ∷ t ∷ (w ++ m)) / 4 - 1) ≡ false =
        ground (arith, size, length-append w m) in
      rw
        (within, push_fits m (x ∷ y ∷ z ∷ t ∷ w) c us ce pe (omega (arith, size, h.fits)), open_end)
        refl
  middle_part b [] m tail h hl hm hn ht = absurd (omega arith)
  middle_part b (x ∷ []) m tail h hl hm hn ht = absurd (omega arith)
  middle_part b (x ∷ y ∷ []) m tail h hl hm hn ht = absurd (omega arith)
  middle_part b (x ∷ y ∷ z ∷ []) m tail h hl hm hn ht = absurd (omega arith)

  -- A packet that the wagon's rest fills.
  pub middle_end :
      (b : Block) (w m : List ℕ)
      → WagonOf b (w ++ m)
      → 4 ≤ length w
      → length w % 4 ≡ 0
      → middle m (in_step w c us ce pe) ≡ done (in_step [] c us ce pe, b ∷ [])
  unfolding middle block_len
  middle_end b (x ∷ y ∷ z ∷ t ∷ w) m h hl hm =
      let k : ℕ = announced (x ∷ y ∷ z ∷ t ∷ w) in
      let size : 4 + length w + length m ≡ 4 * (k + 1) =
        omega (arith, h.whole, length-append w m) in
      let within : ltb k (length (x ∷ y ∷ z ∷ t ∷ w) / 4 - 1 + length m / 4) ≡ false =
        le→ltb _ _ (omega (arith, size)) in
      let full : (k == length (x ∷ y ∷ z ∷ t ∷ (w ++ m)) / 4 - 1) ≡ true =
        (==_iff _ _).1 (omega (arith, size, length-append w m)) in
      rw
        (
          within,
          push_fits m (x ∷ y ∷ z ∷ t ∷ w) c us ce pe (omega (arith, size, h.fits)),
          full,
          h.unloads c us ce pe,
        )
        refl
  middle_end b [] m h hl hm = absurd (omega arith)
  middle_end b (x ∷ []) m h hl hm = absurd (omega arith)
  middle_end b (x ∷ y ∷ []) m h hl hm = absurd (omega arith)
  middle_end b (x ∷ y ∷ z ∷ []) m h hl hm = absurd (omega arith)
