-- ===== src/Buffer/Grow.antt =====
-- What the operations of a buffer (zzz/buffer/def.hpp) that add items make of its contents.
use rubetek_ios_cpp_releases.Prelude.{
  ℕ, zero, suc, ◌+◌, ◌-◌, ◌≤◌, ◌<◌, max, ◌≡◌, refl, sym, ap, ◌∙◌, inl, inr, true, false, List, [],
  ◌∷◌, ◌++◌, append_assoc, append-nil, length, drop, replicate, ltb, leb, ◌==◌, arith, Bool-cases,
  le→ltb, ltb→lt, ltb→le, length-append, length-take, length-drop, take-append_eq, take-append-drop,
}
use rubetek_ios_cpp_releases.Prelude.Outcome.{Outcome, done, ◌>>=◌}
use rubetek_ios_cpp_releases.Buffer.{
  Buffer, contents, capacity, free_space, overwrite, copy, copy_to_back, increase_size_silent,
  push_item_silent, push_back_silent, push_item_silent_repeat, construct, reserve, grown, push_item,
  push_back, push_item_repeat,
}

-- The buffer's items are `xs`, and `spare` is the memory behind them.
pub record Holds {ℓ} {A : Type ℓ} (xs : List A) (b : Buffer A) : Type ℓ where
  pub spare : List A
  pub whole : b.cells ≡ xs ++ spare
  pub counted : b.size ≡ length xs

module _ {ℓ} {A : Type ℓ} where
  pub drop-append_add :
      (xs ys : List A) (m n : ℕ) → m ≡ length xs + n → drop m (xs ++ ys) ≡ drop n ys
  drop-append_add [] ys m n e = let same : m ≡ n = omega arith in ap (λ k. drop k ys) same
  drop-append_add (x ∷ xs) ys zero n e = absurd (omega arith)
  drop-append_add (x ∷ xs) ys (suc m) n e = drop-append_add xs ys m n (omega arith)

  pub overwrite-append :
      (xs r spare : List A) (at : ℕ)
      → at ≡ length xs
      → overwrite at r (xs ++ spare) ≡ xs ++ (r ++ drop (length r) spare)
  unfolding overwrite
  overwrite-append xs r spare at e =
      rw
        (
          take-append_eq at xs spare e,
          drop-append_add xs spare (at + length r) (length r) (omega arith),
        )
        refl

  -- A buffer holds its contents as long as its size is within its capacity.
  pub Holds-contents : (b : Buffer A) → b.size ≤ capacity b → Holds (contents b) b
  Holds-contents b h = record {
    spare = drop b.size b.cells;
    whole = sym (take-append-drop b.size b.cells);
    counted = omega (arith, length-take b.size b.cells);
  }

  pub contents-Holds : (xs : List A) (b : Buffer A) → Holds xs b → contents b ≡ xs
  contents-Holds xs b h = rw (h.whole) (take-append_eq b.size xs h.spare h.counted)

  -- An operation that succeeds and leaves these items in memory of this capacity.
  pub record Gives (m : Outcome (Buffer A)) (xs : List A) (n : ℕ) : Type ℓ where
    pub buffer : Buffer A
    pub returned : m ≡ done buffer
    pub holds : Holds xs buffer
    pub capacity_is : capacity buffer ≡ n

  -- The items are copied to the end of the part in use.
  copy_to_back_lem :
      (xs r spare : List A) (size : ℕ)
      → size ≡ length xs + length r
      → copy_to_back r (record { cells = xs ++ spare; size = size })
        ≡ done (record { cells = xs ++ (r ++ drop (length r) spare); size = size })
  unfolding copy_to_back
  copy_to_back_lem xs r spare size e =
      rw
        (
          le→ltb size (length r) (omega arith),
          overwrite-append xs r spare (size - length r) (omega arith),
        )
        refl

  pub written :
      (xs r spare : List A) (size : ℕ)
      → size ≡ length xs + length r
      → Holds (xs ++ r) (record { cells = xs ++ (r ++ drop (length r) spare); size = size })
  written xs r spare size e = record {
    spare = drop (length r) spare;
    whole = sym (append_assoc xs r (drop (length r) spare));
    counted = omega (arith, length-append xs r);
  }

  pub length-written :
      (xs r spare : List A)
      → length r ≤ length spare
      → length (xs ++ (r ++ drop (length r) spare)) ≡ length xs + length spare
  length-written xs r spare h = omega (
    arith,
    length-append xs (r ++ drop (length r) spare),
    length-append r (drop (length r) spare),
    length-drop (length r) spare,
  )

  -- Where the memory suffices, nothing is allocated.
  pub push_back_silent_lem :
      (r xs : List A) (b : Buffer A)
      → Holds xs b
      → length r ≤ free_space b
      → Gives (push_back_silent r b) (xs ++ r) (capacity b)
  unfolding push_back_silent increase_size_silent
  push_back_silent_lem r xs b h fits =
      let size : ℕ = b.size + length r in
      let total : capacity b ≡ length xs + length h.spare =
        ap length h.whole ∙ length-append xs h.spare in
      let counted : size ≡ length xs + length r = ap (λ n. n + length r) h.counted in
      let room : length r ≤ length h.spare = omega (arith, h.counted) in
      let wide : increase_size_silent (length r) b
          ≡ done (record { cells = xs ++ h.spare; size = size }) =
        rw (le→ltb (free_space b) (length r) fits)
          (ap (λ c. done (record { cells = c; size = size })) h.whole) in
      record {
        buffer = record { cells = xs ++ (r ++ drop (length r) h.spare); size = size };
        returned = ap (λ m. m >>= copy_to_back r) wide ∙ copy_to_back_lem xs r h.spare size counted;
        holds = written xs r h.spare size counted;
        capacity_is = length-written xs r h.spare room ∙ sym total;
      }

  -- One more item is a range of one.
  push_item_silent-push_back_silent :
      (v : A) (b : Buffer A) → 0 < free_space b → push_item_silent v b ≡ push_back_silent (v ∷ []) b
  unfolding push_item_silent push_back_silent increase_size_silent copy_to_back
  push_item_silent-push_back_silent v b h =
      let some_space : (free_space b == 0) ≡ false = ground arith in
      let back : b.size + 1 - 1 ≡ b.size = omega arith in
      rw (some_space, le→ltb (free_space b) 1 h, le→ltb (b.size + 1) 1 (omega arith), back) refl

  -- A buffer's memory is its items and the spare cells.
  pub Holds-room :
      (xs : List A) (b : Buffer A) (h : Holds xs b) → capacity b ≡ length xs + length h.spare
  Holds-room xs b h = ap length h.whole ∙ length-append xs h.spare

  Gives-cons :
      (v : A) (count : ℕ) (xs : List A) (m : Outcome (Buffer A)) (n : ℕ)
      → Gives m ((xs ++ v ∷ []) ++ replicate count v) n
      → Gives m (xs ++ v ∷ replicate count v) n
  Gives-cons v count xs m n g = rw (sym (append_assoc xs (v ∷ []) (replicate count v))) g

  -- Where the memory suffices for all the copies.
  push_item_silent_repeat_lem :
      (v : A) (count : ℕ) (xs : List A) (b : Buffer A)
      → Holds xs b
      → count ≤ free_space b
      → Gives (push_item_silent_repeat v count b) (xs ++ replicate count v) (capacity b)
  unfolding push_item_silent_repeat
  push_item_silent_repeat_lem v zero xs b h fits = record {
    buffer = b;
    returned = refl;
    holds = rw (append-nil xs) h;
    capacity_is = refl;
  }
  push_item_silent_repeat_lem v (suc count) xs b h fits =
      let first = push_back_silent_lem (v ∷ []) xs b h (omega arith) in
      let room = Holds-room xs b h in
      let left : count ≤ free_space first.buffer = omega (
        arith,
        room,
        first.capacity_is,
        first.holds.counted,
        h.counted,
        length-append xs (v ∷ []),
      ) in
      let rest = push_item_silent_repeat_lem v count (xs ++ v ∷ []) first.buffer first.holds left in
      Gives-cons v count xs _ _ (record {
        buffer = rest.buffer;
        returned =
            ap (λ m. m >>= push_item_silent_repeat v count)
              (push_item_silent-push_back_silent v b (omega arith) ∙ first.returned)
            ∙ rest.returned;
        holds = rest.holds;
        capacity_is = rest.capacity_is ∙ first.capacity_is;
      })

  -- `fresh` gives memory of the size asked for.
  module _ (fresh : ℕ → List A) (length-fresh : (n : ℕ) → length (fresh n) ≡ n) where
    -- The old items in larger memory.
    grown_lem :
        (xs : List A) (b : Buffer A) (size n : ℕ)
        → Holds xs b
        → b.size ≤ size
        → size ≤ n
        → grown fresh size n b
          ≡ done (record { cells = xs ++ drop (length xs) (fresh n); size = size })
    unfolding grown construct copy
    grown_lem xs b size n h hs hn =
        let few : length xs ≤ size = omega (arith, h.counted) in
        rw
          (
            le→ltb n size hn,
            contents-Holds xs b h,
            le→ltb size (length xs) few,
            overwrite-append [] xs (fresh n) 0 refl,
          )
          refl

    length-room : (m n : ℕ) → length (drop m (fresh n)) ≡ n - m
    length-room m n = length-drop m (fresh n) ∙ ap (λ k. k - m) (length-fresh n)

    -- push_back of a range appends it, in the old memory if that suffices, else in memory that
    -- just holds the items, where the allocator gives memory of the size asked for.
    pub push_back-Holds :
        (r xs : List A) (b : Buffer A)
        → Holds xs b
        → Gives (push_back fresh r b) (xs ++ r) (max (capacity b) (length xs + length r))
    unfolding push_back
    push_back-Holds r xs b h =
        let bounded : b.size ≤ capacity b = omega (arith, Holds-room xs b h, h.counted) in
        elim (Bool-cases (leb (length r) (free_space b))) [
          | inl fits ↦
              let le : length r ≤ free_space b = ground arith in
              let g = push_back_silent_lem r xs b h le in
              let same : max (capacity b) (length xs + length r) ≡ capacity b =
                omega (arith, h.counted) in
              record {
                buffer = g.buffer;
                returned = rw fits g.returned;
                holds = g.holds;
                capacity_is = g.capacity_is ∙ sym same;
              }
          | inr short ↦
              let lt : free_space b < length r = ground arith in
              let size : ℕ = b.size + length r in
              let counted : size ≡ length xs + length r = ap (λ n. n + length r) h.counted in
              let spare : List A = drop (length xs) (fresh size) in
              let room : length r ≤ length spare = omega (arith, length-room (length xs) size) in
              let all : max (capacity b) (length xs + length r) ≡ length xs + length spare =
                omega (arith, h.counted, length-room (length xs) size) in
              record {
                buffer = record { cells = xs ++ (r ++ drop (length r) spare); size = size };
                returned = rw short (
                    ap (λ m. m >>= copy_to_back r)
                      (grown_lem xs b size size h (omega arith) (omega arith))
                    ∙ copy_to_back_lem xs r spare size counted);
                holds = written xs r spare size counted;
                capacity_is = length-written xs r spare room ∙ sym all;
              }
        ]

    -- reserve keeps the items, and the capacity is then the larger of the old one and what was
    -- asked for, where the allocator gives memory of the size asked for.
    reserve-Holds :
        (count : ℕ) (xs : List A) (b : Buffer A)
        → Holds xs b
        → Gives (reserve fresh count b) xs (max (capacity b) count)
    unfolding reserve grown
    reserve-Holds count xs b h =
        let bounded : b.size ≤ capacity b = omega (arith, Holds-room xs b h, h.counted) in
        elim (Bool-cases (ltb (capacity b) count)) [
          | inl short ↦
              let lt : capacity b < count = ltb→lt (capacity b) count short in
              record {
                buffer = record { cells = xs ++ drop (length xs) (fresh count); size = b.size };
                returned = rw short (grown_lem xs b b.size count h (omega arith) (omega arith));
                holds = record {
                  spare = drop (length xs) (fresh count);
                  whole = refl;
                  counted = h.counted;
                };
                capacity_is = omega (
                  arith,
                  h.counted,
                  length-append xs (drop (length xs) (fresh count)),
                  length-room (length xs) count,
                );
              }
          | inr enough ↦
              let le : count ≤ capacity b = ltb→le (capacity b) count enough in
              record { buffer = b; returned = rw enough refl; holds = h; capacity_is = omega arith }
        ]

    -- The overload for one item does what that for a range of one item does.
    pub push_item-push_back :
        (v : A) (b : Buffer A) → push_item fresh v b ≡ push_back fresh (v ∷ []) b
    unfolding push_item push_back push_item_silent
    push_item-push_back v b = elim (Bool-cases (free_space b == 0)) [
      | inl full ↦ let short : leb 1 (free_space b) ≡ false = ground arith in rw (full, short) refl
      | inr space ↦
          let fits : leb 1 (free_space b) ≡ true = ground arith in
          let some_space : 0 < free_space b = ground arith in
          rw (sym (push_item_silent-push_back_silent v b some_space), space, fits) refl
    ]

    -- push_back of one item a number of times appends as many copies, in the old memory if that
    -- suffices, else in memory that just holds the items, where the allocator gives memory of the
    -- size asked for.
    push_item_repeat-Holds :
        (v : A) (count : ℕ) (xs : List A) (b : Buffer A)
        → Holds xs b
        → Gives
            (push_item_repeat fresh v count b)
            (xs ++ replicate count v)
            (max (capacity b) (length xs + count))
    unfolding push_item_repeat
    push_item_repeat-Holds v count xs b h =
        let room = Holds-room xs b h in
        elim (Bool-cases (leb count (free_space b))) [
          | inl fits ↦
              let le : count ≤ free_space b = ground arith in
              let g = push_item_silent_repeat_lem v count xs b h le in
              let same : max (capacity b) (length xs + count) ≡ capacity b =
                omega (arith, h.counted) in
              record {
                buffer = g.buffer;
                returned = rw fits g.returned;
                holds = g.holds;
                capacity_is = g.capacity_is ∙ sym same;
              }
          | inr short ↦
              let lt : free_space b < count = ground arith in
              let n : ℕ = b.size + count in
              let spare : List A = drop (length xs) (fresh n) in
              let large : Buffer A = record { cells = xs ++ spare; size = b.size } in
              let holds : Holds xs large = record {
                spare = spare;
                whole = refl;
                counted = h.counted;
              } in
              let wide : capacity large ≡ n =
                omega (arith, length-append xs spare, length-room (length xs) n, h.counted) in
              let g = push_item_silent_repeat_lem v count xs large holds (omega (arith, wide)) in
              let all : max (capacity b) (length xs + count) ≡ n = omega (arith, h.counted, room) in
              record {
                buffer = g.buffer;
                returned = rw short (
                    ap (λ m. m >>= push_item_silent_repeat v count)
                      (grown_lem xs b b.size n h (omega arith) (omega arith))
                    ∙ g.returned);
                holds = g.holds;
                capacity_is = g.capacity_is ∙ wide ∙ sym all;
              }
        ]
