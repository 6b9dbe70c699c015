-- ===== src/Buffer/Erase.antt =====
-- What the operations of a buffer (zzz/buffer/def.hpp) that remove items make of its contents.
use rubetek_ios_cpp_releases.Prelude.{
  suc, ◌+◌, ◌-◌, ◌≤◌, ◌<◌, ◌≡◌, refl, sym, ap, ◌∙◌, true, false, ◌||◌, List, [], ◌∷◌, ◌++◌,
  append_assoc, length, drop, ltb, leb, arith, le→ltb, length-append, drop-append_eq,
}
use rubetek_ios_cpp_releases.Prelude.Outcome.{done, aborted}
use rubetek_ios_cpp_releases.Buffer.{
  Buffer, contents, capacity, overwrite, copy, erase, erase_range, erase_from_to_front,
  pop_back_count,
}
use rubetek_ios_cpp_releases.Buffer.Grow.{
  Holds, Gives, overwrite-append, contents-Holds, written, length-written, Holds-room,
  drop-append_add,
}

module _ {ℓ} {A : Type ℓ} where
  -- A range of the items goes, with at least one item in it or behind it; those behind it move up,
  -- and the capacity stays.
  pub erase_range-Holds :
      (xs middle ys : List A) (b : Buffer A)
      → Holds (xs ++ (middle ++ ys)) b
      → 0 < length middle + length ys
      → Gives (erase_range (length xs) (length middle) b) (xs ++ ys) (capacity b)
  unfolding erase_range
  erase_range-Holds xs middle ys b h some_left =
      let rest : List A = (middle ++ ys) ++ h.spare in
      let total : b.size ≡ length xs + (length middle + length ys) =
        omega (arith, h.counted, length-append xs (middle ++ ys), length-append middle ys) in
      let inside : leb b.size (length xs) ≡ false = ground arith in
      let moved : drop (length xs + length middle) (contents b) ≡ ys =
        ap (drop (length xs + length middle)) (contents-Holds (xs ++ (middle ++ ys)) b h)
        ∙ drop-append_add xs (middle ++ ys) (length xs + length middle) (length middle) refl
        ∙ drop-append_eq (length middle) middle ys refl in
      let memory : b.cells ≡ xs ++ rest = h.whole ∙ append_assoc xs (middle ++ ys) h.spare in
      let size : b.size - length middle ≡ length xs + length ys = omega arith in
      let cells : overwrite (length xs) ys b.cells ≡ xs ++ (ys ++ drop (length ys) rest) =
        ap (overwrite (length xs) ys) memory ∙ overwrite-append xs ys rest (length xs) refl in
      let fits : length ys ≤ length rest =
        omega (arith, length-append (middle ++ ys) h.spare, length-append middle ys) in
      record {
        buffer = record {
          cells = xs ++ (ys ++ drop (length ys) rest);
          size = b.size - length middle;
        };
        returned = rw (inside, moved, cells) refl;
        holds = written xs ys rest (b.size - length middle) size;
        capacity_is =
            length-written xs ys rest fits ∙ sym (length-append xs rest) ∙ sym (ap length memory);
      }

  -- One item goes, and those behind it move up.
  pub erase-Holds :
      (xs : List A) (v : A) (ys : List A) (b : Buffer A)
      → Holds (xs ++ v ∷ ys) b
      → Gives (erase (length xs) b) (xs ++ ys) (capacity b)
  unfolding erase erase_range
  erase-Holds xs v ys b h =
      let next : length xs + 1 ≡ suc (length xs) = omega arith in
      rw (sym next) (erase_range-Holds xs (v ∷ []) ys b h (omega arith))

  -- The items before one at a place go, those from there on move to the front, and the capacity
  -- stays.
  erase_from_to_front-Holds :
      (xs : List A) (v : A) (ys : List A) (b : Buffer A)
      → Holds (xs ++ v ∷ ys) b
      → Gives (erase_from_to_front (length xs) b) (v ∷ ys) (capacity b)
  unfolding erase_from_to_front copy
  erase_from_to_front-Holds xs v ys b h =
      let total : b.size ≡ length xs + suc (length ys) =
        omega (arith, h.counted, length-append xs (v ∷ ys)) in
      let inside : (ltb b.size (length xs) || leb b.size (length xs)) ≡ false = ground arith in
      let moved : drop (length xs) (contents b) ≡ v ∷ ys =
        ap (drop (length xs)) (contents-Holds (xs ++ v ∷ ys) b h)
        ∙ drop-append_eq (length xs) xs (v ∷ ys) refl in
      let room = Holds-room (xs ++ v ∷ ys) b h in
      let fits : suc (length ys) ≤ capacity b = omega (arith, room, length-append xs (v ∷ ys)) in
      let small : ltb b.size (suc (length ys)) ≡ false =
        le→ltb b.size (suc (length ys)) (omega arith) in
      let size : b.size - length xs ≡ 0 + suc (length ys) = omega arith in
      record {
        buffer = record {
          cells = (v ∷ ys) ++ drop (suc (length ys)) b.cells;
          size = b.size - length xs;
        };
        returned =
            rw (inside, moved, small)
              (ap (λ c. done (record { cells = c; size = b.size - length xs }))
                (overwrite-append [] (v ∷ ys) b.cells 0 refl));
        holds = written [] (v ∷ ys) b.cells (b.size - length xs) size;
        capacity_is = omega (arith, length-written [] (v ∷ ys) b.cells fits);
      }

  -- There has to be an item at the place, though the function's own assertion asks for less.
  pub erase_from_to_front_end : (b : Buffer A) → erase_from_to_front b.size b ≡ aborted
  unfolding erase_from_to_front
  erase_from_to_front_end b =
      let refused : (ltb b.size b.size || leb b.size b.size) ≡ true = ground arith in
      rw refused refl

  -- The last items go.
  pub pop_back_count-Holds :
      (xs ys : List A) (b : Buffer A)
      → Holds (xs ++ ys) b
      → Gives (pop_back_count (length ys) b) xs (capacity b)
  unfolding pop_back_count
  pop_back_count-Holds xs ys b h =
      let total : b.size ≡ length xs + length ys = omega (arith, h.counted, length-append xs ys) in
      let enough : ltb b.size (length ys) ≡ false = le→ltb b.size (length ys) (omega arith) in
      record {
        buffer = record b { size = b.size - length ys };
        returned = rw enough refl;
        holds = record {
          spare = ys ++ h.spare;
          whole = h.whole ∙ append_assoc xs ys h.spare;
          counted = omega arith;
        };
        capacity_is = refl;
      }
