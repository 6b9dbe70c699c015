-- ===== src/Range/Laws.antt =====
-- How the operations of a range (zzz/range/def.hpp) fit together.
use rubetek_ios_cpp_releases.Prelude.{
  ℕ, ◌+◌, ◌-◌, ◌≤◌, ◌<◌, min, ◌≡◌, refl, inl, inr, List, ◌++◌, length, take, drop, ltb, arith,
  Bool-cases, le→ltb, lt→ltb, ltb→lt, ltb→le, length-take, length-drop, take-append-drop,
}
use rubetek_ios_cpp_releases.Prelude.Outcome.{done, ◌>>=◌}
use rubetek_ios_cpp_releases.Range.{
  front, back, from_to_back, from_count, pop_front, pop_front_max, pop_back, pop_back_max,
}

module _ {ℓ} {A : Type ℓ} where
  -- pop_front_max always succeeds, with as many items as there are but at most the count, and
  -- these and the rest are the range.
  pop_front_max-split :
      (count : ℕ) (r : List A)
      → (p rest : List A) × (pop_front_max count r ≡ done (p, rest))
        × (p ++ rest ≡ r)
        × (length p ≡ min (length r) count)
  unfolding pop_front_max pop_front front
  pop_front_max-split count r =
      let n : ℕ = min (length r) count in
      let size : length (take n r) ≡ n = omega (arith, length-take n r) in
      (
        take n r,
        drop n r,
        rw (le→ltb (length r) n (omega arith), size) refl,
        take-append-drop n r,
        size,
      )

  -- pop_back_max always succeeds, with as many items as there are but at most the count, and the
  -- rest and these are the range.
  pop_back_max-split :
      (count : ℕ) (r : List A)
      → (rest p : List A) × (pop_back_max count r ≡ done (p, rest))
        × (rest ++ p ≡ r)
        × (length p ≡ min (length r) count)
  unfolding pop_back_max pop_back back
  pop_back_max-split count r =
      let n : ℕ = min (length r) count in
      let size : length (drop (length r - n) r) ≡ n = omega (arith, length-drop (length r - n) r) in
      (
        take (length r - n) r,
        drop (length r - n) r,
        rw (le→ltb (length r) n (omega arith), size) refl,
        take-append-drop (length r - n) r,
        size,
      )

  -- from_count gives what front gives of the range from the first place to the back, also where
  -- one of them fails.
  from_count-front :
      (first count : ℕ) (r : List A)
      → from_count first count r ≡ (from_to_back first r >>= front count)
  unfolding from_count from_to_back front
  from_count-front first count r = elim (Bool-cases (ltb (length r) first)) [
    | inl short ↦
        let less : length r < first = ltb→lt (length r) first short in
        rw (short, lt→ltb (length r) (first + count) (omega arith)) refl
    | inr enough ↦
        let le : first ≤ length r = ltb→le (length r) first enough in
        let left = length-drop first r in
        elim (Bool-cases (ltb (length r) (first + count))) [
          | inl short ↦
              let less : length r < first + count = ltb→lt (length r) (first + count) short in
              rw (enough, short, lt→ltb (length (drop first r)) count (omega (arith, left))) refl
          | inr fits ↦
              let room : first + count ≤ length r = ltb→le (length r) (first + count) fits in
              rw (enough, fits, le→ltb (length (drop first r)) count (omega (arith, left))) refl
        ]
  ]
