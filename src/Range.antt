-- ===== src/Range.antt =====
-- libnet/msw/zzz/range/def.hpp: a range is the list of its items. An operation that changes the
-- range returns it last. The overloads for other item types are not here.
pub mod Laws
mod Tests
use rubetek_ios_cpp_releases.Prelude.{
  ℕ, zero, suc, ◌+◌, ◌-◌, min, ◌||◌, List, [], ◌∷◌, length, take, drop, get_elem?, Option, some,
  none, ltb, leb, if◌then◌else◌,
}
use rubetek_ios_cpp_releases.Prelude.Outcome.{Outcome, done, aborted, ◌>>=◌}

module _ {ℓ} {A : Type ℓ} where
  -- operator[]: the assertion wants an item at the index.
  unfoldable pub item : ℕ → List A → Outcome A
  item index r = elim (get_elem? r index) [ none ↦ aborted | some a ↦ done a ]

  unfoldable pub front_item : List A → Outcome A
  front_item [] = aborted
  front_item (a ∷ r) = done a

  unfoldable pub back_item : List A → Outcome A
  back_item [] = aborted
  back_item (a ∷ []) = done a
  back_item (a ∷ b ∷ r) = back_item (b ∷ r)

  unfoldable pub front : ℕ → List A → Outcome (List A)
  front count r = if ltb (length r) count then aborted else done (take count r)

  unfoldable pub front_max : ℕ → List A → Outcome (List A)
  unfolding front
  front_max count r = front (min (length r) count) r

  unfoldable pub back : ℕ → List A → Outcome (List A)
  back count r = if ltb (length r) count then aborted else done (drop (length r - count) r)

  unfoldable pub back_max : ℕ → List A → Outcome (List A)
  unfolding back
  back_max count r = back (min (length r) count) r

  unfoldable pub from_to_front : ℕ → List A → Outcome (List A)
  from_to_front count r = if ltb (length r) count then aborted else done (take count r)

  unfoldable pub from_to_back : ℕ → List A → Outcome (List A)
  from_to_back count r = if ltb (length r) count then aborted else done (drop count r)

  unfoldable pub from_back_to_front : ℕ → List A → Outcome (List A)
  from_back_to_front count r =
      if ltb (length r) count then aborted else done (take (length r - count) r)

  -- The block asserts that its ends are in order.
  unfoldable pub from_to : ℕ → ℕ → List A → Outcome (List A)
  from_to first last r =
      if leb (length r) last || ltb last first
      then aborted
      else done (take (last - first) (drop first r))

  unfoldable pub from_count : ℕ → ℕ → List A → Outcome (List A)
  from_count first count r =
      if ltb (length r) (first + count) then aborted else done (take count (drop first r))

  unfoldable pub pop_front_item : List A → Outcome (A × List A)
  pop_front_item [] = aborted
  pop_front_item (a ∷ r) = done (a, r)

  unfoldable pub pop_front : ℕ → List A → Outcome (List A × List A)
  unfolding front
  pop_front count r = front count r >>= λ p. done (p, drop (length p) r)

  unfoldable pub pop_front_max : ℕ → List A → Outcome (List A × List A)
  unfolding pop_front
  pop_front_max count r = pop_front (min (length r) count) r

  unfoldable pub pop_back_item : List A → Outcome (A × List A)
  unfolding back_item
  pop_back_item r = back_item r >>= λ a. done (a, take (length r - 1) r)

  unfoldable pub pop_back : ℕ → List A → Outcome (List A × List A)
  unfolding back
  pop_back count r = back count r >>= λ p. done (p, take (length r - length p) r)

  unfoldable pub pop_back_max : ℕ → List A → Outcome (List A × List A)
  unfolding pop_back
  pop_back_max count r = pop_back (min (length r) count) r

  unfoldable pub pop_from_to_front : ℕ → List A → Outcome (List A × List A)
  unfolding from_to_front
  pop_from_to_front count r = from_to_front count r >>= λ p. done (p, drop (length p) r)

  unfoldable pub pop_from_to_back : ℕ → List A → Outcome (List A × List A)
  unfolding from_to_back
  pop_from_to_back count r = from_to_back count r >>= λ p. done (p, take (length r - length p) r)

  unfoldable pub crop_front : ℕ → List A → Outcome (List A)
  crop_front count r = if ltb (length r) count then aborted else done (take count r)

  unfoldable pub crop_front_max : ℕ → List A → Outcome (List A)
  unfolding crop_front
  crop_front_max count r = crop_front (min (length r) count) r

  unfoldable pub crop_back : ℕ → List A → Outcome (List A)
  crop_back count r = if ltb (length r) count then aborted else done (drop (length r - count) r)

  unfoldable pub crop_back_max : ℕ → List A → Outcome (List A)
  unfolding crop_back
  crop_back_max count r = crop_back (min (length r) count) r

  unfoldable pub crop_from_to_front : ℕ → List A → Outcome (List A)
  crop_from_to_front back r =
      if ltb (length r) back then aborted else done (take (length r - back) r)

  unfoldable pub crop_from_to_back : ℕ → List A → Outcome (List A)
  crop_from_to_back first r = if ltb (length r) first then aborted else done (drop first r)

  unfoldable pub crop_from_count : ℕ → ℕ → List A → Outcome (List A)
  crop_from_count first count r =
      if ltb (length r) (first + count) then aborted else done (take count (drop first r))
