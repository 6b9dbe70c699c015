-- ===== src/Buffer/Access.antt =====
-- The parts of a buffer (zzz/buffer/def.hpp) that ask the range of its contents.
use rubetek_ios_cpp_releases.Prelude.{
  ℕ, ◌-◌, ◌≡◌, refl, ap, ◌∙◌, false, List, ◌++◌, length, ltb, arith, le→ltb, length-append,
  take-append_eq, drop-append_eq,
}
use rubetek_ios_cpp_releases.Prelude.Outcome.{Outcome, done}
use rubetek_ios_cpp_releases.Range
use rubetek_ios_cpp_releases.Buffer.{Buffer, contents, push_back}
use rubetek_ios_cpp_releases.Buffer.Grow.{Holds, contents-Holds, push_back-Holds}

module _ {ℓ} {A : Type ℓ} where
  unfoldable pub item : ℕ → Buffer A → Outcome A
  unfolding Range.item
  item index b = Range.item index (contents b)

  unfoldable pub front_item : Buffer A → Outcome A
  unfolding Range.front_item
  front_item b = Range.front_item (contents b)

  unfoldable pub front : ℕ → Buffer A → Outcome (List A)
  unfolding Range.front
  front count b = Range.front count (contents b)

  unfoldable pub front_max : ℕ → Buffer A → Outcome (List A)
  unfolding Range.front_max
  front_max count b = Range.front_max count (contents b)

  unfoldable pub back_item : Buffer A → Outcome A
  unfolding Range.back_item
  back_item b = Range.back_item (contents b)

  unfoldable pub back : ℕ → Buffer A → Outcome (List A)
  unfolding Range.back
  back count b = Range.back count (contents b)

  unfoldable pub back_max : ℕ → Buffer A → Outcome (List A)
  unfolding Range.back_max
  back_max count b = Range.back_max count (contents b)

  unfoldable pub from_to_front : ℕ → Buffer A → Outcome (List A)
  unfolding Range.from_to_front
  from_to_front count b = Range.from_to_front count (contents b)

  unfoldable pub from_to_back : ℕ → Buffer A → Outcome (List A)
  unfolding Range.from_to_back
  from_to_back count b = Range.from_to_back count (contents b)

  unfoldable pub from_to : ℕ → ℕ → Buffer A → Outcome (List A)
  unfolding Range.from_to
  from_to first last b = Range.from_to first last (contents b)

  unfoldable pub from_count : ℕ → ℕ → Buffer A → Outcome (List A)
  unfolding Range.from_count
  from_count first count b = Range.from_count first count (contents b)

  module _ (fresh : ℕ → List A) (length-fresh : (n : ℕ) → length (fresh n) ≡ n) where
    -- After a push_back of a range, `back` of its size gives the range, and `front` of the old
    -- size gives the old items, where the allocator gives memory of the size asked for.
    push_back-front :
        (r xs : List A) (b : Buffer A)
        → Holds xs b
        → (c : Buffer A) × (push_back fresh r b ≡ done c)
          × (front (length xs) c ≡ done xs)
          × (back (length r) c ≡ done r)
    unfolding front back
    push_back-front r xs b h =
        let g = push_back-Holds fresh length-fresh r xs b h in
        let all : contents g.buffer ≡ xs ++ r = contents-Holds (xs ++ r) g.buffer g.holds in
        let size = length-append xs r in
        let before : ltb (length (xs ++ r)) (length xs) ≡ false =
          le→ltb _ _ (omega (arith, size)) in
        let behind : ltb (length (xs ++ r)) (length r) ≡ false = le→ltb _ _ (omega (arith, size)) in
        let start : length (xs ++ r) - length r ≡ length xs = omega (arith, size) in
        (
          g.buffer,
          g.returned,
          ap (Range.front (length xs)) all ∙ rw (before, take-append_eq (length xs) xs r refl) refl,
          ap (Range.back (length r)) all ∙ rw (behind, drop-append_eq _ xs r start) refl,
        )
