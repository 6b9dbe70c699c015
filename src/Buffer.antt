-- ===== src/Buffer.antt =====
-- libnet/msw/zzz/buffer/def.hpp: a block of memory whose first `size` items are in use. Items are of
-- a byte-plain type that fills its cells, so that the allocator gives just the capacity asked for.
pub mod Grow
pub mod Erase
pub mod Access
mod Tests
use rubetek_ios_cpp_releases.Prelude.{
  ℕ, zero, suc, ◌+◌, ◌-◌, ◌*◌, max, ◌||◌, List, [], ◌∷◌, ◌++◌, length, take, drop, ltb, leb, ◌==◌,
  if◌then◌else◌,
}
use rubetek_ios_cpp_releases.Prelude.Outcome.{Outcome, done, aborted, ◌>>=◌}

pub record Buffer {ℓ} (A : Type ℓ) : Type ℓ where
  pub cells : List A
  pub size : ℕ

module _ {ℓ} {A : Type ℓ} where
  -- all()
  abbrev pub contents : Buffer A → List A
  contents b = take b.size b.cells

  abbrev pub capacity : Buffer A → ℕ
  capacity b = length b.cells

  abbrev pub free_space : Buffer A → ℕ
  free_space b = capacity b - b.size

  -- The memory after a memmove to this place.
  unfoldable pub overwrite : ℕ → List A → List A → List A
  overwrite at items cells = take at cells ++ (items ++ drop (at + length items) cells)

  -- copy with the buffer as destination
  unfoldable pub copy : List A → Buffer A → Outcome (Buffer A)
  unfolding overwrite
  copy r b =
      if ltb b.size (length r) then aborted else done (record b { cells = overwrite 0 r b.cells })

  unfoldable pub copy_to_back : List A → Buffer A → Outcome (Buffer A)
  unfolding overwrite
  copy_to_back r b =
      if ltb b.size (length r)
      then aborted
      else done (record b { cells = overwrite (b.size - length r) r b.cells })

  unfoldable pub increase_size_silent : ℕ → Buffer A → Outcome (Buffer A)
  increase_size_silent count b =
      if ltb (free_space b) count then aborted else done (record b { size = b.size + count })

  unfoldable pub resize_silent : ℕ → Buffer A → Outcome (Buffer A)
  resize_silent count b =
      if ltb (capacity b) count then aborted else done (record b { size = count })

  unfoldable pub assign_silent : List A → Buffer A → Outcome (Buffer A)
  unfolding resize_silent copy
  assign_silent r b = resize_silent (length r) b >>= copy r

  -- The overload for one item.
  unfoldable pub push_item_silent : A → Buffer A → Outcome (Buffer A)
  unfolding overwrite
  push_item_silent v b =
      if free_space b == 0
      then aborted
      else done (record { cells = overwrite b.size (v ∷ []) b.cells; size = b.size + 1 })

  unfoldable pub push_back_silent : List A → Buffer A → Outcome (Buffer A)
  unfolding increase_size_silent copy_to_back
  push_back_silent r b = increase_size_silent (length r) b >>= copy_to_back r

  unfoldable pub push_item_silent_repeat : A → ℕ → Buffer A → Outcome (Buffer A)
  unfolding push_item_silent
  push_item_silent_repeat v zero b = done b
  push_item_silent_repeat v (suc count) b = push_item_silent v b >>= push_item_silent_repeat v count

  unfoldable pub push_back_silent_repeat : List A → ℕ → Buffer A → Outcome (Buffer A)
  unfolding push_back_silent
  push_back_silent_repeat r zero b = done b
  push_back_silent_repeat r (suc count) b = push_back_silent r b >>= push_back_silent_repeat r count

  unfoldable pub pop_back : Buffer A → Outcome (Buffer A)
  pop_back b = if b.size == 0 then aborted else done (record b { size = b.size - 1 })

  unfoldable pub pop_back_count : ℕ → Buffer A → Outcome (Buffer A)
  pop_back_count count b =
      if ltb b.size count then aborted else done (record b { size = b.size - count })

  -- begin(index) asserts that there is such an item; the items behind it move to its place.
  unfoldable pub erase : ℕ → Buffer A → Outcome (Buffer A)
  unfolding overwrite
  erase index b =
      if leb b.size index
      then aborted
      else done (record {
        cells = overwrite index (drop (suc index) (contents b)) b.cells;
        size = b.size - 1;
      })

  -- The overload for a range of the buffer, by its place and size.
  unfoldable pub erase_range : ℕ → ℕ → Buffer A → Outcome (Buffer A)
  unfolding overwrite
  erase_range first count b =
      if leb b.size first
      then aborted
      else done (record {
        cells = overwrite first (drop (first + count) (contents b)) b.cells;
        size = b.size - count;
      })

  -- Its own assertion lets `pos` be the size; that of begin(index) does not.
  unfoldable pub erase_from_to_front : ℕ → Buffer A → Outcome (Buffer A)
  unfolding copy
  erase_from_to_front pos b =
      if ltb b.size pos || leb b.size pos
      then aborted
      else (copy (drop pos (contents b)) b >>= λ c. done (record c { size = c.size - pos }))

  unfoldable pub erase_from_to_back : ℕ → Buffer A → Buffer A
  erase_from_to_back new_end b = record b { size = new_end }

  unfoldable pub clear : Buffer A → Buffer A
  clear b = record b { size = 0 }

  -- `fresh n` is what the allocator's memory for n items happens to hold.
  module _ (fresh : ℕ → List A) where
    unfoldable pub construct : ℕ → ℕ → Outcome (Buffer A)
    construct size capacity =
        if ltb capacity size then aborted else done (record { cells = fresh capacity; size = size })

    -- buffer(const_range), and the copy constructor
    unfoldable pub from_range : List A → Outcome (Buffer A)
    unfolding construct copy
    from_range r = construct (length r) (length r) >>= copy r

    unfoldable pub assign : List A → Buffer A → Outcome (Buffer A)
    unfolding from_range assign_silent
    assign r b = if ltb (capacity b) (length r) then from_range r else assign_silent r b

    unfoldable pub shrink_to_fit : Buffer A → Outcome (Buffer A)
    unfolding from_range
    shrink_to_fit b = from_range (contents b)

    unfoldable pub reserve : ℕ → Buffer A → Outcome (Buffer A)
    unfolding construct copy
    reserve count b =
        if ltb (capacity b) count then (construct b.size count >>= copy (contents b)) else done b

    unfoldable pub resize : ℕ → Buffer A → Outcome (Buffer A)
    unfolding reserve resize_silent
    resize count b = reserve count b >>= resize_silent count

    unfoldable pub increase_size : ℕ → Buffer A → Outcome (Buffer A)
    unfolding resize
    increase_size count b = resize (b.size + count) b

    -- The new memory of a growing buffer, with the old items at its front.
    unfoldable pub grown : ℕ → ℕ → Buffer A → Outcome (Buffer A)
    unfolding construct copy
    grown size capacity b = construct size capacity >>= copy (contents b)

    unfoldable pub push_back_jump : List A → ℕ → Buffer A → Outcome (Buffer A)
    unfolding push_back_silent grown copy_to_back
    push_back_jump r jump b =
        let size = b.size + max (length r) jump in
        if leb (length r) (free_space b)
        then push_back_silent r b
        else (grown size size b >>= copy_to_back r)

    -- The overload for one item.
    unfoldable pub push_item : A → Buffer A → Outcome (Buffer A)
    unfolding overwrite grown copy_to_back
    push_item v b =
        if free_space b == 0
        then (grown (b.size + 1) (b.size + 1) b >>= copy_to_back (v ∷ []))
        else done (record { cells = overwrite b.size (v ∷ []) b.cells; size = b.size + 1 })

    unfoldable pub push_back : List A → Buffer A → Outcome (Buffer A)
    unfolding push_back_silent grown copy_to_back
    push_back r b =
        let size = b.size + length r in
        if leb (length r) (free_space b)
        then push_back_silent r b
        else (grown size size b >>= copy_to_back r)

    unfoldable pub push_item_repeat : A → ℕ → Buffer A → Outcome (Buffer A)
    unfolding push_item_silent_repeat grown
    push_item_repeat v count b =
        if leb count (free_space b)
        then push_item_silent_repeat v count b
        else (grown b.size (b.size + count) b >>= push_item_silent_repeat v count)

    -- The growing branch copies `r` over the last items before it appends the copies.
    unfoldable pub push_back_repeat : List A → ℕ → Buffer A → Outcome (Buffer A)
    unfolding push_back_silent_repeat grown copy_to_back
    push_back_repeat r count b =
        if leb (length r * count) (free_space b)
        then push_back_silent_repeat r count b
        else (grown b.size (b.size + length r * count) b
            >>= copy_to_back r
            >>= push_back_silent_repeat r count)
