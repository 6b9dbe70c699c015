-- ===== src/Train/Wrapper/Blocks.antt =====
-- What the wrapper (train/wrapper.hpp) makes of a block, by its size.
use rubetek_ios_cpp_releases.Prelude.{
  ℕ, zero, suc, ◌+◌, ◌-◌, ◌%◌, ◌≤◌, ◌<◌, ◌≡◌, refl, sym, ap, ◌∙◌, inl, inr, true, false, Bool-cases,
  List, [], ◌∷◌, ◌++◌, append_assoc, append-nil, concat, length, take, drop, All, to_le, ltb, leb,
  ◌==◌, if◌then◌else◌, arith, le→ltb, length-append, length-take, length-drop,
}
use rubetek_ios_cpp_releases.Prelude.Outcome.{done, thrown, aborted}
use rubetek_ios_cpp_releases.Train.{Block, wagon_max_size, wagon_header_size}
use rubetek_ios_cpp_releases.Train.Wrapper.{
  Wrapper, mod_back, wagon_header, add_wagon, add_wagon_loop, add_block, add_all, flush,
}
use rubetek_ios_cpp_releases.Train.Wrapper.Stream.{
  IsOpen, payload, payloads, payloads-append, add_wagon_loop_lem,
}

take-append_add :
    (xs ys : List ℕ) (m n : ℕ) → m ≡ length xs + n → take m (xs ++ ys) ≡ xs ++ take n ys
take-append_add [] ys m n e = let same : m ≡ n = omega arith in ap (λ k. take k ys) same
take-append_add (x ∷ xs) ys zero n e = absurd (omega arith)
take-append_add (x ∷ xs) ys (suc m) n e = ap (◌∷◌ x) (take-append_add xs ys m n (omega arith))

mod_back-small : (n : ℕ) → n ≤ 65520 → n + mod_back n 4 ≤ 65520
unfolding mod_back
mod_back-small n h = ground arith

mod_back-even : (n : ℕ) → (12 + (n + mod_back n 4)) % 4 ≡ 0
unfolding mod_back
mod_back-even n = ground arith

length-wagon_header : (b : Block) → length (wagon_header b) ≡ 12
unfolding wagon_header to_le
length-wagon_header b = refl

-- The memory of `wagon_` behind the header.
abbrev pub HasMemory : Wrapper → Type 0
HasMemory t = length t.memory ≡ wagon_max_size - wagon_header_size

-- The bytes of a wagon: some bytes of memory pad the block.
padded :
    (bytes memory : List ℕ)
    → take (length bytes + mod_back (length bytes) 4) (bytes ++ drop (length bytes) memory)
      ≡ bytes ++ take (mod_back (length bytes) 4) (drop (length bytes) memory)
padded bytes memory =
    take-append_add bytes (drop (length bytes) memory) _ (mod_back (length bytes) 4) refl

-- A block of at most 65520 bytes goes to the loop as its wagon.
pub add_block_wagon :
    (b : Block) (t : Wrapper)
    → HasMemory t
    → length b.bytes ≤ 65520
    → (padding memory : List ℕ) × (length padding ≡ mod_back (length b.bytes) 4)
      × HasMemory (record t { memory = memory })
      × (let wagon = wagon_header b ++ (b.bytes ++ padding) in
          add_block b t
          ≡ add_wagon_loop (length wagon) (length wagon) wagon (record t { memory = memory }))
unfolding add_block add_wagon
add_block_wagon b t hm hn =
    let n : ℕ = length b.bytes in
    let pad : ℕ = mod_back n 4 in
    let padding : List ℕ = take pad (drop n t.memory) in
    let fits : n + pad ≤ 65520 = mod_back-small n hn in
    let long : length padding ≡ pad =
      omega (arith, length-take pad (drop n t.memory), length-drop n t.memory, hm) in
    let wagon : List ℕ = wagon_header b ++ (b.bytes ++ padding) in
    let size : length wagon ≡ 12 + (n + pad) = omega (
      arith,
      length-append (wagon_header b) (b.bytes ++ padding),
      length-append b.bytes padding,
      length-wagon_header b,
    ) in
    let even : length wagon % 4 ≡ 0 = rw size (mod_back-even n) in
    let aligned : (length wagon % 4 == 0) ≡ true = ground arith in
    let memory : HasMemory (record t { memory = b.bytes ++ drop n t.memory }) =
      omega (arith, length-append b.bytes (drop n t.memory), length-drop n t.memory, hm) in
    let small : leb (wagon_max_size - wagon_header_size) n ≡ false = ground arith in
    let within : ltb wagon_max_size (wagon_header_size + n + pad) ≡ false =
      le→ltb _ _ (omega arith) in
    (
      padding,
      b.bytes ++ drop n t.memory,
      long,
      memory,
      rw (small, within, padded b.bytes t.memory, aligned) refl,
    )

-- Its packets carry it behind what the open packet holds already.
pub add_block_sent :
    (b : Block) (t : Wrapper)
    → IsOpen t
    → HasMemory t
    → length b.bytes ≤ 65520
    → (u : Wrapper) × (sent : List (List ℕ)) × (padding : List ℕ) × (add_block b t ≡ done (u, sent))
      × IsOpen u
      × HasMemory u
      × (length padding ≡ mod_back (length b.bytes) 4)
      × (payloads sent ++ payload u.packet
          ≡ payload t.packet ++ (wagon_header b ++ (b.bytes ++ padding)))
      × All (λ p. length p ≡ t.packet_size) sent
      × (u.packet_size ≡ t.packet_size)
add_block_sent b t h hm hn =
    let (padding, memory, long, hm', run) = add_block_wagon b t hm hn in
    let wagon : List ℕ = wagon_header b ++ (b.bytes ++ padding) in
    let t' : Wrapper = record t { memory = memory } in
    let h' : IsOpen t' = record { large = h.large; room = h.room; begun = h.begun } in
    let (u, sent, loop, hu, stream, sizes, kept, same_memory) =
      add_wagon_loop_lem (length wagon) (length wagon) wagon t' h' (omega arith) in
    let hu_memory : HasMemory u = omega (arith, ap length same_memory, hm') in
    (u, sent, padding, run ∙ loop, hu, hu_memory, long, stream, sizes, kept)

-- A block of more than 65520 bytes is refused, but one of 65521 or 65522 bytes passes the test for
-- that, and then its padding does not fit the memory of `wagon_`.
pub add_block_too_large :
    (b : Block) (t : Wrapper)
    → 65520 < length b.bytes
    → add_block b t ≡ (if leb 65523 (length b.bytes) then thrown else aborted)
unfolding add_block mod_back
add_block_too_large b t h = elim (Bool-cases (leb 65523 (length b.bytes))) [
  | inl refused ↦ rw refused refl
  | inr passed ↦
      let n : ℕ = length b.bytes in
      let wide : ltb wagon_max_size (wagon_header_size + n + mod_back n 4) ≡ true = ground arith in
      rw (passed, wide) refl
]

-- The wagons of blocks: header, block and padding.
pub data Wagons : List Block → List (List ℕ) → Type 0 where
  no_wagon : Wagons [] []
  wagon :
      {bs : List Block} {ws : List (List ℕ)} (b : Block) (padding : List ℕ)
      → length padding ≡ mod_back (length b.bytes) 4
      → Wagons bs ws
      → Wagons (b ∷ bs) ((wagon_header b ++ (b.bytes ++ padding)) ∷ ws)

flush_lem : (t : Wrapper) → (payloads (flush t).1 ≡ payload t.packet) × ((flush t).0.packet ≡ [])
unfolding flush
flush_lem t = cases t.packet refl
  where
    cases :
        (p : List ℕ)
        → t.packet ≡ p
        → (payloads (flush t).1 ≡ payload t.packet) × ((flush t).0.packet ≡ [])
    cases [] e = rw e (refl, refl)
    cases (x ∷ xs) e = rw e (append-nil _, refl)

-- Blocks of at most 65520 bytes each are all sent by a wrapper whose open packet has room and
-- whose wagon memory is whole: behind what the open packet holds already, the payloads of the
-- packets are the wagons of the blocks in order, and nothing stays behind.
pub add_all_sent :
    (bs : List Block) (t : Wrapper)
    → IsOpen t
    → HasMemory t
    → All (λ b. length b.bytes ≤ 65520) bs
    → (u : Wrapper) × (sent wagons : List (List ℕ)) × (add_all bs t ≡ done (u, sent))
      × Wagons bs wagons
      × (payloads sent ≡ payload t.packet ++ concat wagons)
      × (u.packet ≡ [])
unfolding add_all
add_all_sent [] t h hm hs =
    let (all, empty) = flush_lem t in
    ((flush t).0, (flush t).1, [], refl, no_wagon, all ∙ sym (append-nil (payload t.packet)), empty)
add_all_sent (b ∷ bs) t h hm (hb, hs) =
    let (u, sent, padding, run, hu, mu, long, stream, sizes, kept) = add_block_sent b t h hm hb in
    let (v, more, wagons, rest, hw, tail, empty) = add_all_sent bs u hu mu hs in
    let w : List ℕ = wagon_header b ++ (b.bytes ++ padding) in
    let all : payloads (sent ++ more) ≡ payload t.packet ++ (w ++ concat wagons) =
      payloads-append sent more
      ∙ ap (◌++◌ (payloads sent)) tail
      ∙ sym (append_assoc (payloads sent) (payload u.packet) (concat wagons))
      ∙ ap (λ l. l ++ concat wagons) stream
      ∙ append_assoc (payload t.packet) w (concat wagons) in
    (v, sent ++ more, w ∷ wagons, rw (run, rest) refl, wagon b padding long hw, all, empty)
