-- ===== src/Train/Wrapper/Stream.antt =====
-- The packets of the wrapper (train/wrapper.hpp) carry its wagons as one stream.
use rubetek_ios_cpp_releases.Prelude.{
  ℕ, zero, suc, ◌-◌, ◌≤◌, ◌<◌, min, ◌≡◌, refl, sym, ap, ◌∙◌, ◌⊎◌, inl, inr, false, List, [], ◌∷◌,
  ◌++◌, append_assoc, append-nil, length, is_empty, take, drop, map, concat, All, All-append, to_le,
  ◌==◌, if◌then◌else◌, arith, Bool-cases, le→ltb, length-append, length-take, length-drop,
  take-append-drop, drop-append_le,
}
use rubetek_ios_cpp_releases.Prelude.Outcome.{done, ◌>>=◌}
use rubetek_ios_cpp_releases.Dimension
use rubetek_ios_cpp_releases.Train.Wrapper.{Wrapper, flush, start_packet, add_wagon_loop}

-- What a packet carries behind its header.
abbrev pub payload : List ℕ → List ℕ
payload packet = drop 4 packet

abbrev pub payloads : List (List ℕ) → List ℕ
payloads packets = concat (map payload packets)

-- No packet is begun, or one with its header that has room left.
pub record IsOpen (t : Wrapper) : Type 0 where
  pub large : 4 < t.packet_size
  pub room : length t.packet < t.packet_size
  pub begun : (t.packet ≡ []) ⊎ (4 ≤ length t.packet)

start_packet_lem :
    (wagon_size left : ℕ) (t : Wrapper)
    → IsOpen t
    → (4 ≤ length (start_packet wagon_size left t).packet)
      × (length (start_packet wagon_size left t).packet < t.packet_size)
      × (payload (start_packet wagon_size left t).packet ≡ payload t.packet)
      × ((start_packet wagon_size left t).packet_size ≡ t.packet_size)
      × ((start_packet wagon_size left t).memory ≡ t.memory)
unfolding start_packet Dimension.increment to_le
start_packet_lem wagon_size left t h = cases t.packet refl
  where
    cases :
        (p : List ℕ)
        → t.packet ≡ p
        → (4 ≤ length (start_packet wagon_size left t).packet)
          × (length (start_packet wagon_size left t).packet < t.packet_size)
          × (payload (start_packet wagon_size left t).packet ≡ payload t.packet)
          × ((start_packet wagon_size left t).packet_size ≡ t.packet_size)
          × ((start_packet wagon_size left t).memory ≡ t.memory)
    cases [] e = rw e (omega arith, h.large, refl, refl, refl)
    cases (x ∷ xs) e =
        let room : length (x ∷ xs) < t.packet_size = omega (arith, h.room, ap length e) in
        let big : 4 ≤ length (x ∷ xs) = elim h.begun [
          | inl f ↦ absurd (omega (arith, ap length (sym e ∙ f)))
          | inr k ↦ omega (arith, k, ap length e)
        ] in
        rw e (big, room, refl, refl, refl)

-- A round's packet, full or not: the new state and what is sent.
closed : Wrapper → Wrapper × List (List ℕ)
unfolding flush
closed v = if v.packet_size == length v.packet then flush v else (v, [])

closed_lem :
    (v : Wrapper)
    → 4 < v.packet_size
    → 4 ≤ length v.packet
    → length v.packet ≤ v.packet_size
    → IsOpen (closed v).0
      × (payloads (closed v).1 ++ payload (closed v).0.packet ≡ payload v.packet)
      × All (λ p. length p ≡ v.packet_size) (closed v).1
      × ((closed v).0.packet_size ≡ v.packet_size)
      × ((closed v).0.memory ≡ v.memory)
unfolding closed flush
closed_lem v hl hb hr = elim (Bool-cases (v.packet_size == length v.packet)) [
  | inl full ↦
      let same : length v.packet ≡ v.packet_size = ground arith in
      let some_bytes : is_empty v.packet ≡ false = begun v.packet (omega arith) in
      let empty : IsOpen (record v { packet = [] }) = record {
        large = hl;
        room = omega arith;
        begun = inl refl;
      } in
      rw (full, some_bytes) (empty, append-nil _ ∙ append-nil _, (same, tt), refl, refl)
  | inr partial ↦
      let less : length v.packet < v.packet_size = ground arith in
      rw partial (record { large = hl; room = less; begun = inr hb }, refl, tt, refl, refl)
]
  where
    begun : (p : List ℕ) → 4 ≤ length p → is_empty p ≡ false
    begun [] h = absurd (omega arith)
    begun (x ∷ xs) h = refl

-- How many bytes a round takes, and the packet with them.
taken : ℕ → List ℕ → Wrapper → ℕ
unfolding start_packet
taken wagon_size bytes t =
    let u = start_packet wagon_size (length bytes) t in
    min (length bytes) (u.packet_size - length u.packet)

filled : ℕ → List ℕ → Wrapper → Wrapper
unfolding start_packet taken
filled wagon_size bytes t =
    let u = start_packet wagon_size (length bytes) t in
    record u { packet = u.packet ++ take (taken wagon_size bytes t) bytes }

add_wagon_loop-round :
    (fuel wagon_size b : ℕ) (bs : List ℕ) (t : Wrapper)
    → length (filled wagon_size (b ∷ bs) t).packet ≤ (filled wagon_size (b ∷ bs) t).packet_size
    → add_wagon_loop (suc fuel) wagon_size (b ∷ bs) t ≡ (
        add_wagon_loop fuel wagon_size
          (drop (taken wagon_size (b ∷ bs) t) (b ∷ bs))
          (closed (filled wagon_size (b ∷ bs) t)).0
        >>= λ r. done (r.0, (closed (filled wagon_size (b ∷ bs) t)).1 ++ r.1))
unfolding add_wagon_loop filled taken closed
add_wagon_loop-round fuel wagon_size b bs t h = rw (le→ltb _ _ h) refl

filled_lem :
    (wagon_size : ℕ) (bytes : List ℕ) (t : Wrapper)
    → IsOpen t
    → 0 < length bytes
    → (4 ≤ length (filled wagon_size bytes t).packet)
      × (length (filled wagon_size bytes t).packet ≤ t.packet_size)
      × (payload (filled wagon_size bytes t).packet
          ≡ payload t.packet ++ take (taken wagon_size bytes t) bytes)
      × ((filled wagon_size bytes t).packet_size ≡ t.packet_size)
      × (0 < taken wagon_size bytes t)
      × ((filled wagon_size bytes t).memory ≡ t.memory)
unfolding filled taken
filled_lem wagon_size bytes t h some_bytes =
    let (big, room, same, size, memory) = start_packet_lem wagon_size (length bytes) t h in
    let u : Wrapper = start_packet wagon_size (length bytes) t in
    let n : ℕ = min (length bytes) (u.packet_size - length u.packet) in
    let all = length-append u.packet (take n bytes) in
    (
      omega (arith, all),
      omega (arith, all, length-take n bytes, size),
      drop-append_le 4 u.packet (take n bytes) big ∙ ap (λ p. p ++ take n bytes) same,
      size,
      omega (arith, size),
      memory,
    )

pub payloads-append : (xs ys : List (List ℕ)) → payloads (xs ++ ys) ≡ payloads xs ++ payloads ys
payloads-append [] ys = refl
payloads-append (x ∷ xs) ys =
    ap (◌++◌ (payload x)) (payloads-append xs ys)
    ∙ sym (append_assoc (payload x) (payloads xs) (payloads ys))

All-size :
    (packets : List (List ℕ)) (m n : ℕ)
    → m ≡ n
    → All (λ p. length p ≡ m) packets
    → All (λ p. length p ≡ n) packets
All-size [] m n e h = tt
All-size (p ∷ ps) m n e (hp, h) = (hp ∙ e, All-size ps m n e h)

-- The loop ends, and puts the wagon's bytes into packets one behind the other.
pub add_wagon_loop_lem :
    (fuel wagon_size : ℕ) (bytes : List ℕ) (t : Wrapper)
    → IsOpen t
    → length bytes ≤ fuel
    → (u : Wrapper) × (sent : List (List ℕ)) × (add_wagon_loop fuel wagon_size bytes t
        ≡ done (u, sent))
      × IsOpen u
      × (payloads sent ++ payload u.packet ≡ payload t.packet ++ bytes)
      × All (λ p. length p ≡ t.packet_size) sent
      × (u.packet_size ≡ t.packet_size)
      × (u.memory ≡ t.memory)
unfolding add_wagon_loop
add_wagon_loop_lem zero wagon_size [] t h hf =
    (t, [], refl, h, sym (append-nil (payload t.packet)), tt, refl, refl)
add_wagon_loop_lem (suc fuel) wagon_size [] t h hf =
    (t, [], refl, h, sym (append-nil (payload t.packet)), tt, refl, refl)
add_wagon_loop_lem zero wagon_size (b ∷ bs) t h hf = absurd (omega arith)
add_wagon_loop_lem (suc fuel) wagon_size (b ∷ bs) t h hf =
    let bytes : List ℕ = b ∷ bs in
    let n : ℕ = taken wagon_size bytes t in
    let v : Wrapper = filled wagon_size bytes t in
    let (big, room, same, size, some_taken, memory) =
      filled_lem wagon_size bytes t h (omega arith) in
    let (opened, flow, sizes, kept, memory_closed) =
      closed_lem v (omega (arith, size, h.large)) big (omega (arith, size)) in
    let shorter : length (drop n bytes) ≤ fuel = omega (arith, length-drop n bytes) in
    let (u, sent, run, hu, rest, hs, hk, hm) =
      add_wagon_loop_lem fuel wagon_size (drop n bytes) (closed v).0 opened shorter in
    let stream : payloads ((closed v).1 ++ sent) ++ payload u.packet ≡ payload t.packet ++ bytes =
      ap (λ l. l ++ payload u.packet) (payloads-append (closed v).1 sent)
      ∙ append_assoc (payloads (closed v).1) (payloads sent) (payload u.packet)
      ∙ ap (◌++◌ (payloads (closed v).1)) rest
      ∙ sym (append_assoc (payloads (closed v).1) (payload (closed v).0.packet) (drop n bytes))
      ∙ ap (λ l. l ++ drop n bytes) (flow ∙ same)
      ∙ append_assoc (payload t.packet) (take n bytes) (drop n bytes)
      ∙ ap (◌++◌ (payload t.packet)) (take-append-drop n bytes) in
    (
      u,
      (closed v).1 ++ sent,
      add_wagon_loop-round fuel wagon_size b bs t (omega (arith, size)) ∙ rw run refl,
      hu,
      stream,
      All-append _ (closed v).1 sent (All-size _ _ _ size sizes) (All-size _ _ _ (kept ∙ size) hs),
      hk ∙ kept ∙ size,
      hm ∙ memory_closed ∙ memory,
    )
