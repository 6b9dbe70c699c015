-- ===== src/Spp/Packer/Blocks.antt =====
-- Whole packets: a header, then the blocks one after the other.
use native.Mathlib.Nat.{one-le-pow}
use rubetek_ios_cpp_releases.Prelude.{
  Bool-cases, inl, inr, ℕ, ◌+◌, ◌^◌, ◌≤◌, ◌<◌, ◌≡◌, refl, sym, ap, ◌∙◌, List, [], ◌∷◌, ◌++◌,
  append_assoc, append-nil, length, concat, arith, is_empty, to_le, if◌then◌else◌, length-append,
  length-to_le, le→ltb, lt→ltb,
}
use native.Mathlib.Decide.{dec_lt}
use rubetek_ios_cpp_releases.Prelude.Outcome.{done, thrown}
use rubetek_ios_cpp_releases.Spp.{max_size}
use rubetek_ios_cpp_releases.Spp.Framing.{frame, length-frame}
use rubetek_ios_cpp_releases.Spp.Packer.{
  Packer, zzz_flush, flush, start, zzz_add_header, zzz_add_header_silent, put_to_last_packet,
  put_blocks, put_blocks_silent, put_packet, put_packet_silent, add_packet,
}
use rubetek_ios_cpp_releases.Spp.Packer.Laws.{IsOpen, Keeps, put-IsOpen, put_silent-IsOpen}

-- Where the next header goes.
abbrev pub started : Packer → List ℕ
started p = if is_empty p.buf then p.front else p.buf

zero_lt_pow : (w : ℕ) → 0 < 256 ^ w
zero_lt_pow w = one-le-pow w 256 (omega arith)

start_fields :
    (p : Packer)
    → ((start p).buf ≡ started p)
      × ((start p).front ≡ p.front)
      × ((start p).sent ≡ p.sent)
      × (length (started p) ≤ p.capacity → (start p).capacity ≡ p.capacity)
unfolding start
start_fields p = elim (Bool-cases (is_empty p.buf)) [
  | inl e ↦ rw e (refl, refl, refl, λ h. omega arith)
  | inr e ↦ rw e (refl, refl, refl, λ h. refl)
]

header-IsOpen : (w : ℕ) (p : Packer) → IsOpen w (started p) [] (zzz_add_header w p)
unfolding zzz_add_header
header-IsOpen w p = record {
  contents = rw (append-nil, (start_fields p).0) refl;
  counted = refl;
  fits = zero_lt_pow w;
}

header_Keeps : (w : ℕ) (p : Packer) → Keeps p (zzz_add_header w p)
unfolding zzz_add_header
header_Keeps w p = record { sent_kept = (start_fields p).2; front_kept = (start_fields p).1 }

header_silent-IsOpen :
    (w : ℕ) (p : Packer)
    → length (started p) + w ≤ p.capacity
    → (q : Packer) × (zzz_add_header_silent w p ≡ done q)
      × IsOpen w (started p) [] q
      × Keeps p q
      × (q.capacity ≡ p.capacity)
unfolding zzz_add_header_silent
header_silent-IsOpen w p h =
    let (b, f, s, c) = start_fields p in
    let cap : (start p).capacity ≡ p.capacity = c (omega arith) in
    let room : length (started p) + length (to_le w 0) ≤ p.capacity =
      omega (arith, length-to_le w 0) in
    (
      record (start p) { buf = (start p).buf ++ to_le w 0; last_packet_len = 0 },
      rw (b, cap, le→ltb _ _ room),
      record { contents = rw (append-nil, b) refl; counted = refl; fits = zero_lt_pow w },
      record { sent_kept = s; front_kept = f },
      cap,
    )

Keeps-trans : {p q r : Packer} → Keeps p q → Keeps q r → Keeps p r
Keeps-trans a b = record {
  sent_kept = b.sent_kept ∙ a.sent_kept;
  front_kept = b.front_kept ∙ a.front_kept;
}

pub put_blocks-IsOpen :
    (w : ℕ) (before body : List ℕ) (bs : List (List ℕ)) (p : Packer)
    → 0 < w
    → IsOpen w before body p
    → length body + length (concat bs) < 256 ^ w
    → (q : Packer) × (put_blocks w bs p ≡ done q)
      × IsOpen w before (body ++ concat bs) q
      × Keeps p q
unfolding put_blocks
put_blocks-IsOpen w before body [] p hw o h =
    (p, refl, rw append-nil o, record { sent_kept = refl; front_kept = refl })
put_blocks-IsOpen w before body (b ∷ bs) p hw o h =
    let n = length-append b (concat bs) in
    let (q, e, o', k) = put-IsOpen w before body b p hw o (omega (arith, n)) in
    let (r, e', o'', k') =
      put_blocks-IsOpen w before (body ++ b) bs q hw o' (omega (arith, n, length-append body b)) in
    (r, rw e e', rw (← append_assoc body b (concat bs)) o'', Keeps-trans k k')

pub put_blocks_silent-IsOpen :
    (w : ℕ) (before body : List ℕ) (bs : List (List ℕ)) (p : Packer)
    → 0 < w
    → IsOpen w before body p
    → length body + length (concat bs) < 256 ^ w
    → length p.buf + length (concat bs) ≤ p.capacity
    → (q : Packer) × (put_blocks_silent w bs p ≡ done q)
      × IsOpen w before (body ++ concat bs) q
      × Keeps p q
      × (q.capacity ≡ p.capacity)
unfolding put_blocks_silent
put_blocks_silent-IsOpen w before body [] p hw o h room =
    (p, refl, rw append-nil o, record { sent_kept = refl; front_kept = refl }, refl)
put_blocks_silent-IsOpen w before body (b ∷ bs) p hw o h room =
    let n = length-append b (concat bs) in
    let m = length-append body b in
    let (q, e, o', k, c) =
      put_silent-IsOpen w before body b p hw o (omega (arith, n)) (omega (arith, n)) in
    let size : length q.buf ≡ length p.buf + length b = omega (
      arith,
      ap length o.contents,
      ap length o'.contents,
      length-append before (frame w body),
      length-append before (frame w (body ++ b)),
      length-frame w body,
      length-frame w (body ++ b),
      m,
    ) in
    let (r, e', o'', k', c') =
      put_blocks_silent-IsOpen w before (body ++ b) bs q hw o' (omega (arith, n, m))
        (omega (arith, n)) in
    (r, rw e e', rw (← append_assoc body b (concat bs)) o'', Keeps-trans k k', c' ∙ c)

-- `put_packet` writes one frame that holds the blocks end to end.
pub put_packet_lem :
    (w : ℕ) (bs : List (List ℕ)) (p : Packer)
    → 0 < w
    → length (concat bs) < 256 ^ w
    → (q : Packer) × (put_packet w bs p ≡ done q)
      × (q.buf ≡ started p ++ frame w (concat bs))
      × Keeps p q
unfolding put_packet
put_packet_lem w bs p hw h =
    let (q, e, o, k) =
      put_blocks-IsOpen w (started p) [] bs (zzz_add_header w p) hw (header-IsOpen w p)
        (omega arith) in
    (q, e, o.contents, Keeps-trans (header_Keeps w p) k)

pub put_packet_silent_lem :
    (w : ℕ) (bs : List (List ℕ)) (p : Packer)
    → 0 < w
    → length (concat bs) < 256 ^ w
    → length (started p) + w + length (concat bs) ≤ p.capacity
    → (q : Packer) × (put_packet_silent w bs p ≡ done q)
      × (q.buf ≡ started p ++ frame w (concat bs))
      × Keeps p q
      × (q.capacity ≡ p.capacity)
unfolding put_packet_silent
put_packet_silent_lem w bs p hw h room =
    let (p', e, o, k, c) = header_silent-IsOpen w p (omega arith) in
    let size : length p'.buf ≡ length (started p) + w =
      omega
        (arith, ap length o.contents, length-append (started p) (frame w []), length-frame w []) in
    let (q, e', o', k', c') =
      put_blocks_silent-IsOpen w (started p) [] bs p' hw o (omega arith) (omega arith) in
    (q, rw e e', o'.contents, Keeps-trans k k', c' ∙ c)

-- What `flush` sends: the buffer, unless it is empty.
abbrev pub pending : Packer → List (List ℕ)
pending p = if is_empty p.buf then [] else p.buf ∷ []

pub flush_lem :
    (p : Packer)
    → ((flush p).buf ≡ [])
      × ((flush p).front ≡ p.front)
      × ((flush p).sent ≡ p.sent ++ pending p)
      × ((flush p).capacity ≡ p.capacity)
unfolding flush zzz_flush
flush_lem p = flushed p.buf refl
  where
    flushed :
        (xs : List ℕ)
        → p.buf ≡ xs
        → ((flush p).buf ≡ [])
          × ((flush p).front ≡ p.front)
          × ((flush p).sent ≡ p.sent ++ pending p)
          × ((flush p).capacity ≡ p.capacity)
    flushed [] e = rw (e, flush) (refl, refl, sym (append-nil p.sent), refl)
    flushed (x ∷ xs) e = rw (e, flush) (refl, refl, refl, refl)

-- A packet in any number of blocks that the length field can count together is sent at once as one
-- frame, behind the packer's offset, after what was still in the buffer; the buffer is then empty
-- and the offset kept.
pub add_packet_lem :
    (w : ℕ) (bs : List (List ℕ)) (p : Packer)
    → 0 < w
    → length (concat bs) < 256 ^ w
    → (q : Packer) × (add_packet w bs p ≡ done q)
      × (q.buf ≡ [])
      × (q.sent ≡ (p.sent ++ pending p) ++ (p.front ++ frame w (concat bs)) ∷ [])
      × (q.front ≡ p.front)
unfolding add_packet zzz_flush
add_packet_lem w bs p hw h =
    let (b, f, s, c) = flush_lem p in
    let (q, e, o, k) = put_packet_lem w bs (flush p) hw h in
    let buf : q.buf ≡ p.front ++ frame w (concat bs) = o ∙ rw (b, f) in
    (zzz_flush q, rw e, refl, cc (buf, k.sent_kept, s), cc (k.front_kept, f))

-- The blocks of one packet are refused as soon as the length field could not count them.
put_blocks_refused :
    (w : ℕ) (before body : List ℕ) (bs : List (List ℕ)) (p : Packer)
    → 0 < w
    → IsOpen w before body p
    → 256 ^ w ≤ length body + length (concat bs)
    → put_blocks w bs p ≡ thrown
unfolding put_blocks put_to_last_packet
put_blocks_refused w before body [] p hw o h = absurd (omega (arith, o.fits))
put_blocks_refused w before body (b ∷ bs) p hw o h =
    let n = length-append b (concat bs) in
    elim (dec_lt (length body + length b) (256 ^ w)) [
      | yes fits ↦
          let (q, e, o', k) = put-IsOpen w before body b p hw o fits in
          rw e (
            put_blocks_refused w before (body ++ b) bs q hw o'
              (omega (arith, n, length-append body b)))
      | no big ↦
          let over : max_size w < p.last_packet_len + length b =
            omega (arith, o.counted, zero_lt_pow w) in
          rw (lt→ltb _ _ over)
    ]

-- A packet in any number of blocks that the length field cannot count together is refused.
add_packet_refused :
    (w : ℕ) (bs : List (List ℕ)) (p : Packer)
    → 0 < w
    → 256 ^ w ≤ length (concat bs)
    → add_packet w bs p ≡ thrown
unfolding add_packet put_packet
add_packet_refused w bs p hw h =
    rw (put_blocks_refused w _ [] bs _ hw (header-IsOpen w (flush p)) (omega arith))
