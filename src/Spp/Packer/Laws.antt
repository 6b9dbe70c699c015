-- ===== src/Spp/Packer/Laws.antt =====
-- The packer keeps the length field of the open packet equal to what it holds.
use native.Mathlib.Nat.{mod-eq_of_lt}
use rubetek_ios_cpp_releases.Prelude.{
  ℕ, ◌+◌, ◌-◌, ◌^◌, ◌%◌, ◌≤◌, ◌<◌, ◌≡◌, refl, sym, ap, ◌∙◌, false, List, [], ◌∷◌, ◌++◌,
  append_assoc, length, arith, is_empty, to_le, take, drop, ltb, length-append, length-to_le,
  of_le-to_le, take-append_eq, drop-append_eq, le→ltb, ==_iff,
}
use rubetek_ios_cpp_releases.Prelude.Outcome.{done}
use rubetek_ios_cpp_releases.Spp.{max_size}
use rubetek_ios_cpp_releases.Spp.Framing.{frame, length-frame}
use rubetek_ios_cpp_releases.Spp.Packer.{
  Packer, push_back, zzz_add_last_packet_len, put_to_last_packet, put_to_last_packet_silent,
}

-- The buffer ends in an open packet that holds `body` so far, behind `before`.
pub record IsOpen (w : ℕ) (before body : List ℕ) (p : Packer) : Type 0 where
  pub contents : p.buf ≡ before ++ frame w body
  pub counted : p.last_packet_len ≡ length body
  pub fits : length body < 256 ^ w

-- What filling a packet leaves alone.
pub record Keeps (p q : Packer) : Type 0 where
  pub sent_kept : q.sent ≡ p.sent
  pub front_kept : q.front ≡ p.front

-- The header of the last packet, found behind `before`.
module _ (w : ℕ) (before body : List ℕ) where
  whole : List ℕ
  whole = before ++ frame w body

  length-whole : length whole ≡ length before + (w + length body)
  unfolding whole
  length-whole =
      length-append before (frame w body) ∙ ap (λ n. length before + n) (length-frame w body)

  at_header : ℕ
  at_header = length whole - (length body + w)

  at_header_eq : at_header ≡ length before
  unfolding at_header
  at_header_eq = omega (arith, length-whole)

  header_there : take w (drop at_header whole) ≡ to_le w (length body)
  unfolding whole
  header_there =
      rw (at_header_eq, drop-append_eq (length before) before (frame w body) refl)
        (take-append_eq w (to_le w (length body)) body (sym (length-to_le w (length body))))

  before_there : take at_header whole ≡ before
  unfolding whole
  before_there = rw at_header_eq (take-append_eq (length before) before (frame w body) refl)

  body_there : drop (at_header + w) whole ≡ body
  unfolding whole
  body_there =
      rw (at_header_eq, ← append_assoc before (to_le w (length body)) body)
        (drop-append_eq (length before + w) (before ++ to_le w (length body)) body (
          omega
            (arith, length-append before (to_le w (length body)), length-to_le w (length body))))

pub add_len_open :
    (w len : ℕ) (before body : List ℕ) (p : Packer)
    → IsOpen w before body p
    → length body + len < 256 ^ w
    → zzz_add_last_packet_len w len p
      ≡ done (record p {
        buf = before ++ (to_le w (length body + len) ++ body);
        last_packet_len = length body + len;
      })
unfolding zzz_add_last_packet_len whole at_header
add_len_open w len before body p o h =
    let n : ℕ = length body in
    let room : n + w ≤ length (before ++ frame w body) =
      omega (arith, length-whole w before body) in
    rw (
      o.contents,
      o.counted,
      le→ltb _ _ room,
      header_there w before body,
      of_le-to_le w n o.fits,
      mod-eq_of_lt h,
      before_there w before body,
      body_there w before body,
      (==_iff (n + len) (n + len)).1 refl,
    )

is_empty_of_length : (xs : List ℕ) → 0 < length xs → is_empty xs ≡ false
is_empty_of_length [] h = absurd (omega arith)
is_empty_of_length (x ∷ xs) h = refl

open_not_empty :
    {w : ℕ} {before body : List ℕ} {p : Packer}
    → 0 < w
    → IsOpen w before body p
    → is_empty p.buf ≡ false
unfolding whole
open_not_empty {w} {before} {body} {p} hw o =
    is_empty_of_length p.buf (omega (arith, ap length o.contents, length-whole w before body))

-- The open packet after a block has been put to it.
abbrev extended : ℕ → List ℕ → List ℕ → List ℕ → Packer → Packer
extended w before body block p = record p {
  buf = (before ++ (to_le w (length body + length block) ++ body)) ++ block;
  last_packet_len = length body + length block;
}

extended-IsOpen :
    (w : ℕ) (before body block : List ℕ) (p : Packer)
    → length body + length block < 256 ^ w
    → IsOpen w before (body ++ block) (extended w before body block p)
extended-IsOpen w before body block p h =
    let n = length-append body block in
    record {
      contents = rw (
        n,
        append_assoc before _ block,
        append_assoc (to_le w (length body + length block)) body block,
      );
      counted = sym n;
      fits = rw n h;
    }

module _ (w : ℕ) (before body block : List ℕ) (p : Packer) (hw : 0 < w) (o : IsOpen w before body p)
    (h : length body + length block < 256 ^ w) where
  allowed : ltb (max_size w) (p.last_packet_len + length block) ≡ false
  allowed = le→ltb _ _ (omega (arith, o.counted))

  same_count : length block % 256 ^ w ≡ length block
  same_count = let l : length block < 256 ^ w = omega arith in mod-eq_of_lt l

  grown :
      zzz_add_last_packet_len w (length block % 256 ^ w) p
      ≡ done (record p {
        buf = before ++ (to_le w (length body + length block) ++ body);
        last_packet_len = length body + length block;
      })
  grown = rw same_count (add_len_open w (length block) before body p o h)

  pub put-IsOpen :
      (q : Packer) × (put_to_last_packet w block p ≡ done q)
      × IsOpen w before (body ++ block) q
      × Keeps p q
  unfolding put_to_last_packet
  put-IsOpen =
      let e = extended-IsOpen w before body block p h in
      (
        push_back
            (record p {
              buf = before ++ (to_le w (length body + length block) ++ body);
              last_packet_len = length body + length block;
            })
            block,
        rw (allowed, open_not_empty hw o, grown),
        record { contents = e.contents; counted = e.counted; fits = e.fits },
        record { sent_kept = refl; front_kept = refl },
      )

  -- The silent call does the same where the memory is large enough, and leaves the memory.
  pub put_silent-IsOpen :
      length p.buf + length block ≤ p.capacity
      → (q : Packer) × (put_to_last_packet_silent w block p ≡ done q)
        × IsOpen w before (body ++ block) q
        × Keeps p q
        × (q.capacity ≡ p.capacity)
  unfolding put_to_last_packet_silent whole
  put_silent-IsOpen room =
      let n : ℕ = length body + length block in
      let same : length (before ++ (to_le w n ++ body)) ≡ length p.buf = omega (
        arith,
        ap length o.contents,
        length-append before (to_le w n ++ body),
        length-append (to_le w n) body,
        length-to_le w n,
        length-whole w before body,
      ) in
      let fits_in : length (before ++ (to_le w n ++ body)) + length block ≤ p.capacity =
        omega (arith, same) in
      (
        extended w before body block p,
        rw (allowed, open_not_empty hw o, grown, le→ltb _ _ fits_in),
        extended-IsOpen w before body block p h,
        record { sent_kept = refl; front_kept = refl },
        refl,
      )
