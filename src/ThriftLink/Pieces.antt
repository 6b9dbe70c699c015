-- ===== src/ThriftLink/Pieces.antt =====
-- A piece of a stream at the thrift transceiver (rubetek/proto/thrift/transceiver.hpp).
use mathlib.Core.Path.{subst}
use native.Mathlib.Nat.{mul-le-mul_left}
use rubetek_ios_cpp_releases.Prelude.{
  ℕ, zero, suc, ◌+◌, ◌*◌, ◌<◌, ◌≤◌, ◌≡◌, refl, sym, ap, ◌∙◌, inl, inr, Bool, true, false, ◌&&◌,
  ◌||◌, List, [], ◌∷◌, ◌++◌, append_assoc, append-nil, Option, length, length-append, is_empty,
  ◌==◌, if◌then◌else◌, Bool-cases, arith,
}
use rubetek_ios_cpp_releases.Prelude.Outcome.{Outcome, done, ◌>>=◌}
use rubetek_ios_cpp_releases.Elastic.{
  Receiver, has_request, rounds, process_receive_buffer, external_on_receive, call,
  process_taken_block,
}
use rubetek_ios_cpp_releases.ThriftLink.{Callback, Client, State, run}
use rubetek_ios_cpp_releases.ThriftLink.Reading.{
  IsFramed, length_bytes, head, rest_of, stream, client, call_header, Awaits, at_head, in_packet,
  Reads,
}
use rubetek_ios_cpp_releases.ThriftLink.Stream.{header, round_head, round_packet}

square : (n : ℕ) → 2 * n ≤ (n + 1) * (n + 1)
square zero = omega arith
square (suc n) =
    let wide : (suc n + 1) * 2 ≤ (suc n + 1) * (suc n + 1) =
      mul-le-mul_left (suc n + 1) (omega arith) in
    omega (arith, wide)

enough_rounds : (n : ℕ) → 2 * n + 1 ≤ rounds n
enough_rounds n = omega (arith, square n)

four :
    (z block : List ℕ)
    → (is_empty z && (4 == length block)) ≡ true
    → (x y u t : ℕ) × (z ≡ []) × (block ≡ x ∷ y ∷ u ∷ t ∷ [])
four [] (x ∷ y ∷ u ∷ t ∷ []) h = (x, y, u, t, refl, refl)
four [] [] h = absurd (cc h)
four [] (x ∷ []) h = absurd (cc h)
four [] (x ∷ y ∷ []) h = absurd (cc h)
four [] (x ∷ y ∷ u ∷ []) h = absurd (cc h)
four [] (x ∷ y ∷ u ∷ t ∷ v ∷ w) h = absurd (ground arith)
four (x ∷ z) block h = absurd (cc h)

occupied : (b : Bool) (z : List ℕ) → 4 ≤ length z → (is_empty z && b) ≡ false
occupied b [] h = absurd (omega arith)
occupied b (x ∷ z) h = refl

module _ {Packet : Type 0} (serialize : Packet → List ℕ) (deserialize : List ℕ → Option Packet)
    (h : IsFramed serialize deserialize) where
  -- A state between two pieces, and what it has delivered on the way.
  pub record Reached (m : Outcome (State deserialize)) (e : ℕ) (before : List Packet)
      (future : List ℕ) (all : List Packet) : Type 0 where
    pub got : List Packet
    pub rest : List Packet
    pub z : List ℕ
    pub awaited : List ℕ → Receiver Callback
    pub ran : m ≡ done (awaited z, client serialize deserialize h e (before ++ got))
    pub split : got ++ rest ≡ all
    pub awaits : Awaits serialize deserialize h future rest z awaited

  new_buffer :
      {future : List ℕ} {rest : List Packet} {z : List ℕ} {awaited : List ℕ → Receiver Callback}
      (b : List ℕ)
      → Awaits serialize deserialize h future rest z awaited
      → record (awaited b) { buffer = z } ≡ awaited z
  new_buffer b (at_head hl e) = refl
  new_buffer b (in_packet p ps er hl hu e) = refl

  from_rounds :
      (r : Receiver Callback) (e : ℕ) (before : List Packet) (future : List ℕ) (all : List Packet)
      → Reads serialize deserialize h
          (process_taken_block
            (run deserialize)
            (rounds (length r.buffer))
            r.buffer
            (r, client serialize deserialize h e before))
          r.buffer
          e
          before
          future
          all
      → Reached
          (process_receive_buffer (run deserialize) (r, client serialize deserialize h e before))
          e
          before
          future
          all
  unfolding process_receive_buffer
  from_rounds r e before future all k = record {
    got = k.got;
    rest = k.rest;
    z = k.z;
    awaited = k.awaited;
    ran =
        ap (λ m. m >>= λ o. done (record (o.0.0) { buffer = o.1 }, o.0.1)) k.ran
        ∙ ap (λ x. done (x, client serialize deserialize h e (before ++ k.got)))
            (new_buffer r.buffer k.awaits);
    split = k.split;
    awaits = k.awaits;
  }

  -- The block goes to the buffer first.
  external-buffered :
      (r : Receiver Callback) (s : Client Packet) (block : List ℕ)
      → has_request r ≡ true
      → (is_empty r.buffer && (r.required_size == 0 || (r.required_size == length block))) ≡ false
      → external_on_receive (run deserialize) block (r, s)
        ≡ process_receive_buffer (run deserialize) (record r { buffer = r.buffer ++ block }, s)
  unfolding external_on_receive
  external-buffered r s block hr hb = rw (hr, hb) refl

  -- Just a length, and nothing before it.
  piece_length :
      (e x y u t : ℕ) (future : List ℕ) (before all : List Packet)
      → (x ∷ y ∷ u ∷ t ∷ []) ++ future ≡ stream serialize deserialize h all
      → Reached
          (external_on_receive
            (run deserialize)
            (x ∷ y ∷ u ∷ t ∷ [])
            (head [], client serialize deserialize h e before))
          e
          before
          future
          all
  unfolding external_on_receive has_request
  piece_length e x y u t future before [] eq = absurd (cc eq)
  piece_length e x y u t future before (p ∷ ps) eq =
      let s = client serialize deserialize h e before in
      let n : ℕ = length (h.body p) in
      let block : List ℕ = x ∷ y ∷ u ∷ t ∷ [] in
      let length_is : block ≡ length_bytes n =
        header serialize deserialize h x y u t [] future p ps eq in
      let called =
        ap (λ l. call (run deserialize) l (head [], s)) length_is
        ∙ call_header serialize deserialize h n [] s (h.some_bytes p) (h.small p) in
      record {
        got = [];
        rest = p ∷ ps;
        z = block;
        awaited = rest_of n;
        ran =
            ap
              (λ m. m >>= λ o.
                if o.1
                then done o.0
                else done (record (o.0.0) { buffer = o.0.0.buffer ++ block }, o.0.1))
              called
            ∙ ap (λ l. done (rest_of n block, client serialize deserialize h e l))
                (sym (append-nil before));
        split = refl;
        awaits = in_packet p ps refl (omega arith) (omega (arith, h.some_bytes p)) eq;
      }

  piece_head :
      (e : ℕ) (z block future : List ℕ) (before all : List Packet)
      → length z < 4
      → z ++ (block ++ future) ≡ stream serialize deserialize h all
      → Reached
          (external_on_receive
            (run deserialize)
            block
            (head z, client serialize deserialize h e before))
          e
          before
          future
          all
  unfolding has_request
  piece_head e z block future before all hz eq =
      let s = client serialize deserialize h e before in
      let eq' : (z ++ block) ++ future ≡ stream serialize deserialize h all =
        append_assoc z block future ∙ eq in
      elim (Bool-cases (is_empty z && (4 == length block))) [
        | inl now ↦
            let (x, y, u, t, ez, eb) = four z block now in
            rw (ez, eb) (piece_length e x y u t future before all (rw (ez, eb) at eq))
        | inr later ↦
            subst (λ m. Reached m e before future all)
              (sym (external-buffered (head z) s block refl later))
              (from_rounds (head (z ++ block)) e before future all (
                round_head serialize deserialize h (rounds (length (z ++ block))) e (z ++ block)
                  (z ++ block) future before all eq' (enough_rounds (length (z ++ block)))))
      ]

  piece_packet :
      (e : ℕ) (z block future : List ℕ) (before : List Packet) (p : Packet) (ps : List Packet)
      → 4 ≤ length z
      → z ++ (block ++ future) ≡ stream serialize deserialize h (p ∷ ps)
      → Reached
          (external_on_receive
            (run deserialize)
            block
            (rest_of (length (h.body p)) z, client serialize deserialize h e before))
          e
          before
          future
          (p ∷ ps)
  unfolding has_request
  piece_packet e z block future before p ps hz eq =
      let s = client serialize deserialize h e before in
      let n : ℕ = length (h.body p) in
      let y : List ℕ = z ++ block in
      let size = length-append z block in
      let eq' : y ++ future ≡ stream serialize deserialize h (p ∷ ps) =
        append_assoc z block future ∙ eq in
      subst (λ m. Reached m e before future (p ∷ ps))
        (sym (external-buffered (rest_of n z) s block refl (occupied _ z hz)))
        (from_rounds (rest_of n y) e before future (p ∷ ps) (
          round_packet serialize deserialize h ((length y + 1) * (length y + 1)) e y y future before
            p ps
            (λ v ev hv.
              round_head serialize deserialize h ((length y + 1) * (length y + 1)) e y v future
                (before ++ p ∷ []) ps ev (omega (arith, hv, square (length y))))
            eq' (omega (arith, size))))

  pub piece :
      (e : ℕ) (block z future : List ℕ) (awaited : List ℕ → Receiver Callback)
      (before all : List Packet)
      → Awaits serialize deserialize h (block ++ future) all z awaited
      → Reached
          (external_on_receive
            (run deserialize)
            block
            (awaited z, client serialize deserialize h e before))
          e
          before
          future
          all
  piece e block z future awaited before all (at_head hz eq) =
      piece_head e z block future before all hz eq
  piece e block z future awaited before all (in_packet p ps er hl hu eq) =
      subst (Reached _ e before future) (sym er)
        (piece_packet e z block future before p ps hl (eq ∙ ap (stream serialize deserialize h) er))
