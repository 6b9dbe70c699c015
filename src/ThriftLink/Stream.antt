-- ===== src/ThriftLink/Stream.antt =====
-- A stream of thrift packets (rubetek/proto/thrift/transceiver.hpp), cut in any way.
use rubetek_ios_cpp_releases.Prelude.{
  ℕ, zero, suc, ◌+◌, ◌*◌, ◌<◌, ◌≤◌, ◌≡◌, refl, sym, ap, ◌∙◌, inl, inr, false, List, [], ◌∷◌, ◌++◌,
  append_assoc, append-nil, Option, length, length-drop, take, drop, take-append_le, drop-append_le,
  take-append_eq, drop-append_eq, leb, ◌==◌, Bool-cases, arith,
}
use rubetek_ios_cpp_releases.Prelude.Outcome.{done}
use rubetek_ios_cpp_releases.Elastic.{has_request, process_taken_block, call}
use rubetek_ios_cpp_releases.Elastic.Ends.{
  process_taken_block-call, process_taken_block-few, process_taken_block-nil,
}
use rubetek_ios_cpp_releases.ThriftLink.{run}
use rubetek_ios_cpp_releases.ThriftLink.Reading.{
  IsFramed, length_bytes, head, rest_of, stream, client, length-serialize, call_header, call_packet,
  at_head, in_packet, Reads,
}

module _ {Packet : Type 0} (serialize : Packet → List ℕ) (deserialize : List ℕ → Option Packet)
    (h : IsFramed serialize deserialize) where
  -- The beginning of a stream that begins with a packet.
  starts :
      (p : Packet) (ps : List Packet) (y future : List ℕ)
      → y ++ future ≡ stream serialize deserialize h (p ∷ ps)
      → length (serialize p) ≤ length y
      → (take (length (h.body p) + 4) y ≡ serialize p)
        × (drop (length (h.body p) + 4) y ++ future ≡ stream serialize deserialize h ps)
  starts p ps y future e hl =
      let n : ℕ = length (h.body p) + 4 in
      let size : length (serialize p) ≡ n = length-serialize serialize deserialize h p in
      let rest : List ℕ = stream serialize deserialize h ps in
      (
        sym (take-append_le n y future (omega arith))
            ∙ ap (take n) e
            ∙ take-append_eq n (serialize p) rest (omega arith),
        sym (drop-append_le n y future (omega arith))
            ∙ ap (drop n) e
            ∙ drop-append_eq n (serialize p) rest (omega arith),
      )

  pub round_packet :
      (fuel e : ℕ) (b y future : List ℕ) (before : List Packet) (p : Packet) (ps : List Packet)
      → ((z : List ℕ)
          → z ++ future ≡ stream serialize deserialize h ps
          → length z < length y
          → Reads serialize deserialize h
              (process_taken_block
                (run deserialize)
                fuel
                z
                (head b, client serialize deserialize h e (before ++ p ∷ [])))
              b
              e
              (before ++ p ∷ [])
              future
              ps)
      → y ++ future ≡ stream serialize deserialize h (p ∷ ps)
      → 4 ≤ length y
      → Reads serialize deserialize h
          (process_taken_block
            (run deserialize)
            (suc fuel)
            y
            (rest_of (length (h.body p)) b, client serialize deserialize h e before))
          b
          e
          before
          future
          (p ∷ ps)
  unfolding has_request
  round_packet fuel e b [] future before p ps ih eq hy = absurd (omega arith)
  round_packet fuel e b (x ∷ y) future before p ps ih eq hy =
      let n : ℕ = length (h.body p) in
      let sized : (n + 4 == 0) ≡ false = ground arith in
      let size : length (serialize p) ≡ n + 4 = length-serialize serialize deserialize h p in
      elim (Bool-cases (leb (n + 4) (length (x ∷ y)))) [
        | inl enough ↦
            let (own, later) = starts p ps (x ∷ y) future eq (ground (arith, size)) in
            let r = ih (drop (n + 4) (x ∷ y)) later (omega (arith, length-drop (n + 4) (x ∷ y))) in
            let called =
              ap
                (λ l.
                  call (run deserialize) l (rest_of n b, client serialize deserialize h e before))
                own
              ∙ call_packet serialize deserialize h e p b before in
            record {
              got = p ∷ r.got;
              rest = r.rest;
              z = r.z;
              awaited = r.awaited;
              ran =
                  process_taken_block-call (run deserialize) fuel x y (rest_of n b)
                    (client serialize deserialize h e before) _ refl sized enough called
                  ∙ r.ran
                  ∙ ap (λ l. done ((r.awaited b, client serialize deserialize h e l), r.z))
                      (append_assoc before (p ∷ []) r.got);
              split = ap (◌∷◌ p) r.split;
              awaits = r.awaits;
            }
        | inr few ↦ record {
          got = [];
          rest = p ∷ ps;
          z = x ∷ y;
          awaited = rest_of n;
          ran =
              process_taken_block-few (run deserialize) fuel x y (rest_of n b)
                (client serialize deserialize h e before) refl sized few
              ∙ ap (λ l. done ((rest_of n b, client serialize deserialize h e l), x ∷ y))
                  (sym (append-nil before));
          split = refl;
          awaits = in_packet p ps refl hy (ground arith) eq;
        }
      ]

  -- The first bytes of a stream are a length.
  pub header :
      (x y z t : ℕ) (w : List ℕ) (future : List ℕ) (p : Packet) (ps : List Packet)
      → (x ∷ y ∷ z ∷ t ∷ w) ++ future ≡ stream serialize deserialize h (p ∷ ps)
      → x ∷ y ∷ z ∷ t ∷ [] ≡ length_bytes (length (h.body p))
  header x y z t w future p ps eq =
      ap (take 4) (eq ∙ ap (λ l. l ++ stream serialize deserialize h ps) (h.framed p))

  -- Not even a length is there.
  round_short :
      (fuel e : ℕ) (b y future : List ℕ) (before all : List Packet)
      → y ++ future ≡ stream serialize deserialize h all
      → length y < 4
      → Reads serialize deserialize h
          (process_taken_block
            (run deserialize)
            (suc fuel)
            y
            (head b, client serialize deserialize h e before))
          b
          e
          before
          future
          all
  unfolding has_request
  round_short fuel e b [] future before all eq hy = record {
    got = [];
    rest = all;
    z = [];
    awaited = head;
    ran =
        process_taken_block-nil (run deserialize) fuel (head b)
          (client serialize deserialize h e before)
        ∙ ap (λ l. done ((head b, client serialize deserialize h e l), []))
            (sym (append-nil before));
    split = refl;
    awaits = at_head hy eq;
  }
  round_short fuel e b (x ∷ y) future before all eq hy = record {
    got = [];
    rest = all;
    z = x ∷ y;
    awaited = head;
    ran =
        process_taken_block-few (run deserialize) fuel x y (head b)
          (client serialize deserialize h e before) refl refl (ground arith)
        ∙ ap (λ l. done ((head b, client serialize deserialize h e l), x ∷ y))
            (sym (append-nil before));
    split = refl;
    awaits = at_head hy eq;
  }

  -- Two rounds for each packet.
  pub round_head :
      (fuel e : ℕ) (b y future : List ℕ) (before all : List Packet)
      → y ++ future ≡ stream serialize deserialize h all
      → 2 * length y + 1 ≤ fuel
      → Reads serialize deserialize h
          (process_taken_block
            (run deserialize)
            fuel
            y
            (head b, client serialize deserialize h e before))
          b
          e
          before
          future
          all
  unfolding has_request
  round_head zero e b y future before all eq hf = absurd (omega arith)
  round_head (suc fuel) e b [] future before all eq hf =
      round_short fuel e b [] future before all eq (omega arith)
  round_head (suc fuel) e b (x ∷ []) future before all eq hf =
      round_short fuel e b (x ∷ []) future before all eq (omega arith)
  round_head (suc fuel) e b (x ∷ y ∷ []) future before all eq hf =
      round_short fuel e b (x ∷ y ∷ []) future before all eq (omega arith)
  round_head (suc fuel) e b (x ∷ y ∷ z ∷ []) future before all eq hf =
      round_short fuel e b (x ∷ y ∷ z ∷ []) future before all eq (omega arith)
  round_head (suc zero) e b (x ∷ y ∷ z ∷ t ∷ w) future before all eq hf = absurd (omega arith)
  round_head (suc (suc fuel)) e b (x ∷ y ∷ z ∷ t ∷ w) future before [] eq hf = absurd (cc eq)
  round_head (suc (suc fuel)) e b (x ∷ y ∷ z ∷ t ∷ w) future before (p ∷ ps) eq hf =
      let n : ℕ = length (h.body p) in
      let length_is : x ∷ y ∷ z ∷ t ∷ [] ≡ length_bytes n = header x y z t w future p ps eq in
      let called =
        ap (λ l. call (run deserialize) l (head b, client serialize deserialize h e before))
          length_is
        ∙ (call_header serialize deserialize h n b (client serialize deserialize h e before)
            (h.some_bytes p) (h.small p)) in
      let r =
        round_packet fuel e b (x ∷ y ∷ z ∷ t ∷ w) future before p ps
          (λ v ev hv. round_head fuel e b v future (before ++ p ∷ []) ps ev (omega (arith, hv))) eq
          (omega arith) in
      record {
        got = r.got;
        rest = r.rest;
        z = r.z;
        awaited = r.awaited;
        ran =
            process_taken_block-call (run deserialize) (suc fuel) x (y ∷ z ∷ t ∷ w) (head b)
              (client serialize deserialize h e before) _ refl refl (ground arith) called
            ∙ r.ran;
        split = r.split;
        awaits = r.awaits;
      }
