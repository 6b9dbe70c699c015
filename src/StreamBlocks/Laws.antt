-- ===== src/StreamBlocks/Laws.antt =====
-- However the stream arrives, the blocks are the stream cut at the multiples of the block size.
use native.Mathlib.Nat.{mod_self}
use native.Mathlib.Decide.{dec_lt}
use rubetek_ios_cpp_releases.Prelude.{
  ℕ, ◌+◌, ◌-◌, ◌%◌, ◌<◌, min, max, ◌≡◌, refl, sym, ap, ◌∙◌, inl, inr, true, false, List, [], ◌∷◌,
  ◌++◌, append_assoc, append-nil, length, is_empty, take, drop, All, All-append, concat,
  concat-append, arith, ◌==◌, ==_iff, Bool-cases, length-append, length-take, take-append-drop,
  take-all,
}
use rubetek_ios_cpp_releases.Prelude.Outcome.{done}
use rubetek_ios_cpp_releases.StreamBlocks.{
  Stream, push_back, process_in, process, cut, cut_all, process_blocks, process_all,
}
use rubetek_ios_cpp_releases.StreamBlocks.Cuts.{
  IsStream, IsCut, IsCut-unique, IsMultiple, cut_in_lem, IsStep, process_whole_lem,
}

process_fill :
    (n : ℕ) (block : List ℕ) (s : Stream)
    → 0 < n
    → IsStream n s
    → is_empty s.received ≡ false
    → (outs : List (List ℕ)) × (t : Stream) × (process_in 2 block s ≡ done (outs, t))
      × IsStep n s.received block outs t
unfolding process_in push_back
process_fill n block s hn i full =
    let m : ℕ = min (length block) (s.capacity - length s.received) in
    let taken : List ℕ = take m block in
    let tl = length-take m block in
    let buf : List ℕ = s.received ++ taken in
    let bl = length-append s.received taken in
    let cap : max s.capacity (length s.received + length taken) ≡ n = omega (arith, i.sized) in
    elim (dec_lt (length buf) n) [
      | yes more ↦
          let e : (length buf == max s.capacity (length s.received + length taken)) ≡ false =
            ground arith in
          let all : take m block ≡ block = take-all m block (omega (arith, i.sized)) in
          (
            [],
            record { received = buf; capacity = max s.capacity (length s.received + length taken) },
            rw (full, e),
            record {
              next = record { sized = cap; kept = more };
              whole = ap (◌++◌ s.received) all;
              multiples = tt;
            },
          )
      | no filled ↦
          let size : length buf ≡ n = omega (arith, i.sized, i.kept) in
          let e : (length buf == max s.capacity (length s.received + length taken)) ≡ true =
            (==_iff _ _).1 (omega arith) in
          let again : Stream = record {
            received = [];
            capacity = max s.capacity (length s.received + length taken);
          } in
          let (outs, t, run, step) = process_whole_lem n (drop m block) again hn cap refl in
          (
            buf ∷ outs,
            t,
            rw (full, e) (rw run),
            record {
              next = step.next;
              whole =
                  append_assoc buf (concat outs) t.received
                  ∙ ap (◌++◌ buf) step.whole
                  ∙ append_assoc s.received taken (drop m block)
                  ∙ ap (◌++◌ s.received) (take-append-drop m block);
              multiples = (ap (λ k. k % n) size ∙ mod_self n, step.multiples);
            },
          )
    ]

empty_eq : (xs : List ℕ) → is_empty xs ≡ true → xs ≡ []
empty_eq [] h = refl
empty_eq (x ∷ xs) h = cc

process_lem :
    (n : ℕ) (block : List ℕ) (s : Stream)
    → 0 < n
    → IsStream n s
    → (outs : List (List ℕ)) × (t : Stream) × (process block s ≡ done (outs, t))
      × IsStep n s.received block outs t
unfolding process process_in
process_lem n block s hn i = elim (Bool-cases (is_empty s.received)) [
  | inl empty ↦
      let e : s.received ≡ [] = empty_eq s.received empty in
      let (outs, t, run, step) = process_whole_lem n block s hn i.sized e in
      (
        outs,
        t,
        rw empty run,
        record { next = step.next; whole = step.whole ∙ rw e; multiples = step.multiples },
      )
  | inr full ↦ process_fill n block s hn i full
]

cut_all_lem :
    (n : ℕ) (outs : List (List ℕ))
    → 0 < n
    → All (IsMultiple n) outs
    → (bs : List (List ℕ)) × (cut_all n outs ≡ done bs)
      × (concat bs ≡ concat outs)
      × All (λ (x : List ℕ). length x ≡ n) bs
unfolding cut_all cut
cut_all_lem n [] hn h = ([], refl, refl, tt)
cut_all_lem n (o ∷ os) hn h =
    let (bs, e, c, a) = cut_in_lem n (length o) o hn (omega arith) h.0 in
    let (cs, e', c', a') = cut_all_lem n os hn h.1 in
    (bs ++ cs, rw e (rw e'), rw (concat-append bs cs, c, c'), All-append _ bs cs a a')

-- One call of `process` ends, delivers the whole blocks of what was kept and what is new, and keeps
-- the rest.
pub process_blocks_lem :
    (n : ℕ) (block : List ℕ) (s : Stream)
    → 0 < n
    → IsStream n s
    → (bs : List (List ℕ)) × (t : Stream) × (process_blocks n block s ≡ done (bs, t))
      × IsStream n t
      × IsCut n (s.received ++ block) bs t.received
unfolding process_blocks
process_blocks_lem n block s hn i =
    let (outs, t, run, step) = process_lem n block s hn i in
    let (bs, e, c, a) = cut_all_lem n outs hn step.multiples in
    (
      bs,
      t,
      rw run (rw e),
      step.next,
      record { whole = rw c step.whole; equal = a; tail = step.next.kept },
    )

-- However a stream is cut into pieces, every call ends, the blocks delivered are the stream behind
-- what was kept, cut at the multiples of the block size, which is not 0, and less than a block is
-- kept.
pub process_all_lem :
    (n : ℕ) (pieces : List (List ℕ)) (s : Stream)
    → 0 < n
    → IsStream n s
    → (bs : List (List ℕ)) × (t : Stream) × (process_all n pieces s ≡ done (bs, t))
      × IsStream n t
      × IsCut n (s.received ++ concat pieces) bs t.received
unfolding process_all
process_all_lem n [] s hn i =
    ([], s, refl, i, record { whole = sym (append-nil s.received); equal = tt; tail = i.kept })
process_all_lem n (p ∷ ps) s hn i =
    let (bs, t, run, i', cut) = process_blocks_lem n p s hn i in
    let (cs, u, run', i'', cut') = process_all_lem n ps t hn i' in
    (
      bs ++ cs,
      u,
      rw run (rw run'),
      i'',
      record {
        whole =
            ap (λ x. x ++ u.received) (concat-append bs cs)
            ∙ append_assoc (concat bs) (concat cs) u.received
            ∙ ap (◌++◌ (concat bs)) cut'.whole
            ∙ sym (append_assoc (concat bs) t.received (concat ps))
            ∙ ap (λ x. x ++ concat ps) cut.whole
            ∙ append_assoc s.received p (concat ps);
        equal = All-append _ bs cs cut.equal cut'.equal;
        tail = cut'.tail;
      },
    )

-- Two ways of cutting one stream into pieces give the same blocks and leave the same state, for a
-- block size that is not 0 and a buffer with less than a block.
pub process_all_pieces :
    (n : ℕ) (pieces pieces' : List (List ℕ)) (s : Stream)
    → 0 < n
    → IsStream n s
    → concat pieces ≡ concat pieces'
    → process_all n pieces s ≡ process_all n pieces' s
process_all_pieces n pieces pieces' s hn i e =
    let (bs, t, run, it, cut) = process_all_lem n pieces s hn i in
    let (cs, u, run', iu, cut') = process_all_lem n pieces' s hn i in
    let (same, rest) =
      IsCut-unique n (s.received ++ concat pieces) bs cs t.received u.received cut (rw e cut') in
    cc (run, run', same, rest, it.sized, iu.sized)
