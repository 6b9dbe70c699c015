-- ===== src/StreamBlocks/Cuts.antt =====
-- The state of the receiver between two pieces, and how cut and cut_in (msw/proto/stream2blocks.hpp)
-- take a piece apart.
use native.Mathlib.Nat.{div-add-mod, mul-mod_right, mod-le, mod-eq_of_lt, mod-lt, mod-eq-sub-mod}
use native.Mathlib.Decide.{dec_lt}
use rubetek_ios_cpp_releases.Prelude.{
  ℕ, zero, suc, ◌-◌, ◌*◌, ◌/◌, ◌%◌, ◌≤◌, ◌<◌, ◌≡◌, refl, sym, ap, ◌∙◌, false, List, [], ◌∷◌, ◌++◌,
  append_assoc, append-nil, length, is_empty, take, drop, All, concat, arith, ◌==◌, le→ltb,
  if◌then◌else◌, length-append, length-take, length-drop, take-append-drop, take-append_eq,
  drop-append_eq,
}
use rubetek_ios_cpp_releases.Prelude.Outcome.{done}
use rubetek_ios_cpp_releases.StreamBlocks.{Stream, process_whole, cut_in}

-- The state between two calls: less than a block is kept.
pub record IsStream (n : ℕ) (s : Stream) : Type 0 where
  pub sized : s.capacity ≡ n
  pub kept : length s.received < n

-- `bs` are the whole blocks of the stream `p`, and `r` its rest.
pub record IsCut (n : ℕ) (p : List ℕ) (bs : List (List ℕ)) (r : List ℕ) : Type 0 where
  pub whole : concat bs ++ r ≡ p
  pub equal : All (λ (b : List ℕ). length b ≡ n) bs
  pub tail : length r < n

-- There is one way to cut a stream.
pub IsCut-unique :
    (n : ℕ) (p : List ℕ) (bs cs : List (List ℕ)) (r s : List ℕ)
    → IsCut n p bs r
    → IsCut n p cs s
    → (bs ≡ cs) × (r ≡ s)
IsCut-unique n p [] [] r s x y = (refl, x.whole ∙ sym y.whole)
IsCut-unique n p [] (c ∷ cs) r s x y = absurd (
    omega (
      arith,
      ap length (x.whole ∙ sym y.whole),
      length-append (c ++ concat cs) s,
      length-append c (concat cs),
      x.tail,
      y.equal.0,
    ))
IsCut-unique n p (b ∷ bs) [] r s x y = absurd (
    omega (
      arith,
      ap length (x.whole ∙ sym y.whole),
      length-append (b ++ concat bs) r,
      length-append b (concat bs),
      y.tail,
      x.equal.0,
    ))
IsCut-unique n p (b ∷ bs) (c ∷ cs) r s x y =
    let xb : b ++ (concat bs ++ r) ≡ p = sym (append_assoc b (concat bs) r) ∙ x.whole in
    let yc : c ++ (concat cs ++ s) ≡ p = sym (append_assoc c (concat cs) s) ∙ y.whole in
    let heads : b ≡ c =
      sym (take-append_eq n b _ (sym x.equal.0))
      ∙ ap (take n) (xb ∙ sym yc)
      ∙ take-append_eq n c _ (sym y.equal.0) in
    let tails : concat bs ++ r ≡ concat cs ++ s =
      sym (drop-append_eq n b _ (sym x.equal.0))
      ∙ ap (drop n) (xb ∙ sym yc)
      ∙ drop-append_eq n c _ (sym y.equal.0) in
    let (e, f) =
      IsCut-unique n (concat bs ++ r) bs cs r s
        (record { whole = refl; equal = x.equal.1; tail = x.tail })
        (record { whole = sym tails; equal = y.equal.1; tail = y.tail }) in
    (cc (heads, e), f)

abbrev pub IsMultiple : ℕ → List ℕ → Type 0
IsMultiple n b = length b % n ≡ 0

multiple_step : (n k : ℕ) → 0 < n → 0 < k → k % n ≡ 0 → (n ≤ k) × ((k - n) % n ≡ 0)
multiple_step n k hn hk h = elim (dec_lt k n) [
  | yes l ↦ absurd (omega (arith, mod-eq_of_lt l))
  | no l ↦ let le : n ≤ k = omega arith in (le, sym (mod-eq-sub-mod le) ∙ h)
]

pub cut_in_lem :
    (n fuel : ℕ) (b : List ℕ)
    → 0 < n
    → length b ≤ fuel
    → length b % n ≡ 0
    → (bs : List (List ℕ)) × (cut_in fuel n b ≡ done bs)
      × (concat bs ≡ b)
      × All (λ (x : List ℕ). length x ≡ n) bs
unfolding cut_in
cut_in_lem n zero [] hn h m = ([], refl, refl, tt)
cut_in_lem n (suc fuel) [] hn h m = ([], refl, refl, tt)
cut_in_lem n zero (x ∷ xs) hn h m = absurd (omega arith)
cut_in_lem n (suc fuel) (x ∷ xs) hn h m =
    let b : List ℕ = x ∷ xs in
    let (le, m') = multiple_step n (length b) hn (omega arith) m in
    let d = length-drop n b in
    let (bs, e, c, a) = cut_in_lem n fuel (drop n b) hn (omega arith) (ap (λ k. k % n) d ∙ m') in
    (
      take n b ∷ bs,
      rw (le→ltb _ _ le, cut_in) (rw e),
      rw c (take-append-drop n b),
      (omega (arith, length-take n b), a),
    )

-- What one call should do: multiples of the block size come out, and in all nothing is lost.
pub record IsStep (n : ℕ) (before block : List ℕ) (outs : List (List ℕ)) (s : Stream) : Type 0 where
  pub next : IsStream n s
  pub whole : concat outs ++ s.received ≡ before ++ block
  pub multiples : All (IsMultiple n) outs

single : (xs : List ℕ) → concat (if is_empty xs then [] else xs ∷ []) ≡ xs
single [] = refl
single (x ∷ xs) = append-nil (x ∷ xs)

single-All :
    (n : ℕ) (xs : List ℕ)
    → IsMultiple n xs
    → All (IsMultiple n) (if is_empty xs then [] else xs ∷ [])
single-All n [] h = tt
single-All n (x ∷ xs) h = (h, tt)

front_multiple : (n k : ℕ) → 0 < n → (k - k % n) % n ≡ 0
front_multiple n k hn =
    let e : k - k % n ≡ n * (k / n) = omega (arith, div-add-mod k n) in
    ap (λ t. t % n) e ∙ mul-mod_right n (k / n)

pub process_whole_lem :
    (n : ℕ) (block : List ℕ) (s : Stream)
    → 0 < n
    → s.capacity ≡ n
    → s.received ≡ []
    → (outs : List (List ℕ)) × (t : Stream) × (process_whole block s ≡ done (outs, t))
      × IsStep n [] block outs t
unfolding process_whole
process_whole_lem n block s hn hc hr =
    let k : ℕ = length block in
    let lt : k % n < n = mod-lt k hn in
    let at : ℕ = k - k % n in
    let dl : length (drop at block) ≡ k % n = omega (arith, length-drop at block, mod-le k n) in
    let tl : length (take at block) ≡ at = omega (arith, length-take at block) in
    let room : length (drop at block) ≤ n = omega arith in
    let nonzero : (n == 0) ≡ false = ground arith in
    (
      (if is_empty (take at block) then [] else take at block ∷ []),
      record { received = drop at block; capacity = n },
      rw (hc, nonzero, le→ltb _ _ room, hr),
      record {
        next = record { sized = refl; kept = omega arith };
        whole = rw (single (take at block)) (take-append-drop at block);
        multiples = single-All n (take at block) (ap (λ t. t % n) tl ∙ front_multiple n k hn);
      },
    )
