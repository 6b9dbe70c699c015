-- ===== src/Train/Unwrapper/Ends.antt =====
-- The unwrapper (train/unwrapper.hpp) comes to an end with every packet.
use rubetek_ios_cpp_releases.Prelude.{
  ℕ, zero, suc, ◌+◌, ◌-◌, ◌*◌, ◌/◌, ◌%◌, ◌≤◌, ◌<◌, min, ◌≡◌, ◌≢◌, refl, sym, ap, inl, inr, Bool,
  true, false, ◌||◌, ◌&&◌, not, List, [], ◌∷◌, ◌++◌, length, is_empty, of_le, take, drop, ltb, ◌==◌,
  if◌then◌else◌, arith, Bool-cases, length-drop,
}
use rubetek_ios_cpp_releases.Prelude.Outcome.{Outcome, done, thrown, aborted, exhausted, ◌>>=◌}
use rubetek_ios_cpp_releases.Train.{Block, wagon_max_size}
use rubetek_ios_cpp_releases.Train.Unwrapper.{
  Unwrapper, Round, push, words, block_len, unload_wagon, load_wagon, begin_wagon, continue_wagon,
  dissect_payload, middle, process_payload, set_counter_error, add_packet,
}

-- A run that has not used up its fuel, and whose value, if it has one, is as wanted.
Ends {ℓ} : {A : Type ℓ} → (A → Type 0) → Outcome A → Type 0
Ends P (done a) = P a
Ends P thrown = Unit
Ends P aborted = Unit
Ends P exhausted = ⊥

module _ {ℓ κ} {A : Type ℓ} {B : Type κ} (P : A → Type 0) (Q : B → Type 0) where
  Ends-bind :
      (m : Outcome A) (f : A → Outcome B)
      → Ends P m
      → ((a : A) → P a → Ends Q (f a))
      → Ends Q (m >>= f)
  unfolding Ends
  Ends-bind (done a) f h k = k a h
  Ends-bind thrown f h k = tt
  Ends-bind aborted f h k = tt
  Ends-bind exhausted f h k = absurd h

Ends-weaken {ℓ} :
    {A : Type ℓ} (P Q : A → Type 0) (m : Outcome A) → ((a : A) → P a → Q a) → Ends P m → Ends Q m
unfolding Ends
Ends-weaken P Q (done a) k h = k a h
Ends-weaken P Q thrown k h = tt
Ends-weaken P Q aborted k h = tt
Ends-weaken P Q exhausted k h = absurd h

abbrev Any {ℓ} : {A : Type ℓ} → A → Type 0
Any a = Unit

Ends-done {ℓ} : {A : Type ℓ} (a : A) → Ends Any (done a)
unfolding Ends
Ends-done a = tt

Ends-if {ℓ} :
    {A : Type ℓ} (P : A → Type 0) (c : Bool) (m n : Outcome A)
    → Ends P m
    → Ends P n
    → Ends P (if c then m else n)
Ends-if P true m n h k = h
Ends-if P false m n h k = k

Ends-not_exhausted {ℓ} : {A : Type ℓ} (P : A → Type 0) (m : Outcome A) → Ends P m → m ≢ exhausted
unfolding Ends
Ends-not_exhausted P (done a) h = λ e. cc
Ends-not_exhausted P thrown h = λ e. cc
Ends-not_exhausted P aborted h = λ e. cc
Ends-not_exhausted P exhausted h = absurd h

push-Ends : (bytes : List ℕ) (u : Unwrapper) → Ends Any (push bytes u)
unfolding push Ends
push-Ends bytes u = ground arith

-- A wagon that was unloaded is empty.
unload_wagon-empty : (u : Unwrapper) → (unload_wagon u).2 ≡ true → (unload_wagon u).0.wagon ≡ []
unfolding unload_wagon
unload_wagon-empty u h = ground arith

Shorter : ℕ → Round → Type 0
Shorter n r = length r.1 < n

load_wagon-Ends :
    (b : ℕ) (bs : List ℕ) (u : Unwrapper) → Ends (Shorter (suc (length bs))) (load_wagon (b ∷ bs) u)
unfolding load_wagon Shorter Ends
load_wagon-Ends b bs u =
    Ends-bind Any (Shorter (suc (length bs))) (push (take 4 (b ∷ bs)) u) _
      (push-Ends (take 4 (b ∷ bs)) u)
      (λ v _.
        let n : ℕ = min (words (drop 4 (b ∷ bs))) (block_len v) in
        let piece : List ℕ = take (4 * n) (drop 4 (b ∷ bs)) in
        let rest : List ℕ = drop (4 * n) (drop 4 (b ∷ bs)) in
        let left : length rest < suc (length bs) =
          omega (arith, length-drop (4 * n) (drop 4 (b ∷ bs)), length-drop 4 (b ∷ bs)) in
        Ends-bind Any (Shorter (suc (length bs))) (push piece v) _ (push-Ends piece v) (λ w _.
          elim (Bool-cases (words w.wagon == block_len w + 1)) [
            | inl h ↦ rw h left
            | inr h ↦ rw h left
          ]))

begin_wagon-Ends :
    (ptr b : ℕ) (bs : List ℕ) (u : Unwrapper)
    → Ends (Shorter (suc (length bs))) (begin_wagon ptr (b ∷ bs) u)
unfolding begin_wagon Shorter Ends
begin_wagon-Ends ptr b bs u = from (drop (4 * ptr) (b ∷ bs)) refl
  where
    from :
        (left : List ℕ)
        → drop (4 * ptr) (b ∷ bs) ≡ left
        → Ends (Shorter (suc (length bs))) (begin_wagon ptr (b ∷ bs) u)
    from [] e = rw e (omega arith)
    from (c ∷ cs) e =
        let fewer : suc (length cs) ≤ suc (length bs) =
          omega (arith, ap length e, length-drop (4 * ptr) (b ∷ bs)) in
        rw e (
          Ends-weaken (Shorter (suc (length cs))) (Shorter (suc (length bs))) _
            (λ r h. omega (arith, h, fewer)) (load_wagon-Ends c cs _))

-- A round that goes on has shortened the payload, or emptied the wagon.
Progress : ℕ → Round → Type 0
Progress n r = r.3 ≡ true → (length r.1 ≤ n) × (r.0.wagon ≡ [])

continue_wagon-Ends :
    (ptr : ℕ) (payload : List ℕ) (u : Unwrapper)
    → Ends (Progress (length payload)) (continue_wagon ptr payload u)
unfolding continue_wagon Progress Ends
continue_wagon-Ends ptr payload u = elim (Bool-cases (block_len u == words u.wagon - 1 + ptr)) [
  | inl h ↦ rw h (
      Ends-bind Any (Progress (length payload)) (push (take (4 * ptr) payload) u) _
        (push-Ends (take (4 * ptr) payload) u)
        (λ v _ more. (omega (arith, length-drop (4 * ptr) payload), unload_wagon-empty v more)))
  | inr h ↦ rw h (λ more. absurd (cc more))
]

-- The fuel that is enough: two rounds for each byte, one less if the wagon is empty.
abbrev extra : Bool → ℕ
extra e = if e then 1 else 0

abbrev Enough : ℕ → List ℕ → Unwrapper → Type 0
Enough fuel payload u = 2 * length payload ≤ fuel + extra (is_empty u.wagon)

-- What follows a round.
next_round-Ends :
    (fuel : ℕ)
    → ((rest : List ℕ) (v : Unwrapper)
        → Enough fuel rest v
        → Ends Any (dissect_payload fuel 0 rest v))
    → (r : Round) → (r.3 ≡ true → Enough fuel r.1 r.0)
    → Ends {A = Unwrapper × List Block} Any (elim r.3 [
      | true ↦ dissect_payload fuel 0 r.1 r.0 >>= λ s. done (s.0, r.2 ++ s.1)
      | false ↦ done (r.0, r.2)
    ])
unfolding Ends
next_round-Ends fuel again (v, rest, blocks, true) k =
    Ends-bind Any Any (dissect_payload fuel 0 rest v) _ (again rest v (k refl)) (λ s _. tt)
next_round-Ends fuel again (v, rest, blocks, false) k = tt

some_left : (n : ℕ) (e : Bool) → 2 * suc n ≤ 0 + extra e → ⊥
some_left n true h = omega arith
some_left n false h = omega arith

if_le : (n : ℕ) (e : Bool) → n ≤ n + extra e
if_le n true = omega arith
if_le n false = omega arith

dissect_payload-Ends :
    (fuel ptr : ℕ) (payload : List ℕ) (u : Unwrapper)
    → Enough fuel payload u
    → Ends Any (dissect_payload fuel ptr payload u)
unfolding dissect_payload Ends Shorter Progress
dissect_payload-Ends fuel ptr [] u h = tt
dissect_payload-Ends zero ptr (b ∷ bs) u h = absurd (some_left (length bs) (is_empty u.wagon) h)
dissect_payload-Ends (suc fuel) ptr (b ∷ bs) u h =
    let again : (rest : List ℕ) (v : Unwrapper)
        → Enough fuel rest v
        → Ends Any (dissect_payload fuel 0 rest v) =
      λ rest v k. dissect_payload-Ends fuel 0 rest v k in
    elim (Bool-cases (is_empty u.wagon)) [
      | inl empty ↦
          let enough : 2 * suc (length bs) ≤ suc fuel + 1 = rw (sym (ap extra empty)) h in
          rw empty (
            Ends-bind (Shorter (suc (length bs))) Any (begin_wagon ptr (b ∷ bs) u) _
              (begin_wagon-Ends ptr b bs u)
              (λ r shorter.
                next_round-Ends fuel again r
                  (λ more. omega (arith, shorter, enough, if_le fuel (is_empty r.0.wagon)))))
      | inr begun ↦
          let enough : 2 * suc (length bs) ≤ suc fuel + 0 = rw (sym (ap extra begun)) h in
          rw begun (
            Ends-bind (Progress (suc (length bs))) Any (continue_wagon ptr (b ∷ bs) u) _
              (continue_wagon-Ends ptr (b ∷ bs) u)
              (λ r progress. next_round-Ends fuel again r (λ more.
                let (shorter, empty) = progress more in
                let one : extra (is_empty r.0.wagon) ≡ extra true =
                  ap (λ l. extra (is_empty l)) empty in
                omega (arith, shorter, enough, one))))
    ]

middle-Ends : (payload : List ℕ) (u : Unwrapper) → Ends Any (middle payload u)
unfolding middle
middle-Ends payload u =
    let lost : Bool = is_empty u.wagon || ltb (block_len u) (words u.wagon - 1 + words payload) in
    Ends-if Any (not u.sync) _ _ (Ends-done _) (
      Ends-if Any lost _ _ (Ends-done _) (
        Ends-bind Any Any (push payload u) _ (push-Ends payload u)
          (λ v _. Ends-if Any (block_len v == words v.wagon - 1) _ _ (Ends-done _) (Ends-done _))))

process_payload-Ends :
    (pointer : ℕ) (payload : List ℕ) (u : Unwrapper) → Ends Any (process_payload pointer payload u)
unfolding process_payload
process_payload-Ends pointer payload u =
    let beyond : Bool = not (pointer % 4 == 0) || ltb (words payload) (pointer / 4) in
    Ends-if Any (pointer == wagon_max_size) _ _ (middle-Ends payload u) (
      Ends-if Any beyond _ _ (Ends-done _) (
        dissect_payload-Ends (2 * length payload) (pointer / 4) payload u
          (if_le (2 * length payload) (is_empty u.wagon))))

-- However malformed a packet is, and whatever the state, add_packet comes to an end: two rounds of
-- dissect_payload for each byte of the payload are enough.
pub add_packet_ends : (packet : List ℕ) (u : Unwrapper) → add_packet packet u ≢ exhausted
unfolding add_packet
add_packet_ends packet u =
    let field_counter = of_le (take 2 packet) in
    let v : Unwrapper =
      if u.sync && not (field_counter == u.counter) then set_counter_error u else u in
    let ends = process_payload-Ends (of_le (take 2 (drop 2 packet))) (drop 4 packet) v in
    Ends-not_exhausted Any (add_packet packet u) (
      Ends-if Any (not (length packet % 4 == 0) || ltb (length packet) 8) _ _ (Ends-done _)
        (Ends-bind Any Any _ _ ends (λ r _. Ends-done _)))
