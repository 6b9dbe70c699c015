-- ===== src/Buffer/Tests.antt =====
-- Runs of a buffer on concrete memory, and its theorems at such memory.
use rubetek_ios_cpp_releases.Prelude.{
  ℕ, ◌+◌, ◌≡◌, refl, List, [], ◌∷◌, length, replicate, length-replicate, arith, max,
}
use rubetek_ios_cpp_releases.Prelude.Outcome.{done, ◌>>=◌}
use rubetek_ios_cpp_releases.Buffer.{
  Buffer, contents, push_back, push_back_jump, push_back_repeat, erase_range,
}
use rubetek_ios_cpp_releases.Buffer.Grow.{Holds, Gives, push_back-Holds}
use rubetek_ios_cpp_releases.Buffer.Erase.{erase_range-Holds}

abbrev fresh : ℕ → List ℕ
fresh n = replicate n 0

length-fresh : (n : ℕ) → length (fresh n) ≡ n
length-fresh n = length-replicate n 0

-- Three items in memory for four.
abbrev three : Buffer ℕ
three = record { cells = 1 ∷ 2 ∷ 3 ∷ 9 ∷ []; size = 3 }

three-Holds : Holds (1 ∷ 2 ∷ 3 ∷ []) three
three-Holds = record { spare = 9 ∷ []; whole = refl; counted = refl }

-- A jump larger than the range leaves cells between the old items and the new that nobody wrote.
push_back_jump_gap :
    (push_back_jump fresh (7 ∷ 8 ∷ []) 4 three >>= λ b. done (contents b))
    ≡ done (1 ∷ 2 ∷ 3 ∷ 0 ∷ 0 ∷ 7 ∷ 8 ∷ [])
unfolding push_back_jump
push_back_jump_gap = refl

-- Growing for a repeated range writes over the last items.
push_back_repeat_overwrites :
    (push_back_repeat fresh (7 ∷ 8 ∷ []) 2 three >>= λ b. done (contents b))
    ≡ done (1 ∷ 7 ∷ 8 ∷ 7 ∷ 8 ∷ 7 ∷ 8 ∷ [])
unfolding push_back_repeat
push_back_repeat_overwrites = refl

push_back-Holds_example :
    Gives (push_back fresh (7 ∷ 8 ∷ []) three) (1 ∷ 2 ∷ 3 ∷ 7 ∷ 8 ∷ []) (max 4 (3 + 2))
push_back-Holds_example =
    push_back-Holds fresh length-fresh (7 ∷ 8 ∷ []) (1 ∷ 2 ∷ 3 ∷ []) three three-Holds

erase_range-Holds_example : Gives (erase_range 1 1 three) (1 ∷ 3 ∷ []) 4
erase_range-Holds_example =
    erase_range-Holds (1 ∷ []) (2 ∷ []) (3 ∷ []) three three-Holds (omega arith)
