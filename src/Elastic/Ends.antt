-- ===== src/Elastic/Ends.antt =====
-- The rounds of process_taken_block (msw/proto/elastic_receiver.hpp).
use rubetek_ios_cpp_releases.Prelude.{
  ℕ, suc, ◌≡◌, refl, ap, Bool, true, false, List, [], ◌∷◌, length, take, drop, leb, ◌==◌,
  if◌then◌else◌,
}
use rubetek_ios_cpp_releases.Prelude.Outcome.{Outcome, done, ◌>>=◌}
use rubetek_ios_cpp_releases.Elastic.{Receiver, Request, has_request, call, process_taken_block}

module _ {Callback S : Type 0}
    (run : Callback → List ℕ → S → Outcome (S × List (Request Callback))) where
  -- As many bytes are there as are asked for.
  pub process_taken_block-call :
      (fuel x : ℕ) (xs : List ℕ) (r : Receiver Callback) (s : S)
      (o : (Receiver Callback × S) × Bool)
      → has_request r ≡ true
      → (r.required_size == 0) ≡ false
      → leb r.required_size (length (x ∷ xs)) ≡ true
      → call run (take r.required_size (x ∷ xs)) (r, s) ≡ done o
      → process_taken_block run (suc fuel) (x ∷ xs) (r, s)
        ≡ process_taken_block run fuel (if o.1 then drop r.required_size (x ∷ xs) else x ∷ xs) o.0
  unfolding process_taken_block
  process_taken_block-call fuel x xs r s o hr hn hl e =
      rw (hr, hn, hl)
        (ap
          (λ m. m >>= λ p.
            process_taken_block run fuel (if p.1 then drop r.required_size (x ∷ xs) else x ∷ xs)
              p.0)
          e)

  -- Fewer bytes are there.
  pub process_taken_block-few :
      (fuel x : ℕ) (xs : List ℕ) (r : Receiver Callback) (s : S)
      → has_request r ≡ true
      → (r.required_size == 0) ≡ false
      → leb r.required_size (length (x ∷ xs)) ≡ false
      → process_taken_block run (suc fuel) (x ∷ xs) (r, s) ≡ done ((r, s), x ∷ xs)
  unfolding process_taken_block
  process_taken_block-few fuel x xs r s hr hn hl = rw (hr, hn, hl) refl

  pub process_taken_block-nil :
      (fuel : ℕ) (r : Receiver Callback) (s : S)
      → process_taken_block run (suc fuel) [] (r, s) ≡ done ((r, s), [])
  unfolding process_taken_block
  process_taken_block-nil fuel r s = refl
