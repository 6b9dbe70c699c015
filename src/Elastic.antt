-- ===== src/Elastic.antt =====
-- libnet/msw/proto/elastic_receiver.hpp: a receiver whose client says each time how many bytes it
-- wants next. `Callback` names the client's callbacks. `receive_buffer_` is its contents.
pub mod Ends
use rubetek_ios_cpp_releases.Prelude.{
  ℕ, zero, suc, ◌+◌, ◌*◌, ◌||◌, ◌&&◌, Bool, true, false, not, List, [], ◌∷◌, ◌++◌, length, is_empty,
  take, drop, Option, none, some, ltb, leb, ◌==◌, if◌then◌else◌,
}
use rubetek_ios_cpp_releases.Prelude.Outcome.{Outcome, done, aborted, exhausted, ◌>>=◌}
use rubetek_ios_cpp_releases.Dimension.Trigger

-- A call of one of the four functions that ask for bytes; without a size, it is for what there is.
pub data Request (Callback : Type 0) : Type 0 where
  receive : Callback → Request Callback
  receive_size : ℕ → Callback → Request Callback
  receive_still : Callback → Request Callback
  receive_still_size : ℕ → Callback → Request Callback

-- receive_context_ and receive_buffer_; call_performed_ is on just while a callback runs.
pub record Receiver (Callback : Type 0) : Type 0 where
  pub on_receive : Option Callback
  pub required_size : ℕ
  pub receive_still : Bool
  pub buffer : List ℕ

module _ {Callback : Type 0} where
  abbrev pub fresh : Receiver Callback
  fresh = record { on_receive = none; required_size = 0; receive_still = false; buffer = [] }

  unfoldable pub has_request : Receiver Callback → Bool
  has_request r = elim r.on_receive [ none ↦ false | some c ↦ true ]

  -- receive_context::set and set_still.
  unfoldable pub set : Request Callback → Receiver Callback → Outcome (Receiver Callback)
  unfolding Trigger.set
  set (receive c) r = done (record r { on_receive = some c })
  set (receive_size n c) r =
      if n == 0 then aborted else done (record r { on_receive = some c; required_size = n })
  set (receive_still c) r =
      done (record r { on_receive = some c; receive_still = Trigger.set true r.receive_still })
  set (receive_still_size n c) r =
      if n == 0
      then aborted
      else done (record r {
        on_receive = some c;
        required_size = n;
        receive_still = Trigger.set true r.receive_still;
      })

  unfoldable pub set_all : List (Request Callback) → Receiver Callback → Outcome (Receiver Callback)
  unfolding set
  set_all [] r = done r
  set_all (q ∷ qs) r = set q r >>= set_all qs

  unfoldable pub clear : Receiver Callback → Receiver Callback
  unfolding Trigger.reset
  clear r = record r {
    on_receive = none;
    required_size = 0;
    receive_still = Trigger.reset r.receive_still;
  }

-- The rounds that a block of this length can take.
abbrev pub rounds : ℕ → ℕ
rounds n = suc ((n + 1) * (n + 1))

-- `run` is what a callback does with a block, on the client's state `S`: the calls that ask for
-- more, in order.
module _ {Callback S : Type 0}
    (run : Callback → List ℕ → S → Outcome (S × List (Request Callback))) where
  -- The end of receive_context::call: with receive_still the block is not taken yet.
  unfoldable pub keep_or_take : List ℕ → Receiver Callback × S → (Receiver Callback × S) × Bool
  keep_or_take block (r, s) =
      if r.receive_still
      then (
        (
          (if r.required_size == 0
              then r
              else record r { required_size = r.required_size + length block }),
          s,
        ),
        false,
      )
      else ((r, s), true)

  unfoldable pub perform :
      Callback → List ℕ → Receiver Callback × S → Outcome ((Receiver Callback × S) × Bool)
  unfolding clear set_all keep_or_take
  perform c block (r, s) =
      run c block s >>= λ o. set_all o.1 (clear r) >>= λ r'. done (keep_or_take block (r', o.0))

  -- receive_context::call, with its result.
  unfoldable pub call : List ℕ → Receiver Callback × S → Outcome ((Receiver Callback × S) × Bool)
  unfolding perform
  call block (r, s) =
      if is_empty block || (not (r.required_size == 0) && not (r.required_size == length block))
      then aborted
      else elim r.on_receive [ none ↦ aborted | some c ↦ perform c block (r, s) ]

  -- The new state, and what is left of the block. Between two rounds that leave the block as it is
  -- the required size grows.
  unfoldable pub process_taken_block :
      ℕ → List ℕ → Receiver Callback × S → Outcome ((Receiver Callback × S) × List ℕ)
  process_taken_block zero block (r, s) = exhausted
  process_taken_block (suc fuel) block (r, s) =
      if is_empty block || not (has_request r)
      then done ((r, s), block)
      else (if r.required_size == 0
          then (call block (r, s) >>= λ o. done (o.0, (if o.1 then [] else block)))
          else (if leb r.required_size (length block)
              then (call (take r.required_size block) (r, s) >>= λ o.
                  process_taken_block fuel (if o.1 then drop r.required_size block else block) o.0)
              else done ((r, s), block)))

  -- The branch for more memory than the buffer has changes only where the contents are.
  unfoldable pub process_receive_buffer : Receiver Callback × S → Outcome (Receiver Callback × S)
  process_receive_buffer (r, s) =
      process_taken_block (rounds (length r.buffer)) r.buffer (r, s) >>= λ o.
      done (record (o.0.0) { buffer = o.1 }, o.0.1)

  unfoldable pub external_on_receive :
      List ℕ → Receiver Callback × S → Outcome (Receiver Callback × S)
  external_on_receive block (r, s) =
      if not (has_request r)
      then done (record r { buffer = r.buffer ++ block }, s)
      else (if is_empty r.buffer && (r.required_size == 0 || (r.required_size == length block))
          then (call block (r, s) >>= λ o.
              if o.1
              then done o.0
              else done (record (o.0.0) { buffer = o.0.0.buffer ++ block }, o.0.1))
          else process_receive_buffer (record r { buffer = r.buffer ++ block }, s))

  -- A request from outside the callbacks.
  unfoldable pub request :
      Request Callback → Receiver Callback × S → Outcome (Receiver Callback × S)
  request q (r, s) = set q r >>= λ r'. process_receive_buffer (r', s)
