-- ===== src/Train/Unwrapper.antt =====
-- libnet/msw/proto/train/unwrapper.hpp. `wagon_` is a buffer of 4-byte words; here it is the bytes
-- of these words, and `words` counts them. `uint_size` is sizeof(uint) of the target, 4 or 8
-- (msw/int.hpp), the width of the error counters.
pub mod Ends
use rubetek_ios_cpp_releases.Prelude.{
  ℕ, zero, suc, ◌+◌, ◌-◌, ◌*◌, ◌%◌, ◌/◌, ◌^◌, min, Bool, true, false, ◌||◌, ◌&&◌, not, List, [],
  ◌∷◌, ◌++◌, length, is_empty, take, drop, of_le, ltb, ◌==◌, if◌then◌else◌,
}
use rubetek_ios_cpp_releases.Prelude.Outcome.{Outcome, done, aborted, exhausted, ◌>>=◌}
use rubetek_ios_cpp_releases.Dimension
use rubetek_ios_cpp_releases.Train.{Block, wagon_max_size}

pub record Unwrapper : Type 0 where
  pub uint_size : ℕ
  pub sync : Bool
  pub wagon : List ℕ
  pub counter : ℕ
  pub counter_errors : ℕ
  pub protocol_errors : ℕ

abbrev pub fresh : ℕ → Unwrapper
fresh uint_size = record {
  uint_size = uint_size;
  sync = false;
  wagon = [];
  counter = 0;
  counter_errors = 0;
  protocol_errors = 0;
}

-- size::fit_in of bytes in words: rounded up.
abbrev pub fit_in_words : ℕ → ℕ
fit_in_words n = n / 4 + (if n % 4 == 0 then 0 else 1)

abbrev pub words : List ℕ → ℕ
words bytes = length bytes / 4

unfoldable pub set_counter_error : Unwrapper → Unwrapper
unfolding Dimension.increment
set_counter_error u = record u {
  counter_errors = (Dimension.increment u.uint_size 1 u.counter_errors).0;
  wagon = [];
  sync = false;
}

unfoldable pub set_protocol_error : Unwrapper → Unwrapper
unfolding Dimension.increment
set_protocol_error u = record u {
  protocol_errors = (Dimension.increment u.uint_size 1 u.protocol_errors).0;
  wagon = [];
  sync = false;
}

-- The length field of a wagon that has begun, in words.
unfoldable pub block_len : Unwrapper → ℕ
block_len u = fit_in_words (of_le (take 2 u.wagon))

-- push_back_silent: MSW_ASSERT wants the room to be there.
unfoldable pub push : List ℕ → Unwrapper → Outcome Unwrapper
push bytes u =
    if ltb (fit_in_words wagon_max_size) (words u.wagon + words bytes)
    then aborted
    else done (record u { wagon = u.wagon ++ bytes })

-- The new state, what `block_ready_` receives, and the result.
unfoldable pub unload_wagon : Unwrapper → Unwrapper × List Block × Bool
unfolding set_protocol_error
unload_wagon u =
    let v = record u { sync = true } in
    let len = of_le (take 2 u.wagon) in
    let rng = drop 12 u.wagon in
    let block : Block = record {
      bytes = take (len - 8) rng;
      pid = of_le (take 4 (drop 4 u.wagon));
      lid = of_le (take 4 (drop 8 u.wagon));
      ext = of_le (take 2 (drop 2 u.wagon));
    } in
    if ltb (words u.wagon) 3
    then (v, [], false)
    else (if ltb len 8
        then (set_protocol_error v, [], false)
        else (if ltb (length rng) (len - 8)
            then (v, [], false)
            else (record v { wagon = [] }, block ∷ [], true)))

-- One round of `dissect_payload`: the new state, what is left of the payload, what has been
-- delivered, and whether the loop goes on.
abbrev pub Round : Type 0
Round = Unwrapper × List ℕ × List Block × Bool

abbrev unloaded : List ℕ → Unwrapper × List Block × Bool → Round
unloaded payload (u, blocks, more) = (u, payload, blocks, more)

-- The words of a wagon that starts at the front of the payload.
unfoldable pub load_wagon : List ℕ → Unwrapper → Outcome Round
unfolding push unload_wagon block_len
load_wagon payload u = push (take 4 payload) u >>= λ v.
    let n = min (words (drop 4 payload)) (block_len v) in
    push (take (4 * n) (drop 4 payload)) v >>= λ w.
    let rest = drop (4 * n) (drop 4 payload) in
    if words w.wagon == block_len w + 1
    then done (unloaded rest (unload_wagon w))
    else done (w, rest, [], true)

-- The branch for an empty wagon: skip the end of a wagon whose beginning is not here.
unfoldable pub begin_wagon : ℕ → List ℕ → Unwrapper → Outcome Round
unfolding load_wagon set_protocol_error
begin_wagon ptr payload u =
    let v = if not (ptr == 0) && u.sync then set_protocol_error u else u in
    let left = drop (4 * ptr) payload in
    if is_empty left then done (v, left, [], true) else load_wagon left v

-- The branch for a wagon that has begun: the payload has to go on with exactly its rest.
unfoldable pub continue_wagon : ℕ → List ℕ → Unwrapper → Outcome Round
unfolding push unload_wagon block_len set_protocol_error
continue_wagon ptr payload u =
    if block_len u == words u.wagon - 1 + ptr
    then (push (take (4 * ptr) payload) u >>= λ v.
        done (unloaded (drop (4 * ptr) payload) (unload_wagon v)))
    else done (set_protocol_error u, payload, [], false)

-- Two rounds take a word at least.
unfoldable pub dissect_payload : ℕ → ℕ → List ℕ → Unwrapper → Outcome (Unwrapper × List Block)
unfolding begin_wagon continue_wagon
dissect_payload fuel ptr [] u = done (u, [])
dissect_payload zero ptr (b ∷ bs) u = exhausted
dissect_payload (suc fuel) ptr (b ∷ bs) u =
    (if is_empty u.wagon then begin_wagon ptr (b ∷ bs) u else continue_wagon ptr (b ∷ bs) u)
    >>= λ r. elim r.3 [
      | true ↦ dissect_payload fuel 0 r.1 r.0 >>= λ s. done (s.0, r.2 ++ s.1)
      | false ↦ done (r.0, r.2)
    ]

-- A packet that holds nothing but the middle of a wagon.
unfoldable pub middle : List ℕ → Unwrapper → Outcome (Unwrapper × List Block)
unfolding push unload_wagon block_len set_protocol_error
middle payload u =
    if not u.sync
    then done (u, [])
    else (if is_empty u.wagon || ltb (block_len u) (words u.wagon - 1 + words payload)
        then done (set_protocol_error u, [])
        else (push payload u >>= λ v.
            if block_len v == words v.wagon - 1
            then done ((unload_wagon v).0, (unload_wagon v).1)
            else done (v, [])))

-- The payload by the packet's pointer.
unfoldable pub process_payload : ℕ → List ℕ → Unwrapper → Outcome (Unwrapper × List Block)
unfolding middle dissect_payload set_protocol_error
process_payload pointer payload u =
    if pointer == wagon_max_size
    then middle payload u
    else (if not (pointer % 4 == 0) || ltb (words payload) (pointer / 4)
        then done (set_protocol_error u, [])
        else dissect_payload (2 * length payload) (pointer / 4) payload u)

unfoldable pub add_packet : List ℕ → Unwrapper → Outcome (Unwrapper × List Block)
unfolding process_payload set_protocol_error set_counter_error
add_packet packet u =
    let field_counter = of_le (take 2 packet) in
    let field_pointer = of_le (take 2 (drop 2 packet)) in
    let v = if u.sync && not (field_counter == u.counter) then set_counter_error u else u in
    if not (length packet % 4 == 0) || ltb (length packet) 8
    then done (set_protocol_error u, [])
    else (process_payload field_pointer (drop 4 packet) v >>= λ r.
        done (record (r.0) { counter = (field_counter + 1) % 2 ^ 16 }, r.1))

-- A client that hands over the packets that arrive.
unfoldable pub add_all : List (List ℕ) → Unwrapper → Outcome (Unwrapper × List Block)
add_all [] u = done (u, [])
add_all (p ∷ ps) u = add_packet p u >>= λ r. add_all ps r.0 >>= λ s. done (s.0, r.1 ++ s.1)
