-- ===== src/Spp.antt =====
-- libnet/msw/proto/spp: length-prefixed packets in a byte stream, pack.hpp and unpack.hpp.
-- `w` is sizeof(SizeType): 1, 2 or 4. A range is the list of the bytes in it.
pub mod Framing
pub mod Parses
pub mod Unpacker
pub mod Packer
pub mod Accum
pub mod Sized
mod Tests
use rubetek_ios_cpp_releases.Prelude.{
  ℕ, zero, suc, ◌+◌, ◌-◌, ◌^◌, List, [], ◌∷◌, ◌++◌, length, take, drop, to_le, of_le, ltb,
  if◌then◌else◌,
}
use rubetek_ios_cpp_releases.Prelude.Outcome.{Outcome, done, thrown, exhausted, ◌>>=◌}

-- std::numeric_limits<size_type>::max()
abbrev pub max_size : ℕ → ℕ
max_size w = 256 ^ w - 1

-- Appends the length and the block; a block that the length field cannot count is refused before
-- anything is written.
unfoldable pub pack : ℕ → List ℕ → List ℕ → Outcome (List ℕ)
pack w buf block =
    if ltb (max_size w) (length block)
    then thrown
    else done ((buf ++ to_le w (length block)) ++ block)

pub data UnpackError : Type 0 where
  no_error bad_header bad_len : UnpackError

unfoldable pub throw_if_error : UnpackError → Outcome (Unit {0})
throw_if_error no_error = done tt
throw_if_error bad_header = thrown
throw_if_error bad_len = thrown

-- The packet, what is left of `packets`, and the error. The sum of the two lengths does not wrap
-- here: with a length field of four bytes, `uint` is taken to be wider.
unfoldable pub unpack_one : ℕ → List ℕ → List ℕ × List ℕ × UnpackError
unpack_one w packets =
    if ltb (length packets) w
    then ([], packets, bad_header)
    else (let len = of_le (take w packets) in
        if ltb (length packets) (w + len)
        then ([], packets, bad_len)
        else (take len (drop w packets), drop len (drop w packets), no_error))

-- The overload that throws.
unfoldable pub unpack_one_or_throw : ℕ → List ℕ → Outcome (List ℕ × List ℕ)
unfolding throw_if_error
unpack_one_or_throw w packets =
    let (pkt, rest, error) = unpack_one w packets in throw_if_error error >>= λ _. done (pkt, rest)

-- The packets that `packet_ready` receives, in order, and the error; a call of `packet_ready`
-- returns. Every round but the last takes a byte at least.
unfoldable pub unpack_loop : ℕ → ℕ → List ℕ → Outcome (List (List ℕ) × UnpackError)
unpack_loop w fuel [] = done ([], no_error)
unpack_loop w zero (b ∷ bs) = exhausted
unpack_loop w (suc fuel) (b ∷ bs) =
    let (pkt, rest, error) = unpack_one w (b ∷ bs) in
    elim error [
      | no_error ↦ unpack_loop w fuel rest >>= λ r. done (pkt ∷ r.0, r.1)
      | bad_header ↦ done ([], bad_header)
      | bad_len ↦ done ([], bad_len)
    ]

unfoldable pub unpack : ℕ → List ℕ → Outcome (List (List ℕ) × UnpackError)
unpack w packets = unpack_loop w (length packets) packets

-- The overload that throws; the packets before the bad one have been delivered by then.
unfoldable pub unpack_or_throw : ℕ → List ℕ → Outcome (List (List ℕ))
unfolding throw_if_error
unpack_or_throw w packets = unpack w packets >>= λ r. throw_if_error r.1 >>= λ _. done r.0
