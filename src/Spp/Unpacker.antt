-- ===== src/Spp/Unpacker.antt =====
-- libnet/msw/proto/spp/unpacker.hpp: packets out of a stream that arrives in pieces. The state is
-- `buf_`, the bytes of a packet that has not arrived whole.
pub mod Laws
use rubetek_ios_cpp_releases.Prelude.{
  ℕ, zero, suc, List, [], ◌∷◌, ◌++◌, length, is_empty, if◌then◌else◌,
}
use rubetek_ios_cpp_releases.Prelude.Outcome.{Outcome, done, exhausted, ◌>>=◌}
use rubetek_ios_cpp_releases.Spp.{no_error, bad_header, bad_len, unpack_one}

pub record Unpacker : Type 0 where
  pub buf : List ℕ

abbrev pub fresh : Unpacker
fresh = record { buf = [] }

-- The packets that `packet_ready_` receives, in order, and what `buf_` holds at the end.
unfoldable pub zzz_unpack : ℕ → ℕ → List ℕ → Outcome (List (List ℕ) × List ℕ)
zzz_unpack w fuel [] = done ([], [])
zzz_unpack w zero (b ∷ bs) = exhausted
zzz_unpack w (suc fuel) (b ∷ bs) =
    let (pkt, rest, error) = unpack_one w (b ∷ bs) in
    elim error [
      | no_error ↦ zzz_unpack w fuel rest >>= λ r. done (pkt ∷ r.0, r.1)
      | bad_header ↦ done ([], rest)
      | bad_len ↦ done ([], rest)
    ]

unfoldable pub unpack : ℕ → Unpacker → List ℕ → Outcome (List (List ℕ) × Unpacker)
unpack w u packets =
    let input = if is_empty u.buf then packets else u.buf ++ packets in
    zzz_unpack w (length input) input >>= λ r. done (r.0, record { buf = r.1 })

unfoldable pub reset : Unpacker → Unpacker
reset u = record { buf = [] }

-- A client that hands over the pieces of a stream one after the other.
unfoldable pub unpack_all : ℕ → Unpacker → List (List ℕ) → Outcome (List (List ℕ) × Unpacker)
unpack_all w u [] = done ([], u)
unpack_all w u (piece ∷ pieces) =
    unpack w u piece >>= λ r. unpack_all w r.1 pieces >>= λ s. done (r.0 ++ s.0, s.1)
