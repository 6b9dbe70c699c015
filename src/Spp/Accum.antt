-- ===== src/Spp/Accum.antt =====
-- libnet/msw/proto/spp/accum_packer.hpp and libnet/msw/proto/total_size_of_blocks.hpp: small
-- packets gathered into one buffer, which is sent when the next packet would not fit. The only
-- member is the packer.
pub mod Gathering
pub mod Laws
use rubetek_ios_cpp_releases.Prelude.{
  ℕ, zero, suc, ◌+◌, List, [], ◌∷◌, Bool, length, is_empty, ltb, if◌then◌else◌,
}
use rubetek_ios_cpp_releases.Prelude.Outcome.{Outcome, done, thrown, exhausted, ◌>>=◌}
use rubetek_ios_cpp_releases.Spp.{max_size}
use rubetek_ios_cpp_releases.Spp.Packer
use rubetek_ios_cpp_releases.Spp.Packer.{Packer}

-- The limit has to be a number that the length field can hold.
unfoldable pub construct : ℕ → List ℕ → ℕ → Outcome Packer
construct w front limit = if ltb (max_size w) limit then thrown else done (Packer.init front limit)

unfoldable pub total_size_of_blocks : List (List ℕ) → ℕ
total_size_of_blocks [] = 0
total_size_of_blocks (b ∷ bs) = length b + total_size_of_blocks bs

unfoldable pub is_too_large : ℕ → List (List ℕ) → Packer → Bool
is_too_large w bs p =
    let used = if is_empty p.buf then Packer.offset p else length p.buf in
    ltb p.capacity (total_size_of_blocks bs + w + used)

-- The source calls itself again after a flush; `rounds` counts these calls.
unfoldable pub add_packet_in : ℕ → ℕ → List (List ℕ) → Packer → Outcome Packer
add_packet_in w zero bs p = exhausted
add_packet_in w (suc rounds) bs p =
    let again = if is_empty p.buf then thrown else add_packet_in w rounds bs (Packer.flush p) in
    if is_too_large w bs p then again else Packer.put_packet_silent w bs p

-- After a flush the buffer is empty, so there is no third call.
unfoldable pub add_packet : ℕ → List (List ℕ) → Packer → Outcome Packer
add_packet w bs p = add_packet_in w 2 bs p

unfoldable pub flush : Packer → Packer
flush p = Packer.flush p

-- A client that adds packets one after the other.
unfoldable pub add_all : ℕ → List (List (List ℕ)) → Packer → Outcome Packer
add_all w [] p = done p
add_all w (bs ∷ bss) p = add_packet w bs p >>= add_all w bss
