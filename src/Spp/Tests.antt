-- ===== src/Spp/Tests.antt =====
-- Runs of the SPP modules on concrete input, and their theorems at such input.
use rubetek_ios_cpp_releases.Prelude.{
  ℕ, ◌≡◌, refl, List, [], ◌∷◌, ◌++◌, arith, to_le, of_le, concat, replicate,
}
use rubetek_ios_cpp_releases.Prelude.Outcome.{done, thrown}
use rubetek_ios_cpp_releases.Spp.{
  UnpackError, no_error, bad_len, pack, unpack_one, unpack, unpack_loop,
}
use rubetek_ios_cpp_releases.Spp.Framing.{frame}
use rubetek_ios_cpp_releases.Spp.Parses.{Parses, unpack_total}
use rubetek_ios_cpp_releases.Spp.Unpacker
use rubetek_ios_cpp_releases.Spp.Unpacker.{Unpacker}
use rubetek_ios_cpp_releases.Spp.Unpacker.Laws.{unpack_all-concat, unpack_all-frames, fresh-IsIdle}
use rubetek_ios_cpp_releases.Spp.Packer
use rubetek_ios_cpp_releases.Spp.Packer.{Packer}
use rubetek_ios_cpp_releases.Spp.Packer.Blocks.{add_packet_lem, pending}
use rubetek_ios_cpp_releases.Spp.Accum
use rubetek_ios_cpp_releases.Spp.Sized.{
  w16, bytes_of, pack_new, unpack_one_sized, unpack_one_sized_or_throw, unpack_one-pack_new,
}
use rubetek_ios_cpp_releases.Spp.Accum.Laws.{add_packet_taken, add_packet_too_large}
use rubetek_ios_cpp_releases.Spp.Accum.Gathering.{IsGathering}

pack_two : pack 2 (9 ∷ []) (7 ∷ 8 ∷ []) ≡ done (9 ∷ 2 ∷ 0 ∷ 7 ∷ 8 ∷ [])
unfolding pack to_le
pack_two = refl

unpack_cut_off : unpack 1 (2 ∷ 7 ∷ 8 ∷ 3 ∷ 9 ∷ []) ≡ done ((7 ∷ 8 ∷ []) ∷ [], bad_len)
unfolding unpack unpack_loop unpack_one of_le
unpack_cut_off = refl

-- The two pieces of a stream with one packet and the start of another.
abbrev pieces : List (List ℕ)
pieces = (2 ∷ 7 ∷ []) ∷ (8 ∷ 3 ∷ 9 ∷ []) ∷ []

unpack_all-pieces :
    Unpacker.unpack_all 1 Unpacker.fresh pieces
    ≡ done ((7 ∷ 8 ∷ []) ∷ [], record { buf = 3 ∷ 9 ∷ [] })
unfolding Unpacker.unpack_all Unpacker.unpack Unpacker.zzz_unpack unpack_one of_le
unpack_all-pieces = refl

unpack_total_example :
    (ps : List (List ℕ)) × (r : List ℕ) × (e : UnpackError) × (unpack 1 (2 ∷ 7 ∷ 8 ∷ 3 ∷ 9 ∷ [])
      ≡ done (ps, e))
    × Parses 1 (2 ∷ 7 ∷ 8 ∷ 3 ∷ 9 ∷ []) ps r e
unpack_total_example = unpack_total 1 (2 ∷ 7 ∷ 8 ∷ 3 ∷ 9 ∷ []) (omega arith)

unpack_all-concat_example :
    Unpacker.unpack_all 1 Unpacker.fresh pieces
    ≡ Unpacker.unpack 1 Unpacker.fresh (2 ∷ 7 ∷ 8 ∷ 3 ∷ 9 ∷ [])
unpack_all-concat_example = unpack_all-concat 1 Unpacker.fresh pieces (omega arith) (fresh-IsIdle 1)

unpack_all-frames_example :
    Unpacker.unpack_all 1 Unpacker.fresh ((2 ∷ 7 ∷ []) ∷ (8 ∷ 1 ∷ 9 ∷ []) ∷ [])
    ≡ done ((7 ∷ 8 ∷ []) ∷ (9 ∷ []) ∷ [], Unpacker.fresh)
unfolding to_le
unpack_all-frames_example =
    unpack_all-frames 1 ((7 ∷ 8 ∷ []) ∷ (9 ∷ []) ∷ []) ((2 ∷ 7 ∷ []) ∷ (8 ∷ 1 ∷ 9 ∷ []) ∷ [])
      (omega arith) (omega arith) refl

abbrev small : Packer
small = record { front = 0 ∷ []; buf = []; capacity = 8; last_packet_len = 0; sent = [] }

add_packet_lem_example :
    (q : Packer) × (Packer.add_packet 1 ((7 ∷ []) ∷ (8 ∷ []) ∷ []) small ≡ done q)
    × (q.buf ≡ [])
    × (q.sent ≡ ([] ++ pending small) ++ ((0 ∷ []) ++ frame 1 (7 ∷ 8 ∷ [])) ∷ [])
    × (q.front ≡ 0 ∷ [])
add_packet_lem_example =
    add_packet_lem 1 ((7 ∷ []) ∷ (8 ∷ []) ∷ []) small (omega arith) (omega arith)

IsGathering-none : IsGathering 1 8 (0 ∷ []) [] [] small
IsGathering-none = record {
  fronts = refl;
  limits = refl;
  holds = refl;
  within = omega arith;
  sends = refl;
  bounds = tt;
  busy = tt;
}

add_packet_taken_example :
    (q : Packer) × (groups : List (List (List ℕ))) × (cs : List (List ℕ)) × (Accum.add_packet 1
        ((7 ∷ 8 ∷ []) ∷ [])
        small
      ≡ done q)
    × IsGathering 1 8 (0 ∷ []) groups cs q
    × (concat groups ++ cs ≡ (7 ∷ 8 ∷ []) ∷ [])
add_packet_taken_example =
    add_packet_taken 1 8 (0 ∷ []) (omega arith) (omega arith) [] [] ((7 ∷ 8 ∷ []) ∷ []) small
      IsGathering-none (omega arith)

add_packet_too_large_example : Accum.add_packet 1 (replicate 9 5 ∷ []) small ≡ thrown
add_packet_too_large_example =
    add_packet_too_large 1 8 (0 ∷ []) (omega arith) (omega arith) [] [] (replicate 9 5 ∷ []) small
      IsGathering-none (omega arith)

unpack_one-pack_new_example :
    (p : List ℕ) × (pack_new w16 (7 ∷ 8 ∷ []) ≡ done p)
    × (unpack_one_sized w16 (p ++ 5 ∷ []) ≡ (7 ∷ 8 ∷ [], 5 ∷ [], no_error))
    × (unpack_one_sized_or_throw w16 (p ++ 5 ∷ []) ≡ done (7 ∷ 8 ∷ [], 5 ∷ []))
unfolding bytes_of
unpack_one-pack_new_example = unpack_one-pack_new w16 (7 ∷ 8 ∷ []) (5 ∷ []) (omega arith)
