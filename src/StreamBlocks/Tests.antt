-- ===== src/StreamBlocks/Tests.antt =====
-- The block cutter on concrete input, and its theorems at such input.
use rubetek_ios_cpp_releases.Prelude.{ℕ, ◌≡◌, refl, List, [], ◌∷◌, arith}
use rubetek_ios_cpp_releases.Prelude.Outcome.{done}
use rubetek_ios_cpp_releases.StreamBlocks.{
  Stream, process, process_in, process_blocks, process_all, cut_all, cut, cut_in,
}
use rubetek_ios_cpp_releases.StreamBlocks.Laws.{process_all_lem, process_all_pieces}
use rubetek_ios_cpp_releases.StreamBlocks.Cuts.{IsStream, IsCut}

abbrev waiting : Stream
waiting = record { received = 1 ∷ []; capacity = 3 }

abbrev pieces : List (List ℕ)
pieces = (2 ∷ []) ∷ (3 ∷ 4 ∷ 5 ∷ 6 ∷ 7 ∷ []) ∷ []

process_pieces :
    process_all 3 pieces waiting
    ≡ done ((1 ∷ 2 ∷ 3 ∷ []) ∷ (4 ∷ 5 ∷ 6 ∷ []) ∷ [], record { received = 7 ∷ []; capacity = 3 })
unfolding process_all process_blocks process process_in cut_all cut cut_in
process_pieces = refl

waiting-IsStream : IsStream 3 waiting
waiting-IsStream = record { sized = refl; kept = omega arith }

process_all_lem_example :
    (bs : List (List ℕ)) × (t : Stream) × (process_all 3 pieces waiting ≡ done (bs, t))
    × IsStream 3 t
    × IsCut 3 (1 ∷ 2 ∷ 3 ∷ 4 ∷ 5 ∷ 6 ∷ 7 ∷ []) bs t.received
process_all_lem_example = process_all_lem 3 pieces waiting (omega arith) waiting-IsStream

process_all_pieces_example :
    process_all 3 pieces waiting ≡ process_all 3 ((2 ∷ 3 ∷ 4 ∷ 5 ∷ 6 ∷ 7 ∷ []) ∷ []) waiting
process_all_pieces_example =
    process_all_pieces 3 pieces ((2 ∷ 3 ∷ 4 ∷ 5 ∷ 6 ∷ 7 ∷ []) ∷ []) waiting (omega arith)
      waiting-IsStream refl
