-- ===== src/Client/Packets/Loading.antt =====
-- A project that comes in parts (large_begin, large_block and large_end of
-- rubetek/client/controller/ihap_transceiver_new.hpp, over impl/controller.cpp).
use rubetek_ios_cpp_releases.Prelude.{
  ℕ, ◌+◌, ◌-◌, ◌%◌, ◌^◌, ◌≤◌, ◌<◌, ◌≡◌, refl, sym, ap, ◌∙◌, true, false, List, [], ◌∷◌, ◌++◌, map,
  append-nil, append_assoc, none, some, length, length-append, max, All, le→ltb, ◌==◌, arith,
}
use rubetek_ios_cpp_releases.Client.Action.{returned}
use rubetek_ios_cpp_releases.Client.Controller.{
  Text, Controller, ProjectLoader, no_block, has_links, Effect, sends, reports, notifies,
  project_received, Report, transmit, report, reset_large_block_transaction,
}
use rubetek_ios_cpp_releases.Client.Controller.Callbacks.{
  on_project, on_large_block, on_large_block_enriched,
}
use rubetek_ios_cpp_releases.Client.Packets.{
  Codes, Packet, project, large_begin, large_block, large_end, reserve, push_to_large_block,
  take_part, take_begin, take_block, take_end, process_of, internal_process_ihap_packet,
}

-- The projects that the application gets, with their sums.
abbrev pub project_of : Report → List (Text × ℕ)
project_of (project_received block crc) = (block, crc) ∷ []
project_of _ = []

abbrev pub projects : List Effect → List (Text × ℕ)
projects [] = []
projects (reports r ∷ es) = project_of r ++ projects es
projects (sends m ∷ es) = projects es
projects (notifies n ∷ es) = projects es

projects-append : (xs ys : List Effect) → projects (xs ++ ys) ≡ projects xs ++ projects ys
projects-append [] ys = refl
projects-append (reports r ∷ xs) ys =
    ap (◌++◌ (project_of r)) (projects-append xs ys)
    ∙ sym (append_assoc (project_of r) (projects xs) (projects ys))
projects-append (sends m ∷ xs) ys = projects-append xs ys
projects-append (notifies n ∷ xs) ys = projects-append xs ys

-- The packets of a project: `blocks` are payloads, each with the part that it says.
abbrev pub block_packet : Text × Text → Packet
block_packet (payload, part) = record { type = large_block; payload = payload }

abbrev pub rest_packets : List (Text × Text) → Text → List Packet
rest_packets blocks end = map block_packet blocks ++ record { type = large_end; payload = end } ∷ []

abbrev pub project_packets : Text → Text → List (Text × Text) → Text → List Packet
project_packets sum begin blocks end =
    record { type = project; payload = sum }
    ∷ record { type = large_begin; payload = begin }
    ∷ rest_packets blocks end

abbrev pub parts_of : List (Text × Text) → Text
parts_of [] = []
parts_of ((payload, part) ∷ blocks) = part ++ parts_of blocks

-- A controller whose project has come so far, and one whose project has come.
abbrev pub loading : Controller → ProjectLoader → ℕ → ℕ → Text → Controller
loading c l crc size items = record c {
  project_loader = some (record l { wait_prj = some crc });
  large_block = record { capacity = size; items = items };
}

abbrev pub loaded : Controller → ProjectLoader → ℕ → Controller
loaded c l count = record c {
  project_loader =
      some (record l { loaded_size = (l.loaded_size + count) % 2 ^ 32; wait_prj = none });
  large_block = no_block;
}

module _ (codes : Codes) where
  -- Packets one after the other; process_ihap_packet catches what one of them throws.
  unfoldable pub process_all : List Packet → Controller → Controller × List Effect
  unfolding internal_process_ihap_packet
  process_all [] c = (c, [])
  process_all (p ∷ ps) c =
      let (next, effects, _) = internal_process_ihap_packet codes p c in
      let (last, more) = process_all ps next in (last, effects ++ more)

  part_lem :
      (c : Controller) (l : ProjectLoader) (crc size : ℕ) (items part : Text)
      → has_links c ≡ true
      → c.active_back_interface ≡ true
      → length items + length part ≤ size
      → let (c', effects, end) = take_part codes part (loading c l crc size items) in
        (c' ≡ loading c l crc size (items ++ part)) × (projects effects ≡ []) × (end ≡ returned tt)
  unfolding take_part push_to_large_block transmit on_large_block_enriched report
  part_lem c l crc size items part linked client fits =
      rw (le→ltb (size - length items) (length part) (omega arith), linked, client)
        (refl, refl, refl)

  begin_lem :
      (c : Controller) (l : ProjectLoader) (crc size : ℕ) (payload part : Text)
      → has_links c ≡ true
      → c.active_back_interface ≡ true
      → codes.large_begin payload ≡ some (size, part)
      → length part ≤ size
      → let (c', effects, end) = take_begin codes payload (loading c l crc 0 []) in
        (c' ≡ loading c l crc size part) × (projects effects ≡ [])
  unfolding take_begin reserve
  begin_lem c l crc size payload part linked client says fits =
      let (state, none_yet, end) =
        part_lem c l crc size [] part linked client (omega (arith, fits)) in
      let whole : max 0 size ≡ size = omega arith in rw (says, whole) (state, none_yet)

  block_lem :
      (c : Controller) (l : ProjectLoader) (crc size : ℕ) (items payload part : Text)
      → has_links c ≡ true
      → c.active_back_interface ≡ true
      → codes.large_block payload ≡ some part
      → 0 < size
      → length items + length part ≤ size
      → let (c', effects, end) = take_block codes payload (loading c l crc size items) in
        (c' ≡ loading c l crc size (items ++ part)) × (projects effects ≡ [])
  unfolding take_block
  block_lem c l crc size items payload part linked client says some_size fits =
      let (state, none_yet, end) = part_lem c l crc size items part linked client fits in
      let begun : (size == 0) ≡ false = ground arith in rw (begun, says) (state, none_yet)

  end_lem :
      (c : Controller) (l : ProjectLoader) (crc size : ℕ) (items payload part : Text)
      → c.active_back_interface ≡ true
      → codes.large_block_end payload ≡ some part
      → 0 < size
      → length items + length part ≤ size
      → let (c', effects, end) = take_end codes payload (loading c l crc size items) in
        (c' ≡ loaded c l (length (items ++ part))) × (projects effects ≡ (items ++ part, crc) ∷ [])
  unfolding take_end push_to_large_block on_large_block_enriched on_large_block report
      reset_large_block_transaction
  end_lem c l crc size items payload part client says some_size fits =
      let begun : (size == 0) ≡ false = ground arith in
      let room = le→ltb (size - length items) (length part) (omega arith) in
      rw (begun, says, room, client) (refl, refl)

  nil_lem : (c : Controller) → process_all [] c ≡ (c, [])
  unfolding process_all
  nil_lem c = refl

  -- The first of several packets.
  first_lem :
      (p : Packet) (ps : List Packet) (c c' : Controller) (found : List (Text × ℕ))
      → (internal_process_ihap_packet codes p c).0 ≡ c'
      → projects (internal_process_ihap_packet codes p c).1 ≡ found
      → ((process_all (p ∷ ps) c).0 ≡ (process_all ps c').0)
        × (projects (process_all (p ∷ ps) c).1 ≡ found ++ projects (process_all ps c').1)
  unfolding process_all
  first_lem p ps c c' found state one =
      let effects = (internal_process_ihap_packet codes p c).1 in
      rw (state, sym one) (refl, projects-append effects (process_all ps c').1)

  rest_lem :
      (c : Controller) (l : ProjectLoader) (crc size : ℕ) (items : Text)
      (blocks : List (Text × Text)) (end last : Text)
      → has_links c ≡ true
      → c.active_back_interface ≡ true
      → All (λ (payload, part). codes.large_block payload ≡ some part) blocks
      → codes.large_block_end end ≡ some last
      → 0 < size
      → length (items ++ parts_of blocks ++ last) ≤ size
      → let (c', effects) = process_all (rest_packets blocks end) (loading c l crc size items) in
        let whole = items ++ parts_of blocks ++ last in
        (c' ≡ loaded c l (length whole)) × (projects effects ≡ (whole, crc) ∷ [])
  unfolding internal_process_ihap_packet process_of
  rest_lem c l crc size items [] end last linked client says says_end some_size fits =
      let nil = append-nil items in
      let fits' : length (items ++ last) ≤ size = rw (sym nil) fits in
      let (state, one) =
        end_lem c l crc size items end last client says_end some_size
          (omega (arith, length-append items last, fits')) in
      let last_packet : Packet = record { type = large_end; payload = end } in
      let (same, found) = first_lem last_packet [] (loading c l crc size items) _ _ state one in
      let whole = items ++ last in
      let ended = nil_lem (loaded c l (length whole)) in
      rw nil (same ∙ ap (λ x. x.0) ended, found ∙ ap (λ x. (whole, crc) ∷ projects x.1) ended)
  rest_lem c l crc size items ((p, part) ∷ blocks) end last linked client (says, more) says_end
        some_size fits =
      let whole : items ++ (part ++ parts_of blocks) ≡ (items ++ part) ++ parts_of blocks =
        sym (append_assoc items part (parts_of blocks)) in
      let fits' : length ((items ++ part) ++ parts_of blocks ++ last) ≤ size =
        rw (sym whole) fits in
      let room : length items + length part ≤ size = omega (
        arith,
        length-append items part,
        length-append (items ++ part) (parts_of blocks),
        length-append ((items ++ part) ++ parts_of blocks) last,
        fits',
      ) in
      let (state, nothing) =
        block_lem c l crc size items p part linked client says some_size room in
      let (same, found) =
        first_lem (block_packet (p, part)) (rest_packets blocks end) (loading c l crc size items) _
          _ state nothing in
      let (state', one) =
        rest_lem c l crc size (items ++ part) blocks end last linked client more says_end some_size
          fits' in
      rw whole (same ∙ state', found ∙ one)

  -- A controller with a link, to which the application is connected, and whose project is to be
  -- loaded, while no large block is begun. The sum of a project, then its first part with the size
  -- of the whole, which is not 0 and is enough, then its other parts and the end: the application
  -- gets just this project, whole and with its sum, and the large block is empty again. What the
  -- payloads say is by the thrift code.
  pub project_delivered :
      (c : Controller) (l : ProjectLoader) (crc size : ℕ) (sum begin first : Text)
      (blocks : List (Text × Text)) (end last : Text)
      → has_links c ≡ true
      → c.active_back_interface ≡ true
      → c.project_loader ≡ some l
      → c.large_block ≡ no_block
      → codes.project sum ≡ some crc
      → codes.large_begin begin ≡ some (size, first)
      → All (λ (payload, part). codes.large_block payload ≡ some part) blocks
      → codes.large_block_end end ≡ some last
      → 0 < size
      → length (first ++ parts_of blocks ++ last) ≤ size
      → let (c', effects) = process_all (project_packets sum begin blocks end) c in
        let whole = first ++ parts_of blocks ++ last in
        (c' ≡ loaded c l (length whole)) × (projects effects ≡ (whole, crc) ∷ [])
  unfolding internal_process_ihap_packet process_of on_project
  project_delivered c l crc size sum begin first blocks end last linked client loader empty says_sum
        says_begin says says_end some_size fits =
      let room : length first ≤ size = omega (
        arith,
        length-append first (parts_of blocks),
        length-append (first ++ parts_of blocks) last,
        fits,
      ) in
      let (state, nothing) = begin_lem c l crc size begin first linked client says_begin room in
      let begun : Packet = record { type = large_begin; payload = begin } in
      let announced : Packet = record { type = project; payload = sum } in
      let rest = rest_packets blocks end in
      let (same, found) =
        first_lem announced (begun ∷ rest) c (loading c l crc 0 []) []
          (rw (says_sum, loader, empty) refl) (rw (says_sum, loader) refl) in
      let (same', found') = first_lem begun rest (loading c l crc 0 []) _ _ state nothing in
      let (state', one) =
        rest_lem c l crc size first blocks end last linked client says says_end some_size fits in
      (same ∙ same' ∙ state', found ∙ found' ∙ one)
