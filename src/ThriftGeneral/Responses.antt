-- ===== src/ThriftGeneral/Responses.antt =====
-- Who answers what (process_in_packet in rubetek/proto/thrift/general.hpp).
use rubetek_ios_cpp_releases.Prelude.{
  ℕ, ◌≡◌, refl, inl, inr, true, false, List, [], ◌∷◌, ◌++◌, ◌==◌, Bool-cases, if◌then◌else◌, ap,
}
use rubetek_ios_cpp_releases.ThriftGeneral.{
  Packet, Response, Attempt, returned, raised, Client, General, response_type, version_type,
  ping_type, conclude, check_version, take_response, process_in_packet,
}

-- The responses that the other side writes, this side can read.
abbrev pub ReadsResponses : Client → Client → Type 0
ReadsResponses writer reader =
    (r : Response) → reader.deserialize_response (writer.serialize_response r) ≡ returned r

-- An answer, which the other side answers with nothing.
abbrev pub IsAnswer : Client → ℕ → General → Packet → Type 0
IsAnswer b now h p = (p.type ≡ response_type) × ((process_in_packet b now p h).1 ≡ [])

conclude-IsAnswer :
    (a b : Client) (now : ℕ) (end : Attempt (Unit {0})) (g h : General)
    → ReadsResponses a b
    → (p : Packet) × (conclude a end g ≡ p ∷ []) × IsAnswer b now h p
unfolding conclude process_in_packet
conclude-IsAnswer a b now (returned x) g h reads =
    let r : Response = record { ok = true; message = [] } in
    (
      record { type = response_type; sender = g.sender; payload = a.serialize_response r },
      refl,
      (refl, rw (reads r, take_response) refl),
    )
conclude-IsAnswer a b now (raised message) g h reads =
    let r : Response = record { ok = false; message = message } in
    (
      record { type = response_type; sender = g.sender; payload = a.serialize_response r },
      refl,
      (refl, rw (reads r, take_response) refl),
    )

-- What comes before the answer: what the client's callback sends.
abbrev pub sent_by_client : Client → Packet → List Packet
sent_by_client client p =
    if p.type == version_type
    then []
    else (if p.type == ping_type then [] else (client.in_packet_ready p).0)

-- Every packet but a response is answered once, behind what the client sends itself, whatever goes
-- wrong on the way, and the time of it is kept. The answer is a response, which the other side
-- answers with nothing, if it can read responses.
pub answered_once :
    (a b : Client) (now later : ℕ) (pkt : Packet) (g h : General)
    → (pkt.type == response_type) ≡ false
    → ReadsResponses a b
    → let (g', sent) = process_in_packet a now pkt g in
      (p : Packet) × (sent ≡ sent_by_client a pkt ++ p ∷ [])
      × IsAnswer b later h p
      × (g'.last_response_time ≡ now)
unfolding process_in_packet
answered_once a b now later pkt g h other reads =
    let g' : General = record g { last_response_time = now } in
    elim (Bool-cases (pkt.type == version_type)) [
      | inl is_version ↦
          let (p, e, k) = conclude-IsAnswer a b later (check_version a pkt.payload) g' h reads in
          rw is_version (p, e, k, refl)
      | inr not_version ↦ elim (Bool-cases (pkt.type == ping_type)) [
        | inl is_ping ↦
            let (p, e, k) = conclude-IsAnswer a b later (returned tt) g' h reads in
            rw (not_version, is_ping) (p, e, k, refl)
        | inr not_ping ↦
            let (p, e, k) = conclude-IsAnswer a b later (a.in_packet_ready pkt).1 g' h reads in
            rw (not_version, not_ping, other) (p, ap (◌++◌ (a.in_packet_ready pkt).0) e, k, refl)
      ]
    ]
