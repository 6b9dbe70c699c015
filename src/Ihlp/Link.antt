-- ===== src/Ihlp/Link.antt =====
-- Two transceivers (transceiver.hpp) at the two ends of a TCP connection.
use rubetek_ios_cpp_releases.Prelude.{
  ℕ, ◌+◌, ◌^◌, ◌<◌, ◌≡◌, refl, sym, ap, ◌∙◌, true, false, List, [], ◌∷◌, ◌++◌, append-nil, Option,
  some, length,
}
use rubetek_ios_cpp_releases.Prelude.Outcome.{done, ◌>>=◌}
use rubetek_ios_cpp_releases.Dimension.Trigger
use rubetek_ios_cpp_releases.Spp.Framing.{frame}
use rubetek_ios_cpp_releases.Spp.{no_error}
use rubetek_ios_cpp_releases.Spp.Unpacker
use rubetek_ios_cpp_releases.Spp.Unpacker.Laws.{unpack-Parses}
use rubetek_ios_cpp_releases.Spp.Parses.{Parses-frames}
use rubetek_ios_cpp_releases.Ihlp.{
  Transceiver, payload, response, code, send, zzz_wait_sending_keep_alive,
  zzz_set_next_reaction_time, zzz_process_packet, process_packets, process_tcp_payload,
}
use rubetek_ios_cpp_releases.Ihlp.Answers.{
  IsReady, Sendable, send_ready, payload_answered, one_fits,
}

-- Nothing of a packet has arrived yet.
abbrev pub IsFresh : Transceiver → Type 0
IsFresh t = t.spp_unpacker.buf ≡ []

-- One packet in one piece.
process_tcp_payload-frame :
    (w : ℕ) (pay_ready : List ℕ → Option (List (List ℕ))) (now : ℕ) (packet : List ℕ)
    (t : Transceiver)
    → 0 < w
    → length packet < 256 ^ w
    → IsFresh t
    → process_tcp_payload w pay_ready now (frame w packet) t ≡ (
        zzz_process_packet w pay_ready now packet (record t { spp_unpacker = Unpacker.fresh })
        >>= λ r. done (r.0, r.1 ++ []))
unfolding process_tcp_payload process_packets
process_tcp_payload-frame w pay_ready now packet t hw h f =
    let whole = Parses-frames w (packet ∷ []) (h, tt) in
    let one : Unpacker.unpack w t.spp_unpacker (frame w packet)
        ≡ done (packet ∷ [], Unpacker.fresh) =
      unpack-Parses {e = no_error} t.spp_unpacker (frame w packet) hw
        (rw (f, sym (append-nil (frame w packet))) whole) in
    rw one refl

-- A response only ends the waiting.
response_taken :
    (w : ℕ) (pay_ready : List ℕ → Option (List (List ℕ))) (now : ℕ) (rest : List ℕ)
    (t : Transceiver)
    → zzz_process_packet w pay_ready now (code response ∷ rest) t
      ≡ done (zzz_wait_sending_keep_alive now t, [])
unfolding zzz_process_packet
response_taken w pay_ready now rest t = refl

-- A packet that the length field can count goes from `a` to `b`, both between two calls and with
-- no part of a packet received, whose callback takes it and sends nothing itself, and the response
-- comes back, each frame in one piece. `b` delivers just this packet and sends just the response;
-- `a` waits until the response is there, then it stops waiting, and its next reaction is due after
-- the keep-alive time.
pub packet_delivered :
    (w sent received answered : ℕ) (pay_a pay_b : List ℕ → Option (List (List ℕ))) (packet : List ℕ)
    (a b : Transceiver)
    → 0 < w
    → Sendable w packet
    → IsReady a
    → IsReady b
    → IsFresh a
    → IsFresh b
    → pay_b packet ≡ some []
    → (a1 a2 b1 : Transceiver) × (send w sent packet a ≡ done a1)
      × (a1.spp_packer.sent ≡ a.spp_packer.sent ++ frame w (code payload ∷ packet) ∷ [])
      × (a1.wait_response ≡ true)
      × (process_tcp_payload w pay_b received (frame w (code payload ∷ packet)) b
          ≡ done (b1, packet ∷ []))
      × (b1.spp_packer.sent ≡ b.spp_packer.sent ++ frame w (code response ∷ []) ∷ [])
      × (process_tcp_payload w pay_a answered (frame w (code response ∷ [])) a1 ≡ done (a2, []))
      × (a2.wait_response ≡ false)
      × (a2.next_reaction_time ≡ answered + a.keep_alive_time)
unfolding zzz_wait_sending_keep_alive zzz_set_next_reaction_time Trigger.reset
packet_delivered w sent received answered pay_a pay_b packet a b hw h ra rb fa fb hp =
    let (a1, ea, sa, wa, na) = send_ready w sent packet a hw h ra in
    let b' : Transceiver = record b { spp_unpacker = Unpacker.fresh } in
    let rb' : IsReady b' = record { buf_empty = rb.buf_empty; front_empty = rb.front_empty } in
    let (b1, eb, sb, wb, nb) = payload_answered w pay_b received packet [] b' hw rb' hp tt in
    let a1' : Transceiver = record a1 { spp_unpacker = Unpacker.fresh } in
    let fresh : IsFresh a1 = ap (λ u. u.buf) sa.unpacker_kept ∙ fa in
    (
      a1,
      zzz_wait_sending_keep_alive answered a1',
      b1,
      ea,
      sa.sent,
      wa,
      process_tcp_payload-frame w pay_b received (code payload ∷ packet) b hw h fb
          ∙ ap (λ m. m >>= λ r. done (r.0, r.1 ++ [])) eb,
      sb.sent,
      process_tcp_payload-frame w pay_a answered (code response ∷ []) a1 hw (one_fits w hw) fresh
          ∙ ap (λ m. m >>= λ r. done (r.0, r.1 ++ [])) (response_taken w pay_a answered [] a1'),
      refl,
      ap (◌+◌ answered) sa.keep_alive_kept,
    )
