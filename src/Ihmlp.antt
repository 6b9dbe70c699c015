-- ===== src/Ihmlp.antt =====
-- rubetek/proto/ihmlp/transceiver.hpp: numbered packets over two links, one packet at a time
-- waiting for the peer's next one.
pub mod Async
pub mod Repeats
pub mod Turns
pub mod Network
mod Tests
use rubetek_ios_cpp_releases.Prelude.{
  ℕ, ◌&&◌, ◌||◌, Bool, true, false, not, List, [], ◌∷◌, ◌++◌, is_empty, ◌==◌, if◌then◌else◌,
}
use rubetek_ios_cpp_releases.Prelude.Outcome.{Outcome, done, thrown, aborted, ◌>>=◌}
use rubetek_ios_cpp_releases.Dimension

pub data Link : Type 0 where
  primary_link secondary_link : Link

-- A call of one of the callbacks: a packet for a link, a payload for the client, the loss of all
-- links.
pub data Event : Type 0 where
  sent : Link → List ℕ → Event
  received : List ℕ → Event
  disconnected : Event

-- `primary` and `secondary` say which link callbacks are set; the counters are bytes.
pub record Transceiver : Type 0 where
  pub init : Bool
  pub in_counter : ℕ
  pub out_counter : ℕ
  pub buf : List ℕ
  pub primary : Bool
  pub secondary : Bool

-- enum class header
abbrev pub init_header : ℕ
init_header = 0x66

abbrev pub payload_header : ℕ
payload_header = 0xff

abbrev pub fresh : Transceiver
fresh = record {
  init = true;
  in_counter = 0;
  out_counter = 0;
  buf = [];
  primary = false;
  secondary = false;
}

unfoldable pub set_primary_link : Transceiver → Transceiver
set_primary_link t = record t { primary = true }

unfoldable pub set_secondary_link : Transceiver → Transceiver
set_secondary_link t = record t { secondary = true }

unfoldable pub has_links : Transceiver → Bool
has_links t = t.primary || t.secondary

unfoldable pub has_primary_link : Transceiver → Bool
has_primary_link t = t.primary

-- The link that a packet goes out on.
abbrev pub link : Transceiver → Link
link t = if t.primary then primary_link else secondary_link

unfoldable pub can_send : Transceiver → Bool
can_send t = is_empty t.buf

unfoldable pub zzz_reset : Transceiver → Transceiver
unfolding Dimension.reset
zzz_reset t = record t { in_counter = Dimension.reset; out_counter = Dimension.reset; buf = [] }

-- The new state, and the callbacks called; a packet without contents is the default argument.
unfoldable pub zzz_send_ihmlp_packet : List ℕ → Transceiver → Outcome (Transceiver × List Event)
unfolding Dimension.increment has_links
zzz_send_ihmlp_packet packet t =
    let (out, value) = Dimension.increment 1 1 t.out_counter in
    let whole = t.buf ++ (if t.init then init_header else payload_header) ∷ out ∷ packet in
    if not (has_links t) || not (is_empty t.buf)
    then aborted
    else done (
      record t { init = false; out_counter = out; buf = (if is_empty packet then [] else whole) },
      sent (link t) whole ∷ [],
    )

unfoldable pub send_packet : List ℕ → Transceiver → Outcome (Transceiver × List Event)
unfolding zzz_send_ihmlp_packet has_links
send_packet packet t =
    if not (has_links t) || is_empty packet || not (is_empty t.buf)
    then thrown
    else zzz_send_ihmlp_packet packet t

-- `S` is the state of the client, which its two callbacks change. `payload_ready` may call this
-- transceiver; `all_links_disconnected` does not.
module _ {S : Type 0}
    (payload_ready : List ℕ → Transceiver × S → Outcome ((Transceiver × S) × List Event))
    (all_links_disconnected : S → S × List Event) where
  unfoldable pub zzz_if_no_links : Transceiver × S → (Transceiver × S) × List Event
  unfolding has_links zzz_reset
  zzz_if_no_links (t, s) =
      let (s', events) = all_links_disconnected s in
      if not (has_links t)
      then ((zzz_reset (record t { init = true }), s'), events)
      else ((t, s), [])

  -- What still waits for the peer goes out on the secondary link.
  unfoldable pub reset_primary_link : Transceiver × S → (Transceiver × S) × List Event
  unfolding zzz_if_no_links
  reset_primary_link (t, s) =
      let ((u, s'), events) = zzz_if_no_links (record t { primary = false }, s) in
      if not (is_empty u.buf) && u.secondary
      then ((u, s'), events ++ sent secondary_link u.buf ∷ [])
      else ((u, s'), events)

  unfoldable pub reset_secondary_link : Transceiver × S → (Transceiver × S) × List Event
  unfolding zzz_if_no_links
  reset_secondary_link (t, s) = zzz_if_no_links (record t { secondary = false }, s)

  -- A payload that the client has not answered with a packet of its own is answered with an empty
  -- one.
  unfoldable pub acknowledge :
      List ℕ → (Transceiver × S) × List Event → Outcome ((Transceiver × S) × List Event)
  unfolding zzz_send_ihmlp_packet
  acknowledge packet ((t, s), events) =
      if not (is_empty packet) && is_empty t.buf
      then (zzz_send_ihmlp_packet [] t >>= λ r. done ((r.0, s), events ++ r.1))
      else done ((t, s), events)

  -- From the counter on.
  unfoldable pub process_numbered :
      List ℕ → Transceiver × S → Outcome ((Transceiver × S) × List Event)
  unfolding Dimension.set acknowledge
  process_numbered [] (t, s) = done ((t, s), [])
  process_numbered (c ∷ packet) (t, s) =
      if c == t.in_counter
      then done ((t, s), [])
      else (Dimension.set 1 1 c >>= λ value.
          payload_ready packet (record t { in_counter = value; buf = [] }, s)
          >>= acknowledge packet)

  unfoldable pub process_ihmlp_packet :
      List ℕ → Transceiver × S → Outcome ((Transceiver × S) × List Event)
  unfolding process_numbered zzz_reset
  process_ihmlp_packet [] (t, s) = aborted
  process_ihmlp_packet (header ∷ packet) (t, s) =
      process_numbered packet
        ((if header == init_header then zzz_reset (record t { init = false }) else t), s)
