-- ===== src/ThriftLink/Reading.antt =====
-- The receiver of thrift packets (rubetek/proto/thrift/transceiver.hpp) between two pieces of a
-- stream, and the rounds of process_taken_block (msw/proto/elastic_receiver.hpp) in between.
use rubetek_ios_cpp_releases.Prelude.{
  ℕ, ◌+◌, ◌%◌, ◌/◌, ◌^◌, ◌<◌, ◌≤◌, ◌≡◌, refl, sym, ap, true, false, List, [], ◌∷◌, ◌++◌, map,
  concat, Option, some, of_le, length, is_empty, ◌==◌, ==_iff, arith,
}
use rubetek_ios_cpp_releases.Prelude.Outcome.{Outcome, done}
use rubetek_ios_cpp_releases.Elastic.{Receiver, call}
use rubetek_ios_cpp_releases.ThriftLink.{
  byte_reverse, Callback, hdr_len, payload, Client, State, run,
}

-- The length in 4 bytes, the highest first.
abbrev pub length_bytes : ℕ → List ℕ
length_bytes n = n / 16777216 ∷ n / 65536 % 256 ∷ n / 256 % 256 ∷ n % 256 ∷ []

-- What the transceiver relies on of thrift_serialize, whose TFramedTransport puts the length of 4
-- bytes before what TBinaryProtocol has written, and of thrift_deserialize, which reads it back.
pub record IsFramed {Packet : Type 0} (serialize : Packet → List ℕ)
    (deserialize : List ℕ → Option Packet) : Type 0 where
  pub body : Packet → List ℕ
  pub framed : (p : Packet) → serialize p ≡ length_bytes (length (body p)) ++ body p
  pub some_bytes : (p : Packet) → 0 < length (body p)
  pub small : (p : Packet) → length (body p) < 2 ^ 32
  pub reads : (p : Packet) → deserialize (serialize p) ≡ some p

-- The header is read back.
pub byte_reverse-length_bytes : (n : ℕ) → n < 2 ^ 32 → byte_reverse 4 (of_le (length_bytes n)) ≡ n
unfolding byte_reverse of_le
byte_reverse-length_bytes n h = omega arith

-- A length is awaited.
abbrev pub head : List ℕ → Receiver Callback
head buffer = record {
  on_receive = some hdr_len;
  required_size = 4;
  receive_still = false;
  buffer = buffer;
}

-- A packet with `n` bytes behind its length is awaited.
abbrev pub rest_of : ℕ → List ℕ → Receiver Callback
rest_of n buffer = record {
  on_receive = some payload;
  required_size = n + 4;
  receive_still = true;
  buffer = buffer;
}

module _ {Packet : Type 0} (serialize : Packet → List ℕ) (deserialize : List ℕ → Option Packet)
    (h : IsFramed serialize deserialize) where
  abbrev pub stream : List Packet → List ℕ
  stream ps = concat (map serialize ps)

  -- Without an error so far.
  abbrev pub client : ℕ → List Packet → Client Packet
  client e ps = record { thrift_error = false; packets = ps; errors = e }

  pub length-serialize : (p : Packet) → length (serialize p) ≡ length (h.body p) + 4
  length-serialize p = omega (arith, ap length (h.framed p))

  -- A length arrives.
  pub call_header :
      (n : ℕ) (b : List ℕ) (s : Client Packet)
      → 0 < n
      → n < 2 ^ 32
      → call (run deserialize) (length_bytes n) (head b, s) ≡ done ((rest_of n b, s), false)
  unfolding call run
  call_header n b s hn hm =
      let some_bytes : (n == 0) ≡ false = ground arith in
      rw (byte_reverse-length_bytes n hm, some_bytes) (rw some_bytes (rw some_bytes refl))

  -- A packet arrives.
  pub call_packet :
      (e : ℕ) (p : Packet) (b : List ℕ) (ps : List Packet)
      → call (run deserialize) (serialize p) (rest_of (length (h.body p)) b, client e ps)
        ≡ done ((head b, client e (ps ++ p ∷ [])), true)
  unfolding call run
  call_packet e p b ps =
      let n : ℕ = length (h.body p) in
      let same : (n + 4 == length (serialize p)) ≡ true =
        (==_iff _ _).1 (sym (length-serialize p)) in
      let some_size : (n + 4 == 0) ≡ false = ground arith in
      let some_bytes : is_empty (serialize p) ≡ false = ap is_empty (h.framed p) in
      rw (same, some_size, some_bytes, h.reads p) refl

  -- What is awaited when `z` has arrived of the packets `rest`.
  pub data Awaits (future : List ℕ) (rest : List Packet) (z : List ℕ)
      : (List ℕ → Receiver Callback) → Type 0 where
    at_head : length z < 4 → z ++ future ≡ stream rest → Awaits future rest z head
    in_packet :
        (p : Packet) (ps : List Packet)
        → rest ≡ p ∷ ps
        → 4 ≤ length z
        → length z < length (h.body p) + 4
        → z ++ future ≡ stream rest
        → Awaits future rest z (rest_of (length (h.body p)))

  -- The packets that a block holds are delivered, and its end is left.
  pub record Reads (m : Outcome (State deserialize × List ℕ)) (b : List ℕ) (e : ℕ)
      (before : List Packet) (future : List ℕ) (all : List Packet) : Type 0 where
    pub got : List Packet
    pub rest : List Packet
    pub z : List ℕ
    pub awaited : List ℕ → Receiver Callback
    pub ran : m ≡ done ((awaited b, client e (before ++ got)), z)
    pub split : got ++ rest ≡ all
    pub awaits : Awaits future rest z awaited
