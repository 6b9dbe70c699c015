-- ===== src/Ihmlp/Network/Start.antt =====
-- How two transceivers (async_transceiver.hpp) begin.
use rubetek_ios_cpp_releases.Prelude.{ℕ, ◌≡◌, refl, Bool, true, ◌||◌, List, [], ◌∷◌}
use rubetek_ios_cpp_releases.Prelude.Outcome.{Outcome, done, ◌>>=◌}
use rubetek_ios_cpp_releases.Dimension
use rubetek_ios_cpp_releases.Ihmlp
use rubetek_ios_cpp_releases.Ihmlp.Async
use rubetek_ios_cpp_releases.Ihmlp.Turns.{numbered}
use rubetek_ios_cpp_releases.Ihmlp.Network.{Side, System, swap, client_sends, arrives, take_first}
use rubetek_ios_cpp_releases.Ihmlp.Network.Flow.{End, side, Half}

-- A new side with these links.
abbrev pub new_side : Bool → Bool → Side
new_side primary secondary = record {
  state = (record Ihmlp.fresh { primary = primary; secondary = secondary }, []);
  flight = [];
  accepted = [];
  delivered = [];
}

-- The client of the first side sends a packet, and the other side gets it.
unfoldable pub first_contact : List ℕ → System → Outcome System
first_contact packet s = client_sends packet s >>= λ t. arrives (swap t) >>= λ u. done (swap u)

module _ (primary secondary primary' secondary' : Bool) (b : ℕ) (bytes : List ℕ) where
  abbrev pub caller : End
  caller = record {
    in_counter = 0;
    out_counter = 1;
    buf = 0x66 ∷ 1 ∷ b ∷ bytes;
    primary = primary;
    secondary = secondary;
    packets = [];
    flight = [];
    accepted = (b ∷ bytes) ∷ [];
    delivered = [];
  }

  abbrev pub called : End
  called = record {
    in_counter = 1;
    out_counter = 1;
    buf = [];
    primary = primary';
    secondary = secondary';
    packets = [];
    flight = numbered 1 [] ∷ [];
    accepted = [];
    delivered = (b ∷ bytes) ∷ [];
  }

  pub first_contact_lem :
      (primary || secondary) ≡ true
      → (primary' || secondary') ≡ true
      → first_contact (b ∷ bytes) (new_side primary secondary, new_side primary' secondary')
        ≡ done (side caller, side called)
  unfolding first_contact client_sends arrives take_first Async.send Async.process_ihmlp_packet
      Async.payload_ready Async.send_front Ihmlp.can_send Ihmlp.send_packet Ihmlp.has_links
      Ihmlp.zzz_send_ihmlp_packet Ihmlp.process_ihmlp_packet Ihmlp.process_numbered
      Ihmlp.acknowledge Ihmlp.zzz_reset Dimension.increment Dimension.set Dimension.reset
  first_contact_lem h h' = rw (h, h') refl

  pub caller-Half : (primary || secondary) ≡ true → Half caller called
  caller-Half h = record {
    chain = refl;
    account = refl;
    proper = tt;
    queued = refl;
    answer = refl;
    has_links = h;
  }

  pub called-Half : (primary' || secondary') ≡ true → Half called caller
  called-Half h = record {
    chain = ([], refl, refl);
    account = refl;
    proper = tt;
    queued = refl;
    answer = refl;
    has_links = h;
  }
