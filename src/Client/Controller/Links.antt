-- ===== src/Client/Controller/Links.antt =====
-- A controller is offline just where it has no link, and no packet takes it back behind standby.
use rubetek_ios_cpp_releases.Prelude.{
  ℕ, ◌≡◌, ◌⊎◌, ◌≤◌, Bool, true, false, not, ◌||◌, List, [], ◌∷◌, arith,
}
use rubetek_ios_cpp_releases.Client.Action.{returned}
use rubetek_ios_cpp_releases.Client.Controller.{
  offline, rank, Controller, has_links, is_in, Call, Effect, notifies, set_offline_notice, transmit,
  set_state, start_init, add_local_link, add_remote_link, remove_local_link, remove_remote_link,
  if_no_links, set_offline, disconnect, Text, make_unknown, set_auto_known, connect, DeviceInfo,
  Message, reset_large_block_transaction,
}

abbrev pub Linked : Controller → Type 0
Linked c = is_in offline c ≡ not (has_links c)

-- It has a link, and its state is `k` at least.
abbrev pub Up : ℕ → Controller → Type 0
Up k c = (has_links c ≡ true) × (k ≤ rank c.state)

abbrev pub is_offline_notice : Effect → Bool
is_offline_notice (notifies set_offline_notice) = true
is_offline_notice _ = false

-- Whether the call says that the controller is offline now.
abbrev pub goes_offline : List Effect → Bool
goes_offline [] = false
goes_offline (e ∷ es) = is_offline_notice e || goes_offline es

abbrev pub IsGood : {A : Type 0} → Call A → Type 0
IsGood m =
    (c : Controller)
    → Linked c
    → Linked (m c).0 × ((Up 2 c → Up 2 (m c).0) ⊎ (goes_offline (m c).1 ≡ true))

pub transmit-IsGood : (message : Message) → IsGood (transmit message)
unfolding transmit
transmit-IsGood message c h = ground arith

pub make_unknown-IsGood : IsGood make_unknown
unfolding make_unknown transmit
make_unknown-IsGood c h = ground arith

pub disconnect-IsGood : IsGood disconnect
unfolding disconnect transmit set_state reset_large_block_transaction
disconnect-IsGood c h = ground arith

pub add_local_link-IsGood : (ip : Text) (known : Bool) → IsGood (add_local_link ip known)
unfolding add_local_link start_init transmit set_state
add_local_link-IsGood ip known c h = ground arith

pub remove_local_link-IsGood : IsGood remove_local_link
unfolding remove_local_link if_no_links reset_large_block_transaction set_offline set_state
remove_local_link-IsGood c h = ground arith

pub remove_remote_link-IsGood : IsGood remove_remote_link
unfolding remove_remote_link if_no_links reset_large_block_transaction set_offline set_state
remove_remote_link-IsGood c h = ground arith

pub add_remote_link-IsGood : (ip channel : Text) → IsGood (add_remote_link ip channel)
unfolding add_remote_link start_init transmit set_state
add_remote_link-IsGood ip channel c h = ground arith

pub set_auto_known-IsGood : IsGood set_auto_known
unfolding set_auto_known transmit
set_auto_known-IsGood c h = ground arith

pub connect-IsGood :
    (device : DeviceInfo) (crc : ℕ) (alias : Text) → IsGood (connect device crc alias)
unfolding connect transmit
connect-IsGood device crc alias c h = ground arith

-- A connection that is made: the controller has a link and its info is there.
pub connect-Up :
    (device : DeviceInfo) (crc : ℕ) (alias : Text) (c : Controller)
    → Linked c
    → (connect device crc alias c).2 ≡ returned tt
    → Up 2 (connect device crc alias c).0
unfolding connect transmit
connect-Up device crc alias c h e = ground arith
