-- ===== src/Client/Unit/Twice.antt =====
-- A controller that loses both links before the timer runs (remove_local_link, remove_remote_link and
-- idle of rubetek/client/controller/impl/unit.cpp).
use rubetek_ios_cpp_releases.Prelude.{
  ℕ, ◌≡◌, refl, ◌∙◌, ap, true, false, List, [], ◌∷◌, ◌++◌, none, some, arith,
}
use rubetek_ios_cpp_releases.Client.Action.{returned, dangling, ◌>>◌}
use rubetek_ios_cpp_releases.Client.Table.{lookup}
use rubetek_ios_cpp_releases.Client.Table.Laws.{lookup-update_self}
use rubetek_ios_cpp_releases.Client.Controller
use rubetek_ios_cpp_releases.Client.Controller.{
  Controller, Call, offline, is_in, if_no_links, reset_large_block_transaction, set_offline,
  set_state,
}
use rubetek_ios_cpp_releases.Client.Packets.{Codes}
use rubetek_ios_cpp_releases.Client.Unit.{
  ControllersUnit, no_controllers, call, call_or, call_at, push_removal, remove_local_link,
  remove_remote_link, try_remove_all, idle,
}
use rubetek_ios_cpp_releases.Client.Unit.Dispatch.{after, settle_lem}
use rubetek_ios_cpp_releases.Client.Unit.Steps.{remove_local_link-Inv, remove_remote_link-Inv}
use rubetek_ios_cpp_releases.Client.Unit.Online.{run-Inv, no_controllers-Inv}
use rubetek_ios_cpp_releases.Client.Unit.Sweep.{twice_lem}
use rubetek_ios_cpp_releases.Client.Unit.Runs.{
  Input, local_link_removed, remote_link_removed, ticked, apply, run,
}

local_lem :
    (c : Controller)
    → let (c', _, end) = Controller.remove_local_link c in
      (end ≡ returned tt) × (c'.known ≡ c.known) × (c'.primary_link ≡ false)
unfolding Controller.remove_local_link if_no_links reset_large_block_transaction set_offline
    set_state
local_lem c = ground arith

remote_lem :
    (c : Controller)
    → c.primary_link ≡ false
    → let (c', _, end) = Controller.remove_remote_link c in
      (end ≡ returned tt) × (c'.known ≡ c.known) × (is_in offline c' ≡ true)
unfolding Controller.remove_remote_link if_no_links reset_large_block_transaction set_offline
    set_state
remote_lem c h = ground arith

lost_lem :
    (id : ℕ) (m : Call (Unit {0})) (c : Controller) (u : ControllersUnit)
    → lookup id u.controllers ≡ some c
    → (m c).2 ≡ returned tt
    → let (v, _, end) = (call id m >> push_removal id) u in
      (end ≡ returned tt)
      × (lookup id v.controllers ≡ some (m c).0)
      × (v.potentially_removal ≡ u.potentially_removal ++ id ∷ [])
unfolding call call_or call_at push_removal after
lost_lem id m c u e h =
    let (state, end) = settle_lem id (m c).0 (m c).1 (returned tt) u in
    rw (e, h, end, state) (refl, lookup-update_self id (m c).0 c u.controllers e, refl)

idle_twice :
    (id : ℕ) (u : ControllersUnit)
    → u.potentially_removal ≡ id ∷ id ∷ []
    → (try_remove_all (id ∷ id ∷ []) u).2 ≡ dangling
    → (idle u).2 ≡ dangling
unfolding idle
idle_twice id u e h =
    let h' : (try_remove_all u.potentially_removal u).2 ≡ dangling =
      ap (λ ids. (try_remove_all ids u).2) e ∙ h in
    rw h' refl

-- A controller that is not known, where nothing else is listed for removal: when the calls for the
-- loss of its local and of its remote link both come before the timer, the timer uses an iterator
-- of an element that it has erased.
pub lost_twice :
    (codes : Codes) (is : List Input) (id : ℕ) (c : Controller) (u : ControllersUnit)
    → run codes is no_controllers ≡ some u
    → lookup id u.controllers ≡ some c
    → c.known ≡ false
    → u.potentially_removal ≡ []
    → run codes (local_link_removed id ∷ remote_link_removed id ∷ ticked ∷ []) u ≡ none
unfolding run apply remove_local_link remove_remote_link
lost_twice codes is id c u e found unknown empty =
    let inv = run-Inv codes is no_controllers u (no_controllers-Inv codes) e in
    let (ok, same, gone) = local_lem c in
    let c' = (Controller.remove_local_link c).0 in
    let (ok', same', off) = remote_lem c' gone in
    let v = (remove_local_link id u).0 in
    let w = (remove_remote_link id v).0 in
    let (end, there, list) = lost_lem id Controller.remove_local_link c u found ok in
    let (end', there', list') = lost_lem id Controller.remove_remote_link c' v there ok' in
    let twice =
      twice_lem id (Controller.remove_remote_link c').0 w
        (remove_remote_link-Inv id v (remove_local_link-Inv id u inv)).unique there'
        (rw (off, same', same, unknown) refl) in
    rw (end, end', idle_twice id w (list' ∙ rw (list, empty) refl) twice) refl
