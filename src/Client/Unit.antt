-- ===== src/Client/Unit.antt =====
-- rubetek/client/controller/impl/unit.cpp: the controllers that the application knows, and the one
-- that it is connected to. An iterator is the identifier that it points to: of an element that has
-- been erased it is dangling. What back_interface_ gets is a list of calls, and it does not call
-- back before the function that calls it has ended.
pub mod Dispatch
pub mod Invariant
pub mod Steps
pub mod Removal
pub mod Online
pub mod Sweep
pub mod Twice
pub mod Lists
pub mod Runs
use rubetek_ios_cpp_releases.Prelude.{
  ℕ, Bool, true, false, not, ◌&&◌, ◌||◌, List, [], ◌∷◌, ◌++◌, Option, none, some, ◌==◌,
  if◌then◌else◌,
}
use rubetek_ios_cpp_releases.Client.Action.{
  Result, returned, thrown, dangling, Action, pure, throw, get, modify, emit, when, ◌>>=◌, ◌>>◌,
}
use rubetek_ios_cpp_releases.Client.Table.{Table, lookup, update, erase, insert}
use rubetek_ios_cpp_releases.Client.Controller
use rubetek_ios_cpp_releases.Client.Controller.{
  Text, DeviceInfo, Controller, Message, Report, Notice, change_status, switch_links,
  change_remote_connection, make_known, removed_from_controller, set_offline_notice, rename, Effect,
  sends, reports, notifies, Call, offline, has_links, is_in, transmit, construct,
}
use rubetek_ios_cpp_releases.Client.Controller.Callbacks.{online, can_connect}

-- controllers_unit; potentially_removal holds iterators.
pub record ControllersUnit : Type 0 where
  pub controllers : Table Controller
  pub active_controller : Option ℕ
  pub potentially_removal : List ℕ

-- The calls of controllers_unit_back_interface, and what a controller sends and reports.
pub data Event : Type 0 where
  any_controller_change_status active_controller_change_connection : Event
  disconnected_active_controller : Event
  became_known removed_from renamed : ℕ → Event
  sent : ℕ → Message → Event
  reported : Report → Event

abbrev pub UnitCall : Type 0 → Type 0
UnitCall A = Action ControllersUnit Event A

abbrev pub no_controllers : ControllersUnit
no_controllers = record { controllers = []; active_controller = none; potentially_removal = [] }

-- Whether the active controller has this identifier.
unfoldable pub is_active_id : ℕ → ControllersUnit → Bool
is_active_id id u = elim u.active_controller [ none ↦ false | some a ↦ a == id ]

-- The controller_on_ functions, where `c` is the controller that calls: it does so at its end, but
-- for change_status and set_offline, which look at no controller.
unfoldable pub on_change_remote_connection : ℕ → Controller → UnitCall (Unit {0})
unfolding is_active_id online
on_change_remote_connection id c = do
  u ← get
  when (is_active_id id u && online c) (emit active_controller_change_connection)
  emit any_controller_change_status

unfoldable pub on_set_offline : ℕ → UnitCall (Unit {0})
unfolding is_active_id
on_set_offline id = do
  u ← get
  when (is_active_id id u)
      (do emit disconnected_active_controller; modify λ v. record v { active_controller = none })

unfoldable pub on_notice : ℕ → Controller → Notice → UnitCall (Unit {0})
unfolding on_change_remote_connection on_set_offline
on_notice id c change_status = emit any_controller_change_status
on_notice id c switch_links = emit any_controller_change_status >> on_change_remote_connection id c
on_notice id c change_remote_connection = on_change_remote_connection id c
on_notice id c make_known = emit (became_known id)
on_notice id c removed_from_controller = emit (removed_from id)
on_notice id c set_offline_notice = on_set_offline id
on_notice id c rename = emit (renamed id)

unfoldable pub dispatch_one : ℕ → Controller → Effect → UnitCall (Unit {0})
unfolding on_notice
dispatch_one id c (sends message) = emit (sent id message)
dispatch_one id c (reports r) = emit (reported r)
dispatch_one id c (notifies n) = on_notice id c n

unfoldable pub dispatch : ℕ → Controller → List Effect → UnitCall (Unit {0})
unfolding dispatch_one
dispatch id c [] = pure tt
dispatch id c (e ∷ es) = dispatch_one id c e >> dispatch id c es

abbrev pub conclude : {A : Type 0} → Result A → UnitCall A
conclude r u = (u, [], r)

-- The end of a call of a controller: its state is kept, and what it has called is done.
unfoldable pub settle : {A : Type 0} → ℕ → Controller × List Effect × Result A → UnitCall A
unfolding dispatch
settle id (c, es, r) = do
  modify λ u. record u { controllers = update id c u.controllers }
  dispatch id c es
  conclude r

-- A call through an iterator, where `e` is what comes of it where the element is not there.
unfoldable pub call_at : {A : Type 0} → Result A → ℕ → Call A → Option Controller → UnitCall A
unfolding settle
call_at e id m none = conclude e
call_at e id m (some c) = settle id (m c)

unfoldable pub call_or : {A : Type 0} → Result A → ℕ → Call A → UnitCall A
unfolding call_at
call_or e id m u = call_at e id m (lookup id u.controllers) u

-- A call through get_iterator, which throws, and one through an iterator that is kept.
unfoldable pub call : {A : Type 0} → ℕ → Call A → UnitCall A
unfolding call_or
call id m = call_or thrown id m

unfoldable pub call_kept : {A : Type 0} → ℕ → Call A → UnitCall A
unfolding call_or
call_kept id m = call_or dangling id m

unfoldable pub add_controller : ℕ → Bool → UnitCall (Unit {0})
unfolding construct
add_controller id known =
    modify λ u. record u { controllers = insert id (construct id known) u.controllers }

unfoldable pub push_removal : ℕ → UnitCall (Unit {0})
push_removal id = modify λ u. record u { potentially_removal = u.potentially_removal ++ id ∷ [] }

unfoldable pub add_local_link : ℕ → Text → Bool → UnitCall (Unit {0})
unfolding add_controller call
add_local_link id ip known = do
  add_controller id false
  call id (Controller.add_local_link ip known)

unfoldable pub remove_local_link : ℕ → UnitCall (Unit {0})
unfolding call push_removal
remove_local_link id = do call id Controller.remove_local_link; push_removal id

unfoldable pub add_remote_link : ℕ → Text → Text → UnitCall (Unit {0})
unfolding add_controller call
add_remote_link id ip channel = do
  add_controller id false
  call id (Controller.add_remote_link ip channel)

unfoldable pub remove_remote_link : ℕ → UnitCall (Unit {0})
unfolding call push_removal
remove_remote_link id = do call id Controller.remove_remote_link; push_removal id

-- Of an active controller that is online.
unfoldable pub disconnect_online : Call (Unit {0})
unfolding online
disconnect_online = do c ← get; when (online c) Controller.disconnect

unfoldable pub disconnect_at : Option ℕ → UnitCall (Unit {0})
unfolding call_kept disconnect_online
disconnect_at none = throw
disconnect_at (some a) =
    modify (λ v. record v { active_controller = none }) >> call_kept a disconnect_online

unfoldable pub disconnect_active_controller : UnitCall (Unit {0})
unfolding disconnect_at
disconnect_active_controller u = disconnect_at u.active_controller u

unfoldable pub disconnect_if_active : ℕ → UnitCall (Unit {0})
unfolding is_active_id disconnect_active_controller
disconnect_if_active id u = when (is_active_id id u) disconnect_active_controller u

unfoldable pub remove_known_controller : ℕ → UnitCall (Unit {0})
unfolding call disconnect_if_active remove_remote_link
remove_known_controller id =
    call id Controller.make_unknown >> disconnect_if_active id >> remove_remote_link id

unfoldable pub has_active_controller : ControllersUnit → Bool
has_active_controller u = elim u.active_controller [ none ↦ false | some a ↦ true ]

-- Through active_controller().
unfoldable pub call_active_at : {A : Type 0} → Call A → Option ℕ → UnitCall A
unfolding call_kept
call_active_at m none = throw
call_active_at m (some a) = call_kept a m

unfoldable pub call_active : {A : Type 0} → Call A → UnitCall A
unfolding call_active_at
call_active m u = call_active_at m u.active_controller u

unfoldable pub disconnect_any : UnitCall (Unit {0})
unfolding call_active has_active_controller
disconnect_any u = when (has_active_controller u) (call_active Controller.disconnect) u

unfoldable pub activate : ℕ → UnitCall (Unit {0})
activate id = modify λ u. record u { active_controller = some id }

unfoldable pub connect_to : ℕ → DeviceInfo → ℕ → Text → UnitCall (Unit {0})
unfolding call disconnect_any activate
connect_to id device crc alias =
    disconnect_any >> (call id (Controller.connect device crc alias) >> activate id)

-- send_password and the other functions of the active controller that only send.
unfoldable pub send_active : Message → UnitCall (Unit {0})
unfolding call_active
send_active message = call_active (transmit message)

unfoldable pub set_auto_known : ℕ → UnitCall (Unit {0})
unfolding call
set_auto_known id = call id Controller.set_auto_known

unfoldable pub try_remove_at : ℕ → Option Controller → UnitCall (Unit {0})
try_remove_at id none = conclude dangling
try_remove_at id (some c) = when (is_in offline c && not c.known) (do
  modify λ v. record v { controllers = erase id v.controllers }
  emit any_controller_change_status)

unfoldable pub try_remove : ℕ → UnitCall (Unit {0})
unfolding try_remove_at
try_remove id u = try_remove_at id (lookup id u.controllers) u

unfoldable pub try_remove_all : List ℕ → UnitCall (Unit {0})
unfolding try_remove
try_remove_all [] = pure tt
try_remove_all (id ∷ ids) = try_remove id >> try_remove_all ids

unfoldable pub clear_removal : UnitCall (Unit {0})
clear_removal = modify λ u. record u { potentially_removal = [] }

unfoldable pub idle : UnitCall (Unit {0})
unfolding try_remove_all clear_removal
idle u = (try_remove_all u.potentially_removal >> clear_removal) u

-- A packet of a controller comes over a link of it: the link that calls the source's function is
-- taken to be one that was added and not removed. What the controller throws is caught by
-- process_ihap_packet.
unfoldable pub receive_at : ℕ → Call (Unit {0}) → Option Controller → UnitCall (Unit {0})
unfolding settle
receive_at id m none = pure tt
receive_at id m (some c) =
    when (has_links c) (let (c', es, _) = m c in settle id (c', es, returned tt))

unfoldable pub receive : ℕ → Call (Unit {0}) → UnitCall (Unit {0})
unfolding receive_at
receive id m u = receive_at id m (lookup id u.controllers) u
