-- ===== src/Client/Controller.antt =====
-- rubetek/client/controller/impl/controller.cpp and controller.hpp: what the application knows of
-- one controller, and how it is connected to it. Of ihmlp_transceiver_ the links are kept, and that
-- send throws without one; of ihap_transceiver_ the large block. A number is unique in place of an
-- identifier, and a local link keeps its address.
pub mod Links
pub mod Callbacks
pub mod Sends
use rubetek_ios_cpp_releases.Prelude.{
  ℕ, ◌+◌, ◌%◌, ◌^◌, Bool, true, false, not, ◌||◌, List, [], Option, none, some, length, ltb, ◌==◌,
  if◌then◌else◌,
}
use rubetek_ios_cpp_releases.Client.Action.{
  Action, pure, throw, get, modify, emit, when, ◌>>=◌, ◌>>◌,
}

abbrev pub Text : Type 0
Text = List ℕ

pub data State : Type 0 where
  offline init standby authentication loading_project active : State

-- The value of the enumerator.
abbrev pub rank : State → ℕ
rank offline = 0
rank init = 1
rank standby = 2
rank authentication = 3
rank loading_project = 4
rank active = 5

-- controller::info
pub record Info : Type 0 where
  pub name : Text
  pub version : Text
  pub system_info : Text
  pub demo_mode : Bool
  pub server_address : Text

-- wait_prj is the crc of the project that is waited for.
pub record ProjectLoader : Type 0 where
  pub complete_size : ℕ
  pub loaded_size : ℕ
  pub wait_prj : Option ℕ

-- large_block_ of ihap_transceiver_new.
pub record LargeBlock : Type 0 where
  pub capacity : ℕ
  pub items : Text

pub record DeviceInfo : Type 0 where
  pub name : Text
  pub language : Text
  pub notification_id : Text
  pub operation_system : Text
  pub client_version : Text
  pub operation_system_version : Text

pub record Controller : Type 0 where
  pub id : ℕ
  pub state : State
  pub known : Bool
  pub auto_known : Bool
  pub primary_link : Bool
  pub secondary_link : Bool
  pub local_ip : Text
  pub remote_ip : Text
  pub remote_channel_id : Text
  pub active_back_interface : Bool
  pub info : Option Info
  pub project_loader : Option ProjectLoader
  pub large_block : LargeBlock

-- What goes to the controller, by the functions of ihap_transceiver_new and its base.
pub data Message : Type 0 where
  query_controller_info remove inactivate refresh become_known large_block_taken : Message
  activate : DeviceInfo → ℕ → Text → Message
  device_properties : Text → Message
  password project property module_command project_alias notification_id : Text → Message
  remove_client : ℕ → Message

-- The calls of active_controller_back_interface; who_removed is a client, if one is named.
pub data Report : Type 0 where
  query_password : Option Text → Report
  no_project update_project ready : Report
  project_received : Text → ℕ → Report
  loading_progress : ℕ → Report
  properties module_command_received : Text → Report

-- The calls of controller_back_interface, whose argument is always id_.
pub data Notice : Type 0 where
  change_status switch_links change_remote_connection make_known : Notice
  removed_from_controller set_offline_notice rename : Notice

pub data Effect : Type 0 where
  sends : Message → Effect
  reports : Report → Effect
  notifies : Notice → Effect

abbrev pub Call : Type 0 → Type 0
Call = Action Controller Effect

abbrev pub no_block : LargeBlock
no_block = record { capacity = 0; items = [] }

unfoldable pub construct : ℕ → Bool → Controller
construct id known = record {
  id = id;
  state = offline;
  known = known;
  auto_known = false;
  primary_link = false;
  secondary_link = false;
  local_ip = [];
  remote_ip = [];
  remote_channel_id = [];
  active_back_interface = false;
  info = none;
  project_loader = none;
  large_block = no_block;
}

-- has_links of ihmlp_transceiver_.
abbrev pub has_links : Controller → Bool
has_links c = c.primary_link || c.secondary_link

abbrev pub is_in : State → Controller → Bool
is_in s c = rank c.state == rank s

-- A packet of ihap through ihmlp_transceiver_.send.
unfoldable pub transmit : Message → Call (Unit {0})
transmit message = do c ← get; if has_links c then emit (sends message) else throw

-- A call through active_back_interface().
unfoldable pub report : Report → Call (Unit {0})
report r = do c ← get; if c.active_back_interface then emit (reports r) else throw

unfoldable pub reset_large_block_transaction : Call (Unit {0})
reset_large_block_transaction = modify λ c. record c { large_block = no_block }

unfoldable pub set_state : State → Call (Unit {0})
set_state s = do
  c ← get
  when (not (is_in s c)) (modify (λ d. record d { state = s }) >> emit (notifies change_status))

unfoldable pub set_offline : Call (Unit {0})
unfolding set_state
set_offline = do
  modify λ c. record c { info = none; project_loader = none }
  set_state offline
  emit (notifies set_offline_notice)

unfoldable pub set_known : Call (Unit {0})
set_known = do
  c ← get
  when (not c.known) (modify (λ d. record d { known = true }) >> emit (notifies make_known))

unfoldable pub start_init : Call (Unit {0})
unfolding set_state transmit
start_init = do
  c ← get
  when c.auto_known (transmit become_known)
  set_state init
  transmit query_controller_info

unfoldable pub add_local_link : Text → Bool → Call (Unit {0})
unfolding start_init
add_local_link ip known = do
  modify λ c. record c { primary_link = true; local_ip = ip; known = known }
  c ← get
  if is_in offline c then start_init else emit (notifies switch_links)

-- all_links_disconnected of ihmlp_transceiver_: ihap_reset.
unfoldable pub if_no_links : Call (Unit {0})
unfolding reset_large_block_transaction
if_no_links = do c ← get; when (not (has_links c)) reset_large_block_transaction

unfoldable pub remove_local_link : Call (Unit {0})
unfolding if_no_links set_offline
remove_local_link = do
  modify λ c. record c { primary_link = false }
  if_no_links
  c ← get
  if has_links c then emit (notifies switch_links) else set_offline

unfoldable pub add_remote_link : Text → Text → Call (Unit {0})
unfolding start_init
add_remote_link ip channel = do
  modify λ c. record c { secondary_link = true }
  c ← get
  when (is_in offline c) start_init
  modify λ d. record d { remote_ip = ip; remote_channel_id = channel }
  emit (notifies change_remote_connection)

unfoldable pub remove_remote_link : Call (Unit {0})
unfolding if_no_links set_offline
remove_remote_link = do
  modify λ c. record c { remote_ip = []; remote_channel_id = []; secondary_link = false }
  if_no_links
  c ← get
  when (not (has_links c)) set_offline
  emit (notifies change_remote_connection)

unfoldable pub connect : DeviceInfo → ℕ → Text → Call (Unit {0})
unfolding transmit
connect device crc alias = do
  c ← get
  if is_in standby c
      then (do
        modify λ d. record d { active_back_interface = true }
        transmit (activate device crc alias))
      else throw

-- Where the controller is not connected, it only logs that first.
unfoldable pub disconnect : Call (Unit {0})
unfolding transmit reset_large_block_transaction set_state
disconnect = do
  modify λ c. record c { active_back_interface = false }
  transmit inactivate
  reset_large_block_transaction
  set_state standby

unfoldable pub set_auto_known : Call (Unit {0})
unfolding transmit
set_auto_known = do
  c ← get
  when (not c.known) (do
    modify λ d. record d { known = true }
    if is_in offline c
        then modify (λ d. record d { auto_known = true })
        else when (is_in standby c) (transmit become_known))

unfoldable pub make_unknown : Call (Unit {0})
unfolding transmit
make_unknown = do
  modify λ c. record c { known = false }
  c ← get
  when (not (is_in offline c)) (transmit remove)
