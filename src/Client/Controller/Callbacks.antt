-- ===== src/Client/Controller/Callbacks.antt =====
-- rubetek/client/controller/impl/controller.cpp: what the controller's packets change, the functions
-- of ihap_transceiver_callback, and what the application asks of a controller.
use rubetek_ios_cpp_releases.Prelude.{
  ℕ, ◌+◌, ◌%◌, ◌^◌, Bool, false, not, [], Option, none, some, length, ltb, if◌then◌else◌,
}
use rubetek_ios_cpp_releases.Client.Action.{pure, throw, get, modify, emit, when, ◌>>=◌, ◌>>◌}
use rubetek_ios_cpp_releases.Client.Controller.{
  Text, Info, Controller, query_password, no_project, update_project, ready, project_received,
  loading_progress, properties, module_command_received, removed_from_controller, rename, notifies,
  Call, offline, init, standby, authentication, loading_project, active, rank, is_in, report,
  set_state, set_known, reset_large_block_transaction,
}

unfoldable pub on_controller_info : Info → Call (Unit {0})
unfolding set_state
on_controller_info i = do
  modify λ c. record c { info = some i }
  c ← get
  when (is_in init c) (set_state standby)
  modify λ d. record d { auto_known = false }

unfoldable pub on_controller_rename : Text → Call (Unit {0})
on_controller_rename name = do
  c ← get
  elim c.info [
    | none ↦ pure tt
    | some i ↦ do
      modify λ d. record d { info = some (record i { name = name }) }
      emit (notifies rename)
  ]

unfoldable pub on_remove : Call (Unit {0})
on_remove = emit (notifies removed_from_controller)

unfoldable pub on_query_password : Option Text → Call (Unit {0})
unfolding set_state report
on_query_password who_removed = do set_state authentication; report (query_password who_removed)

unfoldable pub on_no_project : Call (Unit {0})
unfolding set_known set_state report
on_no_project = do set_known; set_state active; report no_project

unfoldable pub on_update_project : ℕ → Call (Unit {0})
unfolding set_known set_state report
on_update_project size = do
  set_known
  c ← get
  if is_in loading_project c then throw else (do
    set_state loading_project
    modify λ d. record d {
      project_loader = some (record { complete_size = size; loaded_size = 0; wait_prj = none });
    }
    report update_project)

unfoldable pub on_large_block : Text → Call (Unit {0})
unfolding report
on_large_block block = do
  c ← get
  elim c.project_loader [
    | none ↦ throw
    | some l ↦ elim l.wait_prj [
      | none ↦ throw
      | some crc ↦ do
        report (project_received block crc)
        modify λ d. record d {
          project_loader =
              some (record l {
                loaded_size = (l.loaded_size + length block) % 2 ^ 32;
                wait_prj = none;
              });
        }
    ]
  ]

-- `percentage` is msw::percentage_relation, which computes with doubles.
unfoldable pub on_large_block_enriched : (ℕ → ℕ → ℕ) → ℕ → Call (Unit {0})
unfolding report
on_large_block_enriched percentage size = do
  c ← get
  elim c.project_loader [
    | none ↦ throw
    | some l ↦ report (loading_progress (percentage (l.loaded_size + size) l.complete_size))
  ]

unfoldable pub on_loading_cancel : Call (Unit {0})
unfolding set_state reset_large_block_transaction
on_loading_cancel = do set_state active; reset_large_block_transaction

unfoldable pub on_project : ℕ → Call (Unit {0})
on_project crc = do
  c ← get
  elim c.project_loader [
    | none ↦ throw
    | some l ↦ modify λ d. record d { project_loader = some (record l { wait_prj = some crc }) }
  ]

unfoldable pub on_ready : Call (Unit {0})
unfolding set_known set_state report
on_ready = do set_known; set_state active; report ready

unfoldable pub on_property : Text → Call (Unit {0})
unfolding report
on_property list = report (properties list)

unfoldable pub on_module_command : Text → Call (Unit {0})
unfolding report
on_module_command cmd = do
  c ← get
  when c.active_back_interface (report (module_command_received cmd))

unfoldable pub online : Controller → Bool
online c = not (is_in offline c)

unfoldable pub is_active : Controller → Bool
is_active c = ltb (rank standby) (rank c.state)

unfoldable pub can_connect : Controller → Bool
can_connect c = is_in standby c

pub data Availability : Type 0 where
  none_available local remote : Availability

unfoldable pub availability : Controller → Availability
availability c =
    if is_in offline c then none_available else (if c.primary_link then local else remote)

unfoldable pub ip_address : Controller → Text
ip_address c = if c.primary_link then c.local_ip else c.remote_ip

pub record ControllerInfo : Type 0 where
  pub id : ℕ
  pub info : Info
  pub local_ip_address : Text
  pub remote_ip_address : Text
  pub remote_channel_id : Text
  pub accessibility : Availability
  pub is_active : Bool

-- It throws where there is no info.
unfoldable pub make_info : Controller → Option ControllerInfo
unfolding availability is_active
make_info c = elim c.info [
  | none ↦ none
  | some i ↦ some (record {
    id = c.id;
    info = i;
    local_ip_address = if c.primary_link then c.local_ip else [];
    remote_ip_address = c.remote_ip;
    remote_channel_id = c.remote_channel_id;
    accessibility = availability c;
    is_active = is_active c;
  })
]
