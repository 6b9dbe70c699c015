-- ===== src/Client/CallbackService.antt =====
-- rubetek/client/client/impl/callback_service.cpp: calls of the application's interface, kept until
-- it asks for them. Of each event only the last one is kept; four kinds are queued. A is what a call
-- has as arguments. All run under one mutex, so that they come one after the other.
pub mod Delivery
use rubetek_ios_cpp_releases.Prelude.{
  ℕ, zero, suc, Bool, true, false, List, [], ◌∷◌, ◌++◌, Option, none, some, replicate,
  if◌then◌else◌,
}
use rubetek_ios_cpp_releases.Client.Action.{Result, returned, thrown, Action, ◌>>=◌, ◌>>◌}

-- The events, in the order of their places in events_.
pub data Event : Type 0 where
  on_find_controller on_unknown_controllers on_known_controllers on_all_controllers : Event
  on_notify_about_location on_server_connection_status on_connecting_to_controller : Event
  on_controller_connection_status on_controller_rename on_controller_error : Event
  on_password_request on_project_error on_project_updating on_ready on_update_required : Event

abbrev pub index : Event → ℕ
index on_find_controller = 0
index on_unknown_controllers = 1
index on_known_controllers = 2
index on_all_controllers = 3
index on_notify_about_location = 4
index on_server_connection_status = 5
index on_connecting_to_controller = 6
index on_controller_connection_status = 7
index on_controller_rename = 8
index on_controller_error = 9
index on_password_request = 10
index on_project_error = 11
index on_project_updating = 12
index on_ready = 13
index on_update_required = 14

-- The calls of back_interface_.
pub data Call (A : Type 0) : Type 0 where
  event : Event → A → Call A
  on_properties_received on_module_command on_server_directly on_server_auxiliary : A → Call A

abbrev pub Slots : Type 0 → Type 0
Slots A = List (Option (Event × A))

pub record CallbackService (A : Type 0) : Type 0 where
  pub events : Slots A
  pub property_blocks : List A
  pub module_commands : List A
  pub server_directly_packets : List A
  pub server_auxiliary_packets : List A

module _ {A : Type 0} where
  abbrev pub set_at : ℕ → Option (Event × A) → Slots A → Slots A
  set_at i x [] = []
  set_at zero x (e ∷ es) = x ∷ es
  set_at (suc i) x (e ∷ es) = e ∷ set_at i x es

  unfoldable pub construct : CallbackService A
  construct = record {
    events = replicate 15 none;
    property_blocks = [];
    module_commands = [];
    server_directly_packets = [];
    server_auxiliary_packets = [];
  }

  -- The functions made by the macros POST, and those that queue.
  unfoldable pub post : Event → A → CallbackService A → CallbackService A
  post e a s = record s { events = set_at (index e) (some (e, a)) s.events }

  unfoldable pub push_properties : A → CallbackService A → CallbackService A
  push_properties a s = record s { property_blocks = s.property_blocks ++ a ∷ [] }

  unfoldable pub push_module_command : A → CallbackService A → CallbackService A
  push_module_command a s = record s { module_commands = s.module_commands ++ a ∷ [] }

  unfoldable pub push_server_directly : A → CallbackService A → CallbackService A
  push_server_directly a s = record s {
    server_directly_packets = s.server_directly_packets ++ a ∷ [];
  }

  unfoldable pub push_server_auxiliary : A → CallbackService A → CallbackService A
  push_server_auxiliary a s = record s {
    server_auxiliary_packets = s.server_auxiliary_packets ++ a ∷ [];
  }

  -- The functions cancel_ of the events, and that of the properties.
  unfoldable pub cancel : Event → CallbackService A → CallbackService A
  cancel e s = record s { events = set_at (index e) none s.events }

  unfoldable pub cancel_on_properties_received : CallbackService A → CallbackService A
  cancel_on_properties_received s = record s { property_blocks = [] }

  -- `throws` are the calls that end in an exception.
  module _ (throws : Call A → Bool) where
    -- The loop over the events: each is taken out before it is called.
    unfoldable pub run_events : Slots A → Slots A × List (Call A) × Result (Unit {0})
    run_events [] = ([], [], returned tt)
    run_events (none ∷ es) = let (es', calls, r) = run_events es in (none ∷ es', calls, r)
    run_events (some (e, a) ∷ es) =
        let (es', calls, r) = run_events es in
        if throws (event e a)
        then (none ∷ es, event e a ∷ [], thrown)
        else (none ∷ es', event e a ∷ calls, r)

    -- The loops over the queues: each is taken out after it was called.
    unfoldable pub run_queue : (A → Call A) → List A → List A × List (Call A) × Result (Unit {0})
    run_queue call [] = ([], [], returned tt)
    run_queue call (a ∷ q) =
        let (q', calls, r) = run_queue call q in
        if throws (call a) then (a ∷ q, call a ∷ [], thrown) else (q', call a ∷ calls, r)

    abbrev pub Run : Type 0
    Run = Action (CallbackService A) (Call A) (Unit {0})

    unfoldable pub events_loop : Run
    unfolding run_events
    events_loop s = let (es, calls, r) = run_events s.events in (record s { events = es }, calls, r)

    unfoldable pub properties_loop : Run
    unfolding run_queue
    properties_loop s =
        let (q, calls, r) = run_queue on_properties_received s.property_blocks in
        (record s { property_blocks = q }, calls, r)

    unfoldable pub commands_loop : Run
    unfolding run_queue
    commands_loop s =
        let (q, calls, r) = run_queue on_module_command s.module_commands in
        (record s { module_commands = q }, calls, r)

    unfoldable pub directly_loop : Run
    unfolding run_queue
    directly_loop s =
        let (q, calls, r) = run_queue on_server_directly s.server_directly_packets in
        (record s { server_directly_packets = q }, calls, r)

    unfoldable pub auxiliary_loop : Run
    unfolding run_queue
    auxiliary_loop s =
        let (q, calls, r) = run_queue on_server_auxiliary s.server_auxiliary_packets in
        (record s { server_auxiliary_packets = q }, calls, r)

    unfoldable pub run : Run
    unfolding events_loop properties_loop commands_loop directly_loop auxiliary_loop
    run = events_loop >> (properties_loop >> (commands_loop >> (directly_loop >> auxiliary_loop)))
