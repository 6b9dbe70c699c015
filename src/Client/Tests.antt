-- ===== src/Client/Tests.antt =====
-- The theorems of the controllers at a client that has one of them.
use rubetek_ios_cpp_releases.Prelude.{
  ℕ, ◌≡◌, refl, true, false, List, [], ◌∷◌, Option, none, some, arith,
}
use rubetek_ios_cpp_releases.Client.Action.{returned}
use rubetek_ios_cpp_releases.Client.Unit
use rubetek_ios_cpp_releases.Client.Controller
use rubetek_ios_cpp_releases.Client.Table.{lookup}
use rubetek_ios_cpp_releases.Client.Controller.{
  Text, Info, DeviceInfo, Controller, ProjectLoader, Message, remove, standby, construct, no_block,
  Effect, sends, query_controller_info, refresh,
}
use rubetek_ios_cpp_releases.Client.Packets.{
  Codes, Packet, controller_info, ready, large_begin, internal_process_ihap_packet,
}
use rubetek_ios_cpp_releases.Client.Packets.Late.{IsStuck, ready_answer, late_answer}
use rubetek_ios_cpp_releases.Client.Packets.Loading.{
  projects, process_all, loaded, project_packets, project_delivered,
}
use rubetek_ios_cpp_releases.Client.Unit.{ControllersUnit, sent, no_controllers, send_active, idle}
use rubetek_ios_cpp_releases.Client.Unit.Runs.{
  Input, local_link_added, remote_link_added, local_link_removed, remote_link_removed, connected,
  ticked, packet_received, run,
}
use rubetek_ios_cpp_releases.Client.Unit.Online.{active_reachable}
use rubetek_ios_cpp_releases.Client.Unit.Sweep.{IsSwept, idle_lem}
use rubetek_ios_cpp_releases.Client.Unit.Twice.{lost_twice}
use rubetek_ios_cpp_releases.Client.Controller.Callbacks.{online}

abbrev read_number : Text → Option ℕ
read_number [] = none
read_number (n ∷ ns) = some n

abbrev read_begin : Text → Option (ℕ × Text)
read_begin [] = none
read_begin (n ∷ ns) = some (n, ns)

abbrev read_info : Text → Option Info
read_info name =
    some (record {
      name = name;
      version = [];
      system_info = [];
      demo_mode = false;
      server_address = [];
    })

abbrev codes : Codes
codes = record {
  controller_info = read_info;
  rename = some;
  password_request = some;
  project_size = read_number;
  large_begin = read_begin;
  large_block = some;
  large_block_end = some;
  project = read_number;
  module_command = some;
  percentage_relation = λ minor major. minor;
}

abbrev device : DeviceInfo
device = record {
  name = [];
  language = [];
  notification_id = [];
  operation_system = [];
  client_version = [];
  operation_system_version = [];
}

-- A controller with both links tells who it is.
abbrev both_links : List Input
both_links =
    local_link_added 7 (127 ∷ []) false
    ∷ remote_link_added 7 (8 ∷ []) (9 ∷ [])
    ∷ packet_received 7 (record { type = controller_info; payload = 65 ∷ [] })
    ∷ []

abbrev at_standby : Controller
at_standby = record (construct 7 false) {
  state = standby;
  primary_link = true;
  secondary_link = true;
  local_ip = 127 ∷ [];
  remote_ip = 8 ∷ [];
  remote_channel_id = 9 ∷ [];
  info = read_info (65 ∷ []);
}

abbrev one_controller : ControllersUnit
one_controller = record {
  controllers = (7, at_standby) ∷ [];
  active_controller = none;
  potentially_removal = [];
}

both_links_run : run codes both_links no_controllers ≡ some one_controller
unfolding run construct Unit.add_local_link Controller.add_local_link Unit.add_remote_link
    Controller.add_remote_link Unit.receive internal_process_ihap_packet
both_links_run = refl

abbrev to_connect : List Input
to_connect =
    local_link_added 7 (127 ∷ []) false
    ∷ packet_received 7 (record { type = controller_info; payload = 65 ∷ [] })
    ∷ connected 7 device 5 []
    ∷ []

abbrev one_connected : ControllersUnit
one_connected = record {
  controllers =
      (
        7,
        record (construct 7 false) {
          state = standby;
          primary_link = true;
          local_ip = 127 ∷ [];
          active_back_interface = true;
          info = read_info (65 ∷ []);
        },
      )
      ∷ [];
  active_controller = some 7;
  potentially_removal = [];
}

to_connect_run : run codes to_connect no_controllers ≡ some one_connected
unfolding run construct Unit.add_local_link Controller.add_local_link Unit.receive
    internal_process_ihap_packet Unit.connect_to Controller.connect
to_connect_run = refl

active_reachable_example :
    let (_, events, end) = send_active refresh one_connected in
    (events ≡ sent 7 refresh ∷ [])
    × (end ≡ returned tt)
    × (c : Controller) × (lookup 7 one_connected.controllers ≡ some c)
    × (online c ≡ true)
active_reachable_example =
    active_reachable codes to_connect refresh one_connected 7 to_connect_run refl

lost_twice_example :
    run codes (local_link_removed 7 ∷ remote_link_removed 7 ∷ ticked ∷ []) one_controller ≡ none
unfolding construct
lost_twice_example =
    lost_twice codes both_links 7 at_standby one_controller both_links_run refl refl refl

abbrev one_lost : ControllersUnit
one_lost = record {
  controllers = (7, record (construct 7 false) { local_ip = 127 ∷ [] }) ∷ [];
  active_controller = none;
  potentially_removal = 7 ∷ [];
}

to_lose_run :
    run codes (local_link_added 7 (127 ∷ []) false ∷ local_link_removed 7 ∷ []) no_controllers
    ≡ some one_lost
unfolding run construct Unit.add_local_link Controller.add_local_link Unit.remove_local_link
    Controller.remove_local_link
to_lose_run = refl

idle_lem_example :
    let (v, _, end) = idle one_lost in
    (end ≡ returned tt)
    × (v.potentially_removal ≡ [])
    × (v.active_controller ≡ one_lost.active_controller)
    × IsSwept one_lost.potentially_removal one_lost.controllers v.controllers
idle_lem_example =
    idle_lem codes (local_link_added 7 (127 ∷ []) false ∷ local_link_removed 7 ∷ []) one_lost
      to_lose_run (refl, tt)

abbrev late_packet : Packet
late_packet = record { type = ready; payload = [] }

late_answer_example :
    let (c', _, end) = internal_process_ihap_packet codes late_packet at_standby in IsStuck c' end
unfolding construct
late_answer_example = late_answer codes late_packet at_standby ready_answer refl refl

abbrev loader : ProjectLoader
loader = record { complete_size = 6; loaded_size = 0; wait_prj = none }

abbrev with_loader : Controller
with_loader = record at_standby { active_back_interface = true; project_loader = some loader }

project_delivered_example :
    let (c', effects) =
      process_all codes
        (project_packets (44 ∷ []) (6 ∷ 1 ∷ 2 ∷ []) ((3 ∷ 4 ∷ [], 3 ∷ 4 ∷ []) ∷ []) (5 ∷ 6 ∷ []))
        with_loader in
    (c' ≡ loaded with_loader loader 6) × (projects effects ≡ (1 ∷ 2 ∷ 3 ∷ 4 ∷ 5 ∷ 6 ∷ [], 44) ∷ [])
unfolding construct
project_delivered_example =
    project_delivered codes with_loader loader 44 6 (44 ∷ []) (6 ∷ 1 ∷ 2 ∷ []) (1 ∷ 2 ∷ [])
      ((3 ∷ 4 ∷ [], 3 ∷ 4 ∷ []) ∷ []) (5 ∷ 6 ∷ []) (5 ∷ 6 ∷ []) refl refl refl refl refl refl
      (refl, tt) refl (omega arith) (omega arith)

-- An empty project: its end is not expected, and it is not delivered.
empty_project_lost :
    projects (process_all codes (project_packets (44 ∷ []) (0 ∷ []) [] []) with_loader).1 ≡ []
unfolding process_all construct
empty_project_lost = refl

-- A project that is begun anew: what came of the first attempt goes before it, and it does not fit.
abbrev begun_anew : List Packet
begun_anew =
    record { type = large_begin; payload = 4 ∷ 1 ∷ 2 ∷ [] }
    ∷ project_packets (44 ∷ []) (4 ∷ 1 ∷ 2 ∷ []) [] (3 ∷ 4 ∷ [])

begun_anew_lost : projects (process_all codes begun_anew with_loader).1 ≡ []
unfolding process_all construct
begun_anew_lost = refl
