-- ===== src/Client/Packets.antt =====
-- rubetek/client/controller/ihap_transceiver_new.hpp: the packets of a controller, as calls of its
-- functions. The block that comes in parts is large_block of the controller. Logging is left out.
pub mod Links
pub mod Late
pub mod Loading
use rubetek_ios_cpp_releases.Prelude.{
  ℕ, ◌-◌, Bool, not, List, [], ◌++◌, Option, none, some, length, is_empty, max, ltb, ◌==◌,
  if◌then◌else◌,
}
use rubetek_ios_cpp_releases.Client.Action.{pure, throw, get, modify, unless, ◌>>=◌, ◌>>◌}
use rubetek_ios_cpp_releases.Client.Controller.{
  Text, Info, LargeBlock, Controller, Message, large_block_taken, Call, transmit,
  reset_large_block_transaction,
}
use rubetek_ios_cpp_releases.Client.Controller.Callbacks.{
  on_controller_info, on_controller_rename, on_remove, on_query_password, on_no_project,
  on_update_project, on_large_block, on_large_block_enriched, on_loading_cancel, on_project,
  on_ready, on_module_command,
}

-- The types that the switch names; `other` stands for every other.
pub data PacketType : Type 0 where
  controller_info rename remove password no_project project_size : PacketType
  large_begin large_block large_end loading_cancel project ready : PacketType
  module_command other : PacketType

pub record Packet : Type 0 where
  pub type : PacketType
  pub payload : Text

-- What a payload says, by thrift_deserialize, which may throw, and msw::percentage_relation, which
-- computes with doubles.
pub record Codes : Type 0 where
  pub controller_info : Text → Option Info
  pub rename : Text → Option Text
  pub password_request : Text → Option Text
  pub project_size : Text → Option ℕ
  pub large_begin : Text → Option (ℕ × Text)
  pub large_block : Text → Option Text
  pub large_block_end : Text → Option Text
  pub project : Text → Option ℕ
  pub module_command : Text → Option Text
  pub percentage_relation : ℕ → ℕ → ℕ

abbrev pub or_throw : {A : Type 0} → Option A → Call A
or_throw none = throw
or_throw (some a) = pure a

-- large_block_.reserve: a new capacity, if it is larger.
unfoldable pub reserve : ℕ → Call (Unit {0})
reserve count = modify λ c. record c {
  large_block = record c.large_block { capacity = max c.large_block.capacity count };
}

unfoldable pub push_to_large_block : Text → Call (Unit {0})
push_to_large_block packet = do
  c ← get
  if ltb (c.large_block.capacity - length c.large_block.items) (length packet)
      then throw
      else modify (λ d. record d {
        large_block = record c.large_block { items = c.large_block.items ++ packet };
      })

-- who_removed, if one is named.
unfoldable pub removed_by : Text → Option Text
removed_by who_removed = if is_empty who_removed then none else some who_removed

module _ (codes : Codes) where
  -- What large_begin and large_block do with their part.
  unfoldable pub take_part : Text → Call (Unit {0})
  unfolding push_to_large_block transmit on_large_block_enriched
  take_part part = do
    push_to_large_block part
    transmit large_block_taken
    c ← get
    on_large_block_enriched codes.percentage_relation (length c.large_block.items)

  unfoldable pub take_begin : Text → Call (Unit {0})
  unfolding take_part reserve
  take_begin payload = do
    (size, part) ← or_throw (codes.large_begin payload)
    reserve size
    take_part part

  unfoldable pub take_block : Text → Call (Unit {0})
  unfolding take_part
  take_block payload = do
    c ← get
    unless (c.large_block.capacity == 0) (or_throw (codes.large_block payload) >>= take_part)

  unfoldable pub take_end : Text → Call (Unit {0})
  unfolding push_to_large_block on_large_block_enriched on_large_block reset_large_block_transaction
  take_end payload = do
    c ← get
    unless (c.large_block.capacity == 0) (do
      part ← or_throw (codes.large_block_end payload)
      push_to_large_block part
      d ← get
      on_large_block_enriched codes.percentage_relation (length d.large_block.items)
      on_large_block d.large_block.items
      reset_large_block_transaction)

  unfoldable pub take_password : Text → Call (Unit {0})
  unfolding on_query_password removed_by
  take_password payload =
      if is_empty payload
      then on_query_password none
      else (or_throw (codes.password_request payload) >>= λ who. on_query_password (removed_by who))

  -- By the type of the packet, then with its payload.
  unfoldable pub process_of : PacketType → Text → Call (Unit {0})
  unfolding on_controller_info on_controller_rename on_remove on_no_project on_update_project
      on_project on_ready on_module_command on_loading_cancel reset_large_block_transaction
      take_begin take_block take_end take_password
  process_of controller_info p = or_throw (codes.controller_info p) >>= on_controller_info
  process_of rename p = or_throw (codes.rename p) >>= on_controller_rename
  process_of remove p = on_remove
  process_of password p = take_password p
  process_of no_project p = on_no_project
  process_of project_size p = or_throw (codes.project_size p) >>= on_update_project
  process_of large_begin p = take_begin p
  process_of large_block p = take_block p
  process_of large_end p = take_end p
  process_of loading_cancel p = reset_large_block_transaction >> on_loading_cancel
  process_of project p = or_throw (codes.project p) >>= on_project
  process_of ready p = on_ready
  process_of module_command p = or_throw (codes.module_command p) >>= on_module_command
  process_of other p = pure tt

  unfoldable pub internal_process_ihap_packet : Packet → Call (Unit {0})
  unfolding process_of
  internal_process_ihap_packet pkt = process_of pkt.type pkt.payload
