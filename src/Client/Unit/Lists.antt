-- ===== src/Client/Unit/Lists.antt =====
-- rubetek/client/controller/impl/unit.cpp: what the unit says of its controllers. A table has no
-- order, so that the lists have that of the model's table.
use rubetek_ios_cpp_releases.Prelude.{
  ℕ, Bool, true, false, not, ◌&&◌, ◌||◌, List, [], ◌∷◌, Option, none, some, if◌then◌else◌,
}
use rubetek_ios_cpp_releases.Client.Table.{Table, lookup}
use rubetek_ios_cpp_releases.Client.Controller.{
  Text, Controller, init, standby, authentication, is_in,
}
use rubetek_ios_cpp_releases.Client.Controller.Callbacks
use rubetek_ios_cpp_releases.Client.Controller.Callbacks.{
  Availability, availability, ip_address, can_connect, is_active, ControllerInfo,
}
use rubetek_ios_cpp_releases.Client.Unit.{ControllersUnit}

-- make_info: what a controller has told, or its name, if it has told nothing.
pub data Description : Type 0 where
  told : ControllerInfo → Description
  named : ℕ → Text → Availability → Bool → Description

unfoldable pub has_controller : ℕ → ControllersUnit → Bool
has_controller id u = elim (lookup id u.controllers) [ none ↦ false | some c ↦ true ]

-- `none` is the exception of get_iterator.
unfoldable pub can_connect_to : ℕ → ControllersUnit → Option Bool
unfolding can_connect
can_connect_to id u = elim (lookup id u.controllers) [ none ↦ none | some c ↦ some (can_connect c) ]

unfoldable pub availability_of : ℕ → ControllersUnit → Option Availability
unfolding availability
availability_of id u = elim (lookup id u.controllers) [
  | none ↦ none
  | some c ↦ some (availability c)
]

unfoldable pub ip_address_of : ℕ → ControllersUnit → Option Text
unfolding ip_address
ip_address_of id u = elim (lookup id u.controllers) [ none ↦ none | some c ↦ some (ip_address c) ]

-- `get_name` and `get_alias` are those of back_interface_.
module _ (get_name get_alias : ℕ → Text) where
  unfoldable pub describe : ℕ → Controller → Description
  unfolding Callbacks.make_info availability is_active
  describe id c = elim (Callbacks.make_info c) [
    | none ↦ named id (get_name id) (availability c) (is_active c)
    | some info ↦ told info
  ]

  unfoldable pub make_info : ℕ → ControllersUnit → Option Description
  unfolding describe
  make_info id u = elim (lookup id u.controllers) [ none ↦ none | some c ↦ some (describe id c) ]

  -- A description and an alias of each.
  unfoldable pub known_in : Table Controller → List (Description × Text)
  unfolding describe
  known_in [] = []
  known_in ((id, c) ∷ t) =
      let rest = known_in t in
      if not (is_in init c) && c.known then (describe id c, get_alias id) ∷ rest else rest

  unfoldable pub known_list : ControllersUnit → List (Description × Text)
  unfolding known_in
  known_list u = known_in u.controllers

-- `none` is the exception of a controller without info.
unfoldable pub unknown_in : Table Controller → Option (List ControllerInfo)
unfolding Callbacks.make_info
unknown_in [] = some []
unknown_in ((id, c) ∷ t) =
    let rest = unknown_in t in
    if (is_in standby c || is_in authentication c) && not c.known
    then elim (Callbacks.make_info c) [
      | none ↦ none
      | some info ↦ elim rest [ none ↦ none | some infos ↦ some (info ∷ infos) ]
    ]
    else rest

unfoldable pub unknown_list : ControllersUnit → Option (List ControllerInfo)
unfolding unknown_in
unknown_list u = unknown_in u.controllers
