-- ===== src/Client/ProjectManager/Restart.antt =====
-- What a new project manager reads (rubetek/client/client/impl/project_manager.cpp).
use rubetek_ios_cpp_releases.Prelude.{◌^◌, ◌<◌, ◌≡◌, true, All}
use rubetek_ios_cpp_releases.Client.Action.Keeps.{Keeps}
use rubetek_ios_cpp_releases.Client.Names.{Names}
use rubetek_ios_cpp_releases.Client.Names.Laws.{IsUnique}
use rubetek_ios_cpp_releases.Client.ProjectManager.{
  ProjectInfo, PropertyTree, ProjectManager, save_all, Request, added, project_updated,
}
use rubetek_ios_cpp_releases.Client.ProjectManager.Entries.{IsPropertyTree, is_key, IsStorable}

-- An identifier that is one key of the tree, and a checksum of 32 bits.
abbrev pub IsSuitable : Request → Type 0
IsSuitable (added id demo_mode) = is_key id ≡ true
IsSuitable (project_updated id crc buf) = crc < 2 ^ 32
IsSuitable _ = Unit {0}

-- What is true between two calls: no project stands twice, all can be stored, and the file says
-- what is to be kept.
module _ {Tree File : Type 0} (pt : PropertyTree Tree File) (laws : IsPropertyTree pt) where
  pub record Inv (m : ProjectManager File) : Type 0 where
    pub unique : IsUnique m.projects
    pub storable : All IsStorable m.projects
    pub written : pt.read_info m.projects_file ≡ save_all pt m.projects pt.empty

  -- A change that leaves a checksum of 32 bits.
  abbrev Fits : (ProjectInfo → ProjectInfo) → Type 0
  Fits f = (i : ProjectInfo) → i.project_crc < 2 ^ 32 → (f i).project_crc < 2 ^ 32
