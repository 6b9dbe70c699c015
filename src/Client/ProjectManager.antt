-- ===== src/Client/ProjectManager.antt =====
-- rubetek/client/client/impl/project_manager.cpp: the projects that the application knows, kept in a
-- file. The directories of the projects hold one file each. Identifiers are texts, as in
-- rubetek/client/impl/controller_link_impl.hpp, which makes the class of unique_controller_id::type.
pub mod Entries
pub mod Restart
mod Tests
use rubetek_ios_cpp_releases.Prelude.{
  ℕ, Bool, true, false, List, [], ◌∷◌, Option, none, some, map, not, if◌then◌else◌,
}
use rubetek_ios_cpp_releases.Client.Action.{
  returned, Action, pure, throw, when, modify, ◌>>=◌, ◌>>◌,
}
use rubetek_ios_cpp_releases.Client.Names.{Text, is_same, Names, lookup, update, erase, assign}

pub record ProjectInfo : Type 0 where
  pub project_crc : ℕ
  pub alias : Text
  pub name : Text
  pub demo_mode : Bool

-- boost::property_tree::ptree, and write_info and read_info; File is what a file holds. `add`,
-- `get` and `add_child` take a path; `children` is what a loop over a tree sees; a number goes into
-- a tree as its text.
pub record PropertyTree (Tree File : Type 0) : Type 0 where
  pub empty : Tree
  pub add : Text → Text → Tree → Tree
  pub get : Text → Tree → Option Text
  pub add_child : Text → Tree → Tree → Tree
  pub children : Tree → List (Text × Tree)
  pub print_unsigned : ℕ → Text
  pub read_unsigned : Text → Option ℕ
  pub write_info : Tree → File
  pub read_info : File → Tree

-- projects_, the file projects.info, and the file of each project.
pub record ProjectManager (File : Type 0) : Type 0 where
  pub projects : Names ProjectInfo
  pub projects_file : File
  pub buffers : Names Text

abbrev pub new_info : Bool → ProjectInfo
new_info demo_mode = record { project_crc = 0; alias = []; name = []; demo_mode = demo_mode }

-- The keys "project_crc", "alias" and "name".
abbrev pub project_crc_key : Text
project_crc_key = b'p' ∷ b'r' ∷ b'o' ∷ b'j' ∷ b'e' ∷ b'c' ∷ b't' ∷ b'_' ∷ b'c' ∷ b'r' ∷ b'c' ∷ []

abbrev pub alias_key : Text
alias_key = b'a' ∷ b'l' ∷ b'i' ∷ b'a' ∷ b's' ∷ []

abbrev pub name_key : Text
name_key = b'n' ∷ b'a' ∷ b'm' ∷ b'e' ∷ []

abbrev pub has : {V : Type 0} → Option V → Bool
has none = false
has (some v) = true

-- projects_id
abbrev pub projects_id : Names ProjectInfo → List Text
projects_id t = map (λ e. e.0) t

-- A call by the client.
pub data Request : Type 0 where
  added : Text → Bool → Request
  removed alias_removed : Text → Request
  alias_added name_updated : Text → Text → Request
  project_updated : Text → ℕ → Text → Request
  cleared : Request

-- What get gives, or the default.
abbrev pub text_or : Text → Option Text → Text
text_or default none = default
text_or default (some text) = text

abbrev pub number_or : ℕ → Option ℕ → ℕ
number_or default none = default
number_or default (some n) = n

module _ {Tree File : Type 0} (pt : PropertyTree Tree File) where
  abbrev pub Do : Type 0
  Do = Action (ProjectManager File) (Unit {0}) (Unit {0})

  -- What save_projects makes of a project.
  abbrev pub child_of : ProjectInfo → Tree
  child_of i =
      pt.add name_key i.name (
        pt.add alias_key i.alias
          (pt.add project_crc_key (pt.print_unsigned i.project_crc) pt.empty))

  -- The loop of save_projects.
  unfoldable pub save_all : Names ProjectInfo → Tree → Tree
  save_all [] tree = tree
  save_all ((id, i) ∷ t) tree =
      save_all t (if i.demo_mode then tree else pt.add_child id (child_of i) tree)

  -- A text that is not a number counts as missing.
  abbrev pub read_number : Option Text → Option ℕ
  read_number none = none
  read_number (some text) = pt.read_unsigned text

  -- What load_projects makes of a child.
  abbrev pub info_of : Tree → ProjectInfo
  info_of child = record {
    project_crc = number_or 0 (read_number (pt.get project_crc_key child));
    alias = text_or [] (pt.get alias_key child);
    name = text_or [] (pt.get name_key child);
    demo_mode = false;
  }

  -- The loop of load_projects. Its assertion that a loaded project is no demo always holds: the loop
  -- starts without projects.
  unfoldable pub load_all : List (Text × Tree) → Names ProjectInfo → Names ProjectInfo
  load_all [] t = t
  load_all ((id, child) ∷ children) t = load_all children (assign id (info_of child) t)

  -- The constructor, with what is on the disk.
  unfoldable pub construct : File → Names Text → ProjectManager File
  unfolding load_all
  construct file buffers = record {
    projects = load_all (pt.children (pt.read_info file)) [];
    projects_file = file;
    buffers = buffers;
  }

  unfoldable pub has_project : Text → ProjectManager File → Bool
  has_project id m = has (lookup id m.projects)

  unfoldable pub save_projects : Do
  unfolding save_all
  save_projects =
      modify λ m. record m { projects_file = pt.write_info (save_all m.projects pt.empty) }

  -- A change of a project that is there, and save_projects; project_iterator throws otherwise.
  unfoldable pub change_at : Text → (ProjectInfo → ProjectInfo) → Option ProjectInfo → Do
  unfolding save_projects
  change_at id f none = throw
  change_at id f (some i) =
      modify (λ m. record m { projects = update id (f i) m.projects }) >> save_projects

  unfoldable pub change : Text → (ProjectInfo → ProjectInfo) → Do
  unfolding change_at
  change id f m = change_at id f (lookup id m.projects) m

  unfoldable pub add_project : Text → Bool → Do
  unfolding has_project save_projects
  add_project id demo_mode m =
      if has_project id m
      then throw m
      else (modify (λ n. record n { projects = assign id (new_info demo_mode) n.projects })
            >> save_projects)
          m

  -- projects_.erase(project_iterator(id)) and save_projects.
  unfoldable pub erase_at : Text → Option ProjectInfo → Do
  unfolding save_projects
  erase_at id none = throw
  erase_at id (some i) = modify (λ m. record m { projects = erase id m.projects }) >> save_projects

  unfoldable pub remove_project : Text → Do
  unfolding erase_at
  remove_project id m =
      erase_at id (lookup id m.projects) (record m { buffers = erase id m.buffers })

  unfoldable pub add_alias : Text → Text → Do
  unfolding change
  add_alias id alias = change id λ i. record i { alias = alias }

  unfoldable pub remove_alias : Text → Do
  unfolding change
  remove_alias id = change id λ i. record i { alias = [] }

  unfoldable pub update_name_at : Text → Text → Option ProjectInfo → Do
  unfolding change_at
  update_name_at id name none = throw
  update_name_at id name (some i) =
      when (not (is_same i.name name)) (change_at id (λ k. record k { name = name }) (some i))

  unfoldable pub update_name : Text → Text → Do
  unfolding update_name_at
  update_name id name m = update_name_at id name (lookup id m.projects) m

  unfoldable pub save_buffer : Text → Text → Do
  save_buffer id buf = modify λ m. record m { buffers = assign id buf m.buffers }

  unfoldable pub update_project : Text → ℕ → Text → Do
  unfolding change save_buffer
  update_project id crc buf = change id (λ i. record i { project_crc = crc }) >> save_buffer id buf

  unfoldable pub remove_all : List Text → Do
  unfolding remove_project
  remove_all [] = pure tt
  remove_all (id ∷ ids) = remove_project id >> remove_all ids

  unfoldable pub clear : Do
  unfolding remove_all
  clear m = remove_all (projects_id m.projects) m

  unfoldable pub apply : Request → Do
  apply (added id demo_mode) = add_project id demo_mode
  apply (removed id) = remove_project id
  apply (alias_added id alias) = add_alias id alias
  apply (alias_removed id) = remove_alias id
  apply (name_updated id name) = update_name id name
  apply (project_updated id crc buf) = update_project id crc buf
  apply cleared = clear

  -- Calls one after the other, of which some may throw.
  unfoldable pub run : List Request → ProjectManager File → ProjectManager File
  unfolding apply
  run [] m = m
  run (r ∷ rs) m = run rs (apply r m).0
