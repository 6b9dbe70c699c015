-- ===== src/Client/ProjectManager/Tests.antt =====
-- The project manager with a property tree like boost's, at concrete requests.
use rubetek_ios_cpp_releases.Prelude.{
  ℕ, ◌≡◌, refl, true, false, List, [], ◌∷◌, Option, none, some, ◌==◌, if◌then◌else◌,
}
use rubetek_ios_cpp_releases.Client.Names.{Text, is_same, Names}
use rubetek_ios_cpp_releases.Client.ProjectManager
use rubetek_ios_cpp_releases.Client.ProjectManager.{
  ProjectInfo, PropertyTree, Request, added, alias_added, name_updated, project_updated,
}

mutual
  -- A text, and the children in order.
  data Node : Type 0 where
    node : Text → Forest → Node

  data Forest : Type 0 where
    bare : Forest
    child : Text → Node → Forest → Forest

abbrev leaf : Text → Node
leaf text = node text bare

-- The keys of a path.
split_at : ℕ → List Text → List Text
split_at b [] = (b ∷ []) ∷ []
split_at b (key ∷ keys) = (b ∷ key) ∷ keys

split : Text → List Text
unfolding split_at
split [] = [] ∷ []
split (b ∷ bs) = let rest = split bs in if b == b'.' then [] ∷ rest else split_at b rest

push_back : Text → Node → Forest → Forest
push_back key c bare = child key c bare
push_back key c (child k n f) = child k n (push_back key c f)

first : Text → Forest → Option Node
first key bare = none
first key (child k n f) = if is_same key k then some n else first key f

-- The first child with this key, which is made if it is not there.
at_first : Text → (Node → Node) → Forest → Forest
at_first key g bare = child key (g (leaf [])) bare
at_first key g (child k n f) =
    let rest = at_first key g f in if is_same key k then child k (g n) f else child k n rest

put : List Text → Node → Node → Node
unfolding push_back at_first
put [] c n = n
put (key ∷ []) c (node text f) = node text (push_back key c f)
put (key ∷ other ∷ keys) c (node text f) = node text (at_first key (put (other ∷ keys) c) f)

find : List Text → Node → Option Text
unfolding first
find [] (node text f) = some text
find (key ∷ keys) (node text f) = elim (first key f) [ none ↦ none | some n ↦ find keys n ]

forest : Forest → List (Text × Node)
forest bare = []
forest (child key n f) = (key, n) ∷ forest f

children : Node → List (Text × Node)
unfolding forest
children (node text f) = forest f

-- A file holds its tree as it is, and a number is one character.
number : Text → Option ℕ
number [] = none
number (n ∷ bs) = some n

abbrev tree : PropertyTree Node Node
tree = record {
  empty = leaf [];
  add = λ path text n. put (split path) (leaf text) n;
  get = λ path n. find (split path) n;
  add_child = λ path c n. put (split path) c n;
  children = children;
  print_unsigned = λ n. n ∷ [];
  read_unsigned = number;
  write_info = λ n. n;
  read_info = λ n. n;
}

text_of : Option Node → Option Text
text_of none = none
text_of (some (node text f)) = some text

abbrev kitchen : Text
kitchen = b'k' ∷ b'1' ∷ []

abbrev demo : Text
demo = b'd' ∷ []

abbrev requests : List Request
requests =
    added kitchen false
    ∷ added demo true
    ∷ alias_added kitchen (65 ∷ [])
    ∷ added kitchen true
    ∷ name_updated [] []
    ∷ project_updated kitchen 77 (1 ∷ [])
    ∷ []

-- An identifier with a dot is saved as a child of a child: the new manager knows another project,
-- of which nothing was said, in its place.
abbrev dotted : Text
dotted = b'k' ∷ b'.' ∷ b'1' ∷ []

abbrev after_restart : List Request → Names ProjectInfo
after_restart rs =
    let m = ProjectManager.run tree rs (ProjectManager.construct tree (leaf []) []) in
    (ProjectManager.construct tree m.projects_file []).projects

dotted_lost :
    after_restart (added dotted false ∷ project_updated dotted 77 [] ∷ [])
    ≡ (b'k' ∷ [], ProjectManager.new_info false) ∷ []
unfolding ProjectManager.run ProjectManager.construct children ProjectManager.update_project
    ProjectManager.add_project is_same put split find
dotted_lost = refl
