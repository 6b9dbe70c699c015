-- ===== src/Client/ProjectManager/Entries.antt =====
-- The children of the property tree, as they are written and read
-- (rubetek/client/client/impl/project_manager.cpp).
use rubetek_ios_cpp_releases.Prelude.{
  ℕ, ◌^◌, ◌<◌, ◌≡◌, refl, sym, ap, ◌∙◌, inl, inr, Bool, true, false, not, ◌||◌, ◌&&◌, Bool-cases,
  [], ◌∷◌, ◌++◌, append-nil, append_assoc, is_empty, Option, none, some, ◌==◌, All, if◌then◌else◌,
  arith,
}
use rubetek_ios_cpp_releases.Client.Names.{Text, is_same, Names, lookup, assign}
use rubetek_ios_cpp_releases.Client.Names.Laws.{
  is_same_iff, IsUnique, lookup-All, lookup-assign_self, lookup-assign_ne,
}
use rubetek_ios_cpp_releases.Client.ProjectManager.{
  ProjectInfo, PropertyTree, project_crc_key, alias_key, name_key, child_of, save_all, info_of,
  load_all,
}

-- A path of one key: it is not empty, and the separator is not in it.
abbrev pub has_dot : Text → Bool
has_dot [] = false
has_dot (b ∷ bs) = b == b'.' || has_dot bs

abbrev pub is_key : Text → Bool
is_key path = not (is_empty path) && not (has_dot path)

abbrev pub or_else : Option Text → Option Text → Option Text
or_else none o = o
or_else (some text) o = some text

-- What boost documents of a property tree: add and add_child append a child, get finds the first
-- one, a loop sees the children in this order, a number is read back from its text, and a tree from
-- its file.
pub record IsPropertyTree {Tree File : Type 0} (pt : PropertyTree Tree File) : Type 0 where
  pub children-empty : pt.children pt.empty ≡ []
  pub children-add_child :
      (key : Text) (child tree : Tree)
      → is_key key ≡ true
      → pt.children (pt.add_child key child tree) ≡ pt.children tree ++ (key, child) ∷ []
  pub get-empty : (key : Text) → is_key key ≡ true → pt.get key pt.empty ≡ none
  pub get-add :
      (key other value : Text) (tree : Tree)
      → is_key key ≡ true
      → is_key other ≡ true
      → pt.get key (pt.add other value tree)
        ≡ or_else (pt.get key tree) (if is_same key other then some value else none)
  pub read-print : (n : ℕ) → n < 2 ^ 32 → pt.read_unsigned (pt.print_unsigned n) ≡ some n
  pub read-write : (tree : Tree) → pt.read_info (pt.write_info tree) ≡ tree

-- A project that is not a demo stays as it is.
abbrev pub kept : Option ProjectInfo → Option ProjectInfo
kept none = none
kept (some i) = if i.demo_mode then none else some i

-- A project that the tree can hold.
abbrev pub IsStorable : Text × ProjectInfo → Type 0
IsStorable e = (is_key e.0 ≡ true) × (e.1.project_crc < 2 ^ 32)

module _ {Tree File : Type 0} (pt : PropertyTree Tree File) where
  -- The children that save_projects adds.
  abbrev pub entries : Names ProjectInfo → Names Tree
  entries [] = []
  entries ((id, i) ∷ t) =
      let rest = entries t in if i.demo_mode then rest else (id, child_of pt i) ∷ rest

  abbrev pub to_child : Option ProjectInfo → Option Tree
  to_child none = none
  to_child (some i) = if i.demo_mode then none else some (child_of pt i)

  abbrev pub read_over : Option ProjectInfo → Option Tree → Option ProjectInfo
  read_over before none = before
  read_over before (some child) = some (info_of pt child)

  lookup-entries :
      (j : Text) (t : Names ProjectInfo) → IsUnique t → lookup j (entries t) ≡ to_child (lookup j t)
  lookup-entries j [] h = refl
  lookup-entries j ((k, i) ∷ t) (new, h) =
      ground (arith, is_same_iff j k, lookup-entries j t h, new)

  entries-IsUnique : (t : Names ProjectInfo) → IsUnique t → IsUnique (entries t)
  entries-IsUnique [] h = tt
  entries-IsUnique ((k, i) ∷ t) (new, h) =
      ground (arith, lookup-entries k t h, new, entries-IsUnique t h)

  lookup-load_all :
      (j : Text) (f : Names Tree) (t : Names ProjectInfo)
      → IsUnique f
      → lookup j (load_all pt f t) ≡ read_over (lookup j t) (lookup j f)
  unfolding load_all
  lookup-load_all j [] t h = refl
  lookup-load_all j ((k, s) ∷ f) t (new, h) = elim (Bool-cases (is_same j k)) [
    | inl same ↦
        let eq : j ≡ k = (is_same_iff j k).0 same in
        rw (lookup-load_all j f (assign k (info_of pt s) t) h, same, eq, new)
          (lookup-assign_self k (info_of pt s) t)
    | inr other ↦
        rw (lookup-load_all j f (assign k (info_of pt s) t) h, other)
          (ap (λ o. read_over o (lookup j f))
            (lookup-assign_ne k (info_of pt s) t j (λ e. cc ((is_same_iff j k).1 e, other))))
  ]

  module _ (laws : IsPropertyTree pt) where
    children-save_all :
        (t : Names ProjectInfo) (tree : Tree)
        → All IsStorable t
        → pt.children (save_all pt t tree) ≡ pt.children tree ++ entries t
    unfolding save_all
    children-save_all [] tree h = sym (append-nil (pt.children tree))
    children-save_all ((id, i) ∷ t) tree (h, hs) = elim (Bool-cases i.demo_mode) [
      | inl demo ↦ rw demo (children-save_all t tree hs)
      | inr real ↦ rw real (
          children-save_all t (pt.add_child id (child_of pt i) tree) hs
          ∙ ap (λ cs. cs ++ entries t) (laws.children-add_child id (child_of pt i) tree h.0)
          ∙ append_assoc (pt.children tree) ((id, child_of pt i) ∷ []) (entries t))
    ]

    -- The keys of a project are found again.
    info_of-child_of :
        (i : ProjectInfo)
        → i.project_crc < 2 ^ 32
        → info_of pt (child_of pt i) ≡ record i { demo_mode = false }
    unfolding is_same
    info_of-child_of i h =
        let t0 = pt.empty in
        let t1 = pt.add project_crc_key (pt.print_unsigned i.project_crc) t0 in
        let t2 = pt.add alias_key i.alias t1 in
        rw
          (
            laws.get-add project_crc_key name_key i.name t2 refl refl,
            laws.get-add project_crc_key alias_key i.alias t1 refl refl,
            laws.get-add project_crc_key project_crc_key (pt.print_unsigned i.project_crc) t0 refl
                refl,
            laws.get-empty project_crc_key refl,
            laws.read-print i.project_crc h,
            laws.get-add alias_key name_key i.name t2 refl refl,
            laws.get-add alias_key alias_key i.alias t1 refl refl,
            laws.get-add alias_key project_crc_key (pt.print_unsigned i.project_crc) t0 refl refl,
            laws.get-empty alias_key refl,
            laws.get-add name_key name_key i.name t2 refl refl,
            laws.get-add name_key alias_key i.alias t1 refl refl,
            laws.get-add name_key project_crc_key (pt.print_unsigned i.project_crc) t0 refl refl,
            laws.get-empty name_key refl,
          )
          refl

    read_back_of :
        (o : Option ProjectInfo)
        → ((i : ProjectInfo) → o ≡ some i → i.project_crc < 2 ^ 32)
        → read_over none (to_child o) ≡ kept o
    read_back_of none h = refl
    read_back_of (some i) h = elim (Bool-cases i.demo_mode) [
      | inl demo ↦ rw demo refl
      | inr real ↦ rw real (ap some (info_of-child_of i (h i refl) ∙ cc real))
    ]

    -- What a loop over the saved tree makes of the projects.
    pub lookup-read_back :
        (j : Text) (t : Names ProjectInfo)
        → IsUnique t
        → All IsStorable t
        → lookup j (load_all pt (pt.children (save_all pt t pt.empty)) []) ≡ kept (lookup j t)
    lookup-read_back j t h hs =
        rw (children-save_all t pt.empty hs, laws.children-empty)
          (lookup-load_all j (entries t) [] (entries-IsUnique t h)
            ∙ ap (read_over none) (lookup-entries j t h)
            ∙ read_back_of (lookup j t) (λ i e. (lookup-All IsStorable j i t hs e).1))
