-- ===== src/Codeql/Walk.antt =====
-- pkg/codeql/codeql.go: the walks over an unpacked database.
use mrvacommander.Prelude.{
  ℕ, Bytes, bytes_eq, bytes_beq, bytes_beq_iff, ascii, List, [], ◌∷◌, ◌++◌, Bool, true, false, ◌&&◌,
  ◌||◌, ok, err, ◌≡◌, ◌⊎◌, inl, inr, if◌then◌else◌, arith, Bool-cases, Result-cases, ◌∙◌, sym, ◌≢◌,
}
use mrvacommander.Prelude.Chain.{◌>>=◌}
use mrvacommander.Utils.Paths.{join}
use mrvacommander.Utils.Paths.Clean.{join-ne-nil}
use mrvacommander.Common.Errors.{Error, Fallible, message}

-- A directory tree, as `filepath.Walk` meets it: a directory with its entries in lexical order, one
-- that cannot be read, or a file.
mutual
  pub data Node : Type 0 where
    file : Bytes → Node
    unreadable : Bytes → Error → Node
    dir : Bytes → Nodes → Node

  pub data Nodes : Type 0 where
    done : Nodes
    entry : Node → Nodes → Nodes

abbrev name_of : Node → Bytes
name_of (file name) = name
name_of (unreadable name e) = name
name_of (dir name nodes) = name

-- `os.Stat` of an entry in a directory.
unfoldable pub has_entry : Bytes → Nodes → Bool
has_entry name done = false
has_entry name (entry node nodes) = bytes_beq (name_of node) name || has_entry name nodes

-- Whether a directory holds both files of a database.
abbrev pub is_db_dir : Nodes → Bool
unfolding has_entry
is_db_dir nodes = has_entry (ascii "codeql-database.yml") nodes && has_entry (ascii "src.zip") nodes

-- The walk of `findDBDir`, with the directory found so far. `filepath.SkipDir` skips the rest of
-- one directory, and the walk goes on behind it.
unfoldable mutual
  pub walk : Bytes → Node → Bytes → Fallible Bytes
  walk path (file name) found = ok found
  walk path (unreadable name e) found = err e
  walk path (dir name nodes) found =
      let inner = walk_all path nodes found in if is_db_dir nodes then ok path else inner

  pub walk_all : Bytes → Nodes → Bytes → Fallible Bytes
  walk_all path done found = ok found
  walk_all path (entry node nodes) found = elim (walk (join path (name_of node)) node found) [
    | err e ↦ err e
    | ok found' ↦ walk_all path nodes found'
  ]

abbrev pub no_db_dir : Error
no_db_dir = message (ascii "no directory containing both 'codeql-database.yml' and 'src.zip' found")

unfoldable pub find_db_dir : Bytes → Node → Fallible Bytes
unfolding walk
find_db_dir root node = elim (walk root node []) [
  | err e ↦ err e
  | ok found ↦ if bytes_beq found [] then err no_db_dir else ok found
]

-- The files of a name, in the order of the walk.
unfoldable mutual
  pub glob : Bytes → Bytes → Node → Fallible (List Bytes)
  glob pattern' path (file name) = ok (if bytes_beq name pattern' then path ∷ [] else [])
  glob pattern' path (unreadable name e) = err e
  glob pattern' path (dir name nodes) = glob_all pattern' path nodes

  pub glob_all : Bytes → Bytes → Nodes → Fallible (List Bytes)
  glob_all pattern' path done = ok []
  glob_all pattern' path (entry node nodes) = do
    first ← glob pattern' (join path (name_of node)) node
    rest ← glob_all pattern' path nodes
    ok (first ++ rest)

-- A path leads to a directory of a tree that holds both files.
abbrev mutual
  pub IsDbIn : Bytes → Node → Bytes → Type 0
  IsDbIn path (file name) d = ⊥
  IsDbIn path (unreadable name e) d = ⊥
  IsDbIn path (dir name nodes) d = ((is_db_dir nodes ≡ true) × (d ≡ path)) ⊎ IsDbBelow path nodes d

  pub IsDbBelow : Bytes → Nodes → Bytes → Type 0
  IsDbBelow path done d = ⊥
  IsDbBelow path (entry node nodes) d =
      IsDbIn (join path (name_of node)) node d ⊎ IsDbBelow path nodes d

-- A walk ends with the directory found before it, if it meets none, or else with one that it meets.
data Walked (In : Bytes → Type 0) (found d : Bytes) : Type 0 where
  met : In d → Walked In found d
  missed : ((x : Bytes) → In x → ⊥) → d ≡ found → Walked In found d

mutual
  unfolding walk

  walk-Walked :
      (path : Bytes) (node : Node) (found d : Bytes)
      → walk path node found ≡ ok d
      → Walked (IsDbIn path node) found d
  walk-Walked path (file name) found d e = missed (λ x h. h) (cc)
  walk-Walked path (unreadable name x) found d e = cc
  walk-Walked path (dir name nodes) found d e = elim (Bool-cases (is_db_dir nodes)) [
    | inl yes' ↦ met (inl (yes', ground (arith, e, yes')))
    | inr no' ↦ elim (walk_all-Walked path nodes found d (ground (arith, e, no'))) [
      | met h ↦ met (inr h)
      | missed none' same ↦
          missed (λ x h. elim h [ inl (a, b) ↦ ground (arith, a, no') | inr b ↦ none' x b ]) same
    ]
  ]

  walk_all-Walked :
      (path : Bytes) (nodes : Nodes) (found d : Bytes)
      → walk_all path nodes found ≡ ok d
      → Walked (IsDbBelow path nodes) found d
  walk_all-Walked path done found d e = missed (λ x h. h) (cc)
  walk_all-Walked path (entry node nodes) found d e =
      elim (Result-cases (walk (join path (name_of node)) node found)) [
        | inr (x, f) ↦ absurd (ground (arith, e, f))
        | inl (m, f) ↦ elim (walk_all-Walked path nodes m d (ground (arith, e, f))) [
          | met h ↦ met (inr h)
          | missed none' same ↦ elim (walk-Walked (join path (name_of node)) node found m f) [
            | met h ↦ met (inl (rw same h))
            | missed none'' before ↦
                missed (λ x h. elim h [ inl a ↦ none'' x a | inr b ↦ none' x b ]) (same ∙ before)
          ]
        ]
      ]

mutual
  IsDbIn-ne-nil : (path : Bytes) (node : Node) → path ≢ [] → IsDbIn path node [] → ⊥
  IsDbIn-ne-nil path (file name) full h = h
  IsDbIn-ne-nil path (unreadable name e) full h = h
  IsDbIn-ne-nil path (dir name nodes) full (inl (_, same)) = full (sym same)
  IsDbIn-ne-nil path (dir name nodes) full (inr h) = IsDbBelow-ne-nil path nodes full h

  IsDbBelow-ne-nil : (path : Bytes) (nodes : Nodes) → path ≢ [] → IsDbBelow path nodes [] → ⊥
  IsDbBelow-ne-nil path done full h = h
  IsDbBelow-ne-nil path (entry node nodes) full (inl h) =
      IsDbIn-ne-nil (join path (name_of node)) node (join-ne-nil path (name_of node) full) h
  IsDbBelow-ne-nil path (entry node nodes) full (inr h) = IsDbBelow-ne-nil path nodes full h

-- A directory of a tree could not be read, with an error.
abbrev mutual
  pub HasUnreadable : Node → Error → Type 0
  HasUnreadable (file name) e = ⊥
  HasUnreadable (unreadable name x) e = x ≡ e
  HasUnreadable (dir name nodes) e = AnyUnreadable nodes e

  pub AnyUnreadable : Nodes → Error → Type 0
  AnyUnreadable done e = ⊥
  AnyUnreadable (entry node nodes) e = HasUnreadable node e ⊎ AnyUnreadable nodes e

mutual
  unfolding walk

  walk-HasUnreadable :
      (path : Bytes) (node : Node) (found : Bytes) (e : Error)
      → walk path node found ≡ err e
      → HasUnreadable node e
  walk-HasUnreadable path (file name) found e h = cc
  walk-HasUnreadable path (unreadable name x) found e h = cc
  walk-HasUnreadable path (dir name nodes) found e h = elim (Bool-cases (is_db_dir nodes)) [
    | inl yes' ↦ absurd (ground (arith, h, yes'))
    | inr no' ↦ walk_all-AnyUnreadable path nodes found e (ground (arith, h, no'))
  ]

  walk_all-AnyUnreadable :
      (path : Bytes) (nodes : Nodes) (found : Bytes) (e : Error)
      → walk_all path nodes found ≡ err e
      → AnyUnreadable nodes e
  walk_all-AnyUnreadable path done found e h = cc
  walk_all-AnyUnreadable path (entry node nodes) found e h =
      elim (Result-cases (walk (join path (name_of node)) node found)) [
        | inr (x, f) ↦
            inl (walk-HasUnreadable (join path (name_of node)) node found e (ground (arith, h, f)))
        | inl (m, f) ↦ inr (walk_all-AnyUnreadable path nodes m e (ground (arith, h, f)))
      ]

-- What `findDBDir` gives for a tree.
pub data Located (root : Bytes) (node : Node) (r : Fallible Bytes) : Type 0 where
  located : (d : Bytes) → IsDbIn root node d → r ≡ ok d → Located root node r
  missing : ((d : Bytes) → IsDbIn root node d → ⊥) → r ≡ err no_db_dir → Located root node r
  interrupted : (e : Error) → HasUnreadable node e → r ≡ err e → Located root node r

-- Below a root that is not the empty path: the directory that is found holds both files; none is
-- found only if no directory holds both; any other error is that of a directory of the tree that
-- could not be read.
pub find_db_dir-Located :
    (c : ℕ) (root : Bytes) (node : Node) → Located (c ∷ root) node (find_db_dir (c ∷ root) node)
unfolding find_db_dir bytes_beq
find_db_dir-Located c root node = elim (Result-cases (walk (c ∷ root) node [])) [
  | inr (x, e) ↦ interrupted x (walk-HasUnreadable (c ∷ root) node [] x e) (ground (arith, e))
  | inl (d, e) ↦ elim (walk-Walked (c ∷ root) node [] d e) [
    | missed none' same ↦ missing none' (ground (arith, e, same))
    | met h ↦ elim (Bool-cases (bytes_beq d [])) [
      | inl empty ↦
          absurd (IsDbIn-ne-nil (c ∷ root) node (λ e. cc) (rw ((bytes_beq_iff d []).0 empty) at h))
      | inr full ↦ located d h (ground (arith, e, full))
    ]
  ]
]
