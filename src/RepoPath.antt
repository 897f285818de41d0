-- ===== src/RepoPath.antt =====
-- internal/repopath/repopath.go. A directory is its names from the innermost outwards; the file system's root is the empty list, and is
-- its own parent.
use maritime_test_lab.Prelude.{
  String, Bool, true, false, List, [], ◌∷◌, ◌++◌, Result, ok, err, ◌>>=◌, if◌then◌else◌, ◌≡◌, refl,
  arith, ap,
}

pub data Error : Type 0 where
  no_working_directory not_found unreadable : Error

abbrev pub Directory : Type 0
Directory = List String

-- the loop of `Root`; `has_go_mod` is what `os.Stat` answers for go.mod in a directory
unfoldable pub search : (Directory → Bool) → Directory → Result Error Directory
search has_go_mod [] = if has_go_mod [] then ok [] else err not_found
search has_go_mod (name ∷ parent) =
    let above = search has_go_mod parent in
    if has_go_mod (name ∷ parent) then ok (name ∷ parent) else above

unfoldable pub root : (Directory → Bool) → Result Error Directory → Result Error Directory
unfolding search
root has_go_mod getwd = getwd >>= search has_go_mod

-- `filepath.Join(root, rel)`, of a clean relative path
unfoldable pub find :
    (Directory → Bool) → Result Error Directory → List String → Result Error Directory
unfolding root
find has_go_mod getwd rel = root has_go_mod getwd >>= λ dir. ok (rel ++ dir)

unfoldable pub read :
    (Directory → Bool)
    → Result Error Directory
    → (Directory → Result Error (List String))
    → List String
    → Result Error (List String)
unfolding find
read has_go_mod getwd read_file rel = find has_go_mod getwd rel >>= read_file

-- The search answers the nearest directory, from the given one outwards, that has a go.mod.
pub search-nearest :
    (has_go_mod : Directory → Bool) (inner : List String) (dir : Directory)
    → has_go_mod dir ≡ true
    → ((a : List String) (name : String) (b : List String)
        → inner ≡ a ++ name ∷ b
        → has_go_mod (name ∷ b ++ dir) ≡ false)
    → search has_go_mod (inner ++ dir) ≡ ok dir
unfolding search
search-nearest has_go_mod [] [] h none_nearer = ground (arith, h)
search-nearest has_go_mod [] (name ∷ dir) h none_nearer = ground (arith, h)
search-nearest has_go_mod (name ∷ inner) dir h none_nearer = ground (
  arith,
  none_nearer [] name inner refl,
  search-nearest has_go_mod inner dir h
      (λ a n b e. none_nearer (name ∷ a) n b (ap (λ l. name ∷ l) e)),
)
