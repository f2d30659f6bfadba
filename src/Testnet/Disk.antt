-- ===== src/Testnet/Disk.antt =====
-- The file system, as `writeFile`, `copyFile` and `isSubDir` use it. A path is the list of its
-- names from the root; `filepath.Join` of clean names appends. A call fails where the directory or
-- the file is not there; other failures of the system are left out.
use nexus_node.Common.{
  Bool, true, false, not, ◌&&◌, ◌||◌, List, [], ◌∷◌, ◌++◌, Option, none, some, if◌then◌else◌, map,
}
use nexus_node.Common.Text.{Bytes, codes, bytes_eq, has_prefix}
use nexus_node.Upgrades.Api.{App, Out, done, failed, ◌>>=◌, ◌>>◌}

abbrev pub FilePath : Type 0
FilePath = List Bytes

unfoldable pub path_eq : FilePath → FilePath → Bool
path_eq [] [] = true
path_eq (a ∷ p) (b ∷ q) = bytes_eq a b && path_eq p q
path_eq _ _ = false

-- Whether the first path is the second or lies above it.
unfoldable pub is_above : FilePath → FilePath → Bool
is_above [] q = true
is_above (a ∷ p) [] = false
is_above (a ∷ p) (b ∷ q) = bytes_eq a b && is_above p q

-- Directories that were made, each with those above it, and files with their contents.
pub record Disk : Type 0 where
  pub directories : List FilePath
  pub files : List (FilePath × Bytes)

unfoldable pub has_dir : FilePath → List FilePath → Bool
has_dir p [] = false
has_dir p (d ∷ ds) = is_above p d || has_dir p ds

unfoldable pub lookup : FilePath → List (FilePath × Bytes) → Option Bytes
lookup p [] = none
lookup p ((q, c) ∷ fs) = if path_eq q p then some c else lookup p fs

-- `filepath.Base`
unfoldable pub base : FilePath → Bytes
base [] = []
base (a ∷ []) = a
base (a ∷ (b ∷ p)) = base (b ∷ p)

-- `filepath.Dir`
unfoldable pub dir : FilePath → FilePath
dir [] = []
dir (a ∷ []) = []
dir (a ∷ (b ∷ p)) = a ∷ dir (b ∷ p)

-- `os.MkdirAll`
unfoldable pub mkdir_all : FilePath → App Disk Unit
mkdir_all p d = (done tt, record d { directories = p ∷ d.directories })

-- `os.Create` and the writing of what the file holds afterwards; `os.WriteFile`.
unfoldable pub create : FilePath → Bytes → App Disk Unit
create p contents d =
    if has_dir (dir p) d.directories
    then (done tt, record d { files = (p, contents) ∷ d.files })
    else (failed ("no such directory" ∷ []), d)

unfoldable pub found : Option Bytes → Disk → Out Bytes × Disk
found none d = (failed ("no such file" ∷ []), d)
found (some c) d = (done c, d)

-- `os.Open` and the reading of the whole file.
unfoldable pub read_file : FilePath → App Disk Bytes
unfolding found
read_file p d = found (lookup p d.files) d

unfoldable pub write_file : FilePath → FilePath → Bytes → App Disk Unit
write_file file directory contents = do mkdir_all directory; create file contents

-- The source is opened, the destination is created empty, and then filled: a file that is copied onto
-- itself is lost.
unfoldable pub copy_file : FilePath → FilePath → App Disk Unit
copy_file src dst_dir = do
  _ ← read_file src
  create (dst_dir ++ (base src ∷ [])) []
  contents ← read_file src
  create (dst_dir ++ (base src ∷ [])) contents

-- `filepath.Rel`: the names to go from the first path to the second.
unfoldable pub rel : FilePath → FilePath → FilePath
rel [] q = q
rel (a ∷ p) [] = codes ".." ∷ rel p []
rel (a ∷ p) (b ∷ q) =
    let below = rel p q in
    if bytes_eq a b then below else codes ".." ∷ (map (λ name. codes "..") p ++ (b ∷ q))

unfoldable pub starts_up : FilePath → Bool
starts_up [] = false
starts_up (name ∷ p) = has_prefix name (codes "..")

-- Whether the first path lies in the second.
unfoldable pub is_sub_dir : FilePath → FilePath → Bool
unfolding starts_up
is_sub_dir src dst_dir = not (starts_up (rel dst_dir src))

keep_dirs : FilePath → List FilePath → List FilePath
keep_dirs p [] = []
keep_dirs p (d ∷ ds) = let rest = keep_dirs p ds in if is_above p d then rest else d ∷ rest

keep_files : FilePath → List (FilePath × Bytes) → List (FilePath × Bytes)
keep_files p [] = []
keep_files p ((q, c) ∷ fs) =
    let rest = keep_files p fs in if is_above p q then rest else (q, c) ∷ rest

-- `os.RemoveAll`; the directory above stays.
unfoldable pub remove_all : FilePath → App Disk Unit
unfolding keep_dirs keep_files
remove_all p d = (
  done tt,
  record { directories = dir p ∷ keep_dirs p d.directories; files = keep_files p d.files },
)
