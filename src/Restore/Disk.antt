-- ===== src/Restore/Disk.antt =====
-- The directory that holds a volume's data, and the system calls that the restore makes on it, each of
-- which can fail or be the moment at which the process is killed. The interface is that of the kernel
-- and of Go's `os`.
pub mod Triples
use borgmatic_manager.Prelude.{
  String, Bool, true, false, Option, none, some, List, [], ◌∷◌, ◌==◌, if◌then◌else◌, is_empty, ◌≡◌,
  ◌⊎◌, inl, inr,
}
use borgmatic_manager.GoMap.{GoMap, get, put, remove, keys}

-- A directory: its entries, and whether it carries the mark of this program.
pub record Dir : Type 0 where
  pub entries : List String
  pub ours : Bool

abbrev pub empty_dir : Dir
empty_dir = record { entries = []; ours = false }

-- The entries of the parent directory, by name.
abbrev pub Disk : Type 0
Disk = GoMap Dir

pub data Errno : Type 0 where
  enosys einval eopnotsupp enotsup eperm eacces enoent eexist enotempty eio : Errno

-- What becomes of a call: it is made, it fails, or the process is killed before it.
pub data Fate : Type 0 where
  made killed : Fate
  fails : Errno → Fate

-- A run that ends with a value, or is killed.
pub data Ran (A : Type 0) : Type 0 where
  returned : A → List Fate → Disk → Ran A
  crashed : Disk → Ran A

abbrev pub M : Type 0 → Type 0
M A = List Fate → Disk → Ran A

abbrev pub pure : {A : Type 0} → A → M A
pure a fates disk = returned a fates disk

abbrev pub and_then : {A B : Type 0} → Ran A → (A → M B) → Ran B
and_then (returned a fates disk) k = k a fates disk
and_then (crashed disk) k = crashed disk

infixl 5 ◌>>=◌
abbrev pub ◌>>=◌ : {A B : Type 0} → M A → (A → M B) → M B
◌>>=◌ m k fates disk = and_then (m fates disk) k

-- The result of a call on the disk: the new disk, or an error.
abbrev pub settle : Disk ⊎ Errno → List Fate → Disk → Ran (Option Errno)
settle (inl disk') fates disk = returned none fates disk'
settle (inr e) fates disk = returned (some e) fates disk

-- A call that changes the disk; past the listed fates every call is made.
unfoldable pub perform : (Disk → Disk ⊎ Errno) → M (Option Errno)
perform act [] disk = settle (act disk) [] disk
perform act (made ∷ fates) disk = settle (act disk) fates disk
perform act (fails e ∷ fates) disk = returned (some e) fates disk
perform act (killed ∷ fates) disk = crashed disk

-- A call that reads the disk.
unfoldable pub ask : {A : Type 0} → (Disk → A) → M (A ⊎ Errno)
ask read [] disk = returned (inl (read disk)) [] disk
ask read (made ∷ fates) disk = returned (inl (read disk)) fates disk
ask read (fails e ∷ fates) disk = returned (inr e) fates disk
ask read (killed ∷ fates) disk = crashed disk

abbrev pub change_dir : Option Dir → (Dir → Disk) → Disk ⊎ Errno
change_dir none k = inr enoent
change_dir (some d) k = inl (k d)

-- `setxattr` and `removexattr` of the mark.
unfoldable pub set_mark : String → Bool → Disk → Disk ⊎ Errno
set_mark name b disk = change_dir (get disk name) (λ d. put disk name (record d { ours = b }))

abbrev pub swap_dirs : Option Dir → Option Dir → (Dir → Dir → Disk) → Disk ⊎ Errno
swap_dirs (some a) (some b) k = inl (k a b)
swap_dirs _ _ k = inr enoent

-- `renameat2` with RENAME_EXCHANGE.
unfoldable pub exchange : String → String → Disk → Disk ⊎ Errno
exchange a b disk = swap_dirs (get disk a) (get disk b) (λ d e. put (put disk a e) b d)

-- A rename may replace an empty directory only.
abbrev pub onto : Option Dir → Disk → Disk ⊎ Errno
onto none disk = inl disk
onto (some d) disk = if is_empty d.entries then inl disk else inr enotempty

abbrev pub onto_nothing : Option Dir → Disk → Disk ⊎ Errno
onto_nothing none disk = inl disk
onto_nothing (some d) disk = inr eexist

abbrev pub move_dir : Option Dir → (Dir → Disk ⊎ Errno) → Disk ⊎ Errno
move_dir none k = inr enoent
move_dir (some d) k = k d

-- `renameat`.
unfoldable pub rename_at : String → String → Disk → Disk ⊎ Errno
rename_at a b disk = move_dir (get disk a) (λ d. onto (get disk b) (put (remove disk a) b d))

-- `os.Rename`, which refuses a directory that exists.
unfoldable pub rename : String → String → Disk → Disk ⊎ Errno
rename a b disk = move_dir (get disk a) (λ d. onto_nothing (get disk b) (put (remove disk a) b d))

-- `os.MkdirTemp`, for the name that it comes to.
unfoldable pub mkdir_temp : String → Disk → Disk ⊎ Errno
mkdir_temp name disk = onto_nothing (get disk name) (put disk name empty_dir)

-- `os.Remove` on a directory.
unfoldable pub remove_dir : String → Disk → Disk ⊎ Errno
remove_dir name disk = move_dir (get disk name) (λ d. onto (some d) (remove disk name))
