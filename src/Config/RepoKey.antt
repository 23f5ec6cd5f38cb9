-- ===== src/Config/RepoKey.antt =====
-- Repository identity: `CanonicalRepoKey` of internal/config/generate.go and the tests it uses.
use borgmatic_manager.Prelude.{
  String, ◌≡◌, refl, Bool, true, false, not, ◌&&◌, ◌||◌, Option, none, some, List, [], ◌∷◌, foldl,
  ◌==◌, if◌then◌else◌, get_or,
}
use borgmatic_manager.GoStrings.{
  plus, has_prefix, contains_text, ends_with, trim_right, before_char, split_char,
}

-- What the function reads of its process: `os.ExpandEnv` over the environment, and
-- `filepath.EvalSymlinks` over the file system, with `none` for an error.
pub record Host : Type 0 where
  pub expand_env : String → String
  pub eval_symlinks : String → Option String

abbrev pub unknown_repo_key : String
unknown_repo_key = "unknown"

-- The parent of the components kept so far, last first.
unfoldable pub go_up : Bool → List String → List String
go_up true [] = []
go_up false [] = ".." ∷ []
go_up rooted (top ∷ rest) = if top == ".." then ".." ∷ top ∷ rest else rest

-- One component of a path in `filepath.Clean`, over the components kept so far, last first.
unfoldable pub clean_step : Bool → List String → String → List String
unfolding go_up
clean_step rooted kept part =
    if part == "" || part == "."
    then kept
    else if part == ".."
    then go_up rooted kept
    else part ∷ kept

-- The components joined by `/`, from a list with the last component first.
unfoldable pub join_path : List String → String
join_path [] = ""
join_path (last ∷ []) = last
join_path (last ∷ prev ∷ rest) = plus (join_path (prev ∷ rest)) (plus "/" last)

-- `filepath.Clean(path)`.
unfoldable pub clean : String → String
unfolding has_prefix split_char clean_step join_path
clean path =
    let rooted = has_prefix path "/" in
    let joined = join_path (foldl (clean_step rooted) [] (split_char path b'/')) in
    if path == ""
    then "."
    else if rooted
    then plus "/" joined
    else if joined == ""
    then "."
    else joined

unfoldable pub is_scp_host : String → Bool
unfolding has_prefix contains_text ends_with
is_scp_host host =
    if host == "" || contains_text host "/"
    then false
    else not (has_prefix host "@") && not (ends_with host b'@')

-- borg's `user@host:path` form.
unfoldable pub is_scp_style : String → Bool
unfolding before_char is_scp_host
is_scp_style path = elim (before_char path b':') [ none ↦ false | some host ↦ is_scp_host host ]

-- A remote location: nothing local to clean or resolve.
unfoldable pub is_remote : String → Bool
unfolding has_prefix contains_text is_scp_style
is_remote path = not (has_prefix path "/") && (contains_text path "://" || is_scp_style path)

module _ (h : Host) where
  unfoldable pub located_key : String → String
  unfolding is_remote trim_right clean
  located_key path =
      if is_remote path
      then trim_right path b'/'
      else get_or (clean path) (h.eval_symlinks (clean path))

  unfoldable pub canonical_repo_key : String → String
  unfolding located_key contains_text
  canonical_repo_key path =
      let expanded = h.expand_env path in
      if contains_text path "${"
      then (if expanded == "" || contains_text expanded "${" || expanded == path
          then unknown_repo_key
          else located_key expanded)
      else located_key path

clean_paths :
    (clean "/srv//a/./b/../c/" ≡ "/srv/a/c")
    × (clean "/../x" ≡ "/x")
    × (clean "../a/.." ≡ "..")
    × (clean "a/.." ≡ ".")
    × (clean "/" ≡ "/")
unfolding clean
clean_paths = (refl, refl, refl, refl, refl)
