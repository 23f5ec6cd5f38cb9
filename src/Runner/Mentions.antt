-- ===== src/Runner/Mentions.antt =====
-- Which repositories the error messages of a run name: `implicatedRepos` of internal/runner/runner.go
-- and the functions below it. A message and a path are read by bytes, as Go reads a text.
pub mod Tokens
pub mod Named
pub mod Found
use Prim.Native.Char.{code}
use Prim.Native.Nat.{◌/◌, ◌%◌}
use borgmatic_manager.Prelude.{
  ℕ, zero, suc, ◌+◌, String, Bool, true, false, not, ◌&&◌, ◌||◌, List, [], ◌∷◌, ◌++◌, map, foldl,
  ◌==◌, nat_eq, ltb, leb, if◌then◌else◌, length, drop, contains, any, ◌≡◌, refl,
}
use borgmatic_manager.GoStrings.{trim_right}
use borgmatic_manager.Config.RepoKey.{Host, canonical_repo_key, unknown_repo_key}
use borgmatic_manager.Config.Repositories.{RepoRef}
use borgmatic_manager.Runner.Results.{repo_identity}

abbrev pub Bytes : Type 0
Bytes = List ℕ

-- The bytes of a character in UTF-8.
unfoldable pub utf8 : ℕ → Bytes
utf8 c =
    if ltb c 0x80
    then c ∷ []
    else if ltb c 0x800
    then (0xc0 + c / 0x40) ∷ (0x80 + c % 0x40) ∷ []
    else if ltb c 0x10000
    then (0xe0 + c / 0x1000) ∷ (0x80 + c / 0x40 % 0x40) ∷ (0x80 + c % 0x40) ∷ []
    else (0xf0 + c / 0x40000)
      ∷ (0x80 + c / 0x1000 % 0x40)
      ∷ (0x80 + c / 0x40 % 0x40)
      ∷ (0x80 + c % 0x40)
      ∷ []

unfoldable pub bytes : String → Bytes
bytes String.[] = []
bytes (String.◌∷◌ c s) = utf8 (code c) ++ bytes s

abbrev pub between : ℕ → ℕ → ℕ → Bool
between lo hi b = leb lo b && leb b hi

-- The bytes that continue the name of a file: letters, digits, some signs, and all beyond ASCII.
unfoldable pub is_name_byte : ℕ → Bool
is_name_byte b =
    between b'a' b'z' b
    || between b'A' b'Z' b
    || between b'0' b'9' b
    || nat_eq b b'.'
    || nat_eq b b'-'
    || nat_eq b b'_'
    || nat_eq b b'@'
    || nat_eq b b'+'
    || nat_eq b b'='
    || nat_eq b b'~'
    || nat_eq b b'%'
    || nat_eq b b'#'
    || nat_eq b b'^'
    || nat_eq b b'!'
    || leb 0x80 b

abbrev pub starts_name : Bytes → Bool
starts_name [] = false
starts_name (b ∷ rest) = is_name_byte b

unfoldable pub begins_with : Bytes → Bytes → Bool
begins_with msg [] = true
begins_with [] (p ∷ path) = false
begins_with (b ∷ msg) (p ∷ path) = nat_eq b p && begins_with msg path

-- The path stands at the head of the rest of a message as a whole token; `after_name` tells whether
-- the byte before it continues a name.
unfoldable pub token_here : Bool → Bytes → Bytes → Bool
token_here after_name msg path =
    begins_with msg path && not after_name && not (starts_name (drop (length path) msg))

-- The loop of `tokenOccurrences`, from offset `start` on.
unfoldable pub occurrences_from : Bool → ℕ → Bytes → Bytes → List ℕ
occurrences_from after_name start [] path = if token_here after_name [] path then start ∷ [] else []
occurrences_from after_name start (b ∷ msg) path =
    let later = occurrences_from (is_name_byte b) (suc start) msg path in
    if token_here after_name (b ∷ msg) path then start ∷ later else later

unfoldable pub token_occurrences : Bytes → Bytes → List ℕ
token_occurrences msg [] = []
token_occurrences msg (p ∷ path) = occurrences_from false 0 msg (p ∷ path)

-- The loop of `containsPathToken`, whose search starts at the rest of the message; `before` is what
-- has been passed, last byte first. At each place where the path stands, the bytes on both sides
-- are tested: `beforeOK` and `afterOK`.
unfoldable pub before_ok : Bytes → Bool
before_ok [] = true
before_ok (b ∷ before) = not (is_name_byte b)

unfoldable pub after_ok : Bytes → Bool
after_ok [] = true
after_ok (b ∷ after) = not (is_name_byte b)

unfoldable pub token_from : Bytes → Bytes → Bytes → Bool
token_from before [] path =
    begins_with [] path && (before_ok before && after_ok (drop (length path) []))
token_from before (b ∷ msg) path =
    let later = token_from (b ∷ before) msg path in
    if begins_with (b ∷ msg) path
    then (if before_ok before && after_ok (drop (length path) (b ∷ msg)) then true else later)
    else later

unfoldable pub contains_path_token : Bytes → Bytes → Bool
contains_path_token msg path = token_from [] msg path

-- Bytes that a repository has been found to own.
abbrev pub Claimed : Type 0
Claimed = ℕ → Bool

-- `n` bytes from `start` on; those past the end of the message are not read.
unfoldable pub overlaps_claimed : Claimed → ℕ → ℕ → ℕ → Bool
overlaps_claimed claimed size start zero = false
overlaps_claimed claimed size start (suc n) =
    (ltb start size && claimed start) || overlaps_claimed claimed size (suc start) n

abbrev pub claim_range : Claimed → ℕ → ℕ → Claimed
claim_range claimed start n i = (leb start i && ltb i (start + n)) || claimed i

-- A spelling of the repository with an index.
pub record Candidate : Type 0 where
  pub index : ℕ
  pub spelling : Bytes

-- What is known within one message: its claimed bytes, and the repositories named so far.
pub record Reading : Type 0 where
  pub claimed : Claimed
  pub named : ℕ → Bool

unfoldable pub read_occurrence : ℕ → Candidate → Reading → ℕ → Reading
read_occurrence size c r start =
    if overlaps_claimed r.claimed size start (length c.spelling) then r else record {
      claimed = claim_range r.claimed start (length c.spelling);
      named = λ i. nat_eq c.index i || r.named i;
    }

unfoldable pub read_candidate : Bytes → Reading → Candidate → Reading
read_candidate msg r c = foldl (read_occurrence (length msg) c) r (token_occurrences msg c.spelling)

unfoldable pub read_message : List Candidate → (ℕ → Bool) → Bytes → ℕ → Bool
read_message candidates named msg =
    (foldl (read_candidate msg) (record { claimed = λ i. false; named = named }) candidates).named

-- `sort.SliceStable` with the longer spelling first.
unfoldable pub insert_longest : Candidate → List Candidate → List Candidate
insert_longest c [] = c ∷ []
insert_longest c (d ∷ ds) =
    let rest = insert_longest c ds in
    if ltb (length c.spelling) (length d.spelling) then d ∷ rest else c ∷ d ∷ ds

unfoldable pub longest_first : List Candidate → List Candidate
longest_first [] = []
longest_first (c ∷ cs) = insert_longest c (longest_first cs)

module _ (h : Host) where
  unfoldable pub add_spelling : List String → String → List String
  add_spelling out s =
      if s == "" || s == unknown_repo_key
      then out
      else if contains out s
      then out
      else out ++ s ∷ []

  -- The forms that a path may take in the output of borg.
  unfoldable pub repo_spellings : String → List String
  repo_spellings path =
      let expanded = h.expand_env path in
      let plain =
        add_spelling (add_spelling (path ∷ []) (trim_right path b'/'))
          (canonical_repo_key h path) in
      if path == ""
      then []
      else if expanded == path
      then plain
      else add_spelling (add_spelling (add_spelling plain expanded) (trim_right expanded b'/'))
          (repo_identity h path)

  unfoldable pub candidates_from : ℕ → List RepoRef → List Candidate
  candidates_from i [] = []
  candidates_from i (ref ∷ rest) =
      map (λ s. record { index = i; spelling = bytes s }) (repo_spellings ref.path)
      ++ candidates_from (suc i) rest

  unfoldable pub implicated_repos : List RepoRef → List Bytes → ℕ → Bool
  implicated_repos configured err_text =
      foldl (read_message (longest_first (candidates_from 0 configured))) (λ i. false) err_text

  -- `mentionedInErrors`, which decides one repository by itself.
  unfoldable pub mentioned_in_errors : String → List Bytes → Bool
  mentioned_in_errors path err_text =
      any (λ s. any (λ msg. contains_path_token msg (bytes s)) err_text) (repo_spellings path)
