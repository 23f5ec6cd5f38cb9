-- ===== src/Runner/Mentions/Tokens.antt =====
-- The two searches for a path in a message, `containsPathToken` and `tokenOccurrences`, agree.
use borgmatic_manager.Prelude.{
  refl, drop, length, ℕ, suc, Bool, false, not, [], ◌∷◌, is_empty, ◌≡◌, arith,
}
use borgmatic_manager.Runner.Mentions.{
  Bytes, before_ok, after_ok, starts_name, token_here, is_name_byte, occurrences_from,
  token_occurrences, token_from, contains_path_token,
}

after_ok-starts_name : (after : Bytes) → after_ok after ≡ not (starts_name after)
unfolding after_ok
after_ok-starts_name [] = refl
after_ok-starts_name (b ∷ after) = refl

-- What the search for occurrences keeps of the bytes that it has passed.
token_from-occurrences :
    (before : Bytes) (after_name : Bool) (start : ℕ) (msg path : Bytes)
    → before_ok before ≡ not after_name
    → token_from before msg path ≡ not (is_empty (occurrences_from after_name start msg path))
unfolding token_from occurrences_from token_here before_ok
token_from-occurrences before after_name start [] path e =
    ground (arith, e, after_ok-starts_name (drop (length path) []))
token_from-occurrences before after_name start (b ∷ msg) path e =
    let rest = token_from-occurrences (b ∷ before) (is_name_byte b) (suc start) msg path refl in
    ground (arith, e, after_ok-starts_name (drop (length path) (b ∷ msg)), rest)

-- A message contains a path as a whole token, as the test on one repository sees it, exactly if the
-- search over all repositories lists an occurrence of it; the path is not empty.
pub contains_path_token-token_occurrences :
    (msg : Bytes) (p : ℕ) (path : Bytes)
    → contains_path_token msg (p ∷ path) ≡ not (is_empty (token_occurrences msg (p ∷ path)))
unfolding contains_path_token token_occurrences before_ok
contains_path_token-token_occurrences msg p path =
    token_from-occurrences [] false 0 msg (p ∷ path) refl
