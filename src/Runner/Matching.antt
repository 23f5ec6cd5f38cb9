-- ===== src/Runner/Matching.antt =====
-- `matchResults` of internal/runner/runner.go: which of the reported results belongs to which
-- configured repository. A pairing names the result by its index in the report.
pub mod Pairs
pub mod Exact
use borgmatic_manager.Prelude.{
  ℕ, zero, suc, String, Bool, true, false, not, ◌&&◌, ◌||◌, Option, none, some, List, [], ◌∷◌, ◌==◌,
  nat_eq, if◌then◌else◌, is_some, bind, ◌≡◌, refl,
}
use borgmatic_manager.Config.RepoKey.{Host, unknown_repo_key}
use borgmatic_manager.Config.Repositories.{RepoRef}
use borgmatic_manager.Runner.Results.{CreateResult, repo_identity}

pub record Pairing : Type 0 where
  pub out : ℕ → Option ℕ
  pub claimed : ℕ → Bool

abbrev pub no_pairs : Pairing
no_pairs = record { out = λ i. none; claimed = λ j. false }

unfoldable pub claim : ℕ → ℕ → Pairing → Pairing
claim i j p = record {
  out = λ k. if nat_eq i k then some j else p.out k;
  claimed = λ k. if nat_eq j k then true else p.claimed k;
}

abbrev pub Test : Type 0
Test = CreateResult → Bool

-- The first result, from index `j` on, that passes the test and is not claimed.
unfoldable pub first_free : Test → (ℕ → Bool) → ℕ → List CreateResult → Option ℕ
first_free test claimed j [] = none
first_free test claimed j (res ∷ rest) =
    let later = first_free test claimed (suc j) rest in
    if claimed j then later else if test res then some j else later

abbrev pub claim_found : ℕ → Option ℕ → Pairing → Pairing
claim_found i none p = p
claim_found i (some j) p = claim i j p

-- A pass over the repositories: each looks for a result by the test that it gives, if it gives one.
unfoldable pub pass :
    (Pairing → ℕ → RepoRef → Option Test) → List CreateResult → ℕ → List RepoRef → Pairing → Pairing
pass test results i [] p = p
pass test results i (ref ∷ rest) p =
    let found = bind (test p i ref) (λ t. first_free t p.claimed 0 results) in
    pass test results (suc i) rest (claim_found i found p)

-- The same location or the same label.
unfoldable pub exact : RepoRef → Test
exact ref res =
    (not (ref.path == "") && res.location == ref.path)
    || (not (ref.label == "") && res.label == ref.label)

abbrev pub by_name : Pairing → ℕ → RepoRef → Option Test
by_name p i ref = some (exact ref)

-- The same repository in canonical form, where it has one.
unfoldable pub by_identity : Host → Pairing → ℕ → RepoRef → Option Test
by_identity h p i ref =
    let key = repo_identity h ref.path in
    if is_some (p.out i) || ref.path == ""
    then none
    else if key == unknown_repo_key
    then none
    else some (λ res. not (res.location == "") && repo_identity h res.location == key)

-- What is left over: nothing, one index, or more.
pub data Leftover : Type 0 where
  nothing several : Leftover
  lone : ℕ → Leftover

abbrev pub one_more : ℕ → Leftover → Leftover
one_more i nothing = lone i
one_more i _ = several

unfoldable pub leftover {ℓ} : {A : Type ℓ} → (ℕ → Bool) → ℕ → List A → Leftover
leftover taken i [] = nothing
leftover taken i (x ∷ rest) =
    let later = leftover taken (suc i) rest in if taken i then later else one_more i later

abbrev pub pair_lone : Leftover → Leftover → Pairing → Pairing
pair_lone (lone i) (lone j) p = claim i j p
pair_lone _ _ p = p

unfoldable pub match_results : Host → List RepoRef → List CreateResult → Pairing
match_results h configured results =
    let named = pass by_name results 0 configured no_pairs in
    let known = pass (by_identity h) results 0 configured named in
    pair_lone (leftover (λ i. is_some (known.out i)) 0 configured)
      (leftover known.claimed 0 results) known
