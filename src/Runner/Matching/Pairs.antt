-- ===== src/Runner/Matching/Pairs.antt =====
-- What `matchResults` guarantees: no result is used twice, and a result that names its repository
-- goes to that repository.
use borgmatic_manager.Prelude.{
  ℕ, suc, ◌+◌, ◌<◌, Bool, true, false, Option, none, some, List, [], ◌∷◌, is_some, bind, ◌≡◌, refl,
  arith, length,
}
use borgmatic_manager.Config.RepoKey.{Host}
use borgmatic_manager.Config.Repositories.{RepoRef}
use borgmatic_manager.Runner.Results.{CreateResult}
use borgmatic_manager.Runner.Matching.{
  Pairing, no_pairs, claim, Test, first_free, claim_found, pass, by_name, by_identity, Leftover,
  nothing, several, lone, one_more, leftover, pair_lone, match_results,
}

-- A claimed result has at most one repository, and stands in the report.
pub record IsPairing (n : ℕ) (p : Pairing) : Type 0 where
  pub marked : (i j : ℕ) → p.out i ≡ some j → p.claimed j ≡ true
  pub single : (i k j : ℕ) → p.out i ≡ some j → p.out k ≡ some j → i ≡ k
  pub bounded : (i j : ℕ) → p.out i ≡ some j → j < n

claim-IsPairing :
    (n i j : ℕ) (p : Pairing)
    → p.claimed j ≡ false
    → j < n
    → IsPairing n p
    → IsPairing n (claim i j p)
unfolding claim
claim-IsPairing n i j p free lt v = record {
  marked = λ k m q. ground (arith, v.marked k m);
  single = λ k m x q r. ground (arith, v.single k m x, v.marked k x, v.marked m x);
  bounded = λ k m q. ground (arith, v.bounded k m);
}

-- What is found is free and in range.
first_free_sound :
    (t : Test) (c : ℕ → Bool) (s : ℕ) (rs : List CreateResult) (k : ℕ)
    → first_free t c s rs ≡ some k
    → (c k ≡ false) × (k < s + length rs)
unfolding first_free
first_free_sound t c s [] k e = cc
first_free_sound t c s (r ∷ rs) k e = ground (arith, first_free_sound t c (suc s) rs k)

claim_found-IsPairing :
    (rs : List CreateResult) (i : ℕ) (o : Option ℕ) (p : Pairing)
    → ((k : ℕ) → o ≡ some k → (p.claimed k ≡ false) × (k < length rs))
    → IsPairing (length rs) p
    → IsPairing (length rs) (claim_found i o p)
claim_found-IsPairing rs i none p f v = v
claim_found-IsPairing rs i (some k) p f v =
    let (free, lt) = f k refl in claim-IsPairing (length rs) i k p free lt v

search_sound :
    (c : ℕ → Bool) (rs : List CreateResult) (o : Option Test) (k : ℕ)
    → bind o (λ t. first_free t c 0 rs) ≡ some k
    → (c k ≡ false) × (k < length rs)
search_sound c rs none k e = cc
search_sound c rs (some t) k e = ground (arith, first_free_sound t c 0 rs k)

pass-IsPairing :
    (test : Pairing → ℕ → RepoRef → Option Test) (rs : List CreateResult) (i : ℕ)
    (refs : List RepoRef) (p : Pairing)
    → IsPairing (length rs) p
    → IsPairing (length rs) (pass test rs i refs p)
unfolding pass
pass-IsPairing test rs i [] p v = v
pass-IsPairing test rs i (ref ∷ refs) p v =
    pass-IsPairing test rs (suc i) refs _
      (claim_found-IsPairing rs i _ p (search_sound p.claimed rs (test p i ref)) v)

one_more-lone : (i : ℕ) (l : Leftover) (k : ℕ) → one_more i l ≡ lone k → i ≡ k
one_more-lone i nothing k e = ground arith
one_more-lone i several k e = cc
one_more-lone i (lone j) k e = cc

pub leftover_sound {ℓ} :
    {A : Type ℓ} (taken : ℕ → Bool) (i : ℕ) (xs : List A) (k : ℕ)
    → leftover taken i xs ≡ lone k
    → (taken k ≡ false) × (k < i + length xs)
unfolding leftover
leftover_sound taken i [] k e = cc
leftover_sound taken i (x ∷ xs) k e =
    ground (arith, leftover_sound taken (suc i) xs k, one_more-lone i (leftover taken (suc i) xs) k)

pair_lone-IsPairing :
    (n : ℕ) (a b : Leftover) (p : Pairing)
    → ((j : ℕ) → b ≡ lone j → (p.claimed j ≡ false) × (j < n))
    → IsPairing n p
    → IsPairing n (pair_lone a b p)
pair_lone-IsPairing n (lone i) (lone j) p f v =
    let (free, lt) = f j refl in claim-IsPairing n i j p free lt v
pair_lone-IsPairing n nothing b p f v = v
pair_lone-IsPairing n several b p f v = v
pair_lone-IsPairing n (lone i) nothing p f v = v
pair_lone-IsPairing n (lone i) several p f v = v

-- No result is credited to two repositories, and each that is credited stands in the report.
pub match_results-IsPairing :
    (h : Host) (configured : List RepoRef) (results : List CreateResult)
    → IsPairing (length results) (match_results h configured results)
unfolding match_results
match_results-IsPairing h configured results =
    let named : Pairing = pass by_name results 0 configured no_pairs in
    let known : Pairing = pass (by_identity h) results 0 configured named in
    let refs = leftover (λ i. is_some (known.out i)) 0 configured in
    pair_lone-IsPairing (length results) refs (leftover known.claimed 0 results) known
      (λ j e. ground (arith, leftover_sound known.claimed 0 results j e))
      (pass-IsPairing (by_identity h) results 0 configured named
        (pass-IsPairing by_name results 0 configured no_pairs none_yet))
  where
    none_yet : IsPairing (length results) no_pairs
    none_yet = record { marked = λ i j q. cc; single = λ i k j q r. cc; bounded = λ i j q. cc }
