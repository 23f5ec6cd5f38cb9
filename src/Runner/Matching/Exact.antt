-- ===== src/Runner/Matching/Exact.antt =====
-- A result that `matchResults` can pair by location or label is paired that way.
use native.Mathlib.Nat.{add-zero, zero-add}
use borgmatic_manager.Prelude.{
  nth, ℕ, zero, suc, ◌+◌, ◌<◌, ◌≤◌, Bool, true, false, Option, none, some, List, [], ◌∷◌, nat_eq,
  is_some, get_or, bind, ◌≡◌, refl, arith, Bool-cases, inl, inr, ap, sym, subst, ◌⊎◌,
}
use borgmatic_manager.Config.RepoKey.{Host}
use borgmatic_manager.Config.Repositories.{RepoRef}
use borgmatic_manager.Runner.Results.{CreateResult}
use borgmatic_manager.Runner.Matching.{
  Pairing, no_pairs, claim, Test, first_free, claim_found, pass, exact, by_name, by_identity,
  Leftover, nothing, several, lone, leftover, pair_lone, match_results,
}
use borgmatic_manager.Runner.Matching.Pairs.{leftover_sound}

-- Element `d` is the only one that passes the test.
abbrev pub OnlyAt {ℓ} : {A : Type ℓ} → (A → Bool) → List A → ℕ → Type ℓ
OnlyAt {A} t xs d = (e : ℕ) (x : A) → nth xs e ≡ some x → t x ≡ true → e ≡ d

OnlyAt-tail {ℓ} :
    {A : Type ℓ} (t : A → Bool) (x : A) (xs : List A) (d : ℕ)
    → OnlyAt t (x ∷ xs) (suc d)
    → OnlyAt t xs d
unfolding nth
OnlyAt-tail t x xs d o e y q p = let s = o (suc e) y q p in omega arith

OnlyAt-head {ℓ} :
    {A : Type ℓ} (t : A → Bool) (x : A) (xs : List A) (d : ℕ)
    → OnlyAt t (x ∷ xs) (suc d)
    → t x ≡ false
unfolding nth
OnlyAt-head t x xs d o = elim (Bool-cases (t x)) [
  | inl passes ↦ let s : zero ≡ suc d = o zero x refl passes in absurd (omega arith)
  | inr fails ↦ fails
]

first_free-only :
    (t : Test) (c : ℕ → Bool) (s : ℕ) (rs : List CreateResult) (d : ℕ) (r : CreateResult)
    → nth rs d ≡ some r
    → t r ≡ true
    → c (s + d) ≡ false
    → OnlyAt t rs d
    → first_free t c s rs ≡ some (s + d)
unfolding first_free nth
first_free-only t c s [] d r e p f o = cc
first_free-only t c s (x ∷ rs) zero r e p f o = ground arith
first_free-only t c s (x ∷ rs) (suc d) r e p f o =
    let shift : s + suc d ≡ suc s + d = omega arith in
    let free = subst (λ k. c k ≡ false) shift f in
    let later = first_free-only t c (suc s) rs d r e p free (OnlyAt-tail t x rs d o) in
    ground (arith, OnlyAt-head t x rs d o)

claim_found-keeps :
    (i : ℕ) (o : Option ℕ) (p : Pairing) (k j : ℕ)
    → nat_eq i k ≡ false
    → p.out k ≡ some j
    → (claim_found i o p).out k ≡ some j
unfolding claim
claim_found-keeps i none p k j n e = e
claim_found-keeps i (some m) p k j n e = ground arith

-- A pass keeps the pairs of the repositories before it.
pass-keeps_earlier :
    (test : Pairing → ℕ → RepoRef → Option Test) (rs : List CreateResult) (s : ℕ)
    (refs : List RepoRef) (p : Pairing) (k j : ℕ)
    → k < s
    → p.out k ≡ some j
    → (pass test rs s refs p).out k ≡ some j
unfolding pass
pass-keeps_earlier test rs s [] p k j lt e = e
pass-keeps_earlier test rs s (ref ∷ refs) p k j lt e =
    pass-keeps_earlier test rs (suc s) refs _ k j (omega arith)
      (claim_found-keeps s _ p k j (ground arith) e)

by_identity-done :
    (h : Host) (p : Pairing) (i : ℕ) (ref : RepoRef) (j : ℕ)
    → p.out i ≡ some j
    → by_identity h p i ref ≡ none
unfolding by_identity
by_identity-done h p i ref j e = rw e refl

-- The pass by identity keeps every pair.
by_identity-keeps :
    (h : Host) (rs : List CreateResult) (s : ℕ) (refs : List RepoRef) (p : Pairing) (k j : ℕ)
    → p.out k ≡ some j
    → (pass (by_identity h) rs s refs p).out k ≡ some j
unfolding pass
by_identity-keeps h rs s [] p k j e = e
by_identity-keeps h rs s (ref ∷ refs) p k j e =
    let found = bind (by_identity h p s ref) (λ t. first_free t p.claimed 0 rs) in
    by_identity-keeps h rs (suc s) refs (claim_found s found p) k j (step (Bool-cases (nat_eq s k)))
  where
    step :
        (nat_eq s k ≡ true) ⊎ (nat_eq s k ≡ false)
        → (claim_found s (bind (by_identity h p s ref) (λ t. first_free t p.claimed 0 rs)) p).out k
          ≡ some j
    step (inl here) =
        let e' = subst (λ m. p.out m ≡ some j) (ground arith) e in
        rw (by_identity-done h p s ref j e') e
    step (inr other) = claim_found-keeps s _ p k j other e

-- The other repositories leave the result free.
claim_found-free :
    (i : ℕ) (o : Option ℕ) (p : Pairing) (j : ℕ)
    → ((k : ℕ) → o ≡ some k → nat_eq k j ≡ false)
    → p.claimed j ≡ false
    → (claim_found i o p).claimed j ≡ false
unfolding claim
claim_found-free i none p j n f = f
claim_found-free i (some k) p j n f = rw (n k refl) f

first_free-from :
    (t : Test) (c : ℕ → Bool) (s : ℕ) (rs : List CreateResult) (k : ℕ)
    → first_free t c s rs ≡ some k
    → s ≤ k
unfolding first_free
first_free-from t c s [] k e = cc
first_free-from t c s (r ∷ rs) k e = ground (arith, first_free-from t c (suc s) rs k)

claim-out : (i j : ℕ) (p : Pairing) → (claim i j p).out i ≡ some j
unfolding claim
claim-out i j p = ground arith

-- A result that fails the test is not found.
first_free-avoids :
    (t : Test) (c : ℕ → Bool) (s : ℕ) (rs : List CreateResult) (d : ℕ) (r : CreateResult) (k : ℕ)
    → nth rs d ≡ some r
    → t r ≡ false
    → first_free t c s rs ≡ some k
    → nat_eq k (s + d) ≡ false
unfolding first_free nth
first_free-avoids t c s [] d r k e p f = cc
first_free-avoids t c s (x ∷ rs) zero r k e p f = ground (arith, first_free-from t c (suc s) rs k)
first_free-avoids t c s (x ∷ rs) (suc d) r k e p f =
    ground (arith, first_free-avoids t c (suc s) rs d r k e p, first_free-from t c (suc s) rs k)

module _ (rs : List CreateResult) (j : ℕ) (res : CreateResult) (at_j : nth rs j ≡ some res) where
  -- The pass by name gives the result to the only repository that it names.
  by_name-pairs :
      (s d : ℕ) (refs : List RepoRef) (ref : RepoRef) (p : Pairing)
      → nth refs d ≡ some ref
      → exact ref res ≡ true
      → OnlyAt (λ r. exact r res) refs d
      → OnlyAt (exact ref) rs j
      → p.claimed j ≡ false
      → (pass by_name rs s refs p).out (s + d) ≡ some j
  unfolding pass nth
  by_name-pairs s d [] ref p e x o u f = cc
  by_name-pairs s zero (q ∷ refs) ref p e x o u f =
      let same : q ≡ ref = ap (get_or q) e in
      let found : first_free (exact q) p.claimed 0 rs ≡ some j =
        subst (λ r. first_free (exact r) p.claimed 0 rs ≡ some j) (sym same) here in
      let kept =
        pass-keeps_earlier by_name rs (suc s) refs (claim s j p) s j (omega arith)
          (claim-out s j p) in
      rw add-zero (
        subst (λ o. (pass by_name rs (suc s) refs (claim_found s o p)).out s ≡ some j) (sym found)
          kept)
    where
      here : first_free (exact ref) p.claimed 0 rs ≡ some j
      here =
          subst (λ k. first_free (exact ref) p.claimed 0 rs ≡ some k) (zero-add j)
            (first_free-only (exact ref) p.claimed 0 rs j res at_j x (rw zero-add f) u)
  by_name-pairs s (suc d) (q ∷ refs) ref p e x o u f =
      let other = OnlyAt-head (λ r. exact r res) q refs d o in
      let found = first_free (exact q) p.claimed 0 rs in
      let free =
        claim_found-free s found p j
          (λ k h.
            subst (λ m. nat_eq k m ≡ false) (zero-add j)
              (first_free-avoids (exact q) p.claimed 0 rs j res k at_j other h))
          f in
      let shift : s + suc d ≡ suc s + d = omega arith in
      rw shift (
        by_name-pairs (suc s) d refs ref (claim_found s found p) e x
          (OnlyAt-tail (λ r. exact r res) q refs d o) u free)

pair_lone-keeps :
    (a b : Leftover) (p : Pairing) (k j : ℕ)
    → ((i : ℕ) → a ≡ lone i → is_some (p.out i) ≡ false)
    → p.out k ≡ some j
    → (pair_lone a b p).out k ≡ some j
unfolding claim
pair_lone-keeps (lone i) (lone m) p k j f e = ground (arith, f i refl)
pair_lone-keeps nothing b p k j f e = e
pair_lone-keeps several b p k j f e = e
pair_lone-keeps (lone i) nothing p k j f e = e
pair_lone-keeps (lone i) several p k j f e = e

-- A result whose location or label names exactly one configured repository, which no other result
-- names, is credited to that repository.
pub named_result_credited :
    (h : Host) (configured : List RepoRef) (results : List CreateResult) (i j : ℕ) (ref : RepoRef)
    (res : CreateResult)
    → nth configured i ≡ some ref
    → nth results j ≡ some res
    → exact ref res ≡ true
    → OnlyAt (λ r. exact r res) configured i
    → OnlyAt (exact ref) results j
    → (match_results h configured results).out i ≡ some j
unfolding match_results
named_result_credited h configured results i j ref res ei ej x oi oj =
    let named : Pairing = pass by_name results 0 configured no_pairs in
    let known : Pairing = pass (by_identity h) results 0 configured named in
    let paired : named.out i ≡ some j =
      subst (λ k. named.out k ≡ some j) (zero-add i)
        (by_name-pairs results j res ej 0 i configured ref no_pairs ei x oi oj refl) in
    let kept = by_identity-keeps h results 0 configured named i j paired in
    pair_lone-keeps (leftover (λ k. is_some (known.out k)) 0 configured)
      (leftover known.claimed 0 results) known i j
      (λ k e. (leftover_sound (λ m. is_some (known.out m)) 0 configured k e).0) kept
