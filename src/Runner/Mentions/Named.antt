-- ===== src/Runner/Mentions/Named.antt =====
-- The repositories that `implicatedRepos` finds are named in an error, and one is found if any is.
use native.Mathlib.Nat.{add-zero, zero-add}
use borgmatic_manager.Prelude.{
  nth, ℕ, suc, ◌+◌, Bool, true, false, some, List, [], ◌∷◌, foldl, any, is_empty, nat_eq, ltb,
  length, ◌≡◌, refl, arith, All, All-impl, All-map, All-append, ◌⊎◌, inl, inr, Bool-cases, subst,
}
use borgmatic_manager.Config.RepoKey.{Host}
use borgmatic_manager.Config.Repositories.{RepoRef}
use borgmatic_manager.Runner.Mentions.{
  Bytes, bytes, token_occurrences, contains_path_token, overlaps_claimed, Candidate, Reading,
  read_occurrence, read_candidate, read_message, insert_longest, longest_first, repo_spellings,
  candidates_from, implicated_repos, mentioned_in_errors,
}
use borgmatic_manager.Runner.Mentions.Tokens.{contains_path_token-token_occurrences}

-- Membership, as a test that some element passes.
any-All {ℓ} :
    {A : Type ℓ} (xs : List A) → All (λ x. (p : A → Bool) → p x ≡ true → any p xs ≡ true) xs
any-All [] = tt
any-All (x ∷ xs) =
    (λ p e. ground arith, All-impl xs (λ y f p e. ground (arith, f p e)) (any-All xs))

module _ (size : ℕ) (c : Candidate) where
  read_occurrence-named :
      (r : Reading) (start i : ℕ)
      → (read_occurrence size c r start).named i ≡ true
      → (r.named i ≡ true) ⊎ (c.index ≡ i)
  unfolding read_occurrence
  read_occurrence-named r start i e =
      elim (Bool-cases (overlaps_claimed r.claimed size start (length c.spelling))) [
        | inl owned ↦ inl (ground arith)
        | inr free ↦ elim (Bool-cases (nat_eq c.index i)) [
          | inl here ↦ inr (ground arith)
          | inr other ↦ inl (ground arith)
        ]
      ]

  read_all-named :
      (r : Reading) (starts : List ℕ) (i : ℕ)
      → (foldl (read_occurrence size c) r starts).named i ≡ true
      → (r.named i ≡ true) ⊎ ((c.index ≡ i) × (is_empty starts ≡ false))
  read_all-named r [] i e = inl e
  read_all-named r (s ∷ starts) i e =
      elim (read_all-named (read_occurrence size c r s) starts i e) [
        | inr (same, some_start) ↦ inr (same, refl)
        | inl before ↦ elim (read_occurrence-named r s i before) [
          | inl old ↦ inl old
          | inr same ↦ inr (same, refl)
        ]
      ]

occurrences-contain :
    (msg path : Bytes)
    → is_empty (token_occurrences msg path) ≡ false
    → contains_path_token msg path ≡ true
unfolding token_occurrences
occurrences-contain msg [] e = cc
occurrences-contain msg (p ∷ path) e =
    ground (arith, contains_path_token-token_occurrences msg p path)

module _ (P : ℕ → Type 0) (msg : Bytes) where
  -- A candidate that the message contains stands for a repository with the property.
  abbrev Vouched : Candidate → Type 0
  Vouched c = contains_path_token msg c.spelling ≡ true → P c.index

  read_candidates-named :
      (r : Reading) (cs : List Candidate)
      → All Vouched cs
      → ((i : ℕ) → r.named i ≡ true → P i)
      → (i : ℕ) → (foldl (read_candidate msg) r cs).named i ≡ true
      → P i
  unfolding read_candidate
  read_candidates-named r [] all old i e = old i e
  read_candidates-named r (c ∷ cs) all old i e =
      read_candidates-named (read_candidate msg r c) cs all.1 step i e
    where
      step : (k : ℕ) → (read_candidate msg r c).named k ≡ true → P k
      step k q = elim (read_all-named (length msg) c r (token_occurrences msg c.spelling) k q) [
        | inl before ↦ old k before
        | inr (same, found) ↦ subst P same (all.0 (occurrences-contain msg c.spelling found))
      ]

module _ (P : Candidate → Type 0) where
  insert_longest-All :
      (c : Candidate) (cs : List Candidate) → P c → All P cs → All P (insert_longest c cs)
  unfolding insert_longest
  insert_longest-All c [] p ps = (p, tt)
  insert_longest-All c (d ∷ ds) p ps =
      elim (Bool-cases (ltb (length c.spelling) (length d.spelling))) [
        | inl shorter ↦ rw shorter (ps.0, insert_longest-All c ds p ps.1)
        | inr longer ↦ rw longer (p, ps)
      ]

  longest_first-All : (cs : List Candidate) → All P cs → All P (longest_first cs)
  unfolding longest_first
  longest_first-All [] ps = tt
  longest_first-All (c ∷ cs) ps =
      insert_longest-All c (longest_first cs) ps.0 (longest_first-All cs ps.1)

module _ (h : Host) (configured : List RepoRef) (err_text : List Bytes) where
  -- The repository at the index is configured, and an error names it.
  abbrev pub IsMentioned : ℕ → Type 0
  IsMentioned i =
      (ref : RepoRef) × (nth configured i ≡ some ref)
      × (mentioned_in_errors h ref.path err_text ≡ true)

  -- What is true of a message among the errors.
  abbrev IsError : Bytes → Type 0
  IsError msg = (p : Bytes → Bool) → p msg ≡ true → any p err_text ≡ true

  candidates-Vouched :
      (msg : Bytes)
      → IsError msg
      → (i : ℕ) (refs : List RepoRef)
      → ((d : ℕ) (ref : RepoRef) → nth refs d ≡ some ref → nth configured (i + d) ≡ some ref)
      → All (Vouched IsMentioned msg) (candidates_from h i refs)
  unfolding candidates_from mentioned_in_errors nth
  candidates-Vouched msg is_error i [] at = tt
  candidates-Vouched msg is_error i (ref ∷ refs) at =
      All-append (Vouched IsMentioned msg) _ _
        (All-map (Vouched IsMentioned msg) (λ s. record { index = i; spelling = bytes s })
          (repo_spellings h ref.path)
          (All-impl (repo_spellings h ref.path)
            (λ s f e. (
              ref,
              subst (λ k. nth configured k ≡ some ref) (add-zero i) (at 0 ref refl),
              f (λ t. any (λ m. contains_path_token m (bytes t)) err_text)
                  (is_error (λ m. contains_path_token m (bytes s)) e),
            ))
            (any-All (repo_spellings h ref.path))))
        (candidates-Vouched msg is_error (suc i) refs
          (λ d q e. subst (λ k. nth configured k ≡ some q) (shift d) (at (suc d) q e)))
    where
      shift : (d : ℕ) → i + suc d ≡ suc i + d
      shift d = omega arith

  read_messages-named :
      (msgs : List Bytes) (named : ℕ → Bool)
      → All IsError msgs
      → ((i : ℕ) → named i ≡ true → IsMentioned i)
      → (i : ℕ)
      → foldl (read_message (longest_first (candidates_from h 0 configured))) named msgs i ≡ true
      → IsMentioned i
  unfolding read_message
  read_messages-named [] named all old i e = old i e
  read_messages-named (msg ∷ msgs) named all old i e =
      read_messages-named msgs (read_message cs named msg) all.1 step i e
    where
      cs : List Candidate
      cs = longest_first (candidates_from h 0 configured)

      step : (k : ℕ) → read_message cs named msg k ≡ true → IsMentioned k
      step k q =
          read_candidates-named IsMentioned msg (record { claimed = λ j. false; named = named }) cs
            (longest_first-All (Vouched IsMentioned msg) (candidates_from h 0 configured)
              (candidates-Vouched msg all.0 0 configured (λ d ref e. rw zero-add e)))
            old k q

  -- A repository that is marked as failed by the errors is configured and named in one of them, as a
  -- whole path, in one of the forms that it may take.
  pub implicated_repos-IsMentioned :
      (i : ℕ) → implicated_repos h configured err_text i ≡ true → IsMentioned i
  unfolding implicated_repos
  implicated_repos-IsMentioned i e =
      read_messages-named err_text (λ j. false) (any-All err_text) (λ k q. cc) i e
