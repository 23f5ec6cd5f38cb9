-- ===== src/Runner/Mentions/Found.antt =====
-- If an error names a configured repository, `implicatedRepos` marks one.
use borgmatic_manager.Prelude.{
  ℕ, zero, suc, String, Bool, true, false, not, ◌||◌, some, List, [], ◌∷◌, map, foldl, any, nth,
  any-map, any-nth, nth-any, All-nth, is_empty, length, ◌≡◌, refl, arith, All, All-append, ◌∙◌, inl,
  inr, Bool-cases, any-append, sym, subst, ap, get_or, ◌==◌, if_both, contains,
}
use borgmatic_manager.Config.RepoKey.{Host}
use borgmatic_manager.Config.Repositories.{RepoRef}
use borgmatic_manager.Runner.Mentions.{
  Bytes, utf8, bytes, Claimed, token_occurrences, contains_path_token, overlaps_claimed, Candidate,
  Reading, read_occurrence, read_candidate, read_message, insert_longest, longest_first,
  add_spelling, repo_spellings, candidates_from, implicated_repos, mentioned_in_errors,
}
use borgmatic_manager.Config.RepoKey.{canonical_repo_key}
use borgmatic_manager.GoStrings.{trim_right}
use borgmatic_manager.Runner.Results.{repo_identity}
use borgmatic_manager.Runner.Mentions.Tokens.{contains_path_token-token_occurrences}

abbrev HasNamed : (ℕ → Bool) → Type 0
HasNamed named = (k : ℕ) × (named k ≡ true)

-- Bytes are claimed only for a repository that is named.
abbrev IsOwned : Reading → Type 0
IsOwned r = (p : ℕ) → r.claimed p ≡ true → HasNamed r.named

overlaps-claims :
    (claimed : Claimed) (size start n : ℕ)
    → overlaps_claimed claimed size start n ≡ true
    → (p : ℕ) × (claimed p ≡ true)
unfolding overlaps_claimed
overlaps-claims claimed size start zero e = cc
overlaps-claims claimed size start (suc n) e = elim (Bool-cases (claimed start)) [
  | inl here ↦ (start, here)
  | inr free ↦ overlaps-claims claimed size (suc start) n (ground arith)
]

module _ (size : ℕ) (c : Candidate) where
  -- After an occurrence, either its own repository is named or an earlier one was.
  occurrence-HasNamed :
      (r : Reading) (start : ℕ) → IsOwned r → HasNamed (read_occurrence size c r start).named
  unfolding read_occurrence
  occurrence-HasNamed r start o =
      elim (Bool-cases (overlaps_claimed r.claimed size start (length c.spelling))) [
        | inl owned ↦
            let (p, taken) = overlaps-claims r.claimed size start (length c.spelling) owned in
            rw owned (o p taken)
        | inr free ↦ (c.index, ground arith)
      ]

  starts-HasNamed :
      (starts : List ℕ) (r : Reading)
      → HasNamed r.named
      → HasNamed (foldl (read_occurrence size c) r starts).named
  starts-HasNamed [] r n = n
  starts-HasNamed (s ∷ starts) r n =
      starts-HasNamed starts (read_occurrence size c r s) (occurrence-HasNamed r s (λ p q. n))

  any_start-HasNamed :
      (starts : List ℕ) (r : Reading)
      → is_empty starts ≡ false
      → IsOwned r
      → HasNamed (foldl (read_occurrence size c) r starts).named
  any_start-HasNamed [] r e o = cc
  any_start-HasNamed (s ∷ starts) r e o =
      starts-HasNamed starts (read_occurrence size c r s) (occurrence-HasNamed r s o)

-- The message has an occurrence of the spelling.
abbrev occurs : Bytes → Bytes → Bool
occurs msg spelling = not (is_empty (token_occurrences msg spelling))

module _ (msg : Bytes) where
  candidates_keep :
      (cs : List Candidate) (r : Reading)
      → HasNamed r.named
      → HasNamed (foldl (read_candidate msg) r cs).named
  unfolding read_candidate
  candidates_keep [] r n = n
  candidates_keep (c ∷ cs) r n =
      candidates_keep cs (read_candidate msg r c)
        (starts-HasNamed (length msg) c (token_occurrences msg c.spelling) r n)

  candidates-HasNamed :
      (cs : List Candidate) (r : Reading)
      → any (λ c. occurs msg c.spelling) cs ≡ true
      → IsOwned r
      → HasNamed (foldl (read_candidate msg) r cs).named
  unfolding read_candidate
  candidates-HasNamed [] r e o = cc
  candidates-HasNamed (c ∷ cs) r e o =
      elim (Bool-cases (is_empty (token_occurrences msg c.spelling))) [
        | inr here ↦
            candidates_keep cs (read_candidate msg r c)
              (any_start-HasNamed (length msg) c (token_occurrences msg c.spelling) r here o)
        | inl absent ↦
            candidates-HasNamed cs (read_candidate msg r c) (ground arith)
              (unchanged (token_occurrences msg c.spelling) absent)
      ]
    where
      unchanged :
          (starts : List ℕ)
          → is_empty starts ≡ true
          → IsOwned (foldl (read_occurrence (length msg) c) r starts)
      unchanged [] q = o
      unchanged (s ∷ starts) q = cc

insert-any :
    (p : Candidate → Bool) (c : Candidate) (cs : List Candidate)
    → any p (insert_longest c cs) ≡ (p c || any p cs)
unfolding insert_longest
insert-any p c [] = refl
insert-any p c (d ∷ ds) = ground (arith, insert-any p c ds)

longest_first-any :
    (p : Candidate → Bool) (cs : List Candidate) → any p (longest_first cs) ≡ any p cs
unfolding longest_first
longest_first-any p [] = refl
longest_first-any p (c ∷ cs) =
    ground (arith, longest_first-any p cs, insert-any p c (longest_first cs))

contains-occurs :
    (msg path : Bytes)
    → is_empty path ≡ false
    → contains_path_token msg path ≡ true
    → occurs msg path ≡ true
contains-occurs msg [] n e = cc
contains-occurs msg (p ∷ path) n e = sym (contains_path_token-token_occurrences msg p path) ∙ e

-- A text is not empty, and so are its bytes.
bytes-nonempty : (s : String) → (s == "") ≡ false → is_empty (bytes s) ≡ false
unfolding bytes utf8
bytes-nonempty String.[] n = cc
bytes-nonempty (String.◌∷◌ c s) n = ground arith

module _ (h : Host) where
  abbrev AllTexts : List String → Type 0
  AllTexts ss = All (λ s. (s == "") ≡ false) ss

  add_spelling-AllTexts :
      (out : List String) (s : String) → AllTexts out → AllTexts (add_spelling h out s)
  unfolding add_spelling
  add_spelling-AllTexts out s all = elim (Bool-cases (s == "")) [
    | inl empty ↦ rw empty all
    | inr text ↦ rw text (
        if_both AllTexts _ _ _ all (
          if_both AllTexts (contains out s) _ _ all
            (All-append (λ t. (t == "") ≡ false) out (s ∷ []) all (text, tt))))
  ]

  repo_spellings-AllTexts : (path : String) → AllTexts (repo_spellings h path)
  unfolding repo_spellings
  repo_spellings-AllTexts path = elim (Bool-cases (path == "")) [
    | inl empty ↦ rw empty tt
    | inr text ↦
        let plain =
          add_spelling-AllTexts _ (canonical_repo_key h path)
            (add_spelling-AllTexts _ (trim_right path b'/') (text, tt)) in
        rw text (
          if_both AllTexts (h.expand_env path == path) _ _ plain (
            add_spelling-AllTexts _ (repo_identity h path) (
              add_spelling-AllTexts _ (trim_right (h.expand_env path) b'/')
                (add_spelling-AllTexts _ (h.expand_env path) plain))))
  ]

  -- A path that occurs in the message, in one of its forms, is among the candidates.
  candidates-occur :
      (msg : Bytes) (i d : ℕ) (refs : List RepoRef) (ref : RepoRef)
      → nth refs d ≡ some ref
      → any (λ s. occurs msg (bytes s)) (repo_spellings h ref.path) ≡ true
      → any (λ c. occurs msg c.spelling) (candidates_from h i refs) ≡ true
  unfolding candidates_from nth
  candidates-occur msg i d [] ref e q = cc
  candidates-occur msg i zero (x ∷ refs) ref e q =
      let same : x ≡ ref = ap (get_or x) e in
      let here =
        subst (λ r. any (λ s. occurs msg (bytes s)) (repo_spellings h r.path) ≡ true) (sym same)
          q in
      let made : String → Candidate = λ s. record { index = i; spelling = bytes s } in
      ground (
        arith,
        any-append (λ c. occurs msg c.spelling) (map made (repo_spellings h x.path))
            (candidates_from h (suc i) refs),
        any-map made (λ c. occurs msg c.spelling) (repo_spellings h x.path),
      )
  candidates-occur msg i (suc d) (x ∷ refs) ref e q =
      let made : String → Candidate = λ s. record { index = i; spelling = bytes s } in
      ground (
        arith,
        any-append (λ c. occurs msg c.spelling) (map made (repo_spellings h x.path))
            (candidates_from h (suc i) refs),
        candidates-occur msg (suc i) d refs ref e q,
      )

  module _ (configured : List RepoRef) where
    abbrev candidates : List Candidate
    candidates = longest_first (candidates_from h 0 configured)

    messages_keep :
        (msgs : List Bytes) (named : ℕ → Bool)
        → HasNamed named
        → HasNamed (foldl (read_message candidates) named msgs)
    unfolding read_message
    messages_keep [] named n = n
    messages_keep (msg ∷ msgs) named n =
        messages_keep msgs (read_message candidates named msg)
          (candidates_keep msg candidates (record { claimed = λ i. false; named = named }) n)

    messages-HasNamed :
        (msgs : List Bytes) (named : ℕ → Bool) (d : ℕ) (msg : Bytes)
        → nth msgs d ≡ some msg
        → any (λ c. occurs msg c.spelling) candidates ≡ true
        → HasNamed (foldl (read_message candidates) named msgs)
    unfolding read_message nth
    messages-HasNamed [] named d msg e q = cc
    messages-HasNamed (x ∷ msgs) named zero msg e q =
        let same : x ≡ msg = ap (get_or x) e in
        let here = subst (λ m. any (λ c. occurs m c.spelling) candidates ≡ true) (sym same) q in
        messages_keep msgs (read_message candidates named x) (
          candidates-HasNamed x candidates (record { claimed = λ i. false; named = named }) here
            (λ p c. cc))
    messages-HasNamed (x ∷ msgs) named (suc d) msg e q =
        messages-HasNamed msgs (read_message candidates named x) d msg e q

    -- If an error names a configured repository, in one of its forms and as a whole path, then some
    -- repository is marked as failed: an error that names a repository is not lost.
    pub mentioned_repos_implicate :
        (err_text : List Bytes) (d : ℕ) (ref : RepoRef)
        → nth configured d ≡ some ref
        → mentioned_in_errors h ref.path err_text ≡ true
        → (k : ℕ) × (implicated_repos h configured err_text k ≡ true)
    unfolding mentioned_in_errors implicated_repos
    mentioned_repos_implicate err_text d ref e q =
        let (a, s, at_a, in_some) =
          any-nth (λ t. any (λ m. contains_path_token m (bytes t)) err_text)
            (repo_spellings h ref.path) q in
        let (b, msg, at_b, has) = any-nth (λ m. contains_path_token m (bytes s)) err_text in_some in
        let text =
          All-nth (λ t. (t == "") ≡ false) (repo_spellings h ref.path) a s at_a
            (repo_spellings-AllTexts ref.path) in
        let found = contains-occurs msg (bytes s) (bytes-nonempty s text) has in
        let forms =
          nth-any (λ t. occurs msg (bytes t)) (repo_spellings h ref.path) a s at_a found in
        let candidate = candidates-occur msg 0 d configured ref e forms in
        messages-HasNamed err_text (λ i. false) b msg at_b
          (longest_first-any (λ c. occurs msg c.spelling) (candidates_from h 0 configured)
            ∙ candidate)
