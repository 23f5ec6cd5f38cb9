-- ===== src/State/RecordRun/History.antt =====
-- The bounded history of a group's runs.
use mathlib.Core.List.{append_assoc, append-nil}
use borgmatic_manager.Prelude.{
  ◌+◌, ◌-◌, ◌≤◌, ◌≡◌, refl, sym, ap, ◌∙◌, List, [], ◌∷◌, ◌++◌, map, foldl, arith, ltb, length, drop,
  length-append, length-drop, drop-append_le, drop-drop, Bool-cases, inl, inr,
}
use borgmatic_manager.Config.RepoKey.{Host}
use borgmatic_manager.State.Outcome.{RunOutcome, GroupRecord}
use borgmatic_manager.State.RecordRun.{max_history, slim, push_history, record_outcome}

abbrev newest : List RunOutcome → List RunOutcome
newest l = drop (length l - max_history) l

push_newest : (o : RunOutcome) (l : List RunOutcome) → push_history o l ≡ newest (l ++ slim o ∷ [])
unfolding push_history
push_newest o l = elim (Bool-cases (ltb max_history (length (l ++ slim o ∷ [])))) [
  | inl over ↦ rw over refl
  | inr fits ↦
      let short : length (l ++ slim o ∷ []) ≤ max_history = ground arith in
      let none_over : length (l ++ slim o ∷ []) - max_history ≡ 0 = omega arith in
      rw (fits, none_over) refl
]

newest-append : (l m : List RunOutcome) → newest (newest l ++ m) ≡ newest (l ++ m)
newest-append l m =
    let over = length l - max_history in
    let whole : newest l ++ m ≡ drop over (l ++ m) = sym (drop-append_le over l m (omega arith)) in
    let sizes : length (l ++ m) ≡ length l + length m = length-append l m in
    let left : length (drop over (l ++ m)) ≡ length l + length m - over =
      length-drop over (l ++ m) ∙ ap (λ n. n - over) sizes in
    rw whole (
      drop-drop over (length (drop over (l ++ m)) - max_history) (l ++ m)
      ∙ ap (λ n. drop n (l ++ m)) (omega arith))

newest-newest : (l : List RunOutcome) → newest (newest l) ≡ newest l
newest-newest l = simp append-nil at (newest-append l [])

push_history-newest :
    (o : RunOutcome) (l : List RunOutcome) → newest (push_history o l) ≡ push_history o l
push_history-newest o l = rw push_newest (newest-newest (l ++ slim o ∷ []))

pushes_newest :
    (l os : List RunOutcome)
    → newest l ≡ l
    → foldl (λ l' o. push_history o l') l os ≡ newest (l ++ map slim os)
pushes_newest l [] h = sym h ∙ ap newest (sym (append-nil l))
pushes_newest l (o ∷ os) h =
    pushes_newest (push_history o l) os (push_history-newest o l)
    ∙ rw push_newest (
        newest-append (l ++ slim o ∷ []) (map slim os)
        ∙ ap newest (append_assoc l (slim o ∷ []) (map slim os)))

history-foldl :
    (h : Host) (rec : GroupRecord) (os : List RunOutcome)
    → (foldl (λ r o. record_outcome h o r) rec os).history
      ≡ foldl (λ l o. push_history o l) rec.history os
unfolding record_outcome
history-foldl h rec [] = refl
history-foldl h rec (o ∷ os) = history-foldl h (record_outcome h o rec) os

-- After any runs of a group whose history was within its bound, the history holds the newest
-- `max_history` of the old entries and the runs, oldest first, without their logs and repositories.
pub history_after_runs :
    (h : Host) (rec : GroupRecord) (os : List RunOutcome)
    → length rec.history ≤ max_history
    → (foldl (λ r o. record_outcome h o r) rec os).history
      ≡ drop (length (rec.history ++ map slim os) - max_history) (rec.history ++ map slim os)
history_after_runs h rec os fits =
    let none_over : length rec.history - max_history ≡ 0 = omega arith in
    history-foldl h rec os ∙ pushes_newest rec.history os (ap (λ n. drop n rec.history) none_over)

pub push_history_bounded :
    (o : RunOutcome) (l : List RunOutcome) → length (push_history o l) ≤ max_history
push_history_bounded o l =
    rw push_newest
      (omega (arith, length-drop (length (l ++ slim o ∷ []) - max_history) (l ++ slim o ∷ [])))
