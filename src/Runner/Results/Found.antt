-- ===== src/Runner/Results/Found.antt =====
-- What `newestArchiveFromThisRun` finds in a listing of archives.
use borgmatic_manager.Prelude.{
  nth, ℕ, zero, suc, Bool, true, false, ◌||◌, Option, none, some, List, [], ◌∷◌, any, ◌==◌, ◌≡◌,
  ◌⊎◌, inl, inr, refl, arith, if◌then◌else◌, Bool-cases,
}
use borgmatic_manager.GoTime.{Time, after}
use borgmatic_manager.Runner.Results.{
  Clock, ListedArchive, read_stamp, archive_is_from_this_run, judge_archive, scan_archives,
}

-- When an archive of a listing was written.
abbrev pub stamp_of : Clock → ListedArchive → Option (Time × Bool)
stamp_of parse a = read_stamp parse (if a.start == "" then a.time else a.start)

abbrev pub is_of_run : Time → Option (Time × Bool) → Bool
is_of_run run none = false
is_of_run run (some (t, precise)) = archive_is_from_this_run t precise run

-- An archive of the listing was written at this time, and in this run.
abbrev pub Wrote : Clock → Time → List ListedArchive → Time → Type 0
Wrote parse run archives t =
    (d : ℕ) × (a : ListedArchive) × (precise : Bool) × (nth archives d ≡ some a)
    × (stamp_of parse a ≡ some (t, precise))
    × (archive_is_from_this_run t precise run ≡ true)

module _ (parse : Clock) (run : Time) where
  judge_archive-found :
      (o : Option (Time × Bool)) (f : Bool × Time)
      → (judge_archive o run f).0 ≡ (is_of_run run o || f.0)
  judge_archive-found none f = refl
  judge_archive-found (some (t, precise)) (b, newest) = ground arith

  -- An archive is found exactly if one of the listing is of the run.
  pub scan_archives-found :
      (f : Bool × Time) (archives : List ListedArchive)
      → (scan_archives parse run f archives).0
        ≡ (f.0 || any (λ a. is_of_run run (stamp_of parse a)) archives)
  unfolding scan_archives
  scan_archives-found f [] = ground arith
  scan_archives-found f (a ∷ rest) = ground (
    arith,
    scan_archives-found (judge_archive (stamp_of parse a) run f) rest,
    judge_archive-found (stamp_of parse a) f,
  )

  judge_archive-time :
      (o : Option (Time × Bool)) (f : Bool × Time)
      → ((judge_archive o run f).1 ≡ f.1)
        ⊎ ((precise : Bool) × (o ≡ some ((judge_archive o run f).1, precise))
            × (archive_is_from_this_run (judge_archive o run f).1 precise run ≡ true))
  judge_archive-time none f = inl refl
  judge_archive-time (some (t, precise)) (b, newest) =
      elim (Bool-cases (archive_is_from_this_run t precise run)) [
        | inr other ↦ rw other (inl refl)
        | inl of_run ↦ rw of_run (elim (Bool-cases (after t newest)) [
          | inl later ↦ rw later (inr (precise, refl, of_run))
          | inr sooner ↦ rw sooner (inl refl)
        ])
      ]

  -- The time that is found is that of an archive, or the one that the scan began with.
  pub scan_archives-time :
      (f : Bool × Time) (archives : List ListedArchive)
      → ((scan_archives parse run f archives).1 ≡ f.1)
        ⊎ Wrote parse run archives (scan_archives parse run f archives).1
  unfolding scan_archives nth
  scan_archives-time f [] = inl refl
  scan_archives-time f (a ∷ rest) =
      elim (scan_archives-time (judge_archive (stamp_of parse a) run f) rest) [
        | inr (d, b, precise, e, s, q) ↦ inr (suc d, b, precise, e, s, q)
        | inl same ↦ elim (judge_archive-time (stamp_of parse a) f) [
          | inl kept ↦ inl (rw same kept)
          | inr (precise, s, q) ↦ rw same (inr (zero, a, precise, refl, s, q))
        ]
      ]
