-- ===== src/Runner/Results/Freshness.antt =====
-- The archive that `newestArchiveFromThisRun` reports was not written before the run.
use borgmatic_manager.Prelude.{
  Bool, true, false, Option, none, some, List, [], ◌∷◌, ◌==◌, if◌then◌else◌, ◌≡◌, arith,
}
use borgmatic_manager.Prelude.Int.{pos, negsuc, ltb_ℤ, ◌≤ℤ◌}
use borgmatic_manager.GoTime.{Time, zero_time, second, truncate}
use borgmatic_manager.Runner.Results.{
  Clock, ListedArchive, read_stamp, archive_is_from_this_run, judge_archive, scan_archives,
  newest_archive_from_this_run,
}

-- A later whole second is later.
truncate_before :
    (run archive : Time)
    → ltb_ℤ (truncate run second) (truncate archive second) ≡ true
    → ltb_ℤ archive run ≡ false
unfolding truncate
truncate_before (pos a) (pos b) h = ground arith
truncate_before (pos a) (negsuc b) h = ground arith
truncate_before (negsuc a) (pos b) h = ground arith
truncate_before (negsuc a) (negsuc b) h = ground arith

from_this_run-after :
    (archive : Time) (precise : Bool) (run : Time)
    → archive_is_from_this_run archive precise run ≡ true
    → ltb_ℤ archive run ≡ false
unfolding archive_is_from_this_run
from_this_run-after archive true run h = ground arith
from_this_run-after archive false run h = truncate_before run archive h

-- What is found is not before the run.
abbrev IsFresh : Time → Bool × Time → Type 0
IsFresh run (found, newest) = found ≡ true → ltb_ℤ newest run ≡ false

judge-IsFresh :
    (stamp : Option (Time × Bool)) (run : Time) (found : Bool × Time)
    → IsFresh run found
    → IsFresh run (judge_archive stamp run found)
judge-IsFresh none run found f = f
judge-IsFresh (some (t, precise)) run (found, newest) f =
    ground (arith, from_this_run-after t precise run)

scan-IsFresh :
    (parse : Clock) (run : Time) (found : Bool × Time) (archives : List ListedArchive)
    → IsFresh run found
    → IsFresh run (scan_archives parse run found archives)
unfolding scan_archives
scan-IsFresh parse run found [] f = f
scan-IsFresh parse run found (a ∷ rest) f =
    let stamp = read_stamp parse (if a.start == "" then a.time else a.start) in
    scan-IsFresh parse run (judge_archive stamp run found) rest (judge-IsFresh stamp run found f)

-- When an archive of this run is found, the moment that is reported for it is not before the run
-- began, whatever the listing and the precision of its times.
pub found_archive_fresh :
    (parse : Clock) (listing : Option (List ListedArchive)) (run : Time)
    → (newest_archive_from_this_run parse listing run).0 ≡ true
    → run ≤ℤ (newest_archive_from_this_run parse listing run).1
unfolding newest_archive_from_this_run
found_archive_fresh parse none run h = cc
found_archive_fresh parse (some archives) run h =
    ground (arith, scan-IsFresh parse run (false, zero_time) archives (λ e. cc) h)
