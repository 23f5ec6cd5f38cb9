-- ===== src/State/Schedule/Retention.antt =====
-- Retention of the records of groups that are gone.
use borgmatic_manager.Prelude.{
  ℕ, zero, suc, ◌+◌, ◌≤◌, ◌<◌, ◌⊎◌, ap, String, ◌≡◌, refl, ◌∙◌, Bool, true, false, not, ◌||◌, sym,
  Option-cases, Option, none, some, List, arith, if◌then◌else◌, Bool-cases, inl, inr, bind,
  contains, leb, ltb,
}
use borgmatic_manager.Prelude.Int.{ℤ, pos, ◌+ℤ◌, eqb_ℤ}
use borgmatic_manager.GoMap.{IsMap, get, get-update_each, any-get, update_each-IsMap}
use borgmatic_manager.State.Outcome.{GroupRecord, ScheduleFile}
use borgmatic_manager.State.Schedule.{aged, retain, retain_changes}

pub get-retain :
    (active protected : List String) (f : ScheduleFile) (name : String)
    → IsMap f.groups
    → get (retain active protected f).0.groups name
      ≡ bind (get f.groups name) (aged (contains active name) (contains protected name))
unfolding retain
get-retain active protected f name m =
    get-update_each (λ j. aged (contains active j) (contains protected j)) f.groups name m

retain-IsMap :
    (active protected : List String) (f : ScheduleFile)
    → IsMap f.groups
    → IsMap (retain active protected f).0.groups
unfolding retain
retain-IsMap active protected f m = update_each-IsMap _ f.groups m

-- `n` cycles in which the same groups are active and protected.
abbrev pub cycles : ℕ → List String → List String → ScheduleFile → ScheduleFile
cycles zero active protected f = f
cycles (suc n) active protected f = cycles n active protected (retain active protected f).0

abbrev age : ℕ → Bool → Bool → Option GroupRecord → Option GroupRecord
age zero active protected o = o
age (suc n) active protected o = age n active protected (bind o (aged active protected))

get-cycles :
    (n : ℕ) (active protected : List String) (f : ScheduleFile) (name : String)
    → IsMap f.groups
    → get (cycles n active protected f).groups name
      ≡ age n (contains active name) (contains protected name) (get f.groups name)
get-cycles zero active protected f name m = refl
get-cycles (suc n) active protected f name m =
    get-cycles n active protected (retain active protected f).0 name
      (retain-IsMap active protected f m)
    ∙ ap (age n (contains active name) (contains protected name))
        (get-retain active protected f name m)

age-none : (n : ℕ) (active protected : Bool) → age n active protected none ≡ none
age-none zero active protected = refl
age-none (suc n) active protected = age-none n active protected

abbrev counted : GroupRecord → ℕ → GroupRecord
counted rec n = record rec { missing_cycles = pos n }

counted_same :
    (rec : GroupRecord) (m n : ℕ) → rec.missing_cycles ≡ pos m → m ≡ n → rec ≡ counted rec n
counted_same rec m n e f = ap (λ (c : ℤ). record rec { missing_cycles = c }) (e ∙ ap pos f)

aged_once :
    (protected : Bool) (rec : GroupRecord) (m : ℕ)
    → rec.missing_cycles ≡ pos m
    → (protected ≡ true) ⊎ (m < 2)
    → aged false protected rec ≡ some (counted rec (m + 1))
unfolding aged ◌+ℤ◌
aged_once protected rec m e h = ground arith

aged_out :
    (rec : GroupRecord) (m : ℕ) → rec.missing_cycles ≡ pos m → 2 ≤ m → aged false false rec ≡ none
unfolding aged
aged_out rec m e h = ground arith

age_protected :
    (n m : ℕ) (rec : GroupRecord)
    → rec.missing_cycles ≡ pos m
    → age n false true (some rec) ≡ some (counted rec (m + n))
age_protected zero m rec e = ap some (counted_same rec m (m + 0) e (omega arith))
age_protected (suc n) m rec e =
    ap (age n false true) (aged_once true rec m e (inl refl))
    ∙ age_protected n (m + 1) (counted rec (m + 1)) refl
    ∙ ap (λ k. some (counted rec k)) (omega arith)

age_grace :
    (n m : ℕ) (rec : GroupRecord)
    → rec.missing_cycles ≡ pos m
    → m ≤ 2
    → age n false false (some rec) ≡ (if leb (m + n) 2 then some (counted rec (m + n)) else none)
age_grace zero m rec e low =
    let fits : leb (m + 0) 2 ≡ true = ground arith in
    rw fits (ap some (counted_same rec m (m + 0) e (omega arith)))
age_grace (suc n) m rec e low = elim (Bool-cases (ltb m 2)) [
  | inl room ↦
      let shifted : m + 1 + n ≡ m + suc n = omega arith in
      ap (age n false false) (aged_once false rec m e (inr (ground arith)))
      ∙ age_grace n (m + 1) (counted rec (m + 1)) refl (ground arith)
      ∙ ap (λ k. if leb k 2 then some (counted rec k) else none) shifted
  | inr full ↦
      let over : leb (m + suc n) 2 ≡ false = ground arith in
      ap (age n false false) (aged_out rec m e (ground arith)) ∙ rw over (age-none n false false)
]

module _ (active protected : List String) (name : String) where
  -- An unprotected group that stays away through some cycles keeps its record, counting them, as
  -- long as the count is no more than 2, and has none from the next cycle on.
  pub absent_grace :
      (n m : ℕ) (f : ScheduleFile) (rec : GroupRecord)
      → IsMap f.groups
      → contains active name ≡ false
      → contains protected name ≡ false
      → get f.groups name ≡ some rec
      → rec.missing_cycles ≡ pos m
      → m ≤ 2
      → get (cycles n active protected f).groups name
        ≡ (if leb (m + n) 2 then some (record rec { missing_cycles = pos (m + n) }) else none)
  absent_grace n m f rec d away unkept had count low =
      get-cycles n active protected f name d ∙ rw (away, unkept, had) (age_grace n m rec count low)

  -- A protected group that stays away keeps its record through any number of cycles, counting them.
  pub protected_stays :
      (n m : ℕ) (f : ScheduleFile) (rec : GroupRecord)
      → IsMap f.groups
      → contains active name ≡ false
      → contains protected name ≡ true
      → get f.groups name ≡ some rec
      → rec.missing_cycles ≡ pos m
      → get (cycles n active protected f).groups name
        ≡ some (record rec { missing_cycles = pos (m + n) })
  protected_stays n m f rec d away kept had count =
      get-cycles n active protected f name d ∙ rw (away, kept, had) (age_protected n m rec count)

aged_still :
    (active protected : Bool) (rec : GroupRecord)
    → (not active || not (eqb_ℤ rec.missing_cycles (pos 0))) ≡ false
    → aged active protected rec ≡ some rec
unfolding aged
aged_still active protected rec h =
    let present : active ≡ true = ground arith in
    let fresh : rec.missing_cycles ≡ pos 0 = ground arith in
    rw present (ap some (sym (counted_same rec 0 0 fresh refl)))

-- A cycle that reports no change has changed no lookup: what is not written back is not lost.
pub retain_unchanged :
    (active protected : List String) (f : ScheduleFile) (name : String)
    → IsMap f.groups
    → (retain active protected f).1 ≡ false
    → get (retain active protected f).0.groups name ≡ get f.groups name
unfolding retain retain_changes
retain_unchanged active protected f name m h = get-retain active protected f name m ∙ still
  where
    still :
        bind (get f.groups name) (aged (contains active name) (contains protected name))
        ≡ get f.groups name
    still = elim (Option-cases (get f.groups name)) [
      | inl missing ↦ rw missing refl
      | inr (rec, had) ↦ rw had (
          aged_still (contains active name) (contains protected name) rec (
            any-get (λ e. not (contains active e.0) || not (eqb_ℤ e.1.missing_cycles (pos 0)))
              f.groups name rec h had))
    ]
