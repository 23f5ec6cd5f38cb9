-- ===== src/Restore/Disk/Triples.antt =====
-- What holds after a program on the disk, whatever the fates of its calls, and when it is killed.
use borgmatic_manager.Prelude.{
  ◌≡◌, refl, if_both, is_empty, Option, none, some, List, [], ◌∷◌, ◌⊎◌, inl, inr,
}
use borgmatic_manager.Restore.Disk.{
  Dir, change_dir, move_dir, swap_dirs, onto, onto_nothing, Disk, Errno, Fate, made, killed, fails,
  Ran, returned, crashed, M, pure, and_then, ◌>>=◌, settle, perform, ask,
}

abbrev pub Holds : {A : Type 0} → (A → Disk → Type 0) → (Disk → Type 0) → Ran A → Type 0
Holds Q C (returned a fates disk) = Q a disk
Holds Q C (crashed disk) = C disk

-- From a disk with `P`, the program ends with `Q`, or is killed with `C`.
pub record Triple {A : Type 0} (P : Disk → Type 0) (m : M A) (Q : A → Disk → Type 0)
    (C : Disk → Type 0) : Type 0 where
  pub run : (fates : List Fate) (disk : Disk) → P disk → Holds Q C (m fates disk)

module _ {A B : Type 0} where
  ran_then :
      (Q : A → Disk → Type 0) (R : B → Disk → Type 0) (C : Disk → Type 0) (r : Ran A) (k : A → M B)
      → Holds Q C r
      → ((a : A) → Triple (Q a) (k a) R C)
      → Holds R C (and_then r k)
  ran_then Q R C (returned a fates disk) k q t = (t a).run fates disk q
  ran_then Q R C (crashed disk) k c t = c

  pub Triple-bind :
      {P : Disk → Type 0} (Q : A → Disk → Type 0) {R : B → Disk → Type 0} {C : Disk → Type 0}
      (m : M A) (k : A → M B)
      → Triple P m Q C
      → ((a : A) → Triple (Q a) (k a) R C)
      → Triple P (m >>= k) R C
  Triple-bind Q {R} {C} m k s t = record {
    run = λ fates disk p. ran_then Q R C (m fates disk) k (s.run fates disk p) t;
  }

-- The call leaves a disk with `Q` if it is made, and fails with the old disk otherwise.
abbrev pub Settles : (Disk → Type 0) → Disk ⊎ Errno → Type 0
Settles Q (inl disk) = Q disk
Settles Q (inr e) = Unit

module _ {P : Disk → Type 0} (Q : Option Errno → Disk → Type 0) {C : Disk → Type 0}
    (act : Disk → Disk ⊎ Errno) (dies : (disk : Disk) → P disk → C disk)
    (works : (disk : Disk) → P disk → Settles (Q none) (act disk))
    (errs : (e : Errno) (disk : Disk) → P disk → Q (some e) disk) where
  settled :
      (r : Disk ⊎ Errno) (fates : List Fate) (disk : Disk)
      → Settles (Q none) r
      → P disk
      → Holds Q C (settle r fates disk)
  settled (inl disk') fates disk s p = s
  settled (inr e) fates disk s p = errs e disk p

  performed : (fates : List Fate) (disk : Disk) → P disk → Holds Q C (perform act fates disk)
  unfolding perform
  performed [] disk p = settled (act disk) [] disk (works disk p) p
  performed (made ∷ fates) disk p = settled (act disk) fates disk (works disk p) p
  performed (fails e ∷ fates) disk p = errs e disk p
  performed (killed ∷ fates) disk p = dies disk p

  pub Triple-perform : Triple P (perform act) Q C
  Triple-perform = record { run = performed }

-- A program that only returns.
pub Triple-pure :
    {A : Type 0} {P : Disk → Type 0} {Q : A → Disk → Type 0} {C : Disk → Type 0} (a : A)
    → ((disk : Disk) → P disk → Q a disk)
    → Triple P (pure a) Q C
Triple-pure a q = record { run = λ fates disk p. q disk p }

-- To settle a call, it is enough to look at the directories that it finds.
module _ (Q : Disk → Type 0) where
  pub change_dir-Settles :
      (o : Option Dir) (k : Dir → Disk)
      → ((d : Dir) → o ≡ some d → Q (k d))
      → Settles Q (change_dir o k)
  change_dir-Settles none k q = tt
  change_dir-Settles (some d) k q = q d refl

  pub move_dir-Settles :
      (o : Option Dir) (k : Dir → Disk ⊎ Errno)
      → ((d : Dir) → o ≡ some d → Settles Q (k d))
      → Settles Q (move_dir o k)
  move_dir-Settles none k q = tt
  move_dir-Settles (some d) k q = q d refl

  pub swap_dirs-Settles :
      (o p : Option Dir) (k : Dir → Dir → Disk)
      → ((d e : Dir) → o ≡ some d → p ≡ some e → Q (k d e))
      → Settles Q (swap_dirs o p k)
  swap_dirs-Settles (some d) (some e) k q = q d e refl refl
  swap_dirs-Settles (some d) none k q = tt
  swap_dirs-Settles none p k q = tt

  pub onto-Settles : (o : Option Dir) (disk : Disk) → Q disk → Settles Q (onto o disk)
  onto-Settles none disk q = q
  onto-Settles (some d) disk q = if_both (Settles Q) (is_empty d.entries) _ _ q tt

  pub onto_nothing-Settles :
      (o : Option Dir) (disk : Disk) → (o ≡ none → Q disk) → Settles Q (onto_nothing o disk)
  onto_nothing-Settles none disk q = q refl
  onto_nothing-Settles (some d) disk q = tt

pub Triple-weaken :
    {A : Type 0} {P P' : Disk → Type 0} {m : M A} {Q : A → Disk → Type 0} {C : Disk → Type 0}
    → ((disk : Disk) → P disk → P' disk)
    → Triple P' m Q C
    → Triple P m Q C
Triple-weaken w t = record { run = λ fates disk p. t.run fates disk (w disk p) }

module _ {A : Type 0} {P : Disk → Type 0} (Q : A ⊎ Errno → Disk → Type 0) {C : Disk → Type 0}
    (read : Disk → A) (dies : (disk : Disk) → P disk → C disk)
    (reads : (disk : Disk) → P disk → Q (inl (read disk)) disk)
    (errs : (e : Errno) (disk : Disk) → P disk → Q (inr e) disk) where
  asked : (fates : List Fate) (disk : Disk) → P disk → Holds Q C (ask read fates disk)
  unfolding ask
  asked [] disk p = reads disk p
  asked (made ∷ fates) disk p = reads disk p
  asked (fails e ∷ fates) disk p = errs e disk p
  asked (killed ∷ fates) disk p = dies disk p

  pub Triple-ask : Triple P (ask read) Q C
  Triple-ask = record { run = asked }

-- A fact that does not depend on the disk.
pub Triple-assume :
    {A X : Type 0} {P : Disk → Type 0} {m : M A} {Q : A → Disk → Type 0} {C : Disk → Type 0}
    → (X → Triple P m Q C)
    → Triple (λ disk. P disk × X) m Q C
Triple-assume t = record { run = λ fates disk p. (t p.1).run fates disk p.0 }
