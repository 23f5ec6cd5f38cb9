-- ===== src/Scheduler/Fingerprint/Sorted.antt =====
-- `sort.Strings`: the result is in strictly increasing order if no text stands twice.
use borgmatic_manager.Prelude.{
  String, ◌≡◌, true, false, List, [], ◌∷◌, ◌==◌, arith, All, All-impl, IsChain, AllDifferent,
  eq_iff, Bool-cases, inl, inr,
}
use borgmatic_manager.Scheduler.Fingerprint.{less, insert_sorted, sort_strings}
use borgmatic_manager.Scheduler.Fingerprint.Order.{less_trans, less_total}

module _ {ℓ} (P : String → Type ℓ) where
  All-insert : (s : String) (ts : List String) → P s → All P ts → All P (insert_sorted s ts)
  unfolding insert_sorted
  All-insert s [] p ps = (p, tt)
  All-insert s (t ∷ ts) p ps = elim (Bool-cases (less t s)) [
    | inl later ↦ rw later (ps.0, All-insert s ts p ps.1)
    | inr first ↦ rw first (p, ps)
  ]

  pub All-sort : (ss : List String) → All P ss → All P (sort_strings ss)
  unfolding sort_strings
  All-sort [] ps = tt
  All-sort (s ∷ ss) ps = All-insert s (sort_strings ss) ps.0 (All-sort ss ps.1)

insert-IsChain :
    (s : String) (ts : List String)
    → All (λ t. (s == t) ≡ false) ts
    → IsChain less ts
    → IsChain less (insert_sorted s ts)
unfolding insert_sorted
insert-IsChain s [] d c = (tt, tt)
insert-IsChain s (t ∷ ts) d c = elim (Bool-cases (less t s)) [
  | inl later ↦
      rw later (All-insert (λ u. less t u ≡ true) s ts later c.0, insert-IsChain s ts d.1 c.1)
  | inr first ↦
      let least : less s t ≡ true = ground (arith, less_total s t, eq_iff s t) in
      rw first ((least, All-impl ts (λ u. less_trans s t u least) c.0), c)
]

pub sort-IsChain : (ss : List String) → AllDifferent ss → IsChain less (sort_strings ss)
unfolding sort_strings
sort-IsChain [] d = tt
sort-IsChain (s ∷ ss) d =
    insert-IsChain s (sort_strings ss) (All-sort (λ t. (s == t) ≡ false) ss d.0)
      (sort-IsChain ss d.1)
