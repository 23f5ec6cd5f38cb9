-- ===== src/Config/Repositories.antt =====
-- The repositories of a generated configuration: `extractRepoKeys` and `extractRepoRefs` of
-- internal/config/generate.go.
use borgmatic_manager.Prelude.{
  String, ◌≡◌, refl, Bool, true, false, ◌||◌, Option, none, some, List, [], ◌∷◌, ◌++◌, ◌==◌,
  if◌then◌else◌, contains, arith, All, All-impl, All-append, AllDifferent, eq_refl, Bool-cases, inl,
  inr, if_both,
}
use borgmatic_manager.Config.Value.{
  Value, str, obj, arr, Sequence, no_elements, element, Fields, lookup,
}
use borgmatic_manager.Config.RepoKey.{Host, canonical_repo_key}

pub record RepoRef : Type 0 where
  pub path : String
  pub label : String

abbrev text_or_empty : Option Value → String
text_or_empty (some (str s)) = s
text_or_empty _ = ""

-- The path of an entry of the list, which is a text or a map; empty for anything else.
unfoldable pub entry_path : Value → String
entry_path (str s) = s
entry_path (obj m) = text_or_empty (lookup m "path")
entry_path _ = ""

module _ (h : Host) where
  unfoldable pub add_key : List String → String → List String
  add_key keys path =
      if path == ""
      then keys
      else if contains keys (canonical_repo_key h path)
      then keys
      else keys ++ canonical_repo_key h path ∷ []

  unfoldable pub add_keys : List String → Sequence → List String
  add_keys keys no_elements = keys
  add_keys keys (element v rest) = add_keys (add_key keys (entry_path v)) rest

  unfoldable pub keys_of : Option Value → List String
  keys_of (some (arr repos)) = add_keys [] repos
  keys_of _ = []

  unfoldable pub extract_repo_keys : Fields → List String
  extract_repo_keys final = keys_of (lookup final "repositories")

unfoldable pub entry_ref : Value → Option RepoRef
entry_ref (str s) = if s == "" then none else some (record { path = s; label = "" })
entry_ref (obj m) =
    let path = text_or_empty (lookup m "path") in
    if path == ""
    then none
    else some (record { path = path; label = text_or_empty (lookup m "label") })
entry_ref _ = none

-- The references of a list, unless an entry is not understood.
-- The references of the rest of the list, if the entry is understood.
abbrev pub with_ref : Option RepoRef → (RepoRef → List RepoRef × Bool) → List RepoRef × Bool
with_ref none next = ([], false)
with_ref (some r) next = next r

unfoldable pub refs_of_list : List RepoRef → Sequence → List RepoRef × Bool
refs_of_list refs no_elements = (refs, true)
refs_of_list refs (element v rest) =
    with_ref (entry_ref v) (λ r. refs_of_list (refs ++ r ∷ []) rest)

unfoldable pub refs_of : Option Value → List RepoRef × Bool
refs_of none = ([], true)
refs_of (some (arr repos)) = refs_of_list [] repos
refs_of (some v) = ([], false)

unfoldable pub extract_repo_refs : Fields → List RepoRef × Bool
extract_repo_refs final = refs_of (lookup final "repositories")

AllDifferent-snoc :
    (ks : List String) (k : String)
    → contains ks k ≡ false
    → AllDifferent ks
    → AllDifferent (ks ++ k ∷ [])
AllDifferent-snoc [] k c d = (tt, tt)
AllDifferent-snoc (x ∷ ks) k c d = (
  All-append (λ y. (x == y) ≡ false) ks (k ∷ []) d.0 (ground arith, tt),
  AllDifferent-snoc ks k (ground arith) d.1,
)

contains-append :
    (ks js : List String) (k : String) → contains (ks ++ js) k ≡ (contains ks k || contains js k)
contains-append [] js k = refl
contains-append (x ∷ ks) js k = ground (arith, contains-append ks js k)

module _ (h : Host) where
  add_key-AllDifferent :
      (ks : List String) (p : String) → AllDifferent ks → AllDifferent (add_key h ks p)
  unfolding add_key
  add_key-AllDifferent ks p d =
      if_both AllDifferent (p == "") _ _ d
        (elim (Bool-cases (contains ks (canonical_repo_key h p))) [
          | inl seen ↦ rw seen d
          | inr new ↦ rw new (AllDifferent-snoc ks (canonical_repo_key h p) new d)
        ])

  add_keys-AllDifferent :
      (ks : List String) (repos : Sequence) → AllDifferent ks → AllDifferent (add_keys h ks repos)
  unfolding add_keys
  add_keys-AllDifferent ks no_elements d = d
  add_keys-AllDifferent ks (element v rest) d =
      add_keys-AllDifferent (add_key h ks (entry_path v)) rest
        (add_key-AllDifferent ks (entry_path v) d)

  keys_of-AllDifferent : (o : Option Value) → AllDifferent (keys_of h o)
  unfolding keys_of
  keys_of-AllDifferent (some (arr repos)) = add_keys-AllDifferent [] repos tt
  keys_of-AllDifferent o = tt

  -- No repository stands twice among the keys that a run locks.
  pub extract_repo_keys-AllDifferent : (final : Fields) → AllDifferent (extract_repo_keys h final)
  unfolding extract_repo_keys
  extract_repo_keys-AllDifferent final = keys_of-AllDifferent (lookup final "repositories")

  -- The key of the repository is among `ks`.
  abbrev pub IsLocked : List String → RepoRef → Type 0
  IsLocked ks r = contains ks (canonical_repo_key h r.path) ≡ true

  add_key-keeps :
      (ks : List String) (p k : String) → contains ks k ≡ true → contains (add_key h ks p) k ≡ true
  unfolding add_key
  add_key-keeps ks p k c = ground (arith, contains-append ks (canonical_repo_key h p ∷ []) k)

  add_keys-keeps :
      (ks : List String) (repos : Sequence) (k : String)
      → contains ks k ≡ true
      → contains (add_keys h ks repos) k ≡ true
  unfolding add_keys
  add_keys-keeps ks no_elements k c = c
  add_keys-keeps ks (element v rest) k c =
      add_keys-keeps (add_key h ks (entry_path v)) rest k (add_key-keeps ks (entry_path v) k c)

  entry-IsLocked :
      (ks : List String) (v : Value) (r : RepoRef)
      → entry_ref v ≡ some r
      → IsLocked (add_key h ks (entry_path v)) r
  unfolding entry_ref entry_path add_key
  entry-IsLocked ks (str s) r e = ground (
    arith,
    contains-append ks (canonical_repo_key h s ∷ []) (canonical_repo_key h s),
    eq_refl (canonical_repo_key h s),
  )
  entry-IsLocked ks (obj m) r e =
      let p = text_or_empty (lookup m "path") in
      ground (
        arith,
        contains-append ks (canonical_repo_key h p ∷ []) (canonical_repo_key h p),
        eq_refl (canonical_repo_key h p),
      )
  entry-IsLocked ks v r e = cc

  with_ref-IsLocked :
      (ks : List String) (o : Option RepoRef) (next : RepoRef → List RepoRef × Bool)
      → ((r : RepoRef) → o ≡ some r → All (IsLocked ks) (next r).0)
      → All (IsLocked ks) (with_ref o next).0
  with_ref-IsLocked ks none next l = tt
  with_ref-IsLocked ks (some r) next l = l r refl

  list-IsLocked :
      (ks : List String) (refs : List RepoRef) (repos : Sequence)
      → All (IsLocked ks) refs
      → All (IsLocked (add_keys h ks repos)) (refs_of_list refs repos).0
  unfolding refs_of_list add_keys
  list-IsLocked ks refs no_elements l = l
  list-IsLocked ks refs (element v rest) l =
      let ks' = add_key h ks (entry_path v) in
      with_ref-IsLocked (add_keys h ks' rest) (entry_ref v) _ λ r e.
        list-IsLocked ks' (refs ++ r ∷ []) rest (
          All-append (IsLocked ks') refs (r ∷ [])
            (All-impl refs (λ q. add_key-keeps ks (entry_path v) (canonical_repo_key h q.path)) l)
            (entry-IsLocked ks v r e, tt))

  refs-IsLocked : (o : Option Value) → All (IsLocked (keys_of h o)) (refs_of o).0
  unfolding refs_of keys_of
  refs-IsLocked (some (arr repos)) = list-IsLocked [] [] repos tt
  refs-IsLocked o = tt

  -- Every repository that a run is told to write to is among the keys that it locks.
  pub extract_repo_refs-IsLocked :
      (final : Fields) → All (IsLocked (extract_repo_keys h final)) (extract_repo_refs final).0
  unfolding extract_repo_keys extract_repo_refs
  extract_repo_refs-IsLocked final = refs-IsLocked (lookup final "repositories")
