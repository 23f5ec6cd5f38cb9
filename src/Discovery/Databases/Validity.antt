-- ===== src/Discovery/Databases/Validity.antt =====
-- What the checks of database entries accept, and what they make of it.
use mathlib.Core.Bool.{false≢true}
use borgmatic_manager.Prelude.{
  String, ◌≡◌, refl, sym, ◌∙◌, Bool, true, false, not, ◌&&◌, ◌==◌, eq_iff, Option, none, some, List,
  [], ◌∷◌, arith, if◌then◌else◌, Bool-cases, inl, inr, all, map,
}
use borgmatic_manager.Prelude.Int.{pos}
use borgmatic_manager.Models.{DatabaseConfig}
use borgmatic_manager.Discovery.Databases.{
  Checked, refused, accepted, sqlite, is_valid_type, validate_sqlite, mode_of, with_mode,
  validate_database, join_entry, spec_databases,
}

abbrev pub is_accepted : Checked → Bool
is_accepted (refused e) = false
is_accepted (accepted db) = true

-- An entry that names all that its type needs.
abbrev pub is_complete : DatabaseConfig → Bool
is_complete cfg =
    is_valid_type cfg.type_
    && not (cfg.name == "")
    && (if cfg.type_ == sqlite
        then not (cfg.volume == "") && not (cfg.path == "")
        else not (cfg.username == ""))

valid_nonempty : (t : String) → is_valid_type t ≡ true → (t == "") ≡ false
unfolding is_valid_type
valid_nonempty t h = elim (Bool-cases (t == "")) [
  | inl empty ↦ absurd (false≢true (rw ((eq_iff t "").0 empty) at h))
  | inr some_text ↦ some_text
]

-- The entry that the checks make of a complete one.
abbrev pub ready : DatabaseConfig → DatabaseConfig
ready cfg =
    if cfg.type_ == sqlite
    then record cfg {
      username = "";
      password = "";
      hostname = "";
      port = pos 0;
      options = "";
      mode = mode_of cfg;
    }
    else record cfg { mode = mode_of cfg }

validate_complete :
    (cfg : DatabaseConfig) → is_complete cfg ≡ true → validate_database cfg ≡ accepted (ready cfg)
unfolding validate_database validate_sqlite with_mode mode_of
validate_complete cfg h =
    let valid : is_valid_type cfg.type_ ≡ true = ground arith in
    let named : (cfg.name == "") ≡ false = ground arith in
    rw (valid, valid_nonempty cfg.type_ valid, named)
      (elim (Bool-cases (cfg.type_ == sqlite)) [
        | inl lite ↦
            let here : (cfg.volume == "") ≡ false = ground arith in
            let there : (cfg.path == "") ≡ false = ground arith in rw (lite, here, there) refl
        | inr server ↦
            let user : (cfg.username == "") ≡ false = ground arith in rw (server, user) refl
      ])

validate_incomplete :
    (cfg : DatabaseConfig) → is_complete cfg ≡ false → is_accepted (validate_database cfg) ≡ false
unfolding validate_database validate_sqlite with_mode
validate_incomplete cfg h = elim (Bool-cases (cfg.type_ == "")) [
  | inl empty ↦ rw empty refl
  | inr typed ↦ rw typed (elim (Bool-cases (is_valid_type cfg.type_)) [
    | inr unknown ↦ rw unknown refl
    | inl valid ↦ rw valid (elim (Bool-cases (cfg.name == "")) [
      | inl empty ↦ rw empty refl
      | inr named ↦ rw named (elim (Bool-cases (cfg.type_ == sqlite)) [
        | inl lite ↦ rw lite (elim (Bool-cases (cfg.volume == "")) [
          | inl empty ↦ rw empty refl
          | inr here ↦
              let nowhere : (cfg.path == "") ≡ true = ground arith in rw (here, nowhere) refl
        ])
        | inr server ↦
            let nobody : (cfg.username == "") ≡ true = ground arith in rw (server, nobody) refl
      ])
    ])
  ])
]

-- A database entry is accepted exactly if it has a known type, a name, and a username or, for
-- sqlite, a volume and a path. What is accepted is the entry with an `exec` mode only where the type
-- supports it and, for sqlite, without credentials, address and options.
pub database_accepted :
    (cfg : DatabaseConfig)
    → (is_accepted (validate_database cfg) ≡ is_complete cfg)
      × (is_complete cfg ≡ true → validate_database cfg ≡ accepted (ready cfg))
database_accepted cfg = (
  elim (Bool-cases (is_complete cfg)) [
    | inl complete ↦ rw (validate_complete cfg complete) (rw complete refl)
    | inr incomplete ↦ validate_incomplete cfg incomplete ∙ sym incomplete
  ],
  validate_complete cfg,
)

spec_some :
    (cfgs : List DatabaseConfig)
    → all is_complete cfgs ≡ true
    → spec_databases cfgs ≡ some (map ready cfgs)
unfolding spec_databases join_entry
spec_some [] h = refl
spec_some (cfg ∷ cfgs) h =
    let first : is_complete cfg ≡ true = ground arith in
    rw (validate_complete cfg first, spec_some cfgs (ground arith)) refl

join_refused :
    (c : Checked) (rest : Option (List DatabaseConfig))
    → is_accepted c ≡ false
    → join_entry c rest ≡ none
unfolding join_entry
join_refused (refused e) rest h = refl
join_refused (accepted db) rest h = cc

spec_none : (cfgs : List DatabaseConfig) → all is_complete cfgs ≡ false → spec_databases cfgs ≡ none
unfolding spec_databases join_entry
spec_none [] h = cc
spec_none (cfg ∷ cfgs) h = elim (Bool-cases (is_complete cfg)) [
  | inl complete ↦ rw (validate_complete cfg complete, spec_none cfgs (ground arith)) refl
  | inr incomplete ↦
      join_refused (validate_database cfg) (spec_databases cfgs)
        (validate_incomplete cfg incomplete)
]

-- The entries of a spec are all taken, in order, or none is: an incomplete one fails the others
-- with it, so that none is left out in silence.
pub spec_all_or_none :
    (cfgs : List DatabaseConfig)
    → spec_databases cfgs ≡ (if all is_complete cfgs then some (map ready cfgs) else none)
spec_all_or_none cfgs = elim (Bool-cases (all is_complete cfgs)) [
  | inl complete ↦ rw complete (spec_some cfgs complete)
  | inr incomplete ↦ rw incomplete (spec_none cfgs incomplete)
]
