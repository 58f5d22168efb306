-- ===== src/Lake/Records/Rules.antt =====
-- Publishing skip rules.
use open_mamba.Base.{
  ℕ, ◌≡◌, refl, ap, sym, ◌∙◌, String, Bool, true, false, ◌&&◌, List, [], ◌∷◌, ◌++◌, ◌==◌, any, eqb,
  select, length, All, Bool-cases, inl, inr,
}
use open_mamba.Types.{Uuid, DateTime}
use open_mamba.Lake.Tables.{SolverSkipRuleRow, Db}
use open_mamba.Lake.Exec.{ok, ready, World}
use open_mamba.Lake.Records.{on_rules, supersede, add_rules, replace_skip_rules}

-- The rules can be inserted after these rows: no id is there, nor twice among them.
abbrev pub Fresh : List SolverSkipRuleRow → List SolverSkipRuleRow → Type 0
Fresh rows [] = Unit
Fresh rows (r ∷ rules) =
    (any (λ (s : SolverSkipRuleRow). eqb s.id r.id) rows ≡ false) × Fresh (rows ++ r ∷ []) rules

-- An active rule of the protocol.
abbrev pub active_for : String → SolverSkipRuleRow → Bool
active_for protocol r = r.protocol == protocol && r.active

append-cons :
    (rows rules : List SolverSkipRuleRow) (r : SolverSkipRuleRow)
    → (rows ++ r ∷ []) ++ rules ≡ rows ++ r ∷ rules
append-cons [] rules r = refl
append-cons (x ∷ rows) rules r = ap (λ t. x ∷ t) (append-cons rows rules r)

append-nil : (rows : List SolverSkipRuleRow) → rows ++ [] ≡ rows
append-nil [] = refl
append-nil (x ∷ rows) = ap (λ t. x ∷ t) (append-nil rows)

-- A world that holds the lock.
abbrev held : Db → DateTime → (ℕ → Uuid) → World
held d t ids = record (ready d t ids) { locked = true }

add_rules_lem :
    (rules : List SolverSkipRuleRow) (d : Db) (t : DateTime) (ids : ℕ → Uuid)
    → Fresh d.solver_skip_rules rules
    → add_rules rules (held d t ids) ≡ (ok tt, held (on_rules (λ rows. rows ++ rules) d) t ids)
unfolding add_rules
add_rules_lem [] d t ids fresh =
    ap (λ rows. (ok tt, held (record d { solver_skip_rules = rows }) t ids))
      (sym (append-nil d.solver_skip_rules))
add_rules_lem (r ∷ rules) d t ids fresh = rw fresh.0 (
    add_rules_lem rules (on_rules (λ rows. rows ++ r ∷ []) d) t ids fresh.1
    ∙ ap (λ rows. (ok tt, held (record d { solver_skip_rules = rows }) t ids))
        (append-cons d.solver_skip_rules rules r))

and_false : (b : Bool) → (b && false) ≡ false
and_false true = refl
and_false false = refl

-- None of the protocol's rules stays active but those that come after.
select-supersede :
    (protocol : String) (t : DateTime) (rows rules : List SolverSkipRuleRow)
    → select (active_for protocol) (supersede protocol t rows ++ rules)
      ≡ select (active_for protocol) rules
unfolding supersede
select-supersede protocol t [] rules = refl
select-supersede protocol t (r ∷ rows) rules = elim (Bool-cases (active_for protocol r)) [
  | inl e ↦ rw (e, and_false (r.protocol == protocol)) (select-supersede protocol t rows rules)
  | inr e ↦ rw (e, e) (select-supersede protocol t rows rules)
]

select_of_All :
    (p : SolverSkipRuleRow → Bool) (rules : List SolverSkipRuleRow)
    → All (λ r. p r ≡ true) rules
    → select p rules ≡ rules
select_of_All p [] h = refl
select_of_All p (r ∷ rules) h = rw h.0 (ap (λ t. r ∷ t) (select_of_All p rules h.1))

-- With no database failure, publishing the rules of a protocol, all active, of that protocol and under
-- new ids, succeeds with their number, and the active rules of the protocol are then exactly the
-- published ones, in their order; the rules of before are kept, switched off.
pub replace_skip_rules-supersede :
    (protocol : String) (rules : List SolverSkipRuleRow) (d : Db) (t : DateTime) (ids : ℕ → Uuid)
    → Fresh (supersede protocol t d.solver_skip_rules) rules
    → All (λ r. active_for protocol r ≡ true) rules
    → let after = supersede protocol t d.solver_skip_rules ++ rules in
      (replace_skip_rules protocol rules (ready d t ids)
        ≡ (ok (length rules), ready (on_rules (λ _. after) d) t ids))
      × (select (active_for protocol) after ≡ rules)
unfolding replace_skip_rules
replace_skip_rules-supersede protocol rules d t ids fresh theirs = (
  rw (add_rules_lem rules (on_rules (supersede protocol t) d) t ids fresh) refl,
  select-supersede protocol t d.solver_skip_rules rules
      ∙ select_of_All (active_for protocol) rules theirs,
)
