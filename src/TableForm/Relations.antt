-- ===== src/TableForm/Relations.antt =====
-- Relations and rules of web/src/components/ColumnListEditor.tsx.
use ku_crud.Base.{
  ℕ, ◌≡◌, refl, ap, ◌∙◌, inl, inr, Bool, true, false, not, ◌&&◌, ◌||◌, Option, List, [], ◌∷◌, ◌++◌,
  arith, if◌then◌else◌, Bool-cases, any, filter, any-append,
}
use ku_crud.Types.{RuleType, same_rule, ValidationRule}
use ku_crud.TableForm.Columns.{has_rule, rules_of, or_none, set_rule}

same_rule_trans : (s t u : RuleType) → same_rule s t ≡ true → same_rule s u ≡ same_rule t u
same_rule_trans s t u h = ground arith

same_rule_apart :
    (s t u : RuleType) → same_rule s t ≡ false → (same_rule s u && same_rule t u) ≡ false
same_rule_apart s t u h = ground arith

or_past : (a t b : Bool) → (a && t) ≡ false → (a || (not t && b)) ≡ (not t && (a || b))
or_past a t b h = ground arith

drop_or : (a b : Bool) → (not a && b) ≡ (not a && (a || b))
drop_or a b = ground arith

rules_of-or_none : (rules : List ValidationRule) → rules_of (or_none rules) ≡ rules
rules_of-or_none [] = refl
rules_of-or_none (r ∷ rules) = refl

has-others :
    (t u : RuleType) (rules : List ValidationRule)
    → any (λ r. same_rule r.type u) (filter (λ r. not (same_rule r.type t)) rules)
      ≡ (not (same_rule t u) && any (λ r. same_rule r.type u) rules)
has-others t u [] = ground arith
has-others t u (r ∷ rules) = elim (Bool-cases (same_rule r.type t)) [
  | inl same ↦
      rw (same, same_rule_trans r.type t u same)
        (has-others t u rules ∙ drop_or (same_rule t u) (any (λ x. same_rule x.type u) rules))
  | inr other ↦ rw other (
      ap (λ b. same_rule r.type u || b) (has-others t u rules)
      ∙ or_past (same_rule r.type u) (same_rule t u) (any (λ x. same_rule x.type u) rules)
          (same_rule_apart r.type t u other))
]

set_on : (a b : Bool) → ((not a && b) || (a || false)) ≡ (if a then true else b)
set_on a b = ground arith

set_off : (a b : Bool) → (not a && b) ≡ (if a then false else b)
set_off a b = ground arith

-- Setting a rule of a column sets that rule, and leaves every other.
has_rule-set_rule :
    (t u : RuleType) (on : Bool) (p : Option ℕ) (rules : Option (List ValidationRule))
    → has_rule u (set_rule t on p rules) ≡ (if same_rule t u then on else has_rule u rules)
unfolding set_rule
has_rule-set_rule t u true p rules =
    let others = filter (λ r. not (same_rule r.type t)) (rules_of rules) in
    rw (rules_of-or_none (others ++ record { type = t; param = p } ∷ [])) (
      any-append (λ r. same_rule r.type u) others (record { type = t; param = p } ∷ [])
      ∙ rw (has-others t u (rules_of rules))
          (set_on (same_rule t u) (any (λ r. same_rule r.type u) (rules_of rules))))
has_rule-set_rule t u false p rules =
    rw (rules_of-or_none (filter (λ r. not (same_rule r.type t)) (rules_of rules))) (
      has-others t u (rules_of rules)
      ∙ set_off (same_rule t u) (any (λ r. same_rule r.type u) (rules_of rules)))
