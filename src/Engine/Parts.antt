-- ===== src/Engine/Parts.antt =====
-- What a preparation of crates/greatgramma-core/src/engine.rs consists of.
use greatgramma_rust.Base.{
  ℕ, ◌+◌, ◌/◌, some, ◌≡◌, ap, subst, ok, ok_or, >>=-eq-ok, ok_or-eq-ok, ok_inj, checked_add,
  Allocator, arith,
}
use greatgramma_rust.Normalized.{ValidatedGrammar}
use greatgramma_rust.TokenStep.Budget.{
  PreparationLimits, WorkBudget, invariant_violation, new_budget,
}
use greatgramma_rust.Spanner.{prepare_spanner_with_budget}
use greatgramma_rust.Preprocess.Table.{prepare_parser_with_budget}
use greatgramma_rust.Engine.{PreparedGrammar, prepare}

checked_add-eq : (a b n : ℕ) → checked_add a b ≡ some n → n ≡ a + b
unfolding checked_add
checked_add-eq a b n h = ground arith

-- The spanner and the parser tables of a prepared grammar are those that are made of its grammar.
abbrev pub IsPrepared : Allocator → PreparationLimits → PreparedGrammar → Type 0
IsPrepared alloc limits prepared =
    (work : WorkBudget) × (work' : WorkBudget) × (prepare_spanner_with_budget alloc limits
        prepared.grammar (new_budget limits)
      ≡ ok (prepared.spanner, work))
    × (prepare_parser_with_budget alloc prepared.grammar.lalr prepared.spanner limits work
        ≡ ok (prepared.parser, work'))
    × (prepared.mask_bytes ≡ (prepared.grammar.token_count + 7) / 8)

pub prepare-IsPrepared :
    (alloc : Allocator) (limits : PreparationLimits) (g : ValidatedGrammar)
    (prepared : PreparedGrammar)
    → prepare alloc g limits ≡ ok prepared
    → IsPrepared alloc limits prepared
unfolding prepare
prepare-IsPrepared alloc limits g prepared h =
    let ((spanner, work), e₁, h₁) =
      >>=-eq-ok (prepare_spanner_with_budget alloc limits g (new_budget limits)) _ h in
    let ((parser, work'), e₂, h₂) =
      >>=-eq-ok (prepare_parser_with_budget alloc g.lalr spanner limits work) _ h₁ in
    let (rounded, e₃, h₃) =
      >>=-eq-ok (ok_or (checked_add g.token_count 7) invariant_violation) _ h₂ in
    subst (IsPrepared alloc limits) (ok_inj h₃) (
      work,
      work',
      e₁,
      e₂,
      ap (λ n. n / 8) (checked_add-eq g.token_count 7 rounded (ok_or-eq-ok _ _ e₃)),
    )
