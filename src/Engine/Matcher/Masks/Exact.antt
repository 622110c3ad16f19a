-- ===== src/Engine/Matcher/Masks/Exact.antt =====
-- The mask that a matcher of crates/greatgramma-core/src/engine.rs writes for a row says what
-- `allows` and `advance` say.
use greatgramma_rust.Base.{
  ℕ, ◌<◌, ◌≡◌, ap, ◌∙◌, Bool, List, length, ok, err, fault, >>=-eq-ok, leaving, leaving-eq-ok,
  Allocator,
}
use greatgramma_rust.Normalized.{TokenId, ValidatedGrammar}
use greatgramma_rust.TokenStep.Budget.{PreparationLimits}
use greatgramma_rust.Mask.{clear, is_set}
use greatgramma_rust.Engine.{prepare}
use greatgramma_rust.Engine.Errors.{Filling}
use greatgramma_rust.Engine.Masks.Exact.{fill_mask-allows_status}
use greatgramma_rust.Engine.Matcher.{Matcher, state, allows, advance}
use greatgramma_rust.Engine.Matcher.Agree.{verdict, allows-verdict}
use greatgramma_rust.Engine.Matcher.Masks.{or_clear, mask}

or_clear-eq-ok :
    (output output' : List ℕ) (o : Filling (List ℕ))
    → or_clear output o ≡ (ok tt, output')
    → o ≡ ok output'
or_clear-eq-ok output output' (ok filled) h = ap (λ r. ok r.1) h
or_clear-eq-ok output output' (err (e, left)) h = absurd (cc h)
or_clear-eq-ok output output' (fault x) h = absurd (cc h)

-- On a matcher over prepared tables, if `mask` succeeds for a row and `allows` answers for that row
-- and a token of the table, then the token's bit in the mask is the answer.
pub mask-allows :
    (alloc : Allocator) (limits : PreparationLimits) (g : ValidatedGrammar) (m : Matcher) (row : ℕ)
    (output output' : List ℕ) (token : TokenId) (v : Bool)
    → prepare alloc g limits ≡ ok m.prepared
    → token < m.prepared.grammar.token_count
    → mask alloc m row output ≡ (ok tt, output')
    → allows alloc m row token ≡ ok v
    → is_set output' token ≡ v
unfolding mask allows
mask-allows alloc limits g m row output output' token v made lt h k =
    let filled = or_clear-eq-ok (clear output) output' _ h in
    let (s, e₀, f) = >>=-eq-ok (leaving (clear output) (state m row)) _ filled in
    let e = leaving-eq-ok (clear output) (state m row) e₀ in
    fill_mask-allows_status alloc m.prepared limits g s output output' token v made lt f (rw e at k)

-- On a matcher over prepared tables with as many staging rows as rows, if `mask` succeeds for a row
-- then a token of the table by which `advance` moves the row is set in the mask, and one that it
-- refuses with a constraint violation is not.
pub mask-advance :
    (alloc : Allocator) (limits : PreparationLimits) (g : ValidatedGrammar) (m : Matcher) (row : ℕ)
    (output output' : List ℕ) (token : TokenId) (v : Bool)
    → prepare alloc g limits ≡ ok m.prepared
    → length m.staging ≡ length m.states
    → token < m.prepared.grammar.token_count
    → mask alloc m row output ≡ (ok tt, output')
    → verdict (advance alloc m row token).0 ≡ ok v
    → is_set output' token ≡ v
mask-advance alloc limits g m row output output' token v made l lt h k =
    mask-allows alloc limits g m row output output' token v made lt h
      (allows-verdict alloc m row token l ∙ k)
