-- ===== src/Engine/Masks/Exact.antt =====
-- The mask of crates/greatgramma-core/src/engine.rs against `allows`, on prepared tables.
use greatgramma_rust.Base.{
  ℕ, ◌<◌, ◌≡◌, refl, sym, ap, ◌∙◌, subst, Bool, true, false, ◌||◌, List, length, get_elem?, ltb,
  if◌then◌else◌, Option, none, some, ok, err, ◌>>=◌, map_err, >>=-eq-ok, ok_or-eq-ok, map_err-eq-ok,
  leaving, leaving-eq-ok, ok_inj, Allocator,
}
use greatgramma_rust.Normalized.{TokenId, TerminalId, ValidatedGrammar}
use greatgramma_rust.Lexer.{LexerState}
use greatgramma_rust.Lalr.{RunDecision, Stack}
use greatgramma_rust.Lalr.Run.{execute_terminals_concrete_into}
use greatgramma_rust.TokenStep.{TokenExecution, continue, finished}
use greatgramma_rust.TokenStep.Budget.{PreparationLimits, new_budget}
use greatgramma_rust.TokenStep.Table.{cell}
use greatgramma_rust.Spanner.{
  Buckets, PreparedSpanner, query_source, token_execution, inverse_buckets,
}
use greatgramma_rust.Spanner.Exact.Table.{prepare_spanner_with_budget-Realizes}
use greatgramma_rust.Mask.{is_set, clear}
use greatgramma_rust.Mask.Bits.{is_set-clear, clear-IsBytes}
use greatgramma_rust.Engine.{
  PreparedGrammar, MatcherStatus, running_lexer, prepare, is_allowed, any_bucket_allows,
  ordinary_token_allowed_with_scratch, after_run, run_allowed, evaluate_execution,
  evaluate_token_into, check_token, allows_status,
}
use greatgramma_rust.Engine.Parts.{prepare-IsPrepared}
use greatgramma_rust.Engine.Holding.{any_bucket_allows-Allowing}
use greatgramma_rust.Engine.Errors.{
  Filling, buffer_too_small, no_valid_token, map_parser_error, map_spanner_error,
}
use greatgramma_rust.Engine.Masks.{fill_ordinary_mask, fill_eos_mask, fill_mask_with_scratch}
use greatgramma_rust.Engine.Masks.Marks.{fill_ordinary_mask-Marks}
use greatgramma_rust.Engine.Masks.Ends.{Ends, fill_eos_mask-Ends}

pub token_execution-cell :
    (spanner : PreparedSpanner) (lexer : LexerState) (token : TokenId) (x : Option TokenExecution)
    → token_execution spanner lexer token ≡ ok x
    → (index : ℕ) × (query_source spanner lexer ≡ ok index)
      × (cell spanner.token_table index token ≡ some x)
unfolding token_execution
token_execution-cell spanner lexer token x h =
    let (index, e, f) = >>=-eq-ok (query_source spanner lexer) _ h in (index, e, ok_or-eq-ok _ _ f)

inverse_buckets-row :
    (spanner : PreparedSpanner) (lexer : LexerState) (buckets : Buckets)
    → inverse_buckets spanner lexer ≡ ok buckets
    → (index : ℕ) × (query_source spanner lexer ≡ ok index)
      × (get_elem? spanner.inverse index ≡ some buckets)
unfolding inverse_buckets
inverse_buckets-row spanner lexer buckets h =
    let (index, e, f) = >>=-eq-ok (query_source spanner lexer) _ h in (index, e, ok_or-eq-ok _ _ f)

or_none : (b : Bool) → (b || false) ≡ b
or_none true = refl
or_none false = refl

abbrev Continues : Option TokenExecution → Type 0
Continues none = ⊥
Continues (some (finished emitted eof)) = ⊥
Continues (some (continue state emitted)) = Unit

module _ (alloc : Allocator) (prepared : PreparedGrammar) where
  -- Tokens that end the input, or have no execution, are in no bucket.
  allowed-Continues :
      (limits : PreparationLimits) (g : ValidatedGrammar) (lexer : LexerState) (stack : Stack)
      (token : TokenId) (buckets : Buckets) (x : Option TokenExecution)
      → prepare alloc g limits ≡ ok prepared
      → token < prepared.grammar.token_count
      → inverse_buckets prepared.spanner lexer ≡ ok buckets
      → token_execution prepared.spanner lexer token ≡ ok x
      → any_bucket_allows alloc prepared stack token buckets ≡ ok true
      → Continues x
  allowed-Continues limits g lexer stack token buckets x h lt inv run any =
      let (work, work', made, parser, bytes) = prepare-IsPrepared alloc limits g prepared h in
      let (index, at, row) = inverse_buckets-row prepared.spanner lexer buckets inv in
      let (index', at', found) = token_execution-cell prepared.spanner lexer token x run in
      let same_index : index ≡ index' = cc (at, at') in
      let (id, holds, allows) = any_bucket_allows-Allowing alloc prepared stack token buckets any in
      let (state, emitted, destination, j, c, runs, dest, next, head) =
        (prepare_spanner_with_budget-Realizes prepared.grammar alloc limits (new_budget limits)
            (prepared.spanner, work) made index buckets row id token lt).0
          holds in
      let is : some (continue state emitted) ≡ x = cc (runs, found, same_index) in
      subst Continues is tt

  after_run-allowed :
      (lexer : LexerState) (r : RunDecision × Stack) (v : Bool)
      → (after_run alloc prepared lexer r >>= λ d. ok (is_allowed alloc prepared d)) ≡ ok v
      → v ≡ true
  after_run-allowed lexer (RunDecision.continue, s) v h = sym (ok_inj h)
  after_run-allowed lexer (RunDecision.rejected, s) v h = absurd (cc h)
  after_run-allowed lexer (RunDecision.accepted, s) v h = absurd (cc h)
  after_run-allowed lexer (RunDecision.dependent, s) v h = absurd (cc h)

  run_allowed-allowed :
      (stack : Stack) (lexer : LexerState) (emitted : List TerminalId) (b v : Bool)
      → (run_allowed alloc prepared stack lexer emitted b >>= λ d. ok (is_allowed alloc prepared d))
        ≡ ok v
      → v ≡ b
  run_allowed-allowed stack lexer emitted false v h = sym (ok_inj h)
  run_allowed-allowed stack lexer emitted true v h =
      let (d, e, f) = >>=-eq-ok (run_allowed alloc prepared stack lexer emitted true) _ h in
      let (r, e₁, f₁) =
        >>=-eq-ok
          (map_err map_parser_error
            (execute_terminals_concrete_into alloc prepared.grammar.lalr stack emitted))
          _ e in
      after_run-allowed lexer r v (ap (λ o. o >>= λ d. ok (is_allowed alloc prepared d)) f₁ ∙ f)

  execution-allowed :
      (lexer : LexerState) (stack : Stack) (token : TokenId) (x : Option TokenExecution)
      (b c v : Bool)
      → ordinary_token_allowed_with_scratch alloc prepared lexer stack token ≡ ok b
      → Ends alloc prepared stack x c
      → (b ≡ true → Continues x)
      → (evaluate_execution alloc prepared lexer stack token x >>= λ d.
          ok (is_allowed alloc prepared d))
        ≡ ok v
      → (b || c) ≡ v
  unfolding evaluate_execution
  execution-allowed lexer stack token none false c v ord ends only h = ends ∙ ok_inj h
  execution-allowed lexer stack token none true c v ord ends only h = absurd (only refl)
  execution-allowed lexer stack token (some (continue state emitted)) b c v ord ends only h =
      ap (λ c. b || c) ends
      ∙ or_none b
      ∙ sym (run_allowed-allowed stack state emitted b v (rw ord at h))
  execution-allowed lexer stack token (some (finished emitted eof)) false c v ord ends only h =
      ok_inj (sym ends.1 ∙ rw ends.0 at h)
  execution-allowed lexer stack token (some (finished emitted eof)) true c v ord ends only h =
      absurd (only refl)

  filled_eq :
      (any : Bool) (filled output' : List ℕ)
      → ◌≡◌ {A = Filling (List ℕ)}
          (if any then ok filled else err (no_valid_token, filled))
          (ok output')
      → filled ≡ output'
  filled_eq true filled output' h = ok_inj h
  filled_eq false filled output' h = absurd (cc h)

  -- The bit of a token in a mask that is filled: what the buckets or the end of the input say.
  abbrev BitOf : LexerState → Stack → TokenId → List ℕ → Type 0
  BitOf lexer stack token output' =
      (buckets : Buckets) × (x : Option TokenExecution) × (b : Bool) × (c : Bool) × (inverse_buckets
          prepared.spanner lexer
        ≡ ok buckets)
      × (token_execution prepared.spanner lexer token ≡ ok x)
      × (any_bucket_allows alloc prepared stack token buckets ≡ ok b)
      × Ends alloc prepared stack x c
      × (is_set output' token ≡ (b || c))

  fill_mask-BitOf :
      (s : MatcherStatus) (output output' : List ℕ) (token : TokenId)
      → token < prepared.grammar.token_count
      → fill_mask_with_scratch alloc prepared s (clear output) ≡ ok output'
      → (lexer : LexerState) × (running_lexer s.phase ≡ ok lexer)
        × BitOf lexer s.parser_stack token output'
  unfolding fill_mask_with_scratch fill_eos_mask
  fill_mask-BitOf s output output' token lt h =
      let (lexer, e₁, h₁) = >>=-eq-ok (leaving (clear output) (running_lexer s.phase)) _ h in
      let (u, e₂, h₂) =
        >>=-eq-ok
          (if ltb (length (clear output)) prepared.mask_bytes
            then err (buffer_too_small prepared.mask_bytes (length (clear output)), clear output)
            else ok tt)
          _ h₁ in
      let (buckets, e₃, h₃) =
        >>=-eq-ok
          (leaving (clear output)
            (map_err map_spanner_error (inverse_buckets prepared.spanner lexer)))
          _ h₂ in
      let (ordinary, e₄, h₄) =
        >>=-eq-ok (fill_ordinary_mask alloc prepared s.parser_stack buckets (false, clear output)) _
          h₃ in
      let (eos, e₅, h₅) =
        >>=-eq-ok (fill_eos_mask alloc prepared lexer s.parser_stack ordinary.1) _ h₄ in
      let (b, allows, (bytes, bit)) =
        fill_ordinary_mask-Marks alloc prepared s.parser_stack token buckets (false, clear output)
          ordinary (clear-IsBytes output) e₄ in
      let (x, c, run, ends, bit') =
        fill_eos_mask-Ends alloc prepared s.parser_stack lexer token (false, ordinary.1) eos bytes
          lt e₅ in
      let cleared : is_set ordinary.1 token ≡ b =
        bit ∙ ap (λ o. o || b) (is_set-clear output token) in
      let inv =
        map_err-eq-ok map_spanner_error (inverse_buckets prepared.spanner lexer)
          (leaving-eq-ok (clear output) _ e₃) in
      let same = filled_eq (ordinary.0 || eos.0) eos.1 output' h₅ in
      (
        lexer,
        leaving-eq-ok (clear output) _ e₁,
        (
          buckets,
          x,
          b,
          c,
          inv,
          run,
          allows,
          ends,
          subst (λ o. is_set o token ≡ (b || c)) same (bit' ∙ ap (λ o. o || c) cleared),
        ),
      )

  -- On prepared tables, if the mask of a status is filled from a cleared output and `allows_status`
  -- answers for a token of the table, then the token's bit is the answer.
  pub fill_mask-allows_status :
      (limits : PreparationLimits) (g : ValidatedGrammar) (s : MatcherStatus)
      (output output' : List ℕ) (token : TokenId) (v : Bool)
      → prepare alloc g limits ≡ ok prepared
      → token < prepared.grammar.token_count
      → fill_mask_with_scratch alloc prepared s (clear output) ≡ ok output'
      → allows_status alloc prepared s token ≡ ok v
      → is_set output' token ≡ v
  unfolding allows_status evaluate_token_into ordinary_token_allowed_with_scratch
  fill_mask-allows_status limits g s output output' token v made lt h k =
      let (lexer, at, (buckets, x, b, c, inv, run, any, ends, bit)) =
        fill_mask-BitOf s output output' token lt h in
      let (u, e₁, k₁) = >>=-eq-ok (check_token alloc prepared token) _ (rw at at k) in
      let ordinary : ordinary_token_allowed_with_scratch alloc prepared lexer s.parser_stack token
          ≡ ok b =
        rw inv any in
      bit
      ∙ execution-allowed lexer s.parser_stack token x b c v ordinary ends
          (λ e.
            allowed-Continues limits g lexer s.parser_stack token buckets x made lt inv run
              (any ∙ ap ok e))
          (rw run at k₁)
