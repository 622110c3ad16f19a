-- ===== src/TokenStep/Table.antt =====
-- The prepared token table, after crates/greatgramma-core/src/token_step.rs.
pub mod Sound
use greatgramma_rust.Base.{
  ℕ, zero, suc, ◌+◌, Option, none, some, List, [], ◌∷◌, length, get_elem?, ltb, ◌==◌, if◌then◌else◌,
  Outcome, ok, err, fault, ◌>>=◌, ◌>>◌, ok_or, map_err, collect, checked_add, checked_sub,
  checked_mul, try_u32, Allocator,
}
use greatgramma_rust.Normalized.{TokenId, TokenEntry, bytes, eos, ValidatedGrammar, token}
use greatgramma_rust.Lexer.{LexerState, start, dfa}
use greatgramma_rust.TokenStep.{
  TokenExecution, continue, finished, TokenStepError, invalid_token, invalid_state, execute_entry,
}
use greatgramma_rust.TokenStep.Budget.{
  PreparationError, allocation_failure, invariant_violation, PreparationLimits, WorkBudget, Prepare,
  check_items, charge, prepared_vec,
}

abbrev pub Row : Type 0
Row = List (Option TokenExecution)

-- `PreparedTokenTable`; its `source_count` is the number of rows.
pub record PreparedTokenTable : Type 0 where
  pub rows : List Row

abbrev cell_at : Option Row → TokenId → Option (Option TokenExecution)
cell_at none id = none
cell_at (some row) id = get_elem? row id

unfoldable pub cell : PreparedTokenTable → ℕ → TokenId → Option (Option TokenExecution)
cell table source id = cell_at (get_elem? table.rows source) id

-- The row of a lexer state: `Start` is first, then the states of the DFA.
unfoldable pub source_count : ValidatedGrammar → Prepare ℕ
unfolding checked_add
source_count g = ok_or (checked_add g.lexer.state_count 1) invariant_violation

abbrev dfa_source : Option ℕ → Option LexerState
dfa_source none = none
dfa_source (some state) = some (dfa state)

unfoldable pub source_at : ℕ → Option LexerState
unfolding try_u32
source_at zero = some start
source_at (suc index) = dfa_source (try_u32 index)

unfoldable pub source_index_for_count : ℕ → LexerState → Option ℕ
source_index_for_count count start = if ltb 0 count then some 0 else none
source_index_for_count count (dfa state) = elim (checked_add state 1) [
  | none ↦ none
  | some index ↦ if ltb index count then some index else none
]

abbrev index_in : Prepare ℕ → LexerState → Option ℕ
unfolding source_index_for_count
index_in (ok count) source = source_index_for_count count source
index_in (err e) source = none
index_in (fault x) source = none

unfoldable pub source_index : ValidatedGrammar → LexerState → Option ℕ
unfolding source_count source_index_for_count
source_index g source = index_in (source_count g) source

unfoldable pub preparation_token_error : TokenStepError → PreparationError
preparation_token_error (TokenStepError.allocation_failure requested) = allocation_failure requested
preparation_token_error (invalid_token id) = invariant_violation
preparation_token_error (invalid_state state) = invariant_violation

-- What an entry costs, and how many terminals an execution emits.
abbrev pub token_work : PreparationLimits → TokenEntry → Prepare ℕ
token_work limits (bytes bs) = check_items (some (length bs)) limits
token_work limits eos = ok 1

abbrev pub emitted_count : Option TokenExecution → ℕ
emitted_count none = 0
emitted_count (some (continue state emitted)) = length emitted
emitted_count (some (finished emitted eof)) = length emitted

-- The work budget and the number of items emitted so far, which the loops pass on.
pub record Spent : Type 0 where
  pub work : WorkBudget
  pub emitted_items : ℕ

module _ (alloc : Allocator) (g : ValidatedGrammar) (limits : PreparationLimits) where
  unfoldable pub append_token_cell :
      LexerState → ℕ → Spent → Prepare (Option TokenExecution × Spent)
  append_token_cell source token_index spent = do
    id ← ok_or (try_u32 token_index) invariant_violation
    entry ← ok_or (token g id) invariant_violation
    cost ← token_work limits entry
    work ← charge spent.work cost
    execution ← map_err preparation_token_error (execute_entry alloc g source entry)
    emitted_items ← check_items (checked_add spent.emitted_items (emitted_count execution)) limits
    ok (execution, record { work = work; emitted_items = emitted_items })

  unfoldable pub build_token_row : LexerState → ℕ → Spent → Prepare (Row × Spent)
  build_token_row source token_count spent =
      prepared_vec alloc token_count >> collect (append_token_cell source) token_count 0 spent

  unfoldable pub build_token_table_row : ℕ → ℕ → Spent → Prepare (Row × Spent)
  build_token_table_row token_count source_index spent =
      ok_or (source_at source_index) invariant_violation >>= λ source.
      build_token_row source token_count spent

  unfoldable pub build_token_rows : ℕ → ℕ → Spent → Prepare (List Row × Spent)
  build_token_rows sources token_count spent =
      prepared_vec alloc sources >> collect (build_token_table_row token_count) sources 0 spent

  -- The table, and the budget that is left.
  unfoldable pub prepare_token_table : WorkBudget → Prepare (PreparedTokenTable × WorkBudget)
  prepare_token_table work = do
    sources ← source_count g
    cells ← check_items (checked_mul sources g.token_count) limits
    work' ← charge work cells
    built ← build_token_rows sources g.token_count (record { work = work'; emitted_items = 0 })
    ok (record { rows = built.0 }, built.1.work)
