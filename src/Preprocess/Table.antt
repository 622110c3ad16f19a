-- ===== src/Preprocess/Table.antt =====
-- The table of classifications, after crates/greatgramma-core/src/preprocess.rs.
pub mod Sound
use greatgramma_rust.Base.{
  ℕ, Option, none, some, List, [], ◌∷◌, get_elem?, ok, err, ◌>>=◌, ◌>>◌, ok_or, map_err, collect,
  checked_add, checked_mul, try_u32, Allocator,
}
use greatgramma_rust.Normalized.{ParserStateId, TerminalId, SequenceId, ValidatedLalr}
use greatgramma_rust.Lalr.{
  ParserError, empty_stack, empty_sequence_head, invalid_state, invalid_terminal, invalid_sequence,
  stack_underflow, missing_goto, accept_before_end, invalid_reduction_progress, DecisionStatus,
  Parse,
}
use greatgramma_rust.Lalr.Run.{execute_terminals_symbolic_checked_with_limit}
use greatgramma_rust.TokenStep.Budget.{
  PreparationError, allocation_failure, invariant_violation, PreparationLimits, WorkBudget, Prepare,
  check_items, charge, remaining, new_budget, prepared_vec,
}
use greatgramma_rust.Sequence.{sequence_count, sequence}
use greatgramma_rust.Spanner.{PreparedSpanner}
use greatgramma_rust.Preprocess.{SequenceClassification, classify_decision}

pub record PreparedParser : Type 0 where
  pub rows : List (List SequenceClassification)

unfoldable pub classification :
    PreparedParser → ParserStateId → SequenceId → Parse SequenceClassification
classification parser state id =
    ok_or (get_elem? parser.rows state) (invalid_state state) >>= λ row.
    ok_or (get_elem? row id) (invalid_sequence id)

unfoldable pub map_parser_preparation_error : ParserError → PreparationError
map_parser_preparation_error (ParserError.allocation_failure requested) =
    allocation_failure requested
map_parser_preparation_error empty_stack = invariant_violation
map_parser_preparation_error empty_sequence_head = invariant_violation
map_parser_preparation_error (invalid_state state) = invariant_violation
map_parser_preparation_error (invalid_terminal terminal) = invariant_violation
map_parser_preparation_error (invalid_sequence id) = invariant_violation
map_parser_preparation_error (stack_underflow id pop_len len) = invariant_violation
map_parser_preparation_error (missing_goto state nonterminal id) = invariant_violation
map_parser_preparation_error (accept_before_end index) = invariant_violation
map_parser_preparation_error (invalid_reduction_progress state terminal) = invariant_violation
map_parser_preparation_error ParserError.invariant_violation = invariant_violation

-- The work of a run is charged; a run past the limit is charged for what it needed.
abbrev pub charge_status :
    WorkBudget → DecisionStatus → Prepare (SequenceClassification × WorkBudget)
unfolding classify_decision
charge_status work (DecisionStatus.complete decision inspected) =
    charge work inspected >>= λ work'. ok (classify_decision decision, work')
charge_status work (DecisionStatus.work_limit_exceeded required) =
    charge work required >>= λ _. err invariant_violation

module _ (alloc : Allocator) (p : ValidatedLalr) where
  unfoldable pub classify_sequence_head_with_budget :
      ParserStateId → List TerminalId → WorkBudget → Prepare (SequenceClassification × WorkBudget)
  classify_sequence_head_with_budget state [] work = err invariant_violation
  classify_sequence_head_with_budget state (t ∷ ts) work =
      map_err map_parser_preparation_error (
        execute_terminals_symbolic_checked_with_limit alloc p (state ∷ []) (t ∷ ts)
          (remaining work))
      >>= charge_status work

  module _ (spanner : PreparedSpanner) where
    unfoldable pub classify_cell :
        ParserStateId → ℕ → WorkBudget → Prepare (SequenceClassification × WorkBudget)
    classify_cell state sequence_index work = do
      id ← ok_or (try_u32 sequence_index) invariant_violation
      head ← ok_or (sequence spanner.sequences id) invariant_violation
      classify_sequence_head_with_budget state head work

    unfoldable pub prepare_parser_row :
        ParserStateId → ℕ → WorkBudget → Prepare (List SequenceClassification × WorkBudget)
    prepare_parser_row state sequences work =
        prepared_vec alloc sequences >> collect (classify_cell state) sequences 0 work

    -- The row of a state index.
    unfoldable pub parser_row_at :
        ℕ → ℕ → WorkBudget → Prepare (List SequenceClassification × WorkBudget)
    parser_row_at sequences state_index work =
        ok_or (try_u32 state_index) invariant_violation >>= λ state.
        prepare_parser_row state sequences work

    -- The cells of the table, and one more item for each row.
    abbrev table_items : Option ℕ → ℕ → Option ℕ
    table_items none states = none
    table_items (some cells) states = checked_add cells states

    unfoldable pub prepare_parser_with_budget :
        PreparationLimits → WorkBudget → Prepare (PreparedParser × WorkBudget)
    prepare_parser_with_budget limits work = do
      let states = p.dimensions.state_count
      let sequences = sequence_count spanner.sequences
      items ← check_items (table_items (checked_mul states sequences) states) limits
      work' ← charge work states
      prepared_vec alloc states
      (rows, work'') ← collect (parser_row_at sequences) states 0 work'
      ok (record { rows = rows }, work'')

    unfoldable pub prepare_parser : PreparationLimits → Prepare PreparedParser
    prepare_parser limits =
        prepare_parser_with_budget limits (new_budget limits) >>= λ (parser, work). ok parser
