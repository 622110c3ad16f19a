-- ===== src/Lalr/Run.antt =====
-- Runs over a slice of terminals, and the entry points of
-- crates/greatgramma-core/src/lalr.rs and crates/greatgramma-core/src/lalr_reference.rs.
use greatgramma_rust.Base.{
  suc, Bool, true, false, ℕ, suc, Option, none, some, List, [], ◌∷◌, length, ok, err, ◌>>=◌, ◌>>◌,
  ok_or, Allocator,
}
use greatgramma_rust.Normalized.{TerminalId, ValidatedLalr, is_ignored}
use greatgramma_rust.Lalr.{
  invariant_violation, RunDecision, UnderflowMode, RunWork, DecisionStatus, TerminalRun, shifted,
  Stack, Parse, new_work, charged, validate_inputs, copy_stack_into, run_terminal,
}

pub data ParserExecution : Type 0 where
  continue : (stack : Stack) → ParserExecution
  accepted : ParserExecution

abbrev pub unbounded : RunWork
unbounded = new_work none

unfoldable pub unbounded_decision : DecisionStatus × Stack → Parse (RunDecision × Stack)
unbounded_decision (DecisionStatus.complete decision work, stack) = ok (decision, stack)
unbounded_decision (DecisionStatus.work_limit_exceeded required, stack) = err invariant_violation

module _ (alloc : Allocator) (p : ValidatedLalr) where
  module _ (mode : UnderflowMode) (terminal_count : ℕ) where
    -- What the loop does with the run of one terminal; `rest` is its next round.
    abbrev pub after_terminal :
        (Stack → RunWork → Parse (DecisionStatus × Stack))
        → TerminalRun × Stack × RunWork
        → Parse (DecisionStatus × Stack)
    after_terminal rest (shifted, stack, w) = rest stack w
    after_terminal rest (TerminalRun.complete decision, stack, w) =
        ok (DecisionStatus.complete decision w.used, stack)
    after_terminal rest (TerminalRun.work_limit_exceeded, stack, w) =
        ok (DecisionStatus.work_limit_exceeded w.used, stack)

    -- The rest of a round, for a terminal that is ignored or not.
    abbrev pub take_terminal :
        (Stack → RunWork → Parse (DecisionStatus × Stack))
        → ℕ
        → TerminalId
        → Stack
        → RunWork
        → Bool
        → Parse (DecisionStatus × Stack)
    take_terminal rest terminal_index t stack w true = rest stack w
    take_terminal rest terminal_index t stack w false =
        run_terminal alloc p mode t terminal_index terminal_count stack w >>= after_terminal rest

    -- `run_initialized` from `terminal_index` on.
    unfoldable pub run_initialized :
        ℕ → List TerminalId → Stack → RunWork → Parse (DecisionStatus × Stack)
    run_initialized terminal_index [] stack work =
        ok (DecisionStatus.complete RunDecision.continue work.used, stack)
    run_initialized terminal_index (t ∷ ts) stack work =
        let rest = run_initialized (suc terminal_index) ts in
        charged work 1 (λ w. ok (DecisionStatus.work_limit_exceeded w.used, stack))
          λ w.
            ok_or (is_ignored p t) invariant_violation
            >>= take_terminal rest terminal_index t stack w

  unfoldable pub run_validated_into :
      Stack → List TerminalId → UnderflowMode → Option ℕ → Parse (DecisionStatus × Stack)
  run_validated_into initial_stack terminals mode maximum =
      charged (new_work maximum) (length initial_stack)
        (λ w. ok (DecisionStatus.work_limit_exceeded w.used, initial_stack))
        λ w. copy_stack_into alloc p initial_stack >>= λ stack.
          run_initialized mode (length terminals) 0 terminals stack w

  unfoldable pub run_validated_in_place :
      Stack → List TerminalId → UnderflowMode → Option ℕ → Parse (DecisionStatus × Stack)
  run_validated_in_place stack terminals mode maximum =
      charged (new_work maximum) (length stack)
        (λ w. ok (DecisionStatus.work_limit_exceeded w.used, stack))
        λ w. run_initialized mode (length terminals) 0 terminals stack w

  unfoldable pub execute_terminals_concrete_into :
      Stack → List TerminalId → Parse (RunDecision × Stack)
  execute_terminals_concrete_into stack terminals =
      run_validated_into stack terminals UnderflowMode.error none >>= unbounded_decision

  unfoldable pub execute_terminals_concrete_in_place :
      Stack → List TerminalId → Parse (RunDecision × Stack)
  execute_terminals_concrete_in_place stack terminals =
      run_validated_in_place stack terminals UnderflowMode.error none >>= unbounded_decision

  unfoldable pub execute_terminals_symbolic : Stack → List TerminalId → Parse RunDecision
  execute_terminals_symbolic stack terminals =
      validate_inputs p stack terminals
      >> run_validated_into stack terminals UnderflowMode.dependent none
      >>= unbounded_decision
      >>= λ (decision, _). ok decision

  -- The status, with the scratch stack dropped.
  unfoldable pub execute_terminals_symbolic_checked_with_limit :
      Stack → List TerminalId → ℕ → Parse DecisionStatus
  execute_terminals_symbolic_checked_with_limit stack terminals maximum_work =
      run_validated_into stack terminals UnderflowMode.dependent (some maximum_work)
      >>= λ (status, _). ok status

  abbrev pub execution : RunDecision × Stack → Parse (Option ParserExecution)
  execution (RunDecision.rejected, stack) = ok none
  execution (RunDecision.continue, stack) = ok (some (ParserExecution.continue stack))
  execution (RunDecision.accepted, stack) = ok (some ParserExecution.accepted)
  execution (RunDecision.dependent, stack) = err invariant_violation

  unfoldable pub execute_terminals : Stack → List TerminalId → Parse (Option ParserExecution)
  execute_terminals stack terminals =
      validate_inputs p stack terminals
      >> execute_terminals_concrete_into stack terminals
      >>= execution
