-- ===== src/Lalr.antt =====
-- Execution of terminals against the LALR table, after crates/greatgramma-core/src/lalr.rs.
-- A parser stack is a list whose head is the top: the reverse of the source's vector. On an error
-- the contents of the caller's buffer are not modelled, since every caller overwrites them.
pub mod Run
pub mod Termination
pub mod Fuel
pub mod Endings
pub mod Safe
pub mod Symbolic
pub mod Reference
use greatgramma_rust.Base.{
  ℕ, zero, suc, ◌+◌, ◌*◌, Bool, true, false, ◌||◌, Option, none, some, List, [], ◌∷◌, max, length,
  drop, reverse, leb, ltb, ◌==◌, if◌then◌else◌, Outcome, ok, err, fault, out_of_fuel, ◌>>=◌, ◌>>◌,
  ok_or, for_each, checked_add, Allocator,
}
use greatgramma_rust.Normalized.{
  Action, shift, reduce, accept, Production, ParserStateId, TerminalId, NonterminalId, ProductionId,
  SequenceId, ValidatedLalr, is_ignored, action, goto, production,
}

pub data ParserError : Type 0 where
  empty_stack : ParserError
  empty_sequence_head : ParserError
  invalid_state : (state : ParserStateId) → ParserError
  invalid_terminal : (terminal : TerminalId) → ParserError
  invalid_sequence : (sequence : SequenceId) → ParserError
  stack_underflow : (production : ProductionId) (pop_len stack_len : ℕ) → ParserError
  missing_goto :
      (state : ParserStateId) (nonterminal : NonterminalId) (production : ProductionId)
      → ParserError
  accept_before_end : (terminal_index : ℕ) → ParserError
  invalid_reduction_progress : (state : ParserStateId) (terminal : TerminalId) → ParserError
  allocation_failure : (requested : ℕ) → ParserError
  invariant_violation : ParserError

pub data RunDecision : Type 0 where
  rejected continue accepted dependent : RunDecision

pub data UnderflowMode : Type 0 where
  error dependent : UnderflowMode

pub record PreviousReduction : Type 0 where
  pub rank : ℕ
  pub pop_len : ℕ

pub record RunWork : Type 0 where
  pub used : ℕ
  pub maximum : Option ℕ

pub data DecisionStatus : Type 0 where
  complete : (decision : RunDecision) (work : ℕ) → DecisionStatus
  work_limit_exceeded : (required : ℕ) → DecisionStatus

pub data TerminalRun : Type 0 where
  shifted : TerminalRun
  complete : RunDecision → TerminalRun
  work_limit_exceeded : TerminalRun

pub data ReductionResult : Type 0 where
  applied : (pop_len : ℕ) → ReductionResult
  dependent : ReductionResult
  work_limit_exceeded : ReductionResult

abbrev pub Stack : Type 0
Stack = List ParserStateId

abbrev pub Parse : Type 0 → Type 0
Parse A = Outcome ParserError A

abbrev pub new_work : Option ℕ → RunWork
new_work maximum = record { used = 0; maximum = maximum }

-- `RunWork::charge`: whether the work still fits, and the work after the charge.
unfoldable pub charge : RunWork → ℕ → Parse (Bool × RunWork)
unfolding checked_add
charge w amount = elim w.maximum [
  | none ↦ ok (true, w)
  | some maximum ↦ do
    used ← ok_or (checked_add w.used amount) invariant_violation
    ok (leb used maximum, record w { used = used })
]

-- `if !work.charge(amount)? { return over }`.
abbrev pub charged {ℓ} :
    {A : Type ℓ}
    → RunWork
    → ℕ
    → (RunWork → Outcome ParserError A)
    → (RunWork → Outcome ParserError A)
    → Outcome ParserError A
charged w amount over within = charge w amount >>= λ (fits, w'). if fits then within w' else over w'

unfoldable pub validate_inputs : ValidatedLalr → Stack → List TerminalId → Parse (Unit {0})
unfolding for_each
validate_inputs p [] terminals = err empty_stack
validate_inputs p (top ∷ below) terminals = do
  for_each (λ _ s. if leb p.dimensions.state_count s then err (invalid_state s) else ok tt) 0
      (reverse (top ∷ below))
  for_each (λ _ t. if leb p.dimensions.terminal_count t then err (invalid_terminal t) else ok tt) 0
      terminals

unfoldable pub stack_top : Stack → Parse ParserStateId
stack_top [] = err invariant_violation
stack_top (top ∷ below) = ok top

unfoldable pub check_reduction_progress :
    Option PreviousReduction → ℕ → ParserStateId → TerminalId → Parse (Unit {0})
check_reduction_progress none next_rank state terminal = ok tt
check_reduction_progress (some previous) next_rank state terminal =
    if ltb next_rank previous.rank
    then ok tt
    else if next_rank == previous.rank
    then (if leb 2 previous.pop_len then ok tt else err (invalid_reduction_progress state terminal))
    else err (invalid_reduction_progress state terminal)

-- The reductions that the progress check allows for one terminal, with one more round for the
-- action that ends them: the bound on the rounds of `run_terminal`, see Lalr/Termination.
abbrev pub rank_rounds : ℕ → ℕ → ℕ
rank_rounds rank size = rank * (size + rank + 1) + 1

-- One more than each rank in the table.
unfoldable pub rank_bound : List Action → ℕ
rank_bound [] = 0
rank_bound (reduce production rank ∷ actions) = max (suc rank) (rank_bound actions)
rank_bound (_ ∷ actions) = rank_bound actions

-- One round of the `loop` of `run_terminal`: it returns, or goes on after a reduction.
pub data Round : Type 0 where
  done : (run : TerminalRun) (stack : Stack) (work : RunWork) → Round
  again : (previous : PreviousReduction) (stack : Stack) (work : RunWork) → Round

module _ (alloc : Allocator) (p : ValidatedLalr) where
  unfoldable pub parser_push : Stack → ParserStateId → Parse Stack
  parser_push stack state =
      if alloc (length stack + 1)
      then ok (state ∷ stack)
      else err (allocation_failure (length stack + 1))

  -- `alloc` is asked at every copy, where the source asks only if the destination's capacity is too
  -- small for the stack.
  unfoldable pub copy_stack_into : Stack → Parse Stack
  copy_stack_into source =
      if alloc (length source) then ok source else err (allocation_failure (length source))

  -- `apply_reduction` from its second charge on, with the stack popped down to `source`.
  unfoldable pub push_goto :
      Stack
      → ProductionId
      → Production
      → ParserStateId
      → Stack
      → RunWork
      → Parse (ReductionResult × Stack × RunWork)
  push_goto stack id prod source below work =
      charged work 1 (λ w. ok (work_limit_exceeded, stack, w))
        λ w. ok_or (goto p source prod.lhs) invariant_violation >>= λ cell.
          ok_or cell (missing_goto source prod.lhs id) >>= λ destination.
          charged w 1 (λ w'. ok (work_limit_exceeded, stack, w'))
            λ w'. parser_push (source ∷ below) destination >>= λ pushed.
              ok (applied prod.pop_len, pushed, w')

  unfoldable pub underflow :
      ProductionId
      → Production
      → Stack
      → RunWork
      → UnderflowMode
      → Parse (ReductionResult × Stack × RunWork)
  underflow id prod stack work error = err (stack_underflow id prod.pop_len (length stack))
  underflow id prod stack work dependent = ok (dependent, stack, work)

  -- The popped stack must hold the state to go on from.
  unfoldable pub reduce_onto :
      Stack
      → ProductionId
      → Production
      → RunWork
      → Stack
      → Parse (ReductionResult × Stack × RunWork)
  reduce_onto stack id prod work [] = err invariant_violation
  reduce_onto stack id prod work (source ∷ below) = push_goto stack id prod source below work

  unfoldable pub apply_production :
      Stack
      → ProductionId
      → UnderflowMode
      → RunWork
      → Production
      → Parse (ReductionResult × Stack × RunWork)
  apply_production stack id mode work prod =
      if leb (length stack) prod.pop_len
      then underflow id prod stack work mode
      else reduce_onto stack id prod work (drop prod.pop_len stack)

  unfoldable pub apply_reduction :
      Stack → ProductionId → UnderflowMode → RunWork → Parse (ReductionResult × Stack × RunWork)
  apply_reduction stack id mode work =
      charged work 1 (λ w. ok (work_limit_exceeded, stack, w))
        λ w. ok_or (production p id) invariant_violation >>= λ prod.
          apply_production stack id mode w prod

  module _ (mode : UnderflowMode) (terminal : TerminalId) (terminal_index terminal_count : ℕ) where
    -- What follows a reduction.
    abbrev pub after_reduction : ℕ → ReductionResult × Stack × RunWork → Parse Round
    after_reduction rank (applied pop_len, stack, w) =
        ok (again (record { rank = rank; pop_len = pop_len }) stack w)
    after_reduction rank (dependent, stack, w) = ok (done (complete dependent) stack w)
    after_reduction rank (work_limit_exceeded, stack, w) = ok (done work_limit_exceeded stack w)

    -- The `match action` of the loop.
    unfoldable pub act :
        Option PreviousReduction → Stack → RunWork → ParserStateId → Action → Parse Round
    act previous stack work state Action.error = ok (done (complete rejected) stack work)
    act previous stack work state (shift destination) =
        charged work 1 (λ w. ok (done work_limit_exceeded stack w))
          λ w. parser_push stack destination >>= λ pushed. ok (done shifted pushed w)
    act previous stack work state (reduce id rank) = do
      check_reduction_progress previous rank state terminal
      result ← apply_reduction stack id mode work
      after_reduction rank result
    act previous stack work state accept =
        if terminal_index + 1 == terminal_count
        then ok (done (complete accepted) stack work)
        else err (accept_before_end terminal_index)

    unfoldable pub round : Option PreviousReduction → Stack → RunWork → Parse Round
    round previous stack work = stack_top stack >>= λ state.
        charged work 1 (λ w. ok (done work_limit_exceeded stack w))
          λ w. ok_or (action p state terminal) invariant_violation >>= λ a.
            act previous stack w state a

    -- What the loop does with a round; `rest` is its next round.
    abbrev pub after_round :
        (PreviousReduction → Stack → RunWork → Parse (TerminalRun × Stack × RunWork))
        → Round
        → Parse (TerminalRun × Stack × RunWork)
    after_round rest (done run stack work) = ok (run, stack, work)
    after_round rest (again previous stack work) = rest previous stack work

    unfoldable pub run_loop :
        ℕ → Option PreviousReduction → Stack → RunWork → Parse (TerminalRun × Stack × RunWork)
    run_loop zero previous stack work = fault out_of_fuel
    run_loop (suc fuel) previous stack work =
        round previous stack work >>= after_round (λ previous'. run_loop fuel (some previous'))

    unfoldable pub run_terminal : Stack → RunWork → Parse (TerminalRun × Stack × RunWork)
    run_terminal stack work =
        run_loop (rank_rounds (rank_bound p.actions) (length stack)) none stack work
