-- ===== src/Engine.antt =====
-- The prepared grammar and the evaluation of one token or one mask, after
-- crates/greatgramma-core/src/engine.rs. A destination or scratch stack is a result: what it holds
-- before, or after an answer that does not use it, is never read.
pub mod Errors
pub mod Bounds
pub mod Internal
pub mod Holding
pub mod Parts
pub mod Viable
pub mod Masks
pub mod Matcher
use greatgramma_rust.Base.{
  ℕ, zero, suc, ◌+◌, ◌/◌, Bool, true, false, ◌||◌, Option, none, some, List, [], ◌∷◌, length, ltb,
  leb, ◌==◌, not, if◌then◌else◌, Outcome, ok, err, fault, ◌>>=◌, ◌>>◌, ok_or, map_err, for_range,
  checked_add, Allocator,
}
use greatgramma_rust.Normalized.{TokenId, TerminalId, ParserStateId, SequenceId, ValidatedGrammar}
use greatgramma_rust.Lexer.{LexerState, start}
use greatgramma_rust.Lalr.{RunDecision, Stack}
use greatgramma_rust.Lalr.Run.{execute_terminals_concrete_into, execute_terminals_concrete_in_place}
use greatgramma_rust.Lalr.Reference.{sequence_head_allowed_with_scratch}
use greatgramma_rust.TokenStep.{TokenExecution}
use greatgramma_rust.TokenStep.Budget.{invariant_violation, PreparationLimits, Prepare, new_budget}
use greatgramma_rust.Sequence.{sequence}
use greatgramma_rust.Spanner.{
  InverseBucket, Buckets, PreparedSpanner, inverse_buckets, token_execution,
  prepare_spanner_with_budget,
}
use greatgramma_rust.Preprocess.{SequenceClassification}
use greatgramma_rust.Preprocess.Table.{PreparedParser, classification, prepare_parser_with_budget}
use greatgramma_rust.Mask.{set}
use Errors.{
  EngineError, invalid_token, completed, constraint_violation, buffer_too_small, no_valid_token,
  allocation_failure, corrupt_prepared_data, Engine, map_parser_error, map_spanner_error,
}

pub record PreparedGrammar : Type 0 where
  pub grammar : ValidatedGrammar
  pub spanner : PreparedSpanner
  pub parser : PreparedParser
  pub mask_bytes : ℕ

pub data MatcherPhase : Type 0 where
  running : (lexer : LexerState) → MatcherPhase
  accepted : MatcherPhase

pub record MatcherStatus : Type 0 where
  pub phase : MatcherPhase
  pub parser_stack : Stack

-- `MatcherStatus::empty`, and what `set_accepted` leaves.
abbrev pub empty_status : MatcherStatus
empty_status = record { phase = MatcherPhase.accepted; parser_stack = [] }

pub data AdvanceResult : Type 0 where
  continue accepted : AdvanceResult

-- A decision to continue comes with the parser stack that it leaves.
pub data TokenDecision : Type 0 where
  rejected : TokenDecision
  continue : (lexer : LexerState) (stack : Stack) → TokenDecision
  accepted : TokenDecision

unfoldable pub running_lexer : MatcherPhase → Engine LexerState
running_lexer (running lexer) = ok lexer
running_lexer MatcherPhase.accepted = err completed

unfoldable pub bucket_contains_token : List TokenId → TokenId → Bool
bucket_contains_token [] token = false
bucket_contains_token (t ∷ ts) token = (t == token) || bucket_contains_token ts token

unfoldable pub bucket_sequence_for_token : InverseBucket → TokenId → Option SequenceId
unfolding bucket_contains_token
bucket_sequence_for_token bucket token =
    if bucket_contains_token bucket.tokens token then some bucket.sequence else none

abbrev pub stack_top : Stack → Option ParserStateId
stack_top [] = none
stack_top (top ∷ below) = some top

module _ (alloc : Allocator) where
  unfoldable pub prepare : ValidatedGrammar → PreparationLimits → Prepare PreparedGrammar
  unfolding checked_add
  prepare g limits = do
    (spanner, work) ← prepare_spanner_with_budget alloc limits g (new_budget limits)
    (parser, work') ← prepare_parser_with_budget alloc g.lalr spanner limits work
    rounded ← ok_or (checked_add g.token_count 7) invariant_violation
    ok (record { grammar = g; spanner = spanner; parser = parser; mask_bytes = rounded / 8 })

  module _ (prepared : PreparedGrammar) where
    unfoldable pub initial_status : Engine MatcherStatus
    initial_status =
        if alloc 1
        then ok (record {
          phase = running start;
          parser_stack = prepared.grammar.lalr.start_state ∷ [];
        })
        else err (allocation_failure 1)

    unfoldable pub check_token : TokenId → Engine (Unit {0})
    check_token token =
        if leb prepared.grammar.token_count token then err (invalid_token token) else ok tt

    -- The answer to a classified sequence; a dependent one is executed.
    abbrev pub classified : Stack → SequenceId → SequenceClassification → Engine Bool
    classified stack id SequenceClassification.always_readable = ok true
    classified stack id SequenceClassification.rejected = ok false
    classified stack id SequenceClassification.dependent =
        ok_or (sequence prepared.spanner.sequences id) corrupt_prepared_data >>= λ head.
        map_err map_parser_error
          (sequence_head_allowed_with_scratch alloc prepared.grammar.lalr stack head)

    unfoldable pub sequence_allowed_with_scratch : Stack → SequenceId → Engine Bool
    sequence_allowed_with_scratch stack id =
        ok_or (stack_top stack) corrupt_prepared_data >>= λ top.
        map_err map_parser_error (classification prepared.parser top id) >>= classified stack id

    abbrev pub sequence_allowed : Stack → Option SequenceId → Engine Bool
    unfolding sequence_allowed_with_scratch
    sequence_allowed stack none = ok false
    sequence_allowed stack (some id) = sequence_allowed_with_scratch stack id

    unfoldable pub bucket_allows_token : Stack → InverseBucket → TokenId → Engine Bool
    unfolding sequence_allowed_with_scratch bucket_sequence_for_token
    bucket_allows_token stack bucket token =
        sequence_allowed stack (bucket_sequence_for_token bucket token)

    -- The loop over the buckets ends at the first that allows the token.
    unfoldable pub any_bucket_allows : Stack → TokenId → Buckets → Engine Bool
    any_bucket_allows stack token [] = ok false
    any_bucket_allows stack token (bucket ∷ buckets) =
        bucket_allows_token stack bucket token >>= λ allowed. elim allowed [
          | true ↦ ok true
          | false ↦ any_bucket_allows stack token buckets
        ]

    unfoldable pub ordinary_token_allowed_with_scratch : LexerState → Stack → TokenId → Engine Bool
    ordinary_token_allowed_with_scratch lexer stack token =
        map_err map_spanner_error (inverse_buckets prepared.spanner lexer)
        >>= any_bucket_allows stack token

    abbrev pub after_eof : RunDecision → Engine TokenDecision
    after_eof RunDecision.accepted = ok TokenDecision.accepted
    after_eof RunDecision.rejected = ok rejected
    after_eof RunDecision.continue = ok rejected
    after_eof RunDecision.dependent = err corrupt_prepared_data

    abbrev pub run_eof : TerminalId → RunDecision × Stack → Engine TokenDecision
    run_eof eof (RunDecision.rejected, stack) = ok rejected
    run_eof eof (RunDecision.continue, stack) =
        map_err map_parser_error
          (execute_terminals_concrete_in_place alloc prepared.grammar.lalr stack (eof ∷ []))
        >>= λ (decision, _). after_eof decision
    run_eof eof (RunDecision.accepted, stack) = err corrupt_prepared_data
    run_eof eof (RunDecision.dependent, stack) = err corrupt_prepared_data

    unfoldable pub evaluate_eos_into : Stack → List TerminalId → TerminalId → Engine TokenDecision
    evaluate_eos_into stack emitted eof =
        map_err map_parser_error
          (execute_terminals_concrete_into alloc prepared.grammar.lalr stack emitted)
        >>= run_eof eof

    -- A token that the buckets allow must be executed to its end.
    abbrev pub after_run : LexerState → RunDecision × Stack → Engine TokenDecision
    after_run lexer (RunDecision.continue, stack) = ok (TokenDecision.continue lexer stack)
    after_run lexer (RunDecision.rejected, stack) = err corrupt_prepared_data
    after_run lexer (RunDecision.accepted, stack) = err corrupt_prepared_data
    after_run lexer (RunDecision.dependent, stack) = err corrupt_prepared_data

    abbrev pub run_allowed : Stack → LexerState → List TerminalId → Bool → Engine TokenDecision
    run_allowed stack lexer emitted false = ok rejected
    run_allowed stack lexer emitted true =
        map_err map_parser_error
          (execute_terminals_concrete_into alloc prepared.grammar.lalr stack emitted)
        >>= after_run lexer

    abbrev pub evaluate_execution :
        LexerState → Stack → TokenId → Option TokenExecution → Engine TokenDecision
    unfolding ordinary_token_allowed_with_scratch evaluate_eos_into
    evaluate_execution lexer stack token none = ok rejected
    evaluate_execution lexer stack token (some (TokenExecution.continue state emitted)) =
        ordinary_token_allowed_with_scratch lexer stack token >>= run_allowed stack state emitted
    evaluate_execution lexer stack token (some (TokenExecution.finished emitted eof)) =
        if eof == prepared.grammar.lalr.eof_terminal
        then evaluate_eos_into stack emitted eof
        else err corrupt_prepared_data

    unfoldable pub evaluate_token_into : LexerState → Stack → TokenId → Engine TokenDecision
    unfolding ordinary_token_allowed_with_scratch evaluate_eos_into
    evaluate_token_into lexer stack token =
        map_err map_spanner_error (token_execution prepared.spanner lexer token)
        >>= evaluate_execution lexer stack token

    abbrev pub is_allowed : TokenDecision → Bool
    is_allowed rejected = false
    is_allowed (TokenDecision.continue lexer stack) = true
    is_allowed TokenDecision.accepted = true

    unfoldable pub allows_status : MatcherStatus → TokenId → Engine Bool
    allows_status state token = do
      lexer ← running_lexer state.phase
      check_token token
      decision ← evaluate_token_into lexer state.parser_stack token
      ok (is_allowed decision)

    abbrev pub next_status_of : TokenId → TokenDecision → Engine (AdvanceResult × MatcherStatus)
    next_status_of token rejected = err (constraint_violation token)
    next_status_of token (TokenDecision.continue lexer stack) =
        ok (AdvanceResult.continue, record { phase = running lexer; parser_stack = stack })
    next_status_of token TokenDecision.accepted = ok (AdvanceResult.accepted, empty_status)

    unfoldable pub next_status_into :
        MatcherStatus → TokenId → Engine (AdvanceResult × MatcherStatus)
    next_status_into state token = do
      lexer ← running_lexer state.phase
      check_token token
      decision ← evaluate_token_into lexer state.parser_stack token
      next_status_of token decision
