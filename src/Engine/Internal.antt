-- ===== src/Engine/Internal.antt =====
-- Which errors the evaluation of a token in crates/greatgramma-core/src/engine.rs can have of its
-- own: a failed reservation or corrupt tables, never a verdict on the token.
use greatgramma_rust.Base.{
  Bool, true, false, ◌≡◌, refl, List, [], ◌∷◌, Option, none, some, ◌==◌, if◌then◌else◌, Outcome, ok,
  err, fault, ◌>>=◌, ok_or, map_err, Allocator,
}
use greatgramma_rust.Normalized.{TokenId, TerminalId, SequenceId}
use greatgramma_rust.Lexer.{LexerState}
use greatgramma_rust.TokenStep.{TokenExecution, continue, finished}
use greatgramma_rust.Lalr.{
  ParserError, RunDecision, Stack, empty_stack, empty_sequence_head, invalid_state,
  invalid_terminal, invalid_sequence, stack_underflow, missing_goto, accept_before_end,
  invalid_reduction_progress, invariant_violation,
}
use greatgramma_rust.Spanner.{SpannerQueryError, Buckets, inverse_buckets, token_execution}
use greatgramma_rust.Preprocess.Table.{classification}
use greatgramma_rust.Preprocess.{SequenceClassification}
use greatgramma_rust.Engine.{
  PreparedGrammar, stack_top, bucket_allows_token, sequence_allowed, classified,
  sequence_allowed_with_scratch, any_bucket_allows, ordinary_token_allowed_with_scratch, after_eof,
  run_eof, evaluate_eos_into, after_run, run_allowed, evaluate_execution, evaluate_token_into,
  bucket_sequence_for_token,
}
use greatgramma_rust.Sequence.{sequence}
use greatgramma_rust.Lalr.Reference.{sequence_head_allowed_with_scratch}
use greatgramma_rust.Engine.Errors.{
  EngineError, corrupt_prepared_data, allocation_failure, invalid_token, invalid_row, empty_batch,
  batch_size_mismatch, missing_running_token, completed, constraint_violation,
  batch_constraint_violation, buffer_too_small, no_valid_token, Engine, map_parser_error,
  map_spanner_error,
}

abbrev pub is_internal : EngineError → Bool
is_internal (allocation_failure n) = true
is_internal corrupt_prepared_data = true
is_internal (invalid_token t) = false
is_internal (invalid_row r n) = false
is_internal empty_batch = false
is_internal (batch_size_mismatch n k) = false
is_internal (missing_running_token r) = false
is_internal completed = false
is_internal (constraint_violation t) = false
is_internal (batch_constraint_violation r t) = false
is_internal (buffer_too_small n k) = false
is_internal no_valid_token = false

unfoldable pub Internal : {A : Type 0} → Engine A → Type 0
Internal (ok a) = Unit
Internal (err e) = is_internal e ≡ true
Internal (fault x) = Unit

bind-Internal :
    {A B : Type 0} (o : Engine A) (next : A → Engine B)
    → Internal o
    → ((a : A) → Internal (next a))
    → Internal (o >>= next)
unfolding Internal
bind-Internal (ok a) next h k = k a
bind-Internal (err e) next h k = h
bind-Internal (fault x) next h k = tt

map_parser_error-Internal : (e : ParserError) → is_internal (map_parser_error e) ≡ true
unfolding map_parser_error
map_parser_error-Internal (ParserError.allocation_failure n) = refl
map_parser_error-Internal empty_stack = refl
map_parser_error-Internal empty_sequence_head = refl
map_parser_error-Internal (invalid_state s) = refl
map_parser_error-Internal (invalid_terminal t) = refl
map_parser_error-Internal (invalid_sequence i) = refl
map_parser_error-Internal (stack_underflow i n k) = refl
map_parser_error-Internal (missing_goto s n i) = refl
map_parser_error-Internal (accept_before_end i) = refl
map_parser_error-Internal (invalid_reduction_progress s t) = refl
map_parser_error-Internal invariant_violation = refl

parser-Internal : {A : Type 0} (o : Outcome ParserError A) → Internal (map_err map_parser_error o)
unfolding Internal
parser-Internal (ok a) = tt
parser-Internal (err e) = map_parser_error-Internal e
parser-Internal (fault x) = tt

spanner-Internal :
    {A : Type 0} (o : Outcome SpannerQueryError A) → Internal (map_err map_spanner_error o)
unfolding Internal map_spanner_error
spanner-Internal (ok a) = tt
spanner-Internal (err e) = refl
spanner-Internal (fault x) = tt

ok_or-Internal : {A : Type 0} (o : Option A) → Internal (ok_or o corrupt_prepared_data)
unfolding Internal
ok_or-Internal none = refl
ok_or-Internal (some a) = tt

ok-Internal : {A : Type 0} (a : A) → Internal (ok a)
unfolding Internal
ok-Internal a = tt

corrupt-Internal : (A : Type 0) → Internal {A = A} (err corrupt_prepared_data)
unfolding Internal
corrupt-Internal A = refl

or_else-Internal :
    (o : Engine Bool)
    → Internal o
    → (allowed : Bool) → Internal (elim allowed [ true ↦ ok true | false ↦ o ])
or_else-Internal o h true = ok-Internal true
or_else-Internal o h false = h

module _ (alloc : Allocator) (prepared : PreparedGrammar) where
  classified-Internal :
      (stack : Stack) (id : SequenceId) (c : SequenceClassification)
      → Internal (classified alloc prepared stack id c)
  classified-Internal stack id SequenceClassification.always_readable = ok-Internal _
  classified-Internal stack id SequenceClassification.rejected = ok-Internal _
  classified-Internal stack id SequenceClassification.dependent =
      bind-Internal (ok_or (sequence prepared.spanner.sequences id) corrupt_prepared_data)
        (λ head.
          map_err map_parser_error
            (sequence_head_allowed_with_scratch alloc prepared.grammar.lalr stack head))
        (ok_or-Internal _) (λ head. parser-Internal _)

  sequence_allowed-Internal :
      (stack : Stack) (id : Option SequenceId) → Internal (sequence_allowed alloc prepared stack id)
  unfolding sequence_allowed_with_scratch
  sequence_allowed-Internal stack none = ok-Internal _
  sequence_allowed-Internal stack (some id) =
      bind-Internal (ok_or (stack_top stack) corrupt_prepared_data) _ (ok_or-Internal _) (λ top.
        bind-Internal (map_err map_parser_error (classification prepared.parser top id)) _
          (parser-Internal _) (classified-Internal stack id))

  any_bucket_allows-Internal :
      (stack : Stack) (token : TokenId) (buckets : Buckets)
      → Internal (any_bucket_allows alloc prepared stack token buckets)
  unfolding any_bucket_allows bucket_allows_token
  any_bucket_allows-Internal stack token [] = ok-Internal _
  any_bucket_allows-Internal stack token (bucket ∷ buckets) =
      bind-Internal _ _ (sequence_allowed-Internal stack (bucket_sequence_for_token bucket token))
        (or_else-Internal _ (any_bucket_allows-Internal stack token buckets))

  ordinary-Internal :
      (lexer : LexerState) (stack : Stack) (token : TokenId)
      → Internal (ordinary_token_allowed_with_scratch alloc prepared lexer stack token)
  unfolding ordinary_token_allowed_with_scratch
  ordinary-Internal lexer stack token =
      bind-Internal (map_err map_spanner_error (inverse_buckets prepared.spanner lexer)) _
        (spanner-Internal _) (any_bucket_allows-Internal stack token)

  after_eof-Internal : (d : RunDecision) → Internal (after_eof alloc prepared d)
  after_eof-Internal RunDecision.accepted = ok-Internal _
  after_eof-Internal RunDecision.rejected = ok-Internal _
  after_eof-Internal RunDecision.continue = ok-Internal _
  after_eof-Internal RunDecision.dependent = corrupt-Internal _

  run_eof-Internal :
      (eof : TerminalId) (r : RunDecision × Stack) → Internal (run_eof alloc prepared eof r)
  run_eof-Internal eof (RunDecision.rejected, stack) = ok-Internal _
  run_eof-Internal eof (RunDecision.continue, stack) =
      bind-Internal _ _ (parser-Internal _) (λ (d, _). after_eof-Internal d)
  run_eof-Internal eof (RunDecision.accepted, stack) = corrupt-Internal _
  run_eof-Internal eof (RunDecision.dependent, stack) = corrupt-Internal _

  after_run-Internal :
      (lexer : LexerState) (r : RunDecision × Stack) → Internal (after_run alloc prepared lexer r)
  after_run-Internal lexer (RunDecision.continue, stack) = ok-Internal _
  after_run-Internal lexer (RunDecision.rejected, stack) = corrupt-Internal _
  after_run-Internal lexer (RunDecision.accepted, stack) = corrupt-Internal _
  after_run-Internal lexer (RunDecision.dependent, stack) = corrupt-Internal _

  run_allowed-Internal :
      (stack : Stack) (lexer : LexerState) (emitted : List TerminalId) (allowed : Bool)
      → Internal (run_allowed alloc prepared stack lexer emitted allowed)
  run_allowed-Internal stack lexer emitted false = ok-Internal _
  run_allowed-Internal stack lexer emitted true =
      bind-Internal _ _ (parser-Internal _) (after_run-Internal lexer)

  evaluate_eos_into-Internal :
      (stack : Stack) (emitted : List TerminalId) (eof : TerminalId)
      → Internal (evaluate_eos_into alloc prepared stack emitted eof)
  unfolding evaluate_eos_into
  evaluate_eos_into-Internal stack emitted eof =
      bind-Internal _ _ (parser-Internal _) (run_eof-Internal eof)

  if-Internal :
      {A : Type 0} (test : Bool) (o : Engine A)
      → Internal o
      → Internal (if test then o else err corrupt_prepared_data)
  if-Internal true o h = h
  if-Internal false o h = corrupt-Internal _

  execution-Internal :
      (lexer : LexerState) (stack : Stack) (token : TokenId) (x : Option TokenExecution)
      → Internal (evaluate_execution alloc prepared lexer stack token x)
  unfolding evaluate_execution
  execution-Internal lexer stack token none = ok-Internal _
  execution-Internal lexer stack token (some (continue state emitted)) =
      bind-Internal _ _ (ordinary-Internal lexer stack token)
        (run_allowed-Internal stack state emitted)
  execution-Internal lexer stack token (some (finished emitted eof)) =
      if-Internal (eof == prepared.grammar.lalr.eof_terminal) _
        (evaluate_eos_into-Internal stack emitted eof)

  pub evaluate_token_into-Internal :
      (lexer : LexerState) (stack : Stack) (token : TokenId)
      → Internal (evaluate_token_into alloc prepared lexer stack token)
  unfolding evaluate_token_into
  evaluate_token_into-Internal lexer stack token =
      bind-Internal (map_err map_spanner_error (token_execution prepared.spanner lexer token)) _
        (spanner-Internal _) (execution-Internal lexer stack token)
