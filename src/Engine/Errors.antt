-- ===== src/Engine/Errors.antt =====
-- The errors of crates/greatgramma-core/src/engine.rs, and how others become such.
use greatgramma_rust.Base.{ℕ, List, Outcome}
use greatgramma_rust.Normalized.{TokenId}
use greatgramma_rust.Lalr.{
  ParserError, empty_stack, empty_sequence_head, invalid_state, invalid_terminal, invalid_sequence,
  stack_underflow, missing_goto, accept_before_end, invalid_reduction_progress, invariant_violation,
}
use greatgramma_rust.Spanner.{SpannerQueryError}

pub data EngineError : Type 0 where
  invalid_token : (token : TokenId) → EngineError
  invalid_row : (row rows : ℕ) → EngineError
  empty_batch : EngineError
  batch_size_mismatch : (expected actual : ℕ) → EngineError
  missing_running_token : (row : ℕ) → EngineError
  completed : EngineError
  constraint_violation : (token : TokenId) → EngineError
  batch_constraint_violation : (row : ℕ) (token : TokenId) → EngineError
  buffer_too_small : (required actual : ℕ) → EngineError
  no_valid_token : EngineError
  allocation_failure : (requested : ℕ) → EngineError
  corrupt_prepared_data : EngineError

abbrev pub Engine : Type 0 → Type 0
Engine A = Outcome EngineError A

-- A method that writes into the caller's buffer: an error comes with what it has written by then.
abbrev pub Filling : Type 0 → Type 0
Filling A = Outcome (EngineError × List ℕ) A

unfoldable pub map_parser_error : ParserError → EngineError
map_parser_error (ParserError.allocation_failure requested) = allocation_failure requested
map_parser_error empty_stack = corrupt_prepared_data
map_parser_error empty_sequence_head = corrupt_prepared_data
map_parser_error (invalid_state state) = corrupt_prepared_data
map_parser_error (invalid_terminal terminal) = corrupt_prepared_data
map_parser_error (invalid_sequence id) = corrupt_prepared_data
map_parser_error (stack_underflow id pop_len len) = corrupt_prepared_data
map_parser_error (missing_goto state nonterminal id) = corrupt_prepared_data
map_parser_error (accept_before_end index) = corrupt_prepared_data
map_parser_error (invalid_reduction_progress state terminal) = corrupt_prepared_data
map_parser_error invariant_violation = corrupt_prepared_data

unfoldable pub map_spanner_error : SpannerQueryError → EngineError
map_spanner_error error = corrupt_prepared_data
