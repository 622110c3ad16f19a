-- ===== src/Examples/Matching.antt =====
-- The matcher on the letters grammar: one row inside a first letter, and one that is completed.
use greatgramma_rust.Base.{
  for_range, collect, checked_add, checked_mul, checked_sub, try_u32, for_each, ℕ, ◌≡◌, ◌<◌, refl,
  true, none, some, List, [], ◌∷◌, ok, err, arith, length, ◌↔◌,
}
use greatgramma_rust.Normalized.{
  checked_index, token, byte_class, transition_cell, transition, terminal, is_ignored, action, goto,
  production,
}
use greatgramma_rust.Lalr.{
  charge as parser_charge, validate_inputs, stack_top as parser_top, check_reduction_progress,
  rank_bound, parser_push, copy_stack_into, push_goto, underflow, reduce_onto, apply_production,
  apply_reduction, act, round, run_loop, run_terminal,
}
use greatgramma_rust.Lalr.Run.{
  unbounded_decision, run_initialized, run_validated_into, run_validated_in_place,
  execute_terminals_concrete_into, execute_terminals_concrete_in_place, execute_terminals_symbolic,
  execute_terminals_symbolic_checked_with_limit, execute_terminals,
}
use greatgramma_rust.Lalr.Reference.{
  execute_sequence_head_checked, execute_sequence_head, sequence_head_allowed_with_scratch,
}
use greatgramma_rust.Preprocess.Table.{
  classification, map_parser_preparation_error, classify_sequence_head_with_budget, classify_cell,
  prepare_parser_row, parser_row_at, prepare_parser_with_budget, prepare_parser,
}
use greatgramma_rust.Sequence.{
  singleton, singleton_terminal, singleton_count, sequence_count, sequence, terminals_eq,
  sequence_id, copy_direct, find_sequence, intern_new, intern_head,
}
use greatgramma_rust.TokenStep.Table.{
  cell, source_count, source_at, source_index_for_count, source_index, preparation_token_error,
  append_token_cell, build_token_row, build_token_table_row, build_token_rows, prepare_token_table,
}
use greatgramma_rust.Spanner.{
  invalid_source, bucket_index, query_source, singleton_terminals, inverse_buckets, inverse_tokens,
  token_execution, append_existing_member, append_member, append_continuation, append_continuations,
  append_execution, append_token_continuations, build_inverse_row, build_inverse_rows,
  prepare_spanner_with_budget, prepare_spanner,
}
use greatgramma_rust.Mask.{clear, set as set_bit_of, is_set}
use greatgramma_rust.Engine.Errors.{map_parser_error, map_spanner_error, completed}
use greatgramma_rust.Engine.{
  running_lexer, bucket_contains_token, bucket_sequence_for_token, prepare, initial_status,
  check_token, sequence_allowed_with_scratch, bucket_allows_token, any_bucket_allows,
  ordinary_token_allowed_with_scratch, evaluate_eos_into, evaluate_token_into, allows_status,
  next_status_into, running, MatcherStatus, empty_status, AdvanceResult, continue,
}
use greatgramma_rust.Engine.Masks.{
  set_tokens, fill_bucket_mask, fill_ordinary_mask, fill_eos_token, fill_eos_mask,
  fill_mask_with_scratch,
}
use greatgramma_rust.Engine.Matcher.{
  state, row_count, is_completed, initial_rows, into_matcher, allows, next_status_at,
  swap_status_at, advance_row, advance, stage_batch_row, stage_batch, advance_batch,
  stage_active_row, stage_active, advance_active, Matcher,
}
use greatgramma_rust.Engine.Matcher.Masks.{
  fill_row, fill_mask_row, fill_all_masks, mask, masks, fill_staged_mask_row, fill_staged_masks,
  advance_active_and_masks_impl, advance_active_and_masks, advance_active_and_masks_no_result,
}
use greatgramma_rust.Lexer.{dfa}
use greatgramma_rust.Engine.Matcher.Agree.{verdict, allows-advance}
use greatgramma_rust.Engine.Matcher.Staging.{IsAtomic}
use greatgramma_rust.Engine.Matcher.Atomic.{
  BatchRow, ActiveRow, advance_batch-IsAtomic, advance_active-IsAtomic,
}
use greatgramma_rust.Engine.Matcher.Masks.Closed.{
  FailsClosed, LeavesRows, mask-FailsClosed, no_result-LeavesRows,
  advance_active_and_masks-advance_active,
}
use greatgramma_rust.Engine.Matcher.Masks.Exact.{mask-allows, mask-advance}
use greatgramma_rust.Engine.Matcher.Completed.{AdvancesOnly, advance-AdvancesOnly, advance-accepted}
use greatgramma_rust.Engine.Matcher.Fresh.{fresh_status, IsFresh, into_matcher-IsFresh}
use greatgramma_rust.Engine.Viable.{
  Viable, Executes, ordinary_token_allowed-Viable, sequence_allowed-Executes,
}
use greatgramma_rust.Engine.Bounds.{set-prepare}
use greatgramma_rust.Examples.{roomy, roomy-true}
use greatgramma_rust.Examples.Prepared.{letters_limits, letters_prepared, letters-prepare}
use greatgramma_rust.Examples.{letters_grammar}

abbrev first_letter : MatcherStatus
first_letter = record { phase = running (dfa 1); parser_stack = 0 ∷ [] }

abbrev letters_matcher : Matcher
letters_matcher = record {
  prepared = letters_prepared;
  states = first_letter ∷ empty_status ∷ [];
  staging = empty_status ∷ empty_status ∷ [];
}

abbrev two_more : MatcherStatus
two_more = record { phase = running (dfa 1); parser_stack = 3 ∷ 2 ∷ 0 ∷ [] }

abbrev advanced_matcher : Matcher
advanced_matcher = record letters_matcher {
  states = two_more ∷ empty_status ∷ [];
  staging = first_letter ∷ empty_status ∷ [];
}

abbrev accepted_matcher : Matcher
accepted_matcher = record letters_matcher {
  states = empty_status ∷ empty_status ∷ [];
  staging = first_letter ∷ empty_status ∷ [];
}

abbrev fresh_matcher : Matcher
fresh_matcher = record letters_matcher {
  states = fresh_status letters_prepared ∷ fresh_status letters_prepared ∷ [];
}

-- Every token may follow a letter, also the end of the input; two more letters end the first two
-- lexemes. The completed row keeps its part of the output clear.
letters_runs :
    (mask roomy letters_matcher 0 (0 ∷ []) ≡ (ok tt, 7 ∷ []))
    × (allows roomy letters_matcher 0 1 ≡ ok true)
    × (verdict (advance roomy letters_matcher 0 1).0 ≡ ok true)
    × (advance_active_and_masks roomy letters_matcher (some 1 ∷ none ∷ []) (0 ∷ 0 ∷ [])
        ≡ ((ok (some continue ∷ none ∷ []), 7 ∷ 0 ∷ []), advanced_matcher))
    × (advance roomy letters_matcher 0 1 ≡ (ok continue, advanced_matcher))
    × (advance roomy letters_matcher 0 2 ≡ (ok AdvanceResult.accepted, accepted_matcher))
    × (ordinary_token_allowed_with_scratch roomy letters_prepared (dfa 1) (0 ∷ []) 1 ≡ ok true)
    × (sequence_allowed_with_scratch roomy letters_prepared (3 ∷ 2 ∷ 0 ∷ []) 1 ≡ ok true)
    × (into_matcher roomy letters_prepared 2 ≡ ok fresh_matcher)
unfolding for_range collect checked_add checked_mul checked_sub try_u32 for_each checked_index token
    byte_class transition_cell transition terminal is_ignored action goto production parser_charge
    validate_inputs parser_top check_reduction_progress rank_bound parser_push copy_stack_into
    push_goto underflow reduce_onto apply_production apply_reduction act round run_loop run_terminal
    unbounded_decision run_initialized run_validated_into run_validated_in_place
    execute_terminals_concrete_into execute_terminals_concrete_in_place execute_terminals_symbolic
    execute_terminals_symbolic_checked_with_limit execute_terminals execute_sequence_head_checked
    execute_sequence_head sequence_head_allowed_with_scratch classification
    map_parser_preparation_error classify_sequence_head_with_budget classify_cell prepare_parser_row
    parser_row_at prepare_parser_with_budget prepare_parser singleton singleton_terminal
    singleton_count sequence_count sequence terminals_eq sequence_id copy_direct find_sequence
    intern_new intern_head cell source_count source_at source_index_for_count source_index
    preparation_token_error append_token_cell build_token_row build_token_table_row build_token_rows
    prepare_token_table invalid_source bucket_index query_source singleton_terminals inverse_buckets
    inverse_tokens token_execution append_existing_member append_member append_continuation
    append_continuations append_execution append_token_continuations build_inverse_row
    build_inverse_rows prepare_spanner_with_budget prepare_spanner clear set_bit_of is_set
    map_parser_error map_spanner_error running_lexer bucket_contains_token bucket_sequence_for_token
    prepare initial_status check_token sequence_allowed_with_scratch bucket_allows_token
    any_bucket_allows ordinary_token_allowed_with_scratch evaluate_eos_into evaluate_token_into
    allows_status next_status_into set_tokens fill_bucket_mask fill_ordinary_mask fill_eos_token
    fill_eos_mask fill_mask_with_scratch state row_count is_completed initial_rows into_matcher
    allows next_status_at swap_status_at advance_row advance stage_batch_row stage_batch
    advance_batch stage_active_row stage_active advance_active fill_row fill_mask_row fill_all_masks
    mask masks fill_staged_mask_row fill_staged_masks advance_active_and_masks_impl
    advance_active_and_masks advance_active_and_masks_no_result
letters_runs = (refl, refl, refl, refl, refl, refl, refl, refl, refl)

-- The completed row takes no token. The mask of the row before it has been written by then.
mask-FailsClosed_example :
    FailsClosed (mask roomy letters_matcher 1 (9 ∷ 9 ∷ []))
    × FailsClosed (masks roomy letters_matcher (9 ∷ 9 ∷ []))
mask-FailsClosed_example = mask-FailsClosed roomy letters_matcher 1 (9 ∷ 9 ∷ [])

no_result-LeavesRows_example :
    LeavesRows roomy letters_matcher
      (advance_active_and_masks_no_result roomy letters_matcher (some 1 ∷ some 0 ∷ []) (0 ∷ 0 ∷ []))
no_result-LeavesRows_example =
    no_result-LeavesRows roomy letters_matcher (some 1 ∷ some 0 ∷ []) (0 ∷ 0 ∷ []) refl

allows-advance_example :
    allows roomy letters_matcher 0 1 ≡ verdict (advance roomy letters_matcher 0 1).0
allows-advance_example = allows-advance roomy roomy letters_matcher 0 1 roomy-true roomy-true refl

advance_batch-IsAtomic_example :
    IsAtomic
      (BatchRow roomy fresh_matcher (1 ∷ 0 ∷ []))
      fresh_matcher
      (advance_batch roomy fresh_matcher (1 ∷ 0 ∷ []))
advance_batch-IsAtomic_example = advance_batch-IsAtomic roomy fresh_matcher (1 ∷ 0 ∷ []) refl

advance_active-IsAtomic_example :
    IsAtomic
      (ActiveRow roomy letters_matcher (some 1 ∷ none ∷ []))
      letters_matcher
      (advance_active roomy letters_matcher (some 1 ∷ none ∷ []))
advance_active-IsAtomic_example =
    advance_active-IsAtomic roomy letters_matcher (some 1 ∷ none ∷ []) refl

advance_active_and_masks-advance_active_example :
    advance_active roomy letters_matcher (some 1 ∷ none ∷ [])
    ≡ (ok (some continue ∷ none ∷ []), advanced_matcher)
advance_active_and_masks-advance_active_example =
    advance_active_and_masks-advance_active roomy letters_matcher (some 1 ∷ none ∷ []) (0 ∷ 0 ∷ [])
      (7 ∷ 0 ∷ []) (some continue ∷ none ∷ []) advanced_matcher letters_runs.3

mask-allows_example : is_set (7 ∷ []) 1 ≡ true
mask-allows_example =
    mask-allows roomy letters_limits letters_grammar letters_matcher 0 (0 ∷ []) (7 ∷ []) 1 true
      letters-prepare (omega arith) letters_runs.0 letters_runs.1

advance-AdvancesOnly_example : AdvancesOnly roomy letters_matcher 0 1 continue advanced_matcher
advance-AdvancesOnly_example =
    advance-AdvancesOnly roomy letters_matcher 0 1 continue advanced_matcher letters_runs.4

advance-accepted_example :
    (is_completed accepted_matcher 0 ≡ ok true)
    × (allows roomy accepted_matcher 0 1 ≡ err completed)
advance-accepted_example =
    advance-accepted roomy letters_matcher accepted_matcher 0 2 1 letters_runs.5

ordinary_token_allowed-Viable_example :
    (true ≡ true) ↔ Viable roomy roomy-true letters_prepared (dfa 1) (0 ∷ []) 1
ordinary_token_allowed-Viable_example =
    ordinary_token_allowed-Viable roomy roomy-true letters_prepared letters_limits letters_grammar
      (dfa 1) (0 ∷ []) 1 true letters-prepare (omega arith) letters_runs.6

sequence_allowed-Executes_example :
    Executes roomy roomy-true letters_prepared (3 ∷ 2 ∷ 0 ∷ []) 1 true
sequence_allowed-Executes_example =
    sequence_allowed-Executes roomy roomy-true letters_prepared letters_limits letters_grammar
      (3 ∷ 2 ∷ 0 ∷ []) 1 true letters-prepare letters_runs.7

into_matcher-IsFresh_example : (0 < 2) × IsFresh letters_prepared 2 fresh_matcher
into_matcher-IsFresh_example =
    into_matcher-IsFresh roomy letters_prepared 2 fresh_matcher letters_runs.8

set-prepare_example : (output : List ℕ) × (set_bit_of (0 ∷ []) 2 ≡ ok output) × (length output ≡ 1)
set-prepare_example =
    set-prepare roomy letters_limits letters_grammar letters_prepared (0 ∷ []) 2 letters-prepare
      (omega arith) (omega arith)

mask-advance_example : is_set (7 ∷ []) 1 ≡ true
mask-advance_example =
    mask-advance roomy letters_limits letters_grammar letters_matcher 0 (0 ∷ []) (7 ∷ []) 1 true
      letters-prepare refl (omega arith) letters_runs.0 letters_runs.2
