-- ===== src/Examples/Prepared.antt =====
-- What preparation makes of the letters grammar.
use greatgramma_rust.Base.{
  for_range, collect, checked_add, checked_mul, checked_sub, try_u32, for_each, ◌≡◌, refl, none,
  some, [], ◌∷◌, ok,
}
use greatgramma_rust.Normalized.{
  checked_index, token, byte_class, transition_cell, transition, terminal, is_ignored, action, goto,
  production,
}
use greatgramma_rust.Lexer.{
  begin_lexeme, finish_or_reject_residual, byte_step, eos_step, lexer_step, dfa,
}
use greatgramma_rust.TokenStep.{
  map_lexer_rejection, token_push, execute_byte, bytes_loop, execute_bytes, execute_eos,
  execute_entry, continue, finished,
}
use greatgramma_rust.TokenStep.Budget.{
  check_limit, check_items, charge, remaining, prepared_vec, prepared_push, PreparationLimits,
  new_budget,
}
use greatgramma_rust.TokenStep.Table.{
  cell, source_count, source_at, source_index_for_count, source_index, preparation_token_error,
  append_token_cell, build_token_row, build_token_table_row, build_token_rows, prepare_token_table,
}
use greatgramma_rust.Lalr.{
  charge as parser_charge, validate_inputs, stack_top as parser_top, check_reduction_progress,
  rank_bound, parser_push, copy_stack_into, push_goto, underflow, reduce_onto, apply_production,
  apply_reduction, act, round, run_loop, run_terminal,
}
use greatgramma_rust.Lalr.Run.{
  unbounded_decision, run_initialized, run_validated_into,
  execute_terminals_symbolic_checked_with_limit,
}
use greatgramma_rust.Preprocess.{classify_decision, always_readable, dependent}
use greatgramma_rust.Preprocess.Table.{
  map_parser_preparation_error, classify_sequence_head_with_budget, classify_cell,
  prepare_parser_row, parser_row_at, prepare_parser_with_budget,
}
use greatgramma_rust.Sequence.{
  singleton_terminal, singleton_count, sequence_count, sequence, terminals_eq, sequence_id,
  copy_direct, find_sequence, intern_new, intern_head,
}
use greatgramma_rust.Sequence.Facts.{
  fact_index, mark_fact_seen, contains, push_fact, add_fact, propagate_predecessor, propagate_fact,
  propagate_loop, propagate_facts, collect_singleton, collect_singletons, collect_singleton_row,
  collect_all_singletons, append_predecessor, scan_move, scan_byte, scan_accepting, scan_source,
  scan_sources, build_singletons,
}
use greatgramma_rust.Spanner.{
  bucket_index, append_existing_member, append_member, append_continuation, append_continuations,
  append_execution, append_token_continuations, build_inverse_row, build_inverse_rows,
  prepare_spanner_with_budget,
}
use greatgramma_rust.Engine.{prepare, PreparedGrammar}
use greatgramma_rust.Examples.{roomy, letters_grammar}

abbrev pub letters_limits : PreparationLimits
letters_limits = record { max_items = 10000; max_work = 100000 }

-- A letter from the start emits nothing, and inside a lexeme emits the letter before. The head of
-- each bucket ends with the letter that is still to come.
abbrev pub letters_prepared : PreparedGrammar
letters_prepared = record {
  grammar = letters_grammar;
  spanner = record {
    token_table = record {
      rows =
          (some (continue (dfa 1) [])
            ∷ some (continue (dfa 1) (0 ∷ []))
            ∷ some (finished [] 1)
            ∷ [])
          ∷ (some (continue (dfa 1) []) ∷ some (continue (dfa 1) (0 ∷ [])) ∷ none ∷ [])
          ∷ (some (continue (dfa 1) (0 ∷ []))
              ∷ some (continue (dfa 1) (0 ∷ 0 ∷ []))
              ∷ some (finished (0 ∷ []) 1)
              ∷ [])
          ∷ [];
    };
    sequences = record {
      singletons = (0 ∷ []) ∷ (0 ∷ []) ∷ (0 ∷ []) ∷ [];
      sequences = (0 ∷ []) ∷ (0 ∷ 0 ∷ []) ∷ (0 ∷ 0 ∷ 0 ∷ []) ∷ [];
      sequence_items = 6;
    };
    inverse =
        (record { sequence = 0; tokens = 0 ∷ [] } ∷ record { sequence = 1; tokens = 1 ∷ [] } ∷ [])
        ∷ (record { sequence = 0; tokens = 0 ∷ [] } ∷ record { sequence = 1; tokens = 1 ∷ [] } ∷ [])
        ∷ (record { sequence = 1; tokens = 0 ∷ [] } ∷ record { sequence = 2; tokens = 1 ∷ [] } ∷ [])
        ∷ [];
  };
  parser = record {
    rows =
        (always_readable ∷ always_readable ∷ always_readable ∷ [])
        ∷ (dependent ∷ dependent ∷ dependent ∷ [])
        ∷ (always_readable ∷ dependent ∷ dependent ∷ [])
        ∷ (dependent ∷ dependent ∷ dependent ∷ [])
        ∷ [];
  };
  mask_bytes = 1;
}

pub letters-prepare : prepare roomy letters_grammar letters_limits ≡ ok letters_prepared
unfolding for_range collect checked_add checked_mul checked_sub try_u32 for_each checked_index token
    byte_class transition_cell transition terminal is_ignored action goto production begin_lexeme
    finish_or_reject_residual byte_step eos_step lexer_step map_lexer_rejection token_push
    execute_byte bytes_loop execute_bytes execute_eos execute_entry check_limit check_items charge
    remaining prepared_vec prepared_push cell source_count source_at source_index_for_count
    source_index preparation_token_error append_token_cell build_token_row build_token_table_row
    build_token_rows prepare_token_table parser_charge validate_inputs parser_top
    check_reduction_progress rank_bound parser_push copy_stack_into push_goto underflow reduce_onto
    apply_production apply_reduction act round run_loop run_terminal unbounded_decision
    run_initialized run_validated_into execute_terminals_symbolic_checked_with_limit
    classify_decision map_parser_preparation_error classify_sequence_head_with_budget classify_cell
    prepare_parser_row parser_row_at prepare_parser_with_budget singleton_terminal singleton_count
    sequence_count sequence terminals_eq sequence_id copy_direct find_sequence intern_new
    intern_head fact_index mark_fact_seen contains push_fact add_fact propagate_predecessor
    propagate_fact propagate_loop propagate_facts collect_singleton collect_singletons
    collect_singleton_row collect_all_singletons append_predecessor scan_move scan_byte
    scan_accepting scan_source scan_sources build_singletons bucket_index append_existing_member
    append_member append_continuation append_continuations append_execution
    append_token_continuations build_inverse_row build_inverse_rows prepare_spanner_with_budget
    prepare
letters-prepare = refl

pub letters-spanner :
    prepare_spanner_with_budget roomy letters_limits letters_grammar (new_budget letters_limits)
    ≡ ok (letters_prepared.spanner, record { used = 1350; maximum = 100000 })
unfolding for_range collect checked_add checked_mul checked_sub try_u32 for_each checked_index token
    byte_class transition_cell transition terminal is_ignored action goto production begin_lexeme
    finish_or_reject_residual byte_step eos_step lexer_step map_lexer_rejection token_push
    execute_byte bytes_loop execute_bytes execute_eos execute_entry check_limit check_items charge
    remaining prepared_vec prepared_push cell source_count source_at source_index_for_count
    source_index preparation_token_error append_token_cell build_token_row build_token_table_row
    build_token_rows prepare_token_table singleton_terminal singleton_count sequence_count sequence
    terminals_eq sequence_id copy_direct find_sequence intern_new intern_head fact_index
    mark_fact_seen contains push_fact add_fact propagate_predecessor propagate_fact propagate_loop
    propagate_facts collect_singleton collect_singletons collect_singleton_row
    collect_all_singletons append_predecessor scan_move scan_byte scan_accepting scan_source
    scan_sources build_singletons bucket_index append_existing_member append_member
    append_continuation append_continuations append_execution append_token_continuations
    build_inverse_row build_inverse_rows prepare_spanner_with_budget
letters-spanner = refl
