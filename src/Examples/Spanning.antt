-- ===== src/Examples/Spanning.antt =====
-- Interned heads and inverse buckets of the letters grammar.
use greatgramma_rust.Base.{for_range, checked_add, checked_mul, checked_sub, try_u32}
use greatgramma_rust.Normalized.{checked_index, byte_class, transition_cell, transition, terminal}
use greatgramma_rust.Lexer.{begin_lexeme, finish_or_reject_residual, byte_step, lexer_step}
use greatgramma_rust.TokenStep.Budget.{
  check_limit, check_items, charge, prepared_vec, prepared_push,
}
use greatgramma_rust.TokenStep.Table.{source_count, source_at, source_index_for_count, source_index}
use greatgramma_rust.Sequence.Facts.{
  fact_index, mark_fact_seen, contains, push_fact, add_fact, append_predecessor, scan_move,
  scan_byte, scan_accepting, scan_source, scan_sources,
}
use greatgramma_rust.Base.{◌≡◌, ◌↔◌, refl, [], ◌∷◌, ok, arith, replicate, Answers}
use greatgramma_rust.TokenStep.Budget.{WorkBudget, new_budget}
use greatgramma_rust.Sequence.{
  SequenceTable, terminals_eq, sequence_id, copy_direct, find_sequence, intern_new, intern_head,
}
use greatgramma_rust.Sequence.Interning.{Interns, intern_head-Interns}
use greatgramma_rust.Sequence.Facts.{Scan, propagate_facts}
use greatgramma_rust.Sequence.Facts.Ends.{propagate_facts-Answers}
use greatgramma_rust.Spanner.Buckets.{Holds}
use greatgramma_rust.Spanner.Exact.{Realizes}
use greatgramma_rust.Spanner.Exact.Table.{prepare_spanner_with_budget-Realizes}
use greatgramma_rust.Examples.{roomy, letters_grammar}
use greatgramma_rust.Examples.Prepared.{letters_limits, letters_prepared, letters-spanner}

abbrev one_head : SequenceTable
one_head = record { singletons = []; sequences = (0 ∷ []) ∷ []; sequence_items = 1 }

abbrev two_heads : SequenceTable
two_heads = record { singletons = []; sequences = (0 ∷ []) ∷ (0 ∷ 0 ∷ []) ∷ []; sequence_items = 3 }

abbrev spent : WorkBudget
spent = record { used = 3; maximum = 100000 }

second_head :
    intern_head roomy letters_limits one_head (0 ∷ []) 0 (new_budget letters_limits)
    ≡ ok (1, two_heads, spent)
unfolding checked_add try_u32 check_limit check_items charge prepared_vec prepared_push terminals_eq
    sequence_id copy_direct find_sequence intern_new intern_head
second_head = refl

intern_head-Interns_example : Interns one_head (0 ∷ 0 ∷ []) (1, two_heads, spent)
intern_head-Interns_example =
    intern_head-Interns roomy letters_limits one_head (0 ∷ []) 0 (new_budget letters_limits)
      (1, two_heads, spent) second_head

-- Inside a lexeme, the second token emits two letters and one more may follow.
prepare_spanner_with_budget-Realizes_example :
    Holds
      (record { sequence = 1; tokens = 0 ∷ [] } ∷ record { sequence = 2; tokens = 1 ∷ [] } ∷ [])
      2
      1
    ↔ Realizes letters_grammar letters_prepared.spanner.token_table
        letters_prepared.spanner.sequences 2 2 1
prepare_spanner_with_budget-Realizes_example =
    prepare_spanner_with_budget-Realizes letters_grammar roomy letters_limits
      (new_budget letters_limits)
      (letters_prepared.spanner, record { used = 1350; maximum = 100000 }) letters-spanner 2
      (record { sequence = 1; tokens = 0 ∷ [] } ∷ record { sequence = 2; tokens = 1 ∷ [] } ∷ [])
      refl 2 1 (omega arith)

-- Only from inside a lexeme the next byte emits a terminal; both other sources lead there.
abbrev unscanned : Scan
unscanned = record {
  known = record { seen = replicate 9 0; facts = [] };
  predecessors = [] ∷ [] ∷ [] ∷ [];
  work = new_budget letters_limits;
}

abbrev letters_scanned : Scan
letters_scanned = record {
  known = record {
    seen = 0 ∷ 0 ∷ 0 ∷ 0 ∷ 0 ∷ 0 ∷ 1 ∷ 0 ∷ 0 ∷ [];
    facts = record { source = 2; terminal = 0 } ∷ [];
  };
  predecessors = [] ∷ [] ∷ (0 ∷ 1 ∷ []) ∷ [];
  work = record { used = 510; maximum = 100000 };
}

letters_scan : scan_sources roomy 3 letters_grammar 3 unscanned ≡ ok letters_scanned
unfolding for_range checked_add checked_mul checked_sub try_u32 checked_index byte_class
    transition_cell transition terminal begin_lexeme finish_or_reject_residual byte_step lexer_step
    check_limit check_items charge prepared_vec prepared_push source_count source_at
    source_index_for_count source_index fact_index mark_fact_seen contains push_fact add_fact
    append_predecessor scan_move scan_byte scan_accepting scan_source scan_sources
letters_scan = refl

propagate_facts-Answers_example : Answers (
    propagate_facts roomy 3 letters_scanned.predecessors letters_scanned.known letters_scanned.work)
propagate_facts-Answers_example =
    propagate_facts-Answers roomy 3 3 letters_grammar unscanned letters_scanned
      letters_scanned.predecessors letters_scanned.work refl letters_scan
