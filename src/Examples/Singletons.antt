-- ===== src/Examples/Singletons.antt =====
-- The rows of the letters grammar.
use greatgramma_rust.Base.{
  get_elem?, some, ◌↔◌, for_range, collect, checked_add, checked_mul, checked_sub, try_u32,
  for_each, ◌≡◌, refl, [], ◌∷◌, ok, List, ℕ,
}
use greatgramma_rust.Normalized.{checked_index, byte_class, transition_cell, transition, terminal}
use greatgramma_rust.Lexer.{begin_lexeme, finish_or_reject_residual, byte_step, lexer_step}
use greatgramma_rust.TokenStep.Budget.{
  check_limit, check_items, charge, prepared_vec, prepared_push, new_budget, WorkBudget,
}
use greatgramma_rust.TokenStep.Table.{source_count, source_at, source_index_for_count, source_index}
use greatgramma_rust.Sequence.Facts.{
  fact_index, mark_fact_seen, contains, push_fact, add_fact, propagate_predecessor, propagate_fact,
  propagate_loop, propagate_facts, collect_singleton, collect_singletons, collect_singleton_row,
  collect_all_singletons, append_predecessor, scan_move, scan_byte, scan_accepting, scan_source,
  scan_sources, build_singletons,
}
use greatgramma_rust.Sequence.Facts.Next.{MayEmit}
use greatgramma_rust.Sequence.Facts.Complete.{build_singletons-Lists}
use greatgramma_rust.Examples.{roomy, letters_grammar}
use greatgramma_rust.Examples.Prepared.{letters_limits}

-- Inside a lexeme the letter is accepted; one byte leads there from each of the other sources.
abbrev letters_rows : List (List ℕ) × WorkBudget
letters_rows = ((0 ∷ []) ∷ (0 ∷ []) ∷ (0 ∷ []) ∷ [], record { used = 1289; maximum = 100000 })

letters-build_singletons :
    build_singletons roomy letters_grammar letters_limits (new_budget letters_limits)
    ≡ ok letters_rows
unfolding for_range collect checked_add checked_mul checked_sub try_u32 for_each checked_index
    byte_class transition_cell transition terminal begin_lexeme finish_or_reject_residual byte_step
    lexer_step check_limit check_items charge prepared_vec prepared_push source_count source_at
    source_index_for_count source_index fact_index mark_fact_seen contains push_fact add_fact
    propagate_predecessor propagate_fact propagate_loop propagate_facts collect_singleton
    collect_singletons collect_singleton_row collect_all_singletons append_predecessor scan_move
    scan_byte scan_accepting scan_source scan_sources build_singletons
letters-build_singletons = refl

build_singletons-Lists_example :
    ((k : ℕ) × (get_elem? {A = ℕ} (0 ∷ []) k ≡ some 0)) ↔ MayEmit letters_grammar 0 0
build_singletons-Lists_example =
    build_singletons-Lists roomy letters_grammar letters_limits (new_budget letters_limits)
      letters_rows 0 (0 ∷ []) 0 letters-build_singletons refl
