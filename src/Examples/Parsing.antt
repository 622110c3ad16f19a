-- ===== src/Examples/Parsing.antt =====
-- The parser's theorems on the letters grammar.
use greatgramma_rust.Base.{
  Answers, ◌≡◌, ◌≢◌, refl, true, false, some, [], ◌∷◌, ok, fault, out_of_fuel, checked_add,
  checked_mul, for_each,
}
use greatgramma_rust.Normalized.{checked_index, is_ignored, action, goto, production}
use greatgramma_rust.Lalr.{
  UnderflowMode, charge, validate_inputs, stack_top, check_reduction_progress, rank_bound,
  parser_push, copy_stack_into, push_goto, underflow, reduce_onto, apply_production,
  apply_reduction, act, round, run_loop, run_terminal,
}
use greatgramma_rust.Lalr.Run.{
  unbounded, unbounded_decision, run_initialized, run_validated_into, execute_terminals_symbolic,
  execute_terminals, execute_terminals_symbolic_checked_with_limit, ParserExecution,
  execute_terminals_concrete_into,
}
use greatgramma_rust.Lalr.Reference.{sequence_head_allowed_with_scratch}
use greatgramma_rust.Lalr.Termination.{run_terminal-ne-fault}
use greatgramma_rust.Lalr.Termination.Entry.{execute_terminals-Answers, symbolic_with_limit-Answers}
use greatgramma_rust.Lalr.Safe.Entry.{ExecutionIsSafe, execute_terminals-IsSafe}
use greatgramma_rust.Preprocess.{
  SequenceClassification, always_readable, classify_decision, classify_sequence_head,
}
use greatgramma_rust.Preprocess.Sound.{classify_sequence_head_sound}
use greatgramma_rust.Examples.{roomy, roomy-true, letters_grammar}
use greatgramma_rust.Examples.Validation.{letters-IsWellFormed}

-- After a first letter, a second is shifted and a third is reduced below and shifted.
two_letters : classify_sequence_head roomy letters_grammar.lalr 0 (0 ∷ 0 ∷ []) ≡ ok always_readable
unfolding checked_add checked_mul for_each checked_index is_ignored action goto production charge
    validate_inputs stack_top check_reduction_progress rank_bound parser_push copy_stack_into
    push_goto underflow reduce_onto apply_production apply_reduction act round run_loop run_terminal
    unbounded_decision run_initialized run_validated_into execute_terminals_symbolic
    classify_decision classify_sequence_head
two_letters = refl

-- From the state after a letter alone, the reduction needs the state below.
dependent_letter :
    classify_sequence_head roomy letters_grammar.lalr 1 (0 ∷ [])
    ≡ ok SequenceClassification.dependent
unfolding checked_add checked_mul for_each checked_index is_ignored action goto production charge
    validate_inputs stack_top check_reduction_progress rank_bound parser_push copy_stack_into
    push_goto underflow reduce_onto apply_production apply_reduction act round run_loop run_terminal
    unbounded_decision run_initialized run_validated_into execute_terminals_symbolic
    classify_decision classify_sequence_head
dependent_letter = refl

-- Two letters, an ignored terminal and the end of the input are accepted.
accepted_letters :
    execute_terminals roomy letters_grammar.lalr (0 ∷ []) (0 ∷ 2 ∷ 0 ∷ 1 ∷ [])
    ≡ ok (some ParserExecution.accepted)
unfolding checked_add checked_mul for_each checked_index is_ignored action goto production charge
    validate_inputs stack_top check_reduction_progress rank_bound parser_push copy_stack_into
    push_goto underflow reduce_onto apply_production apply_reduction act round run_loop run_terminal
    unbounded_decision run_initialized run_validated_into execute_terminals_concrete_into
    execute_terminals
accepted_letters = refl

classify_sequence_head_sound_example :
    (always_readable ≡ always_readable
      → sequence_head_allowed_with_scratch roomy letters_grammar.lalr (0 ∷ 2 ∷ []) (0 ∷ 0 ∷ [])
        ≡ ok true)
    × (always_readable ≡ SequenceClassification.rejected
        → sequence_head_allowed_with_scratch roomy letters_grammar.lalr (0 ∷ 2 ∷ []) (0 ∷ 0 ∷ [])
          ≡ ok false)
classify_sequence_head_sound_example =
    classify_sequence_head_sound roomy letters_grammar.lalr roomy-true 0 (2 ∷ []) (0 ∷ 0 ∷ [])
      always_readable two_letters

run_terminal-ne-fault_example :
    run_terminal roomy letters_grammar.lalr UnderflowMode.error 0 0 1 (1 ∷ 0 ∷ []) unbounded
    ≢ fault out_of_fuel
run_terminal-ne-fault_example =
    run_terminal-ne-fault roomy letters_grammar.lalr UnderflowMode.error 0 0 1 (1 ∷ 0 ∷ [])
      unbounded out_of_fuel

execute_terminals-Answers_example :
    Answers (execute_terminals roomy letters_grammar.lalr (0 ∷ []) (0 ∷ 2 ∷ 0 ∷ 1 ∷ []))
execute_terminals-Answers_example =
    execute_terminals-Answers roomy letters_grammar.lalr (0 ∷ []) (0 ∷ 2 ∷ 0 ∷ 1 ∷ [])

symbolic_with_limit-Answers_example : Answers (
    execute_terminals_symbolic_checked_with_limit roomy letters_grammar.lalr
      (0 ∷ [])
      (0 ∷ 0 ∷ [])
      9)
symbolic_with_limit-Answers_example =
    symbolic_with_limit-Answers roomy letters_grammar.lalr (0 ∷ []) (0 ∷ 0 ∷ []) 9

execute_terminals-IsSafe_example :
    ExecutionIsSafe letters_grammar.lalr
      (execute_terminals roomy letters_grammar.lalr (0 ∷ []) (0 ∷ 2 ∷ 0 ∷ []))
execute_terminals-IsSafe_example =
    execute_terminals-IsSafe roomy letters_grammar.lalr letters-IsWellFormed.lalr (0 ∷ [])
      (0 ∷ 2 ∷ 0 ∷ [])
