-- ===== src/Examples/Validation.antt =====
-- The letters grammar is valid.
use greatgramma_rust.Base.{
  ◌≡◌, refl, ok, some, [], ◌∷◌, arith, checked_add, checked_mul, try_u32, for_each,
}
use greatgramma_rust.Normalized.{is_ignored}
use greatgramma_rust.Validate.Ignored.{listed, is_ignored-validate}
use greatgramma_rust.Normalized.WellFormed.{IsWellFormed}
use greatgramma_rust.Errors.{default_limits}
use greatgramma_rust.Validate.{validate, validate_lengths, validate_starts, validate_entries}
use greatgramma_rust.Validate.Checks.{
  validate_id, check_length, check_limit, index_as_u32, checked_len, checked_product, checked_sum,
  count_as_usize, add_u64, mul_u64,
}
use greatgramma_rust.Validate.Tables.{
  validate_transition, validate_transitions, validate_lexer_terminal, validate_lexer_terminals,
  validate_goto, validate_gotos, validate_productions, validate_byte_class, validate_byte_classes,
  validate_action, validate_actions, validate_ignored_terminal, validate_ignored_terminals,
  mark_ignored_terminal, mark_ignored_terminals, build_ignored_terminal_table, count_token_bytes,
  validate_token_entry, validate_token_entries, validate_tokens,
}
use greatgramma_rust.Validate.Sizes.{logical_bytes, validation_base_work, validate_declared_sizes}
use greatgramma_rust.Validate.Sound.{validate-IsWellFormed}
use greatgramma_rust.Examples.{roomy, letters, letters_grammar}

pub validate-letters : validate roomy letters default_limits ≡ ok letters_grammar
unfolding checked_add checked_mul try_u32 for_each validate validate_lengths validate_starts
    validate_entries validate_id check_length check_limit index_as_u32 checked_len checked_product
    checked_sum count_as_usize add_u64 mul_u64 validate_transition validate_transitions
    validate_lexer_terminal validate_lexer_terminals validate_goto validate_gotos
    validate_productions validate_byte_class validate_byte_classes validate_action validate_actions
    validate_ignored_terminal validate_ignored_terminals mark_ignored_terminal
    mark_ignored_terminals build_ignored_terminal_table count_token_bytes validate_token_entry
    validate_token_entries validate_tokens logical_bytes validation_base_work
    validate_declared_sizes
validate-letters = refl

pub letters-IsWellFormed : IsWellFormed letters_grammar
letters-IsWellFormed =
    validate-IsWellFormed roomy letters default_limits letters_grammar validate-letters

validate-IsWellFormed_example : IsWellFormed letters_grammar
validate-IsWellFormed_example =
    validate-IsWellFormed roomy letters default_limits letters_grammar validate-letters

is_ignored-validate_example : is_ignored letters_grammar.lalr 2 ≡ some (listed 2 (2 ∷ []))
is_ignored-validate_example =
    is_ignored-validate roomy letters default_limits letters_grammar 2 validate-letters
      (omega arith)
