-- ===== src/Examples/Tables.antt =====
-- The prepared token table of the letters grammar.
use greatgramma_rust.Base.{
  ℕ, ◌≡◌, refl, Option, none, some, [], ◌∷◌, ok, arith, checked_add, checked_mul, checked_sub,
  try_u32, collect,
}
use greatgramma_rust.Normalized.{
  checked_index, byte_class, transition_cell, transition, terminal, token,
}
use greatgramma_rust.Lexer.{
  dfa, begin_lexeme, finish_or_reject_residual, byte_step, eos_step, lexer_step,
}
use greatgramma_rust.TokenStep.{
  TokenExecution, continue, finished, map_lexer_rejection, token_push, execute_byte, bytes_loop,
  execute_bytes, execute_eos, execute_entry, execute_token,
}
use greatgramma_rust.TokenStep.Budget.{
  WorkBudget, new_budget, check_limit, check_items, charge, prepared_vec,
}
use greatgramma_rust.TokenStep.Table.{
  PreparedTokenTable, cell, source_count, source_at, source_index, preparation_token_error,
  append_token_cell, build_token_row, build_token_table_row, build_token_rows, prepare_token_table,
}
use greatgramma_rust.TokenStep.Table.Sound.{prepare_token_table-Executes}
use greatgramma_rust.Examples.{roomy, letters_grammar}
use greatgramma_rust.Examples.Validation.{letters-IsWellFormed}

-- From the start state and the first DFA state the end of the input and the letters differ.
abbrev letters_table : PreparedTokenTable × WorkBudget
letters_table = (
  record {
    rows =
        (some (continue (dfa 1) []) ∷ some (continue (dfa 1) (0 ∷ [])) ∷ some (finished [] 1) ∷ [])
        ∷ (some (continue (dfa 1) []) ∷ some (continue (dfa 1) (0 ∷ [])) ∷ none ∷ [])
        ∷ (some (continue (dfa 1) (0 ∷ []))
            ∷ some (continue (dfa 1) (0 ∷ 0 ∷ []))
            ∷ some (finished (0 ∷ []) 1)
            ∷ [])
        ∷ [];
  },
  record { used = 21; maximum = 30 },
)

letters_prepared :
    prepare_token_table roomy letters_grammar
      (record { max_items = 9; max_work = 30 })
      (new_budget (record { max_items = 9; max_work = 30 }))
    ≡ ok letters_table
unfolding checked_add checked_mul checked_sub try_u32 checked_index byte_class transition_cell
    transition terminal token begin_lexeme finish_or_reject_residual byte_step eos_step lexer_step
    map_lexer_rejection token_push execute_byte bytes_loop execute_bytes execute_eos execute_entry
    check_limit check_items charge prepared_vec source_count source_at preparation_token_error
    append_token_cell collect build_token_row build_token_table_row build_token_rows
    prepare_token_table
letters_prepared = refl

prepare_token_table-Executes_example :
    (i : ℕ) × (x : Option TokenExecution) × (source_index letters_grammar (dfa 1) ≡ some i)
    × (cell letters_table.0 i 1 ≡ some x)
    × (execute_token roomy letters_grammar (dfa 1) 1 ≡ ok x)
prepare_token_table-Executes_example =
    prepare_token_table-Executes roomy letters_grammar (record { max_items = 9; max_work = 30 })
      letters-IsWellFormed (new_budget (record { max_items = 9; max_work = 30 })) letters_table
      letters_prepared (dfa 1) 1 (omega arith) (omega arith)
