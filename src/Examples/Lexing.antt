-- ===== src/Examples/Lexing.antt =====
-- The lexer's and the tokens' theorems on the letters grammar.
use greatgramma_rust.Base.{
  ◌≡◌, refl, none, some, [], ◌∷◌, ok, ◌>>=◌, arith, checked_add, checked_mul,
}
use greatgramma_rust.Normalized.{
  bytes, checked_index, byte_class, transition_cell, transition, terminal, token,
}
use greatgramma_rust.Lexer.{
  start, dfa, begin_lexeme, finish_or_reject_residual, byte_step, lexer_step,
}
use greatgramma_rust.Lexer.Safe.{ByteResultIsSafe, byte_step-IsSafe}
use greatgramma_rust.TokenStep.{
  continue, map_lexer_rejection, token_push, execute_byte, bytes_loop, execute_bytes, execute_token,
}
use greatgramma_rust.TokenStep.Munch.{Delta, Munch, stop, begin, split}
use greatgramma_rust.TokenStep.Munch.Bytes.{execute_bytes_sound, execute_bytes_complete}
use greatgramma_rust.TokenStep.Segments.{and_then, emitted_before, execute_bytes-append}
use greatgramma_rust.TokenStep.Safe.{StepIsSafe, ExecutionIsValid, execute_token-IsSafe}
use greatgramma_rust.Examples.{roomy, roomy-true, letters_grammar}
use greatgramma_rust.Examples.Validation.{letters-IsWellFormed}

-- The first byte begins a lexeme; the second ends it and begins the next.
ab_executed :
    execute_bytes roomy letters_grammar start (97 ∷ 98 ∷ []) ≡ ok (some (continue (dfa 1) (0 ∷ [])))
unfolding checked_add checked_mul checked_index byte_class transition_cell transition terminal
    begin_lexeme finish_or_reject_residual byte_step lexer_step map_lexer_rejection token_push
    execute_byte bytes_loop execute_bytes
ab_executed = refl

ab_begins : Delta letters_grammar.lexer 0 97 (some 1)
unfolding checked_add checked_mul checked_index byte_class transition_cell transition
ab_begins = refl

ab_stops : Delta letters_grammar.lexer 1 98 none
unfolding checked_add checked_mul checked_index byte_class transition_cell transition
ab_stops = refl

ab_emits : terminal letters_grammar.lexer 1 ≡ some (some 0)
unfolding checked_index terminal
ab_emits = refl

ab_begins_again : Delta letters_grammar.lexer 0 98 (some 1)
unfolding checked_add checked_mul checked_index byte_class transition_cell transition
ab_begins_again = refl

ab_munched : Munch letters_grammar.lexer start (97 ∷ 98 ∷ []) (0 ∷ []) (dfa 1)
ab_munched = begin ab_begins (split ab_stops ab_emits ab_begins_again stop)

execute_bytes_sound_example : Munch letters_grammar.lexer start (97 ∷ 98 ∷ []) (0 ∷ []) (dfa 1)
execute_bytes_sound_example =
    execute_bytes_sound roomy letters_grammar (97 ∷ 98 ∷ []) start (dfa 1) (0 ∷ []) ab_executed

execute_bytes_complete_example :
    execute_bytes roomy letters_grammar start (97 ∷ 98 ∷ []) ≡ ok (some (continue (dfa 1) (0 ∷ [])))
execute_bytes_complete_example = execute_bytes_complete roomy letters_grammar roomy-true ab_munched

execute_bytes-append_example : execute_bytes roomy letters_grammar start (97 ∷ 98 ∷ 99 ∷ []) ≡ (
    execute_bytes roomy letters_grammar start (97 ∷ [])
    >>= and_then (λ s' em.
      execute_bytes roomy letters_grammar s' (98 ∷ 99 ∷ []) >>= λ x. ok (emitted_before em x)))
execute_bytes-append_example =
    execute_bytes-append roomy letters_grammar roomy-true (97 ∷ []) (98 ∷ 99 ∷ []) start

byte_step-IsSafe_example :
    ByteResultIsSafe letters_grammar.lexer 3 1 (byte_step letters_grammar.lexer (dfa 1) 98)
byte_step-IsSafe_example =
    byte_step-IsSafe letters_grammar.lexer 3 1 letters-IsWellFormed.lexer (dfa 1) 98 (omega arith)
      (omega arith)

second_token : token letters_grammar 1 ≡ some (bytes (97 ∷ 98 ∷ []))
unfolding token
second_token = refl

execute_token-IsSafe_example :
    StepIsSafe (ExecutionIsValid letters_grammar) (execute_token roomy letters_grammar (dfa 1) 1)
execute_token-IsSafe_example =
    execute_token-IsSafe roomy letters_grammar letters-IsWellFormed (dfa 1) 1 (bytes (97 ∷ 98 ∷ []))
      (omega arith) second_token (omega arith, (omega arith, tt))
