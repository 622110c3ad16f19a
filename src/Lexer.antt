-- ===== src/Lexer.antt =====
-- One byte or EOS event against the normalized lexer, after
-- crates/greatgramma-core/src/lexer.rs.
pub mod Safe
use greatgramma_rust.Base.{ℕ, Option, none, some, Outcome, ok, err, ◌>>=◌}
use greatgramma_rust.Normalized.{
  DfaStateId, TerminalId, ValidatedLexer, ValidatedGrammar, transition, terminal,
}

-- `Start` is distinct from the DFA's start state.
pub data LexerState : Type 0 where
  start : LexerState
  dfa : DfaStateId → LexerState

pub data LexerInput : Type 0 where
  byte : ℕ → LexerInput
  eos : LexerInput

pub data LexerStep : Type 0 where
  continue : (state : LexerState) (emitted : Option TerminalId) → LexerStep
  finished : (terminal : Option TerminalId) (eof : TerminalId) → LexerStep

pub data LexerError : Type 0 where
  invalid_state : (state : DfaStateId) → LexerError
  cannot_begin_lexeme : (byte : ℕ) → LexerError
  byte_after_unfinished_residual : (state : DfaStateId) (byte : ℕ) → LexerError
  eos_after_unfinished_residual : (state : DfaStateId) → LexerError

abbrev pub LexerResult : Type 0
LexerResult = Outcome LexerError LexerStep

-- The three cases of a lookup in `begin_lexeme`.
abbrev pub begin_at : DfaStateId → ℕ → Option TerminalId → Option (Option DfaStateId) → LexerResult
begin_at source b emitted none = err (invalid_state source)
begin_at source b emitted (some none) = err (cannot_begin_lexeme b)
begin_at source b emitted (some (some destination)) = ok (continue (dfa destination) emitted)

unfoldable pub begin_lexeme : ValidatedLexer → ℕ → Option TerminalId → LexerResult
unfolding transition
begin_lexeme l b emitted =
    transition l l.start_state b >>= λ found. begin_at l.start_state b emitted found

abbrev pub finish_at : ValidatedLexer → DfaStateId → ℕ → Option (Option TerminalId) → LexerResult
unfolding begin_lexeme
finish_at l state b none = err (invalid_state state)
finish_at l state b (some none) = err (byte_after_unfinished_residual state b)
finish_at l state b (some (some t)) = begin_lexeme l b (some t)

unfoldable pub finish_or_reject_residual : ValidatedLexer → DfaStateId → ℕ → LexerResult
unfolding begin_lexeme terminal
finish_or_reject_residual l state b = finish_at l state b (terminal l state)

abbrev pub move_at : ValidatedLexer → DfaStateId → ℕ → Option (Option DfaStateId) → LexerResult
unfolding finish_or_reject_residual
move_at l source b none = err (invalid_state source)
move_at l source b (some none) = finish_or_reject_residual l source b
move_at l source b (some (some destination)) = ok (continue (dfa destination) none)

unfoldable pub byte_step : ValidatedLexer → LexerState → ℕ → LexerResult
unfolding begin_lexeme finish_or_reject_residual transition
byte_step l start b = begin_lexeme l b none
byte_step l (dfa source) b = transition l source b >>= λ found. move_at l source b found

abbrev pub eos_at : TerminalId → DfaStateId → Option (Option TerminalId) → LexerResult
eos_at eof source none = err (invalid_state source)
eos_at eof source (some none) = err (eos_after_unfinished_residual source)
eos_at eof source (some (some t)) = ok (finished (some t) eof)

unfoldable pub eos_step : ValidatedGrammar → LexerState → LexerResult
unfolding terminal
eos_step g start = ok (finished none g.lalr.eof_terminal)
eos_step g (dfa source) = eos_at g.lalr.eof_terminal source (terminal g.lexer source)

unfoldable pub lexer_step : ValidatedGrammar → LexerState → LexerInput → LexerResult
unfolding byte_step eos_step
lexer_step g state (byte b) = byte_step g.lexer state b
lexer_step g state eos = eos_step g state
