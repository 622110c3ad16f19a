-- ===== src/TokenStep.antt =====
-- One model token against the lexer, after the execution part of
-- crates/greatgramma-core/src/token_step.rs.
pub mod Munch
pub mod Segments
pub mod Budget
pub mod Table
pub mod Safe
use greatgramma_rust.Base.{
  ℕ, ◌+◌, Option, none, some, List, [], ◌∷◌, ◌++◌, length, if◌then◌else◌, Outcome, ok, err, fault,
  ◌>>=◌, ◌>>◌, ok_or, Allocator,
}
use greatgramma_rust.Normalized.{
  TokenId, DfaStateId, TerminalId, TokenEntry, bytes, eos, ValidatedGrammar, token, terminal,
}
use greatgramma_rust.Lexer.{
  LexerState, start, dfa, LexerInput, byte, LexerStep, LexerError, LexerResult, lexer_step,
}

pub data TokenExecution : Type 0 where
  continue : (state : LexerState) (emitted : List TerminalId) → TokenExecution
  finished : (emitted : List TerminalId) (eof : TerminalId) → TokenExecution

pub data TokenStepError : Type 0 where
  invalid_token : (token : TokenId) → TokenStepError
  invalid_state : (state : DfaStateId) → TokenStepError
  allocation_failure : (requested : ℕ) → TokenStepError

abbrev pub Step : Type 0 → Type 0
Step A = Outcome TokenStepError A

unfoldable pub map_lexer_rejection {ℓ} :
    {A : Type ℓ} → LexerError → Outcome TokenStepError (Option A)
map_lexer_rejection (LexerError.invalid_state state) = err (invalid_state state)
map_lexer_rejection (LexerError.cannot_begin_lexeme b) = ok none
map_lexer_rejection (LexerError.byte_after_unfinished_residual state b) = ok none
map_lexer_rejection (LexerError.eos_after_unfinished_residual state) = ok none

module _ (alloc : Allocator) where
  unfoldable pub token_push : List TerminalId → TerminalId → Step (List TerminalId)
  token_push values value =
      if alloc (length values + 1)
      then ok (values ++ value ∷ [])
      else err (allocation_failure (length values + 1))

  -- The state after a byte, with the emitted terminals; `none` is a rejection.
  abbrev pub after_byte_step :
      List TerminalId → LexerResult → Step (Option (LexerState × List TerminalId))
  after_byte_step emitted (ok (LexerStep.continue destination none)) =
      ok (some (destination, emitted))
  after_byte_step emitted (ok (LexerStep.continue destination (some t))) =
      token_push emitted t >>= λ pushed. ok (some (destination, pushed))
  after_byte_step emitted (ok (LexerStep.finished t eof)) = ok none
  after_byte_step emitted (err e) = map_lexer_rejection e
  after_byte_step emitted (fault x) = fault x

  unfoldable pub execute_byte :
      ValidatedGrammar
      → LexerState
      → ℕ
      → List TerminalId
      → Step (Option (LexerState × List TerminalId))
  execute_byte g state b emitted = after_byte_step emitted (lexer_step g state (byte b))

  abbrev pub after_byte :
      (LexerState → List TerminalId → Step (Option TokenExecution))
      → Option (LexerState × List TerminalId)
      → Step (Option TokenExecution)
  after_byte rest none = ok none
  after_byte rest (some (state, emitted)) = rest state emitted

  -- The loop of `execute_bytes` from a state and the terminals emitted so far.
  unfoldable pub bytes_loop :
      ValidatedGrammar → List ℕ → LexerState → List TerminalId → Step (Option TokenExecution)
  bytes_loop g [] state emitted = ok (some (continue state emitted))
  bytes_loop g (b ∷ bs) state emitted =
      execute_byte g state b emitted >>= after_byte (bytes_loop g bs)

  unfoldable pub execute_bytes :
      ValidatedGrammar → LexerState → List ℕ → Step (Option TokenExecution)
  execute_bytes g source bs = bytes_loop g bs source []

  abbrev pub after_eos : LexerResult → Step (Option TokenExecution)
  after_eos (ok (LexerStep.finished none eof)) =
      if alloc 1 then ok (some (finished [] eof)) else err (allocation_failure 1)
  after_eos (ok (LexerStep.finished (some t) eof)) =
      if alloc 1 then ok (some (finished (t ∷ []) eof)) else err (allocation_failure 1)
  after_eos (ok (LexerStep.continue state emitted)) = ok none
  after_eos (err e) = map_lexer_rejection e
  after_eos (fault x) = fault x

  unfoldable pub execute_eos : ValidatedGrammar → LexerState → Step (Option TokenExecution)
  execute_eos g source = after_eos (lexer_step g source LexerInput.eos)

  unfoldable pub execute_entry :
      ValidatedGrammar → LexerState → TokenEntry → Step (Option TokenExecution)
  execute_entry g source (bytes bs) = execute_bytes g source bs
  execute_entry g source eos = execute_eos g source

  unfoldable pub check_source : ValidatedGrammar → LexerState → Step (Unit {0})
  check_source g start = ok tt
  check_source g (dfa state) = elim (terminal g.lexer state) [
    | none ↦ err (invalid_state state)
    | some _ ↦ ok tt
  ]

  unfoldable pub execute_token :
      ValidatedGrammar → LexerState → TokenId → Step (Option TokenExecution)
  execute_token g source id = do
    check_source g source
    entry ← ok_or (token g id) (invalid_token id)
    execute_entry g source entry
