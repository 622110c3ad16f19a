-- ===== src/Lexer/Safe.antt =====
-- Lexing on well-formed tables, for crates/greatgramma-core/src/lexer.rs.
use greatgramma_rust.Base.{ℕ, ◌<◌, ◌≡◌, refl, ◌≢◌, Option, none, some, ok, err, fault}
use greatgramma_rust.Normalized.{DfaStateId, TerminalId, ValidatedLexer}
use greatgramma_rust.Normalized.WellFormed.{LexerIsWellFormed}
use greatgramma_rust.Normalized.Lookups.{transition-eq-ok, terminal-eq-some}
use greatgramma_rust.Lexer.{
  LexerState, start, dfa, continue, finished, LexerError, invalid_state, cannot_begin_lexeme,
  byte_after_unfinished_residual, eos_after_unfinished_residual, LexerResult, begin_at,
  begin_lexeme, finish_at, finish_or_reject_residual, move_at, byte_step,
}

-- The start of a lexeme, or a state of the DFA.
abbrev pub InRange : ValidatedLexer → LexerState → Type 0
InRange l start = Unit
InRange l (dfa q) = q < l.state_count

-- An emitted terminal is one of the parser's, and not the end of the input.
abbrev pub EmittedIsValid : (terminals eof : ℕ) → Option TerminalId → Type 0
EmittedIsValid terminals eof none = Unit
EmittedIsValid terminals eof (some t) = (t < terminals) × (t ≢ eof)

-- A byte continues in range with a valid terminal, or is rejected as a byte: no state is found
-- invalid, nothing finishes, and nothing faults.
abbrev pub ByteResultIsSafe : ValidatedLexer → (terminals eof : ℕ) → LexerResult → Type 0
ByteResultIsSafe l terminals eof (ok (continue s emitted)) =
    InRange l s × EmittedIsValid terminals eof emitted
ByteResultIsSafe l terminals eof (ok (finished t e)) = ⊥
ByteResultIsSafe l terminals eof (err (invalid_state q)) = ⊥
ByteResultIsSafe l terminals eof (err (cannot_begin_lexeme b)) = Unit
ByteResultIsSafe l terminals eof (err (byte_after_unfinished_residual q b)) = Unit
ByteResultIsSafe l terminals eof (err (eos_after_unfinished_residual q)) = ⊥
ByteResultIsSafe l terminals eof (fault x) = ⊥

module _ (l : ValidatedLexer) (terminals eof : ℕ) (w : LexerIsWellFormed l terminals eof) where
  abbrev Safe : LexerResult → Type 0
  Safe = ByteResultIsSafe l terminals eof

  begin_at-Safe :
      (b : ℕ) (emitted : Option TerminalId) (r : Option DfaStateId)
      → EmittedIsValid terminals eof emitted
      → ((q' : DfaStateId) → r ≡ some q' → q' < l.state_count)
      → Safe (begin_at l.start_state b emitted (some r))
  begin_at-Safe b emitted none v k = tt
  begin_at-Safe b emitted (some q) v k = (k q refl, v)

  begin_lexeme-Safe :
      (b : ℕ) (emitted : Option TerminalId)
      → b < 256
      → EmittedIsValid terminals eof emitted
      → Safe (begin_lexeme l b emitted)
  unfolding begin_lexeme
  begin_lexeme-Safe b emitted h v =
      let (r, e, k) =
        transition-eq-ok l terminals eof w {E = LexerError} l.start_state b w.start_in_range h in
      rw e (begin_at-Safe b emitted r v k)

  finish_at-Safe :
      (q b : ℕ) (r : Option TerminalId)
      → b < 256
      → ((t : TerminalId) → r ≡ some t → (t < terminals) × (t ≢ eof))
      → Safe (finish_at l q b (some r))
  unfolding finish_at
  finish_at-Safe q b none h k = tt
  finish_at-Safe q b (some t) h k = begin_lexeme-Safe b (some t) h (k t refl)

  move_at-Safe :
      (q b : ℕ) (r : Option DfaStateId)
      → q < l.state_count
      → b < 256
      → ((q' : DfaStateId) → r ≡ some q' → q' < l.state_count)
      → Safe (move_at l q b (some r))
  unfolding finish_or_reject_residual
  move_at-Safe q b none g h k =
      let (r, e, k') = terminal-eq-some l terminals eof w q g in rw e (finish_at-Safe q b r h k')
  move_at-Safe q b (some q') g h k = (k q' refl, tt)

  -- On a well-formed lexer, a byte from a state in range never finds an invalid state and never
  -- indexes out of range: it continues in a state in range, with a terminal of the parser other
  -- than the end of the input if it emits one, or it is rejected.
  pub byte_step-IsSafe :
      (s : LexerState) (b : ℕ)
      → InRange l s
      → b < 256
      → ByteResultIsSafe l terminals eof (byte_step l s b)
  unfolding byte_step
  byte_step-IsSafe start b r h = begin_lexeme-Safe b none h tt
  byte_step-IsSafe (dfa q) b r h =
      let (o, e, k) = transition-eq-ok l terminals eof w {E = LexerError} q b r h in
      rw e (move_at-Safe q b o r h k)
