-- ===== src/TokenStep/Munch.antt =====
-- Maximal munch over the DFA, and how `byte_step` of crates/greatgramma-core/src/lexer.rs follows it.
pub mod Bytes
use greatgramma_rust.Base.{
  ℕ, ◌+◌, ◌≡◌, refl, true, Option, none, some, List, [], ◌∷◌, ◌++◌, ◌∙◌, sym, ap, subst,
  append_assoc, append-nil, length, arith, Outcome, ok, err, fault, ◌>>=◌, Allocator,
}
use greatgramma_rust.Normalized.{
  DfaStateId, TerminalId, ValidatedLexer, ValidatedGrammar, transition, terminal,
}
use greatgramma_rust.Lexer.{
  LexerState, start, dfa, LexerStep, LexerResult, LexerError, lexer_step, byte_step, begin_lexeme,
  finish_or_reject_residual, begin_at, finish_at, move_at,
}
use greatgramma_rust.TokenStep.{
  TokenExecution, continue, Step, map_lexer_rejection, token_push, after_byte_step, execute_byte,
  after_byte, bytes_loop, execute_bytes,
}

-- The DFA of the lexer: the lookup of a transition, at a state in range.
abbrev pub Delta : ValidatedLexer → DfaStateId → ℕ → Option DfaStateId → Type 0
Delta l q b r = transition {E = LexerError} l q b ≡ ok (some r)

-- Maximal munch: a lexeme is extended while the DFA has a transition; where it has none, an
-- accepting state emits its terminal and the byte begins a new lexeme.
pub data Munch (l : ValidatedLexer)
    : LexerState → List ℕ → List TerminalId → LexerState → Type 0 where
  stop : {s : LexerState} → Munch l s [] [] s
  begin :
      {b q : ℕ} {bs : List ℕ} {em : List TerminalId} {s : LexerState}
      → Delta l l.start_state b (some q)
      → Munch l (dfa q) bs em s
      → Munch l start (b ∷ bs) em s
  extend :
      {b q q' : ℕ} {bs : List ℕ} {em : List TerminalId} {s : LexerState}
      → Delta l q b (some q')
      → Munch l (dfa q') bs em s
      → Munch l (dfa q) (b ∷ bs) em s
  split :
      {b q q' t : ℕ} {bs : List ℕ} {em : List TerminalId} {s : LexerState}
      → Delta l q b none
      → terminal l q ≡ some (some t)
      → Delta l l.start_state b (some q')
      → Munch l (dfa q') bs em s
      → Munch l (dfa q) (b ∷ bs) (t ∷ em) s

-- How one byte of a munch step is lexed.
pub data ByteMunch (l : ValidatedLexer) (b : ℕ)
    : LexerState → Option TerminalId → DfaStateId → Type 0 where
  begins : {q : ℕ} → Delta l l.start_state b (some q) → ByteMunch l b start none q
  extends : {q q' : ℕ} → Delta l q b (some q') → ByteMunch l b (dfa q) none q'
  splits :
      {q q' t : ℕ}
      → Delta l q b none
      → terminal l q ≡ some (some t)
      → Delta l l.start_state b (some q')
      → ByteMunch l b (dfa q) (some t) q'

pub byte_step_of_ByteMunch :
    (l : ValidatedLexer) (b : ℕ) {s : LexerState} {o : Option TerminalId} {q : DfaStateId}
    → ByteMunch l b s o q
    → byte_step l s b ≡ ok (LexerStep.continue (dfa q) o)
unfolding byte_step begin_lexeme finish_or_reject_residual
byte_step_of_ByteMunch l b (begins d) = rw d
byte_step_of_ByteMunch l b (extends d) = rw d
byte_step_of_ByteMunch l b (splits d t d') = rw (d, t, d')

begin_lexeme_inv :
    (l : ValidatedLexer) (b : ℕ) (emitted : Option TerminalId)
    (found : Outcome LexerError (Option (Option DfaStateId))) {s' : LexerState}
    {o : Option TerminalId}
    → (found >>= λ x. begin_at l.start_state b emitted x) ≡ ok (LexerStep.continue s' o)
    → (q : DfaStateId) × (found ≡ ok (some (some q))) × (s' ≡ dfa q) × (o ≡ emitted)
begin_lexeme_inv l b emitted (ok none) h = cc
begin_lexeme_inv l b emitted (ok (some none)) h = cc
begin_lexeme_inv l b emitted (ok (some (some q))) h = (q, refl, cc, cc)
begin_lexeme_inv l b emitted (err e) h = cc
begin_lexeme_inv l b emitted (fault x) h = cc

begins_of :
    (l : ValidatedLexer) (b : ℕ) {s' : LexerState} {o : Option TerminalId}
    → (q : DfaStateId) × (transition {E = LexerError} l l.start_state b ≡ ok (some (some q)))
      × (s' ≡ dfa q)
      × (o ≡ none)
    → (q : DfaStateId) × (s' ≡ dfa q) × ByteMunch l b start o q
begins_of l b (q, d, e, f) = (q, e, rw f (begins d))

splits_of :
    (l : ValidatedLexer) (b q₀ t : ℕ) {s' : LexerState} {o : Option TerminalId}
    → Delta l q₀ b none
    → terminal l q₀ ≡ some (some t)
    → (q : DfaStateId) × (transition {E = LexerError} l l.start_state b ≡ ok (some (some q)))
      × (s' ≡ dfa q)
      × (o ≡ some t)
    → (q : DfaStateId) × (s' ≡ dfa q) × ByteMunch l b (dfa q₀) o q
splits_of l b q₀ t d h (q, d', e, f) = (q, e, rw f (splits d h d'))

extends_of :
    (l : ValidatedLexer) (b q₀ q : ℕ) {s' : LexerState} {o : Option TerminalId}
    → Delta l q₀ b (some q)
    → s' ≡ dfa q
    → o ≡ none
    → (q : DfaStateId) × (s' ≡ dfa q) × ByteMunch l b (dfa q₀) o q
extends_of l b q₀ q d e f = (q, e, rw f (extends d))

finish_inv :
    (l : ValidatedLexer) (b q₀ : ℕ) (found : Option (Option TerminalId)) {s' : LexerState}
    {o : Option TerminalId}
    → Delta l q₀ b none
    → terminal l q₀ ≡ found
    → finish_at l q₀ b found ≡ ok (LexerStep.continue s' o)
    → (q : DfaStateId) × (s' ≡ dfa q) × ByteMunch l b (dfa q₀) o q
unfolding begin_lexeme
finish_inv l b q₀ none d e h = cc
finish_inv l b q₀ (some none) d e h = cc
finish_inv l b q₀ (some (some t)) d e h =
    splits_of l b q₀ t d e (begin_lexeme_inv l b (some t) (transition l l.start_state b) h)

move_inv :
    (l : ValidatedLexer) (b q₀ : ℕ) (found : Outcome LexerError (Option (Option DfaStateId)))
    {s' : LexerState} {o : Option TerminalId}
    → transition l q₀ b ≡ found
    → (found >>= λ x. move_at l q₀ b x) ≡ ok (LexerStep.continue s' o)
    → (q : DfaStateId) × (s' ≡ dfa q) × ByteMunch l b (dfa q₀) o q
unfolding finish_or_reject_residual
move_inv l b q₀ (ok none) e h = cc
move_inv l b q₀ (ok (some none)) e h = finish_inv l b q₀ (terminal l q₀) e refl h
move_inv l b q₀ (ok (some (some q))) e h = extends_of l b q₀ q e (cc h) (cc h)
move_inv l b q₀ (err e) g h = cc
move_inv l b q₀ (fault x) g h = cc

pub ByteMunch-of_byte_step :
    (l : ValidatedLexer) (b : ℕ) (s s' : LexerState) (o : Option TerminalId)
    → byte_step l s b ≡ ok (LexerStep.continue s' o)
    → (q : DfaStateId) × (s' ≡ dfa q) × ByteMunch l b s o q
unfolding byte_step begin_lexeme
ByteMunch-of_byte_step l b start s' o h =
    begins_of l b (begin_lexeme_inv l b none (transition l l.start_state b) h)
ByteMunch-of_byte_step l b (dfa q) s' o h = move_inv l b q (transition l q b) refl h
