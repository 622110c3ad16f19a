-- ===== src/TokenStep/Segments.antt =====
-- Where tokens are cut does not matter to `execute_bytes` of
-- crates/greatgramma-core/src/token_step.rs.
use greatgramma_rust.Base.{
  ℕ, ◌+◌, ◌≡◌, refl, true, Option, none, some, List, [], ◌∷◌, ◌++◌, append_assoc, append-nil, ◌∙◌,
  length, Outcome, ok, err, fault, ◌>>=◌, Allocator,
}
use greatgramma_rust.Normalized.{TerminalId, ValidatedGrammar}
use greatgramma_rust.Lexer.{LexerState, LexerStep, LexerResult, LexerError, byte, lexer_step}
use greatgramma_rust.TokenStep.{
  TokenExecution, continue, finished, Step, map_lexer_rejection, token_push, after_byte_step,
  execute_byte, after_byte, bytes_loop, execute_bytes,
}

-- The next bytes after a token that continues: `rest` runs them from its state, with its terminals.
abbrev pub and_then :
    (LexerState → List TerminalId → Step (Option TokenExecution))
    → Option TokenExecution
    → Step (Option TokenExecution)
and_then rest none = ok none
and_then rest (some (continue state emitted)) = rest state emitted
and_then rest (some (finished emitted eof)) = ok (some (finished emitted eof))

-- The same execution with terminals emitted before it.
abbrev pub emitted_before : List TerminalId → Option TokenExecution → Option TokenExecution
emitted_before before none = none
emitted_before before (some (continue state emitted)) = some (continue state (before ++ emitted))
emitted_before before (some (finished emitted eof)) = some (finished (before ++ emitted) eof)

module _ (alloc : Allocator) (g : ValidatedGrammar) where
  after_byte-and_then :
      (rest next : LexerState → List TerminalId → Step (Option TokenExecution))
      (all : LexerState → List TerminalId → Step (Option TokenExecution))
      (o : Outcome _ (Option (LexerState × List TerminalId)))
      → ((s : LexerState) (em : List TerminalId) → all s em ≡ (rest s em >>= and_then next))
      → (o >>= after_byte alloc all) ≡ (o >>= after_byte alloc rest >>= and_then next)
  after_byte-and_then rest next all (ok none) ih = refl
  after_byte-and_then rest next all (ok (some (s, em))) ih = ih s em
  after_byte-and_then rest next all (err e) ih = refl
  after_byte-and_then rest next all (fault x) ih = refl

  bytes_loop-append :
      (xs ys : List ℕ) (s : LexerState) (em : List TerminalId)
      → bytes_loop alloc g (xs ++ ys) s em
        ≡ (bytes_loop alloc g xs s em >>= and_then (bytes_loop alloc g ys))
  unfolding bytes_loop
  bytes_loop-append [] ys s em = refl
  bytes_loop-append (x ∷ xs) ys s em =
      after_byte-and_then (bytes_loop alloc g xs) (bytes_loop alloc g ys)
        (bytes_loop alloc g (xs ++ ys)) (execute_byte alloc g s x em) (bytes_loop-append xs ys)

  module _ (roomy : (n : ℕ) → alloc n ≡ true) where
    after_byte_step-before :
        (rest : LexerState → List TerminalId → Step (Option TokenExecution))
        (before em : List TerminalId) (r : LexerResult)
        → ((s : LexerState) (em' : List TerminalId)
            → rest s (before ++ em') ≡ (rest s em' >>= λ x. ok (emitted_before before x)))
        → (after_byte_step alloc (before ++ em) r >>= after_byte alloc rest) ≡ (
            after_byte_step alloc em r >>= after_byte alloc rest >>= λ x.
            ok (emitted_before before x))
    unfolding token_push map_lexer_rejection
    after_byte_step-before rest before em (ok (LexerStep.continue s none)) ih = ih s em
    after_byte_step-before rest before em (ok (LexerStep.continue s (some t))) ih =
        rw (roomy (length (before ++ em) + 1), roomy (length em + 1), append_assoc)
          (ih s (em ++ t ∷ []))
    after_byte_step-before rest before em (ok (LexerStep.finished t eof)) ih = refl
    after_byte_step-before rest before em (err (LexerError.invalid_state s)) ih = refl
    after_byte_step-before rest before em (err (LexerError.cannot_begin_lexeme b)) ih = refl
    after_byte_step-before rest before em (err (LexerError.byte_after_unfinished_residual s b)) ih =
        refl
    after_byte_step-before rest before em (err (LexerError.eos_after_unfinished_residual s)) ih =
        refl
    after_byte_step-before rest before em (fault x) ih = refl

    bytes_loop-before :
        (bs : List ℕ) (before : List TerminalId) (s : LexerState) (em : List TerminalId)
        → bytes_loop alloc g bs s (before ++ em)
          ≡ (bytes_loop alloc g bs s em >>= λ x. ok (emitted_before before x))
    unfolding bytes_loop execute_byte
    bytes_loop-before [] before s em = refl
    bytes_loop-before (b ∷ bs) before s em =
        after_byte_step-before (bytes_loop alloc g bs) before em (lexer_step g s (byte b))
          (bytes_loop-before bs before)

    resume-same :
        (ys : List ℕ) (o : Step (Option TokenExecution))
        → (o >>= and_then (bytes_loop alloc g ys))
          ≡ (o >>= and_then (λ s em. bytes_loop alloc g ys s [] >>= λ x. ok (emitted_before em x)))
    resume-same ys (ok none) = refl
    resume-same ys (ok (some (continue s em))) =
        rw (append-nil em) at (bytes_loop-before ys em s [])
    resume-same ys (ok (some (finished em eof))) = refl
    resume-same ys (err e) = refl
    resume-same ys (fault x) = refl

    -- Executing a byte string is executing its two parts one after the other: the second starts in
    -- the state that the first leaves, and the emitted terminals are appended.
    pub execute_bytes-append :
        (xs ys : List ℕ) (s : LexerState)
        → execute_bytes alloc g s (xs ++ ys) ≡ (
            execute_bytes alloc g s xs
            >>= and_then (λ s' em. execute_bytes alloc g s' ys >>= λ x. ok (emitted_before em x)))
    unfolding execute_bytes
    execute_bytes-append xs ys s =
        bytes_loop-append xs ys s [] ∙ resume-same ys (bytes_loop alloc g xs s [])
