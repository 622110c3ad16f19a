-- ===== src/TokenStep/Safe.antt =====
-- `execute_token` of crates/greatgramma-core/src/token_step.rs on well-formed grammars.
use greatgramma_rust.Base.{
  ℕ, ◌+◌, ◌<◌, ◌≡◌, refl, ◌≢◌, Bool-cases, inl, inr, Option, none, some, List, [], ◌∷◌, All,
  All-append, length, ok, err, fault, ◌>>=◌, Allocator,
}
use greatgramma_rust.Normalized.{
  TokenId, TerminalId, TokenEntry, bytes, eos, ValidatedGrammar, token,
}
use greatgramma_rust.Normalized.WellFormed.{IsWellFormed}
use greatgramma_rust.Normalized.Lookups.{terminal-eq-some}
use greatgramma_rust.Lexer.{
  LexerState, start, dfa, LexerStep, LexerError, LexerResult, lexer_step, byte_step, eos_step,
  eos_at,
}
use greatgramma_rust.Lexer.Safe.{InRange, ByteResultIsSafe, byte_step-IsSafe}
use greatgramma_rust.TokenStep.{
  TokenExecution, continue, finished, invalid_token, invalid_state, allocation_failure, Step,
  map_lexer_rejection, token_push, after_byte_step, execute_byte, after_byte, bytes_loop,
  execute_bytes, after_eos, execute_eos, execute_entry, check_source, execute_token,
}

-- The bytes of an entry are bytes.
abbrev pub EntryIsBytes : TokenEntry → Type 0
EntryIsBytes (bytes bs) = All (λ b. b < 256) bs
EntryIsBytes eos = Unit

-- Terminals of the parser other than the end of the input.
abbrev pub EmittedAreValid : ValidatedGrammar → List TerminalId → Type 0
EmittedAreValid g = All (λ t. (t < g.lalr.dimensions.terminal_count) × (t ≢ g.lalr.eof_terminal))

abbrev pub ExecutionIsValid : ValidatedGrammar → Option TokenExecution → Type 0
ExecutionIsValid g none = Unit
ExecutionIsValid g (some (continue state emitted)) =
    InRange g.lexer state × EmittedAreValid g emitted
ExecutionIsValid g (some (finished emitted eof)) =
    EmittedAreValid g emitted × (eof ≡ g.lalr.eof_terminal)

-- The only error behind a checked token and a checked source state is a failed reservation.
abbrev pub StepIsSafe : {A : Type 0} → (A → Type 0) → Step A → Type 0
StepIsSafe P (ok a) = P a
StepIsSafe P (err (allocation_failure requested)) = Unit
StepIsSafe P (err (invalid_token id)) = ⊥
StepIsSafe P (err (invalid_state q)) = ⊥
StepIsSafe P (fault x) = ⊥

StepIsSafe-bind :
    {A B : Type 0} (P : A → Type 0) (Q : B → Type 0) (o : Step A) (f : A → Step B)
    → StepIsSafe P o
    → ((a : A) → P a → StepIsSafe Q (f a))
    → StepIsSafe Q (o >>= f)
StepIsSafe-bind P Q (ok a) f h k = k a h
StepIsSafe-bind P Q (err (allocation_failure n)) f h k = tt
StepIsSafe-bind P Q (err (invalid_token n)) f h k = absurd h
StepIsSafe-bind P Q (err (invalid_state n)) f h k = absurd h
StepIsSafe-bind P Q (fault x) f h k = absurd h

module _ (alloc : Allocator) (g : ValidatedGrammar) (w : IsWellFormed g) where
  abbrev Moved : Option (LexerState × List TerminalId) → Type 0
  Moved none = Unit
  Moved (some (state, emitted)) = InRange g.lexer state × EmittedAreValid g emitted

  token_push-Safe :
      (values : List TerminalId) (t : TerminalId)
      → EmittedAreValid g values
      → EmittedAreValid g (t ∷ [])
      → StepIsSafe (EmittedAreValid g) (token_push alloc values t)
  unfolding token_push
  token_push-Safe values t h k = elim (Bool-cases (alloc (length values + 1))) [
    | inl e ↦ rw e (All-append _ values (t ∷ []) h k)
    | inr e ↦ rw e tt
  ]

  after_byte_step-Safe :
      (emitted : List TerminalId) (r : LexerResult)
      → EmittedAreValid g emitted
      → ByteResultIsSafe g.lexer g.lalr.dimensions.terminal_count g.lalr.eof_terminal r
      → StepIsSafe Moved (after_byte_step alloc emitted r)
  unfolding map_lexer_rejection
  after_byte_step-Safe emitted (ok (LexerStep.continue s none)) h k = (k.0, h)
  after_byte_step-Safe emitted (ok (LexerStep.continue s (some t))) h k =
      StepIsSafe-bind (EmittedAreValid g) Moved (token_push alloc emitted t) _
        (token_push-Safe emitted t h (k.1, tt)) (λ pushed l. (k.0, l))
  after_byte_step-Safe emitted (ok (LexerStep.finished t eof)) h k = absurd k
  after_byte_step-Safe emitted (err (LexerError.invalid_state q)) h k = absurd k
  after_byte_step-Safe emitted (err (LexerError.cannot_begin_lexeme b)) h k = tt
  after_byte_step-Safe emitted (err (LexerError.byte_after_unfinished_residual q b)) h k = tt
  after_byte_step-Safe emitted (err (LexerError.eos_after_unfinished_residual q)) h k = absurd k
  after_byte_step-Safe emitted (fault x) h k = absurd k

  after_byte-Safe :
      (rest : LexerState → List TerminalId → Step (Option TokenExecution))
      (r : Option (LexerState × List TerminalId))
      → ((s : LexerState) (emitted : List TerminalId)
          → InRange g.lexer s
          → EmittedAreValid g emitted
          → StepIsSafe (ExecutionIsValid g) (rest s emitted))
      → Moved r
      → StepIsSafe (ExecutionIsValid g) (after_byte alloc rest r)
  after_byte-Safe rest none ih h = tt
  after_byte-Safe rest (some (s, emitted)) ih h = ih s emitted h.0 h.1

  bytes_loop-Safe :
      (bs : List ℕ) (s : LexerState) (emitted : List TerminalId)
      → All (λ b. b < 256) bs
      → InRange g.lexer s
      → EmittedAreValid g emitted
      → StepIsSafe (ExecutionIsValid g) (bytes_loop alloc g bs s emitted)
  unfolding bytes_loop execute_byte lexer_step
  bytes_loop-Safe [] s emitted h r v = (r, v)
  bytes_loop-Safe (b ∷ bs) s emitted h r v =
      StepIsSafe-bind Moved (ExecutionIsValid g)
        (after_byte_step alloc emitted (byte_step g.lexer s b)) _
        (after_byte_step-Safe emitted (byte_step g.lexer s b) v
          (byte_step-IsSafe g.lexer _ _ w.lexer s b r h.0))
        (λ m. after_byte-Safe _ m (λ s' em. bytes_loop-Safe bs s' em h.1))

  eos_at-Safe :
      (q : ℕ) (r : Option TerminalId)
      → ((t : TerminalId)
          → r ≡ some t
          → (t < g.lalr.dimensions.terminal_count) × (t ≢ g.lalr.eof_terminal))
      → StepIsSafe (ExecutionIsValid g) (after_eos alloc (eos_at g.lalr.eof_terminal q (some r)))
  unfolding map_lexer_rejection
  eos_at-Safe q none k = tt
  eos_at-Safe q (some t) k = elim (Bool-cases (alloc 1)) [
    | inl e ↦ rw e ((k t refl, tt), refl)
    | inr e ↦ rw e tt
  ]

  execute_eos-Safe :
      (s : LexerState) → InRange g.lexer s → StepIsSafe (ExecutionIsValid g) (execute_eos alloc g s)
  unfolding execute_eos lexer_step eos_step
  execute_eos-Safe start r = elim (Bool-cases (alloc 1)) [
    | inl e ↦ rw e (tt, refl)
    | inr e ↦ rw e tt
  ]
  execute_eos-Safe (dfa q) r =
      let (o, e, k) = terminal-eq-some g.lexer _ _ w.lexer q r in rw e (eos_at-Safe q o k)

  execute_entry-Safe :
      (s : LexerState) (entry : TokenEntry)
      → InRange g.lexer s
      → EntryIsBytes entry
      → StepIsSafe (ExecutionIsValid g) (execute_entry alloc g s entry)
  unfolding execute_entry execute_bytes
  execute_entry-Safe s (bytes bs) r h = bytes_loop-Safe bs s [] h r tt
  execute_entry-Safe s eos r h = execute_eos-Safe s r

  pub check_source-eq-ok : (s : LexerState) → InRange g.lexer s → check_source alloc g s ≡ ok tt
  unfolding check_source
  check_source-eq-ok start r = refl
  check_source-eq-ok (dfa q) r =
      let (o, e, k) = terminal-eq-some g.lexer _ _ w.lexer q r in rw (e, check_source) refl

  -- On a well-formed grammar, from a lexer state in range, a token of the table whose entry holds
  -- bytes is executed without a panic, without `InvalidToken` and without `InvalidState`: unless a
  -- reservation fails it is rejected, or it continues in a state in range, or it finishes with the
  -- parser's end of input; all terminals it emits are the parser's and none is the end of input.
  pub execute_token-IsSafe :
      (s : LexerState) (id : TokenId) (entry : TokenEntry)
      → InRange g.lexer s
      → token g id ≡ some entry
      → EntryIsBytes entry
      → StepIsSafe (ExecutionIsValid g) (execute_token alloc g s id)
  unfolding execute_token
  execute_token-IsSafe s id entry r e h =
      rw (check_source-eq-ok s r, e) (execute_entry-Safe s entry r h)
