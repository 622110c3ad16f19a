-- ===== src/TokenStep/Munch/Bytes.antt =====
-- `execute_bytes` of crates/greatgramma-core/src/token_step.rs is maximal munch over the DFA.
use greatgramma_rust.Base.{
  ℕ, ◌+◌, ◌≡◌, refl, true, Option, none, some, List, [], ◌∷◌, ◌++◌, ◌∙◌, sym, ap, subst,
  append_assoc, append-nil, length, arith, ok, err, fault, ◌>>=◌, Allocator,
}
use greatgramma_rust.Normalized.{DfaStateId, TerminalId, ValidatedLexer, ValidatedGrammar}
use greatgramma_rust.Lexer.{
  LexerState, dfa, LexerStep, LexerResult, LexerError, lexer_step, byte_step,
}
use greatgramma_rust.TokenStep.{
  TokenExecution, continue, Step, map_lexer_rejection, token_push, after_byte_step, execute_byte,
  after_byte, bytes_loop, execute_bytes,
}
use greatgramma_rust.TokenStep.Munch.{
  Munch, stop, begin, extend, split, ByteMunch, begins, extends, splits, byte_step_of_ByteMunch,
  ByteMunch-of_byte_step,
}

-- The emitted terminals of one byte.
abbrev emitted_list : Option TerminalId → List TerminalId
emitted_list none = []
emitted_list (some t) = t ∷ []

Munch_of_ByteMunch :
    (l : ValidatedLexer) (b : ℕ) {s : LexerState} {o : Option TerminalId} {q : DfaStateId}
    → ByteMunch l b s o q
    → {bs : List ℕ} {em : List TerminalId} {s' : LexerState} → Munch l (dfa q) bs em s'
    → Munch l s (b ∷ bs) (emitted_list o ++ em) s'
Munch_of_ByteMunch l b (begins d) m = begin d m
Munch_of_ByteMunch l b (extends d) m = extend d m
Munch_of_ByteMunch l b (splits d t d') m = split d t d' m

module _ (alloc : Allocator) (g : ValidatedGrammar) where
  -- What the execution of bytes from `before` says.
  abbrev Munched : LexerState → List ℕ → List TerminalId → LexerState → List TerminalId → Type 0
  Munched s bs before s' all =
      (em : List TerminalId) × (all ≡ before ++ em) × Munch g.lexer s bs em s'

  Munched-cons :
      (s : LexerState) (b : ℕ) (bs : List ℕ) (before : List TerminalId) (s₁ : LexerState)
      (o : Option TerminalId) (s' : LexerState) (all : List TerminalId)
      → (q : DfaStateId) × (s₁ ≡ dfa q) × ByteMunch g.lexer b s o q
      → Munched s₁ bs (before ++ emitted_list o) s' all
      → Munched s (b ∷ bs) before s' all
  Munched-cons s b bs before s₁ o s' all (q, e, m) (em, f, n) = (
    emitted_list o ++ em,
    f ∙ append_assoc before (emitted_list o) em,
    Munch_of_ByteMunch g.lexer b m (subst (λ x. Munch g.lexer x bs em s') e n),
  )

  pushed_ok :
      (rest : LexerState → List TerminalId → Step (Option TokenExecution)) (s₁ : LexerState)
      (before : List TerminalId) (t : TerminalId) (x : TokenExecution)
      → (token_push alloc before t >>= (λ p. ok (some (s₁, p))) >>= after_byte alloc rest)
        ≡ ok (some x)
      → rest s₁ (before ++ t ∷ []) ≡ ok (some x)
  unfolding token_push
  pushed_ok rest s₁ before t x h = ground arith

  bytes_sound :
      (s : LexerState) (b : ℕ) (bs : List ℕ) (before : List TerminalId) (r : LexerResult)
      (s' : LexerState) (all : List TerminalId)
      → byte_step g.lexer s b ≡ r
      → ((s₁ : LexerState) (em : List TerminalId)
          → bytes_loop alloc g bs s₁ em ≡ ok (some (continue s' all))
          → Munched s₁ bs em s' all)
      → (after_byte_step alloc before r >>= after_byte alloc (bytes_loop alloc g bs))
        ≡ ok (some (continue s' all))
      → Munched s (b ∷ bs) before s' all
  unfolding map_lexer_rejection token_push
  bytes_sound s b bs before (ok (LexerStep.continue s₁ none)) s' all e ih h =
      Munched-cons s b bs before s₁ none s' all (ByteMunch-of_byte_step g.lexer b s s₁ none e)
        (ih s₁ (before ++ []) (rw (append-nil before) h))
  bytes_sound s b bs before (ok (LexerStep.continue s₁ (some t))) s' all e ih h =
      Munched-cons s b bs before s₁ (some t) s' all
        (ByteMunch-of_byte_step g.lexer b s s₁ (some t) e)
        (ih s₁ (before ++ t ∷ [])
          (pushed_ok (bytes_loop alloc g bs) s₁ before t (continue s' all) h))
  bytes_sound s b bs before (ok (LexerStep.finished t eof)) s' all e ih h = cc
  bytes_sound s b bs before (err (LexerError.invalid_state q)) s' all e ih h = cc
  bytes_sound s b bs before (err (LexerError.cannot_begin_lexeme x)) s' all e ih h = cc
  bytes_sound s b bs before (err (LexerError.byte_after_unfinished_residual q x)) s' all e ih h = cc
  bytes_sound s b bs before (err (LexerError.eos_after_unfinished_residual q)) s' all e ih h = cc
  bytes_sound s b bs before (fault x) s' all e ih h = cc

  continue_inj :
      {s s' : LexerState} {em em' : List TerminalId}
      → ◌≡◌ {A = Step (Option TokenExecution)}
          (ok (some (continue s em)))
          (ok (some (continue s' em')))
      → (s ≡ s') × (em ≡ em')
  continue_inj h = (cc h, cc h)

  bytes_loop_sound :
      (bs : List ℕ) (s s' : LexerState) (before all : List TerminalId)
      → bytes_loop alloc g bs s before ≡ ok (some (continue s' all))
      → Munched s bs before s' all
  unfolding bytes_loop execute_byte lexer_step
  bytes_loop_sound [] s s' before all h = (
    [],
    sym (continue_inj h).1 ∙ sym (append-nil before),
    subst (λ x. Munch g.lexer s [] [] x) (continue_inj h).0 stop,
  )
  bytes_loop_sound (b ∷ bs) s s' before all h =
      bytes_sound s b bs before (byte_step g.lexer s b) s' all refl
        (λ s₁ em. bytes_loop_sound bs s₁ s' em all) h

  -- What `execute_bytes` returns is a maximal munch of the bytes: if it continues in a state with
  -- emitted terminals, then splitting the bytes by maximal munch from the source state gives that
  -- state and those terminals.
  pub execute_bytes_sound :
      (bs : List ℕ) (s s' : LexerState) (em : List TerminalId)
      → execute_bytes alloc g s bs ≡ ok (some (continue s' em))
      → Munch g.lexer s bs em s'
  unfolding execute_bytes
  execute_bytes_sound bs s s' em h =
      let (em', e, m) = bytes_loop_sound bs s s' [] em h in
      subst (λ x. Munch g.lexer s bs x s') (sym e) m

  module _ (roomy : (n : ℕ) → alloc n ≡ true) where
    pushed :
        (o : Option TerminalId) (s : LexerState) (before : List TerminalId)
        → after_byte_step alloc before (ok (LexerStep.continue s o))
          ≡ ok (some (s, before ++ emitted_list o))
    unfolding token_push
    pushed none s before = rw (append-nil before) refl
    pushed (some t) s before = rw (roomy (length before + 1)) refl

    bytes_loop-cons :
        (bs : List ℕ) (b q : ℕ) (s : LexerState) (o : Option TerminalId) (before : List TerminalId)
        → ByteMunch g.lexer b s o q
        → bytes_loop alloc g (b ∷ bs) s before
          ≡ bytes_loop alloc g bs (dfa q) (before ++ emitted_list o)
    unfolding bytes_loop execute_byte lexer_step
    bytes_loop-cons bs b q s o before m =
        rw (byte_step_of_ByteMunch g.lexer b m, pushed o (dfa q) before) refl

    complete_cons :
        (bs em : List ℕ) {b q : ℕ} {s s' : LexerState} {o : Option TerminalId}
        (before : List TerminalId)
        → ByteMunch g.lexer b s o q
        → bytes_loop alloc g bs (dfa q) (before ++ emitted_list o)
          ≡ ok (some (continue s' ((before ++ emitted_list o) ++ em)))
        → bytes_loop alloc g (b ∷ bs) s before
          ≡ ok (some (continue s' (before ++ (emitted_list o ++ em))))
    complete_cons bs em {b} {q} {s} {s'} {o} before m h =
        bytes_loop-cons bs b q s o before m
        ∙ h
        ∙ ap (λ x. ok (some (continue s' x))) (append_assoc before (emitted_list o) em)

    bytes_loop_complete :
        {bs : List ℕ} {s s' : LexerState} {em : List TerminalId} (before : List TerminalId)
        → Munch g.lexer s bs em s'
        → bytes_loop alloc g bs s before ≡ ok (some (continue s' (before ++ em)))
    unfolding bytes_loop
    bytes_loop_complete before stop = rw (append-nil before) refl
    bytes_loop_complete before (begin {b} {q} {bs} {em} d m) =
        complete_cons bs em before (begins d) (bytes_loop_complete (before ++ []) m)
    bytes_loop_complete before (extend {b} {q} {q'} {bs} {em} d m) =
        complete_cons bs em before (extends d) (bytes_loop_complete (before ++ []) m)
    bytes_loop_complete before (split {b} {q} {q'} {t} {bs} {em} d t' d' m) =
        complete_cons bs em before (splits d t' d') (bytes_loop_complete (before ++ t ∷ []) m)

    -- With room for every reservation, wherever there is a maximal munch without rollback,
    -- `execute_bytes` returns its state and its terminals.
    pub execute_bytes_complete :
        {bs : List ℕ} {s s' : LexerState} {em : List TerminalId}
        → Munch g.lexer s bs em s'
        → execute_bytes alloc g s bs ≡ ok (some (continue s' em))
    unfolding execute_bytes
    execute_bytes_complete m = bytes_loop_complete [] m
