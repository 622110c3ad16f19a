-- ===== src/Lalr/Safe/Entry.antt =====
-- `execute_terminals` of crates/greatgramma-core/src/lalr_reference.rs on well-formed tables.
use greatgramma_rust.Base.{
  Answers, ℕ, suc, ◌<◌, ◌≡◌, refl, ap, subst, ◌≢◌, Bool-cases, inl, inr, Option, none, some, List,
  [], ◌∷◌, reverse, All, All-reverse, length, leb, leb→lt, if◌then◌else◌, ok, err, fault, ◌>>=◌,
  ◌>>◌, >>=-eq-ok, for_each, Allocator,
}
use greatgramma_rust.Normalized.{TerminalId, ParserStateId, ValidatedLalr}
use greatgramma_rust.Normalized.WellFormed.{LalrIsWellFormed}
use greatgramma_rust.Lalr.{
  ParserError, invariant_violation, invalid_state, invalid_terminal, RunDecision, UnderflowMode,
  DecisionStatus, Stack, Parse, charge, validate_inputs, copy_stack_into,
}
use greatgramma_rust.Lalr.Run.{
  ParserExecution, run_initialized, run_validated_into, unbounded, unbounded_decision,
  execute_terminals_concrete_into, execution, execute_terminals,
}
use greatgramma_rust.Lalr.Safe.{IsExpected, DecisionFits, Safe, Safe-bind, StackIsValid}
use greatgramma_rust.Lalr.Safe.Run.{Decided, run_initialized-Safe}
use greatgramma_rust.Lalr.Termination.Entry.{execute_terminals-Answers}

module _ (bad : ParserStateId → ParserError) (count : ℕ) where
  in_range-All :
      (i : ℕ) (xs : List ℕ)
      → for_each (λ _ x. if leb count x then err (bad x) else ok tt) i xs ≡ ok tt
      → All (λ x. x < count) xs
  unfolding for_each
  in_range-All i [] h = tt
  in_range-All i (x ∷ xs) h =
      let (u, e, f) = >>=-eq-ok (if leb count x then err (bad x) else ok tt) _ h in
      elim (Bool-cases (leb count x)) [
        | inl k ↦ absurd (cc (e, k))
        | inr k ↦ (leb→lt count x k, in_range-All (suc i) xs f)
      ]

-- A run of `execute_terminals`: the stack that goes on is valid, no error is an invariant
-- violation, and nothing faults.
abbrev pub ExecutionIsSafe : ValidatedLalr → Parse (Option ParserExecution) → Type 0
ExecutionIsSafe p (ok none) = Unit
ExecutionIsSafe p (ok (some (ParserExecution.continue stack))) = StackIsValid p stack
ExecutionIsSafe p (ok (some ParserExecution.accepted)) = Unit
ExecutionIsSafe p (err e) = e ≢ invariant_violation
ExecutionIsSafe p (fault x) = ⊥

module _ (alloc : Allocator) (p : ValidatedLalr) (w : LalrIsWellFormed p) where
  abbrev Executed : Option ParserExecution → Type 0
  Executed none = Unit
  Executed (some (ParserExecution.continue stack)) = StackIsValid p stack
  Executed (some ParserExecution.accepted) = Unit

  abbrev Concrete : RunDecision × Stack → Type 0
  Concrete (decision, stack) = StackIsValid p stack × (decision ≢ RunDecision.dependent)

  ne_dependent : (d : RunDecision) → DecisionFits UnderflowMode.error d → d ≢ RunDecision.dependent
  ne_dependent RunDecision.rejected h e = cc e
  ne_dependent RunDecision.continue h e = cc e
  ne_dependent RunDecision.accepted h e = cc e
  ne_dependent RunDecision.dependent h e = h

  unbounded_decision-Safe :
      (r : DecisionStatus × Stack)
      → Decided alloc p w UnderflowMode.error r
      → Safe Concrete (unbounded_decision r)
  unfolding unbounded_decision
  unbounded_decision-Safe (DecisionStatus.complete d n, stack) h = (h.0, ne_dependent d h.1)
  unbounded_decision-Safe (DecisionStatus.work_limit_exceeded n, stack) h = absurd h.1

  execution-Safe : (r : RunDecision × Stack) → Concrete r → Safe Executed (execution alloc p r)
  execution-Safe (RunDecision.rejected, stack) h = tt
  execution-Safe (RunDecision.continue, stack) h = h.0
  execution-Safe (RunDecision.accepted, stack) h = tt
  execution-Safe (RunDecision.dependent, stack) h = absurd (h.1 refl)

  copy_stack_into-Safe :
      (stack : Stack) → StackIsValid p stack → Safe (StackIsValid p) (copy_stack_into alloc p stack)
  unfolding copy_stack_into
  copy_stack_into-Safe stack v = elim (Bool-cases (alloc (length stack))) [
    | inl e ↦ rw e v
    | inr e ↦ rw e tt
  ]

  execute_terminals_concrete_into-Safe :
      (stack : Stack) (ts : List TerminalId)
      → StackIsValid p stack
      → All (λ t. t < p.dimensions.terminal_count) ts
      → Safe Concrete (execute_terminals_concrete_into alloc p stack ts)
  unfolding execute_terminals_concrete_into run_validated_into charge
  execute_terminals_concrete_into-Safe stack ts v h =
      Safe-bind (Decided alloc p w UnderflowMode.error) Concrete
        (copy_stack_into alloc p stack >>= λ s.
          run_initialized alloc p UnderflowMode.error (length ts) 0 ts s unbounded)
        unbounded_decision
        (Safe-bind (StackIsValid p) (Decided alloc p w UnderflowMode.error)
          (copy_stack_into alloc p stack) _ (copy_stack_into-Safe stack v)
          (λ s. run_initialized-Safe alloc p w UnderflowMode.error (length ts) 0 ts s h))
        unbounded_decision-Safe

  validated :
      (stack : Stack) (ts : List TerminalId)
      → validate_inputs p stack ts ≡ ok tt
      → StackIsValid p stack × All (λ t. t < p.dimensions.terminal_count) ts
  unfolding validate_inputs
  validated [] ts h = absurd (cc h)
  validated (top ∷ below) ts h =
      let (u, e, f) = >>=-eq-ok (for_each _ 0 (reverse (top ∷ below))) _ h in
      (
        All-reverse (λ s. s < p.dimensions.state_count) (top ∷ below)
            (in_range-All invalid_state p.dimensions.state_count 0 (reverse (top ∷ below)) e),
        in_range-All invalid_terminal p.dimensions.terminal_count 0 ts f,
      )

  in_range-ne :
      (bad : ℕ → ParserError) (count i : ℕ) (xs : List ℕ)
      → ((x : ℕ) → bad x ≢ invariant_violation)
      → for_each (λ _ x. if leb count x then err (bad x) else ok tt) i xs ≢ err invariant_violation
  unfolding for_each
  in_range-ne bad count i [] k h = cc h
  in_range-ne bad count i (x ∷ xs) k h = elim (Bool-cases (leb count x)) [
    | inl e ↦ k x (cc (rw e at h))
    | inr e ↦ in_range-ne bad count (suc i) xs k (rw e at h)
  ]

  first_ne :
      (o o' : Parse (Unit {0}))
      → o ≢ err invariant_violation
      → o' ≢ err invariant_violation
      → (o >> o') ≢ err invariant_violation
  first_ne (ok a) o' h k e = k e
  first_ne (err x) o' h k e = h e
  first_ne (fault x) o' h k e = cc e

  executed :
      (o : Parse (Option ParserExecution)) → Safe Executed o → Answers o → ExecutionIsSafe p o
  executed (ok none) h k = tt
  executed (ok (some (ParserExecution.continue stack))) h k = h
  executed (ok (some ParserExecution.accepted)) h k = tt
  executed (err e) h k = λ x. subst IsExpected x h
  executed (fault x) h k = k

  after_validation :
      (v : Parse (Unit {0})) (o : Parse (RunDecision × Stack))
      → v ≢ err invariant_violation
      → (v ≡ ok tt → Safe Concrete o)
      → Answers ((v >> o) >>= execution alloc p)
      → ExecutionIsSafe p ((v >> o) >>= execution alloc p)
  after_validation (ok u) o h k a =
      executed (o >>= execution alloc p)
        (Safe-bind Concrete Executed o (execution alloc p) (k refl) execution-Safe) a
  after_validation (err e) o h k a = λ x. h (ap err x)
  after_validation (fault x) o h k a = a

  validate_inputs-ne :
      (stack : Stack) (ts : List TerminalId) → validate_inputs p stack ts ≢ err invariant_violation
  unfolding validate_inputs
  validate_inputs-ne [] ts h = cc h
  validate_inputs-ne (top ∷ below) ts h =
      first_ne (for_each _ 0 (reverse (top ∷ below))) (for_each _ 0 ts)
        (in_range-ne invalid_state p.dimensions.state_count 0 (reverse (top ∷ below)) (λ x e. cc e))
        (in_range-ne invalid_terminal p.dimensions.terminal_count 0 ts (λ x e. cc e)) h

  -- On a well-formed table `execute_terminals` answers for every stack and every slice of
  -- terminals: it never panics or loops, and never returns `InvariantViolation`. If it goes on,
  -- the stack is not empty and all its states are in range.
  pub execute_terminals-IsSafe :
      (stack : Stack) (ts : List TerminalId)
      → ExecutionIsSafe p (execute_terminals alloc p stack ts)
  unfolding execute_terminals
  execute_terminals-IsSafe stack ts =
      after_validation (validate_inputs p stack ts)
        (execute_terminals_concrete_into alloc p stack ts) (validate_inputs-ne stack ts)
        (λ e.
          let (v, h) = validated stack ts e in execute_terminals_concrete_into-Safe stack ts v h)
        (execute_terminals-Answers alloc p stack ts)
