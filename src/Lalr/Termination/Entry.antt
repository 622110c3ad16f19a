-- ===== src/Lalr/Termination/Entry.antt =====
-- Totality of the entry points of crates/greatgramma-core/src/lalr.rs and
-- crates/greatgramma-core/src/lalr_reference.rs, on every input.
use greatgramma_rust.Base.{
  Answers, Answers-bind, ok_or-Answers, if-Answers, ℕ, suc, ◌≡◌, refl, ◌≢◌, Bool, true, false,
  Option, none, some, List, [], ◌∷◌, length, leb, Outcome, ok, err, fault, Fault, ◌>>◌, ok_or,
  for_each, checked_add, Allocator, reverse,
}
use greatgramma_rust.Normalized.{TerminalId, ValidatedLalr, is_ignored}
use greatgramma_rust.Lalr.{
  ParserError, RunDecision, UnderflowMode, RunWork, DecisionStatus, TerminalRun, shifted, Stack,
  Parse, charge, charged, new_work, validate_inputs, copy_stack_into, run_terminal, invalid_state,
  invalid_terminal, allocation_failure,
}
use greatgramma_rust.Lalr.Run.{
  after_terminal, take_terminal, run_initialized, run_validated_into, unbounded_decision,
  execute_terminals_concrete_into, execution, execute_terminals,
  execute_terminals_symbolic_checked_with_limit,
}
use greatgramma_rust.Lalr.Termination.{run_terminal-ne-fault}

Answers-of {ℓ κ} :
    {E : Type κ} {A : Type ℓ} (o : Outcome E A) → ((x : Fault) → o ≢ fault x) → Answers o
Answers-of (ok a) h = tt
Answers-of (err e) h = tt
Answers-of (fault x) h = absurd (h x refl)

for_each-Answers {ℓ κ} :
    {E : Type κ} {A : Type ℓ} (check : ℕ → A → Outcome E (Unit {0})) (i : ℕ) (xs : List A)
    → ((i : ℕ) (a : A) → Answers (check i a))
    → Answers (for_each check i xs)
unfolding for_each
for_each-Answers check i [] h = tt
for_each-Answers check i (x ∷ xs) h =
    Answers-bind (check i x) _ (h i x) (λ _. for_each-Answers check (suc i) xs h)

maximum-Answers :
    (w : RunWork) (amount : ℕ) (m : Option ℕ) → w.maximum ≡ m → Answers (charge w amount)
unfolding charge
maximum-Answers w amount none e = rw e tt
maximum-Answers w amount (some n) e =
    rw e (Answers-bind (ok_or (checked_add w.used amount) _) _ (ok_or-Answers _ _) (λ _. tt))

charged-Answers :
    {A : Type 0} (w : RunWork) (amount : ℕ) (over within : RunWork → Parse A)
    → ((w' : RunWork) → Answers (over w'))
    → ((w' : RunWork) → Answers (within w'))
    → Answers (charged w amount over within)
charged-Answers w amount over within h k =
    Answers-bind (charge w amount) _ (maximum-Answers w amount w.maximum refl)
      (λ r. if-Answers r.0 (within r.1) (over r.1) (k r.1) (h r.1))

module _ (alloc : Allocator) (p : ValidatedLalr) where
  validate_inputs-Answers :
      (stack : Stack) (ts : List TerminalId) → Answers (validate_inputs p stack ts)
  unfolding validate_inputs
  validate_inputs-Answers [] ts = tt
  validate_inputs-Answers (top ∷ below) ts =
      Answers-bind (for_each _ 0 (reverse (top ∷ below))) _
        (for_each-Answers _ 0 (reverse (top ∷ below)) (λ i s.
          if-Answers {E = ParserError} {A = Unit} (leb p.dimensions.state_count s)
            (err (invalid_state s)) (ok tt) tt tt))
        (λ _. for_each-Answers _ 0 ts (λ i t.
          if-Answers {E = ParserError} {A = Unit} (leb p.dimensions.terminal_count t)
            (err (invalid_terminal t)) (ok tt) tt tt))

  after_terminal-Answers :
      (mode : UnderflowMode) (count : ℕ) (rest : Stack → RunWork → Parse (DecisionStatus × Stack))
      (r : TerminalRun × Stack × RunWork)
      → ((stack : Stack) (w : RunWork) → Answers (rest stack w))
      → Answers (after_terminal alloc p mode count rest r)
  after_terminal-Answers mode count rest (shifted, stack, w) ih = ih stack w
  after_terminal-Answers mode count rest (TerminalRun.complete d, stack, w) ih = tt
  after_terminal-Answers mode count rest (TerminalRun.work_limit_exceeded, stack, w) ih = tt

  take_terminal-Answers :
      (mode : UnderflowMode) (count : ℕ) (rest : Stack → RunWork → Parse (DecisionStatus × Stack))
      (index t : ℕ) (stack : Stack) (w : RunWork) (b : Bool)
      → ((stack : Stack) (w : RunWork) → Answers (rest stack w))
      → Answers (take_terminal alloc p mode count rest index t stack w b)
  take_terminal-Answers mode count rest index t stack w true ih = ih stack w
  take_terminal-Answers mode count rest index t stack w false ih =
      Answers-bind (run_terminal alloc p mode t index count stack w) _
        (Answers-of _ (run_terminal-ne-fault alloc p mode t index count stack w))
        (λ r. after_terminal-Answers mode count rest r ih)

  run_initialized-Answers :
      (mode : UnderflowMode) (count index : ℕ) (ts : List TerminalId) (stack : Stack) (w : RunWork)
      → Answers (run_initialized alloc p mode count index ts stack w)
  unfolding run_initialized
  run_initialized-Answers mode count index [] stack w = tt
  run_initialized-Answers mode count index (t ∷ ts) stack w =
      charged-Answers w 1 _ _ (λ _. tt)
        (λ w'. Answers-bind (ok_or (is_ignored p t) _) _ (ok_or-Answers _ _) (λ b.
          take_terminal-Answers mode count _ index t stack w' b
            (run_initialized-Answers mode count (suc index) ts)))

  pub run_validated_into-Answers :
      (stack : Stack) (ts : List TerminalId) (mode : UnderflowMode) (maximum : Option ℕ)
      → Answers (run_validated_into alloc p stack ts mode maximum)
  unfolding run_validated_into copy_stack_into
  run_validated_into-Answers stack ts mode maximum =
      charged-Answers (new_work maximum) (length stack) _ _ (λ _. tt)
        (λ w.
          Answers-bind (copy_stack_into alloc p stack) _
            (if-Answers (alloc (length stack)) (ok stack) (err (allocation_failure (length stack)))
              tt tt)
            (λ s. run_initialized-Answers mode (length ts) 0 ts s w))

  unbounded_decision-Answers : (r : DecisionStatus × Stack) → Answers (unbounded_decision r)
  unfolding unbounded_decision
  unbounded_decision-Answers (DecisionStatus.complete d n, stack) = tt
  unbounded_decision-Answers (DecisionStatus.work_limit_exceeded n, stack) = tt

  execution-Answers : (r : RunDecision × Stack) → Answers (execution alloc p r)
  execution-Answers (RunDecision.rejected, stack) = tt
  execution-Answers (RunDecision.continue, stack) = tt
  execution-Answers (RunDecision.accepted, stack) = tt
  execution-Answers (RunDecision.dependent, stack) = tt

  -- `execute_terminals` answers on every table, stack and slice of terminals, well-formed or not:
  -- its loops end and it never panics.
  pub execute_terminals-Answers :
      (stack : Stack) (ts : List TerminalId) → Answers (execute_terminals alloc p stack ts)
  unfolding execute_terminals execute_terminals_concrete_into
  execute_terminals-Answers stack ts =
      Answers-bind (validate_inputs p stack ts >> execute_terminals_concrete_into alloc p stack ts)
        _
        (Answers-bind (validate_inputs p stack ts) _ (validate_inputs-Answers stack ts) (λ _.
          Answers-bind (run_validated_into alloc p stack ts UnderflowMode.error none) _
            (run_validated_into-Answers stack ts UnderflowMode.error none)
            unbounded_decision-Answers))
        execution-Answers

  -- The symbolic execution of a classification answers on every table, stack and slice of
  -- terminals, whatever its work limit.
  pub symbolic_with_limit-Answers :
      (stack : Stack) (ts : List TerminalId) (maximum : ℕ)
      → Answers (execute_terminals_symbolic_checked_with_limit alloc p stack ts maximum)
  unfolding execute_terminals_symbolic_checked_with_limit
  symbolic_with_limit-Answers stack ts maximum =
      Answers-bind (run_validated_into alloc p stack ts UnderflowMode.dependent (some maximum)) _
        (run_validated_into-Answers stack ts UnderflowMode.dependent (some maximum)) (λ r. tt)
