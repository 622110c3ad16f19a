-- ===== src/Lalr/Safe.antt =====
-- Reductions on well-formed tables, for crates/greatgramma-core/src/lalr.rs.
pub mod Run
pub mod Entry
use greatgramma_rust.Base.{
  ℕ, zero, suc, ◌+◌, ◌<◌, ◌≡◌, refl, sym, Bool, true, false, Bool-cases, inl, inr, Option, none,
  some, List, [], ◌∷◌, All, All-drop, length, length-drop, drop, get_elem?, get_elem?-total, leb,
  leb→lt, arith, if◌then◌else◌, Outcome, ok, err, fault, ◌>>=◌, ok_or, Allocator, leb, ltb, ◌==◌,
}
use greatgramma_rust.Normalized.{
  Action, shift, reduce, accept, Production, ProductionId, TerminalId, ValidatedLalr, action, goto,
  production, is_ignored, ParserStateId,
}
use greatgramma_rust.Normalized.WellFormed.{LalrIsWellFormed}
use greatgramma_rust.Normalized.Lookups.{action-eq-some, goto-eq-some, is_ignored-eq-some}
use greatgramma_rust.Lalr.{
  ParserError, empty_stack, empty_sequence_head, invalid_state, invalid_terminal, invalid_sequence,
  stack_underflow, missing_goto, accept_before_end, invalid_reduction_progress, allocation_failure,
  invariant_violation, RunDecision, UnderflowMode, PreviousReduction, RunWork, DecisionStatus,
  TerminalRun, ReductionResult, applied, Stack, Parse, check_reduction_progress, charge, Round,
  done, again, parser_push, push_goto, underflow, reduce_onto, apply_production, apply_reduction,
  after_reduction, act, round, stack_top, after_round, run_loop, run_terminal, copy_stack_into,
}
use greatgramma_rust.Lalr.Run.{unbounded}

-- The errors that a run may end in on well-formed tables.
abbrev pub IsExpected : ParserError → Type 0
IsExpected (stack_underflow id pop_len len) = Unit
IsExpected (missing_goto state nonterminal id) = Unit
IsExpected (accept_before_end index) = Unit
IsExpected (invalid_reduction_progress state terminal) = Unit
IsExpected (allocation_failure requested) = Unit
IsExpected empty_stack = ⊥
IsExpected empty_sequence_head = ⊥
IsExpected (invalid_state state) = ⊥
IsExpected (invalid_terminal terminal) = ⊥
IsExpected (invalid_sequence sequence) = ⊥
IsExpected invariant_violation = ⊥

-- A result that satisfies `P` or an expected error. Faults are excluded in Lalr/Termination.
abbrev pub Safe : {A : Type 0} → (A → Type 0) → Parse A → Type 0
Safe P (ok a) = P a
Safe P (err e) = IsExpected e
Safe P (fault x) = Unit

pub Safe-bind :
    {A B : Type 0} (P : A → Type 0) (Q : B → Type 0) (o : Parse A) (f : A → Parse B)
    → Safe P o
    → ((a : A) → P a → Safe Q (f a))
    → Safe Q (o >>= f)
Safe-bind P Q (ok a) f h k = k a h
Safe-bind P Q (err e) f h k = h
Safe-bind P Q (fault x) f h k = tt

-- What a reduction, a decision and the run of a terminal may be without a work limit: a run is
-- dependent in symbolic mode only.
abbrev pub DecisionFits : UnderflowMode → RunDecision → Type 0
DecisionFits UnderflowMode.error RunDecision.dependent = ⊥
DecisionFits _ _ = Unit

abbrev pub ReductionFits : UnderflowMode → ReductionResult → Type 0
ReductionFits mode (applied pop_len) = Unit
ReductionFits mode ReductionResult.dependent = DecisionFits mode RunDecision.dependent
ReductionFits mode ReductionResult.work_limit_exceeded = ⊥

abbrev pub RunFits : UnderflowMode → TerminalRun → Type 0
RunFits mode TerminalRun.shifted = Unit
RunFits mode (TerminalRun.complete decision) = DecisionFits mode decision
RunFits mode TerminalRun.work_limit_exceeded = ⊥

abbrev pub StatusFits : UnderflowMode → DecisionStatus → Type 0
StatusFits mode (DecisionStatus.complete decision work) = DecisionFits mode decision
StatusFits mode (DecisionStatus.work_limit_exceeded required) = ⊥

-- A stack that is not empty, of states in range.
abbrev pub StackIsValid : ValidatedLalr → Stack → Type 0
StackIsValid p [] = ⊥
StackIsValid p (top ∷ below) = All (λ s. s < p.dimensions.state_count) (top ∷ below)

module _ (alloc : Allocator) (p : ValidatedLalr) (w : LalrIsWellFormed p) where
  abbrev pub Reduced : UnderflowMode → ReductionResult × Stack × RunWork → Type 0
  Reduced mode (result, stack, work) =
      StackIsValid p stack × (work ≡ unbounded) × ReductionFits mode result

  pub parser_push-Safe :
      (stack : Stack) (s : ParserStateId)
      → s < p.dimensions.state_count
      → StackIsValid p stack
      → Safe (StackIsValid p) (parser_push alloc p stack s)
  unfolding parser_push
  parser_push-Safe [] s h v = absurd v
  parser_push-Safe (top ∷ below) s h v = elim (Bool-cases (alloc (length (top ∷ below) + 1))) [
    | inl e ↦ rw e (h, v)
    | inr e ↦ rw e tt
  ]

  goto_found :
      (mode : UnderflowMode) (id : ProductionId) (prod : Production) (source : ParserStateId)
      (below : Stack) (cell : Option ParserStateId)
      → ((s : ParserStateId) → cell ≡ some s → s < p.dimensions.state_count)
      → StackIsValid p (source ∷ below)
      → Safe (Reduced mode) (
          ok_or cell (missing_goto source prod.lhs id) >>= λ destination.
          parser_push alloc p (source ∷ below) destination >>= λ pushed.
          ok (applied prod.pop_len, pushed, unbounded))
  goto_found mode id prod source below none k v = tt
  goto_found mode id prod source below (some s) k v =
      Safe-bind (StackIsValid p) (Reduced mode) (parser_push alloc p (source ∷ below) s) _
        (parser_push-Safe (source ∷ below) s (k s refl) v) (λ pushed h. (h, refl, tt))

  push_goto-Safe :
      (mode : UnderflowMode) (stack : Stack) (id : ProductionId) (prod : Production)
      (source : ParserStateId) (below : Stack)
      → prod.lhs < p.dimensions.nonterminal_count
      → StackIsValid p (source ∷ below)
      → Safe (Reduced mode) (push_goto alloc p stack id prod source below unbounded)
  unfolding push_goto charge
  push_goto-Safe mode stack id prod source below h v =
      let (cell, e, k) = goto-eq-some p w source prod.lhs v.0 h in
      rw e (goto_found mode id prod source below cell k v)

  reduce_onto-Safe :
      (mode : UnderflowMode) (stack rest : Stack) (id : ProductionId) (prod : Production)
      → prod.lhs < p.dimensions.nonterminal_count
      → StackIsValid p rest
      → Safe (Reduced mode) (reduce_onto alloc p stack id prod unbounded rest)
  unfolding reduce_onto
  reduce_onto-Safe mode stack [] id prod h v = absurd v
  reduce_onto-Safe mode stack (source ∷ below) id prod h v =
      push_goto-Safe mode stack id prod source below h v

  -- A valid stack is still valid when fewer states are popped than it has.
  StackIsValid-drop :
      (n : ℕ) (stack : Stack)
      → n < length stack
      → StackIsValid p stack
      → StackIsValid p (drop n stack)
  StackIsValid-drop zero stack h v = v
  StackIsValid-drop (suc n) [] h v = absurd v
  StackIsValid-drop (suc n) (top ∷ []) h v = absurd (omega arith)
  StackIsValid-drop (suc n) (top ∷ next ∷ below) h v =
      StackIsValid-drop n (next ∷ below) (omega arith) v.1

  underflow-Safe :
      (id : ProductionId) (prod : Production) (stack : Stack) (mode : UnderflowMode)
      → StackIsValid p stack
      → Safe (Reduced mode) (underflow alloc p id prod stack unbounded mode)
  unfolding underflow
  underflow-Safe id prod stack UnderflowMode.error v = tt
  underflow-Safe id prod stack UnderflowMode.dependent v = (v, refl, tt)

  apply_production-Safe :
      (stack : Stack) (id : ProductionId) (mode : UnderflowMode) (prod : Production)
      → prod.lhs < p.dimensions.nonterminal_count
      → StackIsValid p stack
      → Safe (Reduced mode) (apply_production alloc p stack id mode unbounded prod)
  unfolding apply_production
  apply_production-Safe stack id mode prod h v =
      elim (Bool-cases (leb (length stack) prod.pop_len)) [
        | inl e ↦ rw e (underflow-Safe id prod stack mode v)
        | inr e ↦ rw e (
            reduce_onto-Safe mode stack (drop prod.pop_len stack) id prod h
              (StackIsValid-drop prod.pop_len stack (leb→lt _ _ e) v))
      ]

  pub apply_reduction-Safe :
      (stack : Stack) (id : ProductionId) (mode : UnderflowMode)
      → id < length p.productions
      → StackIsValid p stack
      → Safe (Reduced mode) (apply_reduction alloc p stack id mode unbounded)
  unfolding apply_reduction charge production
  apply_reduction-Safe stack id mode h v =
      let (prod, e) = get_elem?-total p.productions id h in
      rw e (apply_production-Safe stack id mode prod (w.left_sides id prod e) v)
