-- ===== src/Lalr/Safe/Run.antt =====
-- Runs over terminals on well-formed tables, for crates/greatgramma-core/src/lalr.rs.
use greatgramma_rust.Base.{
  ℕ, zero, suc, ◌+◌, ◌<◌, ◌≡◌, ◌≢◌, refl, sym, subst, Bool, true, false, Bool-cases, inl, inr,
  Option, none, some, List, [], ◌∷◌, All, get_elem?, leb, Allocator, ltb, ◌==◌,
}
use greatgramma_rust.Normalized.{Action, shift, reduce, accept, TerminalId, ValidatedLalr}
use greatgramma_rust.Normalized.WellFormed.{LalrIsWellFormed}
use greatgramma_rust.Normalized.Lookups.{action-eq-some, is_ignored-eq-some}
use greatgramma_rust.Lalr.{
  RunDecision, UnderflowMode, PreviousReduction, RunWork, DecisionStatus, TerminalRun,
  ReductionResult, applied, dependent, work_limit_exceeded, shifted, Stack, Parse,
  check_reduction_progress, charge, Round, done, again, parser_push, apply_reduction,
  after_reduction, act, round, stack_top, after_round, run_loop, run_terminal,
}
use greatgramma_rust.Lalr.Run.{unbounded, after_terminal, take_terminal, run_initialized}
use greatgramma_rust.Lalr.Safe.{
  RunFits, DecisionFits, StatusFits, Safe, Safe-bind, StackIsValid, Reduced, apply_reduction-Safe,
  parser_push-Safe,
}

module _ (alloc : Allocator) (p : ValidatedLalr) (w : LalrIsWellFormed p) where
  -- A round that leaves a valid stack, and the same of a run of a terminal or of a slice.
  abbrev Rounded : UnderflowMode → Round → Type 0
  Rounded mode (done run stack work) = StackIsValid p stack × (work ≡ unbounded) × RunFits mode run
  Rounded mode (again previous stack work) = StackIsValid p stack × (work ≡ unbounded)

  abbrev Ran : UnderflowMode → TerminalRun × Stack × RunWork → Type 0
  Ran mode (run, stack, work) = StackIsValid p stack × (work ≡ unbounded) × RunFits mode run

  abbrev pub Decided : UnderflowMode → DecisionStatus × Stack → Type 0
  Decided mode (status, stack) = StackIsValid p stack × StatusFits mode status

  check_reduction_progress-Safe :
      (previous : Option PreviousReduction) (rank state terminal : ℕ)
      → Safe (λ _. Unit {0}) (check_reduction_progress previous rank state terminal)
  unfolding check_reduction_progress
  check_reduction_progress-Safe none rank state terminal = tt
  check_reduction_progress-Safe (some previous) rank state terminal =
      elim (Bool-cases (ltb rank previous.rank)) [
        | inl e ↦ rw e tt
        | inr e ↦ elim (Bool-cases (rank == previous.rank)) [
          | inl e' ↦ elim (Bool-cases (leb 2 previous.pop_len)) [
            | inl e'' ↦ rw (e, e', e'') tt
            | inr e'' ↦ rw (e, e', e'') tt
          ]
          | inr e' ↦ rw (e, e') tt
        ]
      ]

  decision_fits :
      (mode : UnderflowMode) (d : RunDecision) → d ≢ RunDecision.dependent → DecisionFits mode d
  decision_fits UnderflowMode.error RunDecision.rejected h = tt
  decision_fits UnderflowMode.error RunDecision.continue h = tt
  decision_fits UnderflowMode.error RunDecision.accepted h = tt
  decision_fits UnderflowMode.error RunDecision.dependent h = absurd (h refl)
  decision_fits UnderflowMode.dependent d h = tt

  after_reduction-Safe :
      (mode : UnderflowMode) (t index count rank : ℕ) (r : ReductionResult × Stack × RunWork)
      → Reduced alloc p w mode r
      → Safe (Rounded mode) (after_reduction alloc p mode t index count rank r)
  after_reduction-Safe mode t index count rank (applied pop_len, stack, work) h = (h.0, h.1)
  after_reduction-Safe mode t index count rank (dependent, stack, work) h = h
  after_reduction-Safe mode t index count rank (work_limit_exceeded, stack, work) h = absurd h.2

  act-Safe :
      (mode : UnderflowMode) (t index count : ℕ) (previous : Option PreviousReduction)
      (stack : Stack) (state cell : ℕ) (a : Action)
      → get_elem? p.actions cell ≡ some a
      → StackIsValid p stack
      → Safe (Rounded mode) (act alloc p mode t index count previous stack unbounded state a)
  unfolding act charge
  act-Safe mode t index count previous stack state cell Action.error e v =
      (v, refl, decision_fits mode RunDecision.rejected (λ e. cc e))
  act-Safe mode t index count previous stack state cell (shift s) e v =
      Safe-bind (StackIsValid p) (Rounded mode) (parser_push alloc p stack s) _
        (parser_push-Safe alloc p w stack s (w.shifts cell s e) v) (λ pushed h. (h, refl, tt))
  act-Safe mode t index count previous stack state cell (reduce id rank) e v =
      Safe-bind (λ _. Unit) (Rounded mode) (check_reduction_progress previous rank state t) _
        (check_reduction_progress-Safe previous rank state t)
        λ _ _.
          Safe-bind (Reduced alloc p w mode) (Rounded mode)
            (apply_reduction alloc p stack id mode unbounded) _
            (apply_reduction-Safe alloc p w stack id mode (w.reductions cell id rank e) v)
            (after_reduction-Safe mode t index count rank)
  act-Safe mode t index count previous stack state cell accept e v =
      elim (Bool-cases (index + 1 == count)) [
        | inl k ↦ rw k (v, refl, decision_fits mode RunDecision.accepted (λ e. cc e))
        | inr k ↦ rw k tt
      ]

  round-Safe :
      (mode : UnderflowMode) (t index count : ℕ) (previous : Option PreviousReduction)
      (stack : Stack)
      → t < p.dimensions.terminal_count
      → StackIsValid p stack
      → Safe (Rounded mode) (round alloc p mode t index count previous stack unbounded)
  unfolding round stack_top charge
  round-Safe mode t index count previous [] h v = absurd v
  round-Safe mode t index count previous (top ∷ below) h v =
      let (a, e, f) = action-eq-some p w top t v.0 h in
      rw e (act-Safe mode t index count previous (top ∷ below) top _ a f v)

  after_round-Safe :
      (mode : UnderflowMode) (t index count : ℕ)
      (rest : PreviousReduction → Stack → RunWork → Parse (TerminalRun × Stack × RunWork))
      (r : Round)
      → ((previous : PreviousReduction) (stack : Stack) (work : RunWork)
          → StackIsValid p stack
          → work ≡ unbounded
          → Safe (Ran mode) (rest previous stack work))
      → Rounded mode r
      → Safe (Ran mode) (after_round alloc p mode t index count rest r)
  after_round-Safe mode t index count rest (done run stack work) ih h = h
  after_round-Safe mode t index count rest (again previous stack work) ih h =
      ih previous stack work h.0 h.1

  run_loop-Safe :
      (mode : UnderflowMode) (t index count fuel : ℕ) (previous : Option PreviousReduction)
      (stack : Stack) (work : RunWork)
      → t < p.dimensions.terminal_count
      → StackIsValid p stack
      → work ≡ unbounded
      → Safe (Ran mode) (run_loop alloc p mode t index count fuel previous stack work)
  unfolding run_loop
  run_loop-Safe mode t index count zero previous stack work h v e = tt
  run_loop-Safe mode t index count (suc fuel) previous stack work h v e =
      Safe-bind (Rounded mode) (Ran mode) (round alloc p mode t index count previous stack work) _
        (subst (λ x. Safe (Rounded mode) (round alloc p mode t index count previous stack x))
          (sym e) (round-Safe mode t index count previous stack h v))
        (λ r. after_round-Safe mode t index count _ r (λ previous' stack' work'.
          run_loop-Safe mode t index count fuel (some previous') stack' work' h))

  after_terminal-Safe :
      (mode : UnderflowMode) (count : ℕ) (rest : Stack → RunWork → Parse (DecisionStatus × Stack))
      (r : TerminalRun × Stack × RunWork)
      → ((stack : Stack) → StackIsValid p stack → Safe (Decided mode) (rest stack unbounded))
      → Ran mode r
      → Safe (Decided mode) (after_terminal alloc p mode count rest r)
  after_terminal-Safe mode count rest (shifted, stack, work) ih h =
      subst (λ x. Safe (Decided mode) (rest stack x)) (sym h.1) (ih stack h.0)
  after_terminal-Safe mode count rest (TerminalRun.complete decision, stack, work) ih h = (h.0, h.2)
  after_terminal-Safe mode count rest (TerminalRun.work_limit_exceeded, stack, work) ih h =
      absurd h.2

  take_terminal-Safe :
      (mode : UnderflowMode) (count : ℕ) (rest : Stack → RunWork → Parse (DecisionStatus × Stack))
      (index t : ℕ) (stack : Stack) (b : Bool)
      → ((stack : Stack) → StackIsValid p stack → Safe (Decided mode) (rest stack unbounded))
      → t < p.dimensions.terminal_count
      → StackIsValid p stack
      → Safe (Decided mode) (take_terminal alloc p mode count rest index t stack unbounded b)
  unfolding run_terminal
  take_terminal-Safe mode count rest index t stack true ih h v = ih stack v
  take_terminal-Safe mode count rest index t stack false ih h v =
      Safe-bind (Ran mode) (Decided mode) (run_terminal alloc p mode t index count stack unbounded)
        _ (run_loop-Safe mode t index count _ none stack unbounded h v refl)
        (λ r. after_terminal-Safe mode count rest r ih)

  pub run_initialized-Safe :
      (mode : UnderflowMode) (count index : ℕ) (ts : List TerminalId) (stack : Stack)
      → All (λ t. t < p.dimensions.terminal_count) ts
      → StackIsValid p stack
      → Safe (Decided mode) (run_initialized alloc p mode count index ts stack unbounded)
  unfolding run_initialized charge
  run_initialized-Safe mode count index [] stack h v =
      (v, decision_fits mode RunDecision.continue (λ e. cc e))
  run_initialized-Safe mode count index (t ∷ ts) stack h v =
      let (b, e) = is_ignored-eq-some p w t h.0 in
      rw e (
        take_terminal-Safe mode count _ index t stack b
          (λ stack'. run_initialized-Safe mode count (suc index) ts stack' h.1) h.0 v)
