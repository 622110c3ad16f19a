-- ===== src/Lalr/Endings.antt =====
-- How `run_terminal` of crates/greatgramma-core/src/lalr.rs ends: it never decides to continue, and
-- it accepts at the last terminal of a slice only.
use greatgramma_rust.Base.{
  ℕ, zero, suc, ◌+◌, ◌≡◌, Option, none, some, length, [], ◌∷◌, subst, arith, >>=-eq-ok, ok,
  Allocator,
}
use greatgramma_rust.Normalized.{Action, shift, reduce, accept, ValidatedLalr}
use greatgramma_rust.Lalr.{
  RunDecision, accepted, UnderflowMode, PreviousReduction, RunWork, TerminalRun, complete, Stack,
  Parse, ReductionResult, rank_rounds, rank_bound, Round, done, again, stack_top, charge,
  parser_push, act, round, after_round, after_reduction, apply_reduction, check_reduction_progress,
  run_loop, run_terminal,
}

abbrev pub IsEnding : ℕ → ℕ → TerminalRun → Type 0
IsEnding i n (complete accepted) = i + 1 ≡ n
IsEnding i n (complete RunDecision.continue) = ⊥
IsEnding i n run = Unit

module _ (alloc : Allocator) (p : ValidatedLalr) (mode : UnderflowMode) (t i n : ℕ) where
  abbrev RoundIsEnding : Round → Type 0
  RoundIsEnding (done run stack work) = IsEnding i n run
  RoundIsEnding (again previous stack work) = Unit

  after_reduction-IsEnding :
      (rank : ℕ) (result : ReductionResult × Stack × RunWork) (r : Round)
      → after_reduction alloc p mode t i n rank result ≡ ok r
      → RoundIsEnding r
  after_reduction-IsEnding rank (ReductionResult.applied k, s', v') r h = ground arith
  after_reduction-IsEnding rank (ReductionResult.dependent, s', v') r h = ground arith
  after_reduction-IsEnding rank (ReductionResult.work_limit_exceeded, s', v') r h = ground arith

  act-IsEnding :
      (a : Action) (previous : Option PreviousReduction) (stack : Stack) (w : RunWork) (s : ℕ)
      (r : Round)
      → act alloc p mode t i n previous stack w s a ≡ ok r
      → RoundIsEnding r
  unfolding act charge parser_push
  act-IsEnding Action.error previous stack w s r h = ground arith
  act-IsEnding (shift next) previous stack w s r h = ground arith
  act-IsEnding accept previous stack w s r h = ground arith
  act-IsEnding (reduce id rank) previous stack w s r h =
      let (u, progress, h₁) = >>=-eq-ok (check_reduction_progress previous rank s t) _ h in
      let (result, run, h₂) = >>=-eq-ok (apply_reduction alloc p stack id mode w) _ h₁ in
      after_reduction-IsEnding rank result r h₂

  round-IsEnding :
      (previous : Option PreviousReduction) (stack : Stack) (w : RunWork) (r : Round)
      → round alloc p mode t i n previous stack w ≡ ok r
      → RoundIsEnding r
  unfolding round charge stack_top
  round-IsEnding previous [] w r h = absurd (cc h)
  round-IsEnding previous (top ∷ stack) w r h = grind (arith, act-IsEnding)

  after_round-IsEnding :
      (rest : PreviousReduction → Stack → RunWork → Parse (TerminalRun × Stack × RunWork))
      (r : Round) (run : TerminalRun) (stack' : Stack) (w' : RunWork)
      → ((q : PreviousReduction) (s : Stack) (v : RunWork)
          → rest q s v ≡ ok (run, stack', w')
          → IsEnding i n run)
      → RoundIsEnding r
      → after_round alloc p mode t i n rest r ≡ ok (run, stack', w')
      → IsEnding i n run
  after_round-IsEnding rest (done run' s v) run stack' w' ih ends h =
      let e : run' ≡ run = ground arith in subst (IsEnding i n) e ends
  after_round-IsEnding rest (again q s v) run stack' w' ih ends h = ih q s v h

  run_loop-IsEnding :
      (fuel : ℕ) (previous : Option PreviousReduction) (stack : Stack) (w : RunWork)
      (run : TerminalRun) (stack' : Stack) (w' : RunWork)
      → run_loop alloc p mode t i n fuel previous stack w ≡ ok (run, stack', w')
      → IsEnding i n run
  unfolding run_loop
  run_loop-IsEnding zero previous stack w run stack' w' h = absurd (cc h)
  run_loop-IsEnding (suc fuel) previous stack w run stack' w' h =
      let (r, e, k) = >>=-eq-ok (round alloc p mode t i n previous stack w) _ h in
      after_round-IsEnding (λ q. run_loop alloc p mode t i n fuel (some q)) r run stack' w'
        (λ q s v. run_loop-IsEnding fuel (some q) s v run stack' w')
        (round-IsEnding previous stack w r e) k

  pub run_terminal-IsEnding :
      (stack : Stack) (w : RunWork) (run : TerminalRun) (stack' : Stack) (w' : RunWork)
      → run_terminal alloc p mode t i n stack w ≡ ok (run, stack', w')
      → IsEnding i n run
  unfolding run_terminal
  run_terminal-IsEnding stack w =
      run_loop-IsEnding (rank_rounds (rank_bound p.actions) (length stack)) none stack w
