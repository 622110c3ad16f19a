-- ===== src/Lalr/Symbolic.antt =====
-- A symbolic run that decides without the states below its base decides every concrete run with
-- that base: the reason for the symbolic mode of crates/greatgramma-core/src/lalr.rs.
pub mod Run
use greatgramma_rust.Base.{
  ℕ, zero, suc, ◌+◌, ◌*◌, ◌≤◌, ◌<◌, ◌≡◌, ◌≢◌, ◌⊎◌, inl, inr, refl, subst, ap, ◌∙◌, Bool, true,
  false, Option, none, some, List, [], ◌∷◌, ◌++◌, length, drop, length-append, drop-append, leb,
  Bool-cases, leb→lt, lt→leb, arith, >>=-eq-ok, Outcome, ok, err, fault, ◌>>=◌, Allocator,
}
use greatgramma_rust.Normalized.{
  Action, shift, reduce, accept, Production, TerminalId, ValidatedLalr, action, goto, production,
}
use greatgramma_rust.Lalr.{
  ParserError, ReductionResult, applied, RunDecision, rejected, accepted, UnderflowMode,
  PreviousReduction, RunWork, TerminalRun, shifted, complete, work_limit_exceeded, Stack, Parse,
  charge, check_reduction_progress, stack_top, rank_rounds, rank_bound, Round, done, again,
  push_goto, parser_push, underflow, reduce_onto, apply_production, apply_reduction,
  after_reduction, act, round, after_round, run_loop, run_terminal,
}
use greatgramma_rust.Lalr.Run.{unbounded}

-- What decides a terminal without a look below the base and within the work limit.
abbrev pub IsDecided : TerminalRun → Type 0
IsDecided shifted = Unit
IsDecided (complete RunDecision.dependent) = ⊥
IsDecided (complete decision) = Unit
IsDecided work_limit_exceeded = ⊥

abbrev RoundIsDecided : Round → Type 0
RoundIsDecided (done run stack work) = IsDecided run
RoundIsDecided (again previous stack work) = Unit

-- The allocator never refuses.
abbrev pub NeverRefuses : Allocator → Type 0
NeverRefuses alloc = (n : ℕ) → alloc n ≡ true

module _ (alloc : Allocator) (p : ValidatedLalr) (roomy : NeverRefuses alloc) (below : Stack) where
  -- The same round with the states below put back.
  abbrev extend : Round → Round
  extend (done run stack work) = done run (stack ++ below) unbounded
  extend (again previous stack work) = again previous (stack ++ below) unbounded

  push_goto-extend :
      (stack rest stack' : Stack) (id source k : ℕ) (prod : Production) (w w' : RunWork)
      → push_goto alloc p stack id prod source rest w ≡ ok (applied k, stack', w')
      → push_goto alloc p (stack ++ below) id prod source (rest ++ below) unbounded
        ≡ ok (applied k, stack' ++ below, unbounded)
  unfolding push_goto charge parser_push
  push_goto-extend stack rest stack' id source k prod w w' h =
      ground
        (arith, roomy (length (source ∷ rest) + 1), roomy (length (source ∷ rest ++ below) + 1))

  reduce_onto-extend :
      (stack rest stack' : Stack) (id k : ℕ) (prod : Production) (w w' : RunWork)
      → reduce_onto alloc p stack id prod w rest ≡ ok (applied k, stack', w')
      → reduce_onto alloc p (stack ++ below) id prod unbounded (rest ++ below)
        ≡ ok (applied k, stack' ++ below, unbounded)
  unfolding reduce_onto
  reduce_onto-extend stack [] stack' id k prod w w' h = absurd (cc h)
  reduce_onto-extend stack (source ∷ rest) stack' id k prod w w' h =
      push_goto-extend stack rest stack' id source k prod w w' h

  apply_production-extend :
      (stack stack' : Stack) (id k : ℕ) (mode : UnderflowMode) (prod : Production) (w w' : RunWork)
      → apply_production alloc p stack id mode w prod ≡ ok (applied k, stack', w')
      → apply_production alloc p (stack ++ below) id UnderflowMode.error unbounded prod
        ≡ ok (applied k, stack' ++ below, unbounded)
  unfolding apply_production underflow
  apply_production-extend stack stack' id k mode prod w w' h = ground (
    arith,
    length-append stack below,
    drop-append prod.pop_len stack below,
    reduce_onto-extend stack (drop prod.pop_len stack) stack' id k prod w w',
  )

  apply_reduction-extend :
      (stack stack' : Stack) (id k : ℕ) (mode : UnderflowMode) (w w' : RunWork)
      → apply_reduction alloc p stack id mode w ≡ ok (applied k, stack', w')
      → apply_reduction alloc p (stack ++ below) id UnderflowMode.error unbounded
        ≡ ok (applied k, stack' ++ below, unbounded)
  unfolding apply_reduction charge
  apply_reduction-extend stack stack' id k mode w w' h =
      grind (arith, apply_production-extend stack stack' id k mode)

  module _ (mode : UnderflowMode) (t i n j m : ℕ) (last : i + 1 ≡ n → j + 1 ≡ m) where
    after_reduction-extend :
        (rank : ℕ) (stack : Stack) (id : ℕ) (w : RunWork)
        (result : ReductionResult × Stack × RunWork) (r : Round)
        → apply_reduction alloc p stack id mode w ≡ ok result
        → after_reduction alloc p mode t i n rank result ≡ ok r
        → RoundIsDecided r
        → (apply_reduction alloc p (stack ++ below) id UnderflowMode.error unbounded
            >>= after_reduction alloc p UnderflowMode.error t j m rank)
          ≡ ok (extend r)
    after_reduction-extend rank stack id w (applied k, s, v) r run e d =
        rw (apply_reduction-extend stack s id k mode w v run) (ground arith)
    after_reduction-extend rank stack id w (ReductionResult.dependent, s, v)
          (done (complete RunDecision.dependent) _ _) run e d =
        absurd d
    after_reduction-extend rank stack id w (ReductionResult.dependent, s, v) r run e d =
        ground arith
    after_reduction-extend rank stack id w (ReductionResult.work_limit_exceeded, s, v) r run e d =
        ground arith

    act-extend :
        (a : Action) (previous : Option PreviousReduction) (stack : Stack) (w : RunWork) (s : ℕ)
        (r : Round)
        → act alloc p mode t i n previous stack w s a ≡ ok r
        → RoundIsDecided r
        → act alloc p UnderflowMode.error t j m previous (stack ++ below) unbounded s a
          ≡ ok (extend r)
    unfolding act charge parser_push
    act-extend Action.error previous stack w s r h d = ground arith
    act-extend (shift next) previous stack w s r h d =
        ground (arith, roomy (length stack + 1), roomy (length (stack ++ below) + 1))
    act-extend accept previous stack w s r h d = ground (arith, last)
    act-extend (reduce id rank) previous stack w s r h d =
        let (u, progress, h₁) = >>=-eq-ok (check_reduction_progress previous rank s t) _ h in
        let (result, run, h₂) = >>=-eq-ok (apply_reduction alloc p stack id mode w) _ h₁ in
        rw progress (after_reduction-extend rank stack id w result r run h₂ d)

    round-extend :
        (previous : Option PreviousReduction) (stack : Stack) (w : RunWork) (r : Round)
        → round alloc p mode t i n previous stack w ≡ ok r
        → RoundIsDecided r
        → round alloc p UnderflowMode.error t j m previous (stack ++ below) unbounded
          ≡ ok (extend r)
    unfolding round charge stack_top
    round-extend previous [] w r h d = absurd (cc h)
    round-extend previous (top ∷ stack) w r h d = grind (arith, act-extend)

    abbrev Rest : Type 0
    Rest = PreviousReduction → Stack → RunWork → Parse (TerminalRun × Stack × RunWork)

    after_round-decided :
        (rest : Rest) (r : Round) (run : TerminalRun) (stack' : Stack) (w' : RunWork)
        → after_round alloc p mode t i n rest r ≡ ok (run, stack', w')
        → IsDecided run
        → RoundIsDecided r
    after_round-decided rest (done run' s v) run stack' w' h d =
        let e : run ≡ run' = ground arith in subst IsDecided e d
    after_round-decided rest (again q s v) run stack' w' h d = tt

    after_round-extend :
        (rest rest' : Rest) (r : Round) (run : TerminalRun) (stack' : Stack) (w' : RunWork)
        → ((q : PreviousReduction) (s : Stack) (v : RunWork)
            → rest q s v ≡ ok (run, stack', w')
            → rest' q (s ++ below) unbounded ≡ ok (run, stack' ++ below, unbounded))
        → after_round alloc p mode t i n rest r ≡ ok (run, stack', w')
        → after_round alloc p UnderflowMode.error t j m rest' (extend r)
          ≡ ok (run, stack' ++ below, unbounded)
    after_round-extend rest rest' (done run' s v) run stack' w' ih h = ground arith
    after_round-extend rest rest' (again q s v) run stack' w' ih h = ih q s v h

    run_loop-extend :
        (fuel : ℕ) (previous : Option PreviousReduction) (stack : Stack) (w : RunWork)
        (run : TerminalRun) (stack' : Stack) (w' : RunWork)
        → run_loop alloc p mode t i n fuel previous stack w ≡ ok (run, stack', w')
        → IsDecided run
        → run_loop alloc p UnderflowMode.error t j m fuel previous (stack ++ below) unbounded
          ≡ ok (run, stack' ++ below, unbounded)
    unfolding run_loop
    run_loop-extend zero previous stack w run stack' w' h d = absurd (cc h)
    run_loop-extend (suc fuel) previous stack w run stack' w' h d =
        let (r, e, k) = >>=-eq-ok (round alloc p mode t i n previous stack w) _ h in
        let rest = λ (q : PreviousReduction). run_loop alloc p mode t i n fuel (some q) in
        let decided = after_round-decided rest r run stack' w' k d in
        rw (round-extend previous stack w r e decided) (
          after_round-extend rest _ r run stack' w'
            (λ q s v g. run_loop-extend fuel (some q) s v run stack' w' g d) k)
