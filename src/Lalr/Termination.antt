-- ===== src/Lalr/Termination.antt =====
-- The `loop` of `run_terminal` in crates/greatgramma-core/src/lalr.rs ends: its progress check
-- bounds the number of reductions for one terminal.
pub mod Entry
use greatgramma_rust.Base.{
  ℕ, zero, suc, ◌+◌, ◌*◌, ◌≤◌, ◌<◌, ◌≡◌, ◌≢◌, ◌⊎◌, inl, inr, refl, Bool, true, false, Option, none,
  some, List, [], ◌∷◌, max, length, drop, length-drop, get_elem?, leb, ltb, ◌==◌, if◌then◌else◌,
  Bool-cases, arith, Outcome, ap, ◌∙◌, ◌>>=◌, >>=-eq-ok, ok, err, fault, Fault, out_of_fuel,
  checked_add, checked_mul, Allocator,
}
use greatgramma_rust.Normalized.{
  Action, shift, reduce, accept, Production, TerminalId, ValidatedLalr, action, checked_index, goto,
  production,
}
use greatgramma_rust.Lalr.{
  ParserError, ReductionResult, applied, work_limit_exceeded, RunDecision, UnderflowMode,
  PreviousReduction, RunWork, TerminalRun, Stack, Parse, charge, after_round, after_reduction,
  check_reduction_progress, stack_top, rank_rounds, rank_bound, Round, done, again, push_goto,
  parser_push, underflow, reduce_onto, apply_production, apply_reduction, act, round, run_loop,
  run_terminal,
}

mul_mono_right : (a b c : ℕ) → b ≤ c → a * b ≤ a * c
mul_mono_right a b c h = grind arith

mul_mono_left : (a b c : ℕ) → a ≤ b → a * c ≤ b * c
mul_mono_left a b c h = grind arith

rank_rounds_mono : (r m n : ℕ) → m ≤ n → rank_rounds r m ≤ rank_rounds r n
rank_rounds_mono r m n h = grind arith

-- A lower rank pays for one more state on the stack.
rank_rounds-grow : (q r m n : ℕ) → q < r → m ≤ n + 1 → rank_rounds q m + 1 ≤ rank_rounds r n
rank_rounds-grow q r m n h k =
    let x = n + r + 1 in
    omega
      (arith, mul_mono_right q (m + q + 1) x (omega arith), mul_mono_left (q + 1) r x (omega arith))

-- And for a run of reductions at that rank.
rank_rounds-run : (q r m n : ℕ) → q < r → m ≤ n → rank_rounds q m + m + 1 ≤ rank_rounds r n
rank_rounds-run q r m n h k = grind arith

-- Each rank in the table is below its bound.
get_elem?-lt-rank_bound :
    (actions : List Action) (i id rank : ℕ)
    → get_elem? actions i ≡ some (reduce id rank)
    → rank < rank_bound actions
unfolding rank_bound
get_elem?-lt-rank_bound [] i id rank h = absurd (cc h)
get_elem?-lt-rank_bound (reduce j r ∷ xs) zero id rank h = ground arith
get_elem?-lt-rank_bound (reduce j r ∷ xs) (suc i) id rank h =
    ground (arith, get_elem?-lt-rank_bound xs i id rank h)
get_elem?-lt-rank_bound (x ∷ xs) zero id rank h = ground arith
get_elem?-lt-rank_bound (x ∷ xs) (suc i) id rank h =
    ground (arith, get_elem?-lt-rank_bound xs i id rank h)

action-lt-rank_bound :
    (p : ValidatedLalr) (s t id rank : ℕ)
    → action p s t ≡ some (reduce id rank)
    → rank < rank_bound p.actions
unfolding action
action-lt-rank_bound p s t id rank h =
    grind (arith, get_elem?-lt-rank_bound p.actions (s * p.dimensions.terminal_count + t) id rank)

-- Rounds that are enough after the previous reduction, on a stack of the given size: at a rank
-- below `bound` before the first one, and at the same rank only after a pop of two or more.
abbrev rounds_left : ℕ → Option PreviousReduction → ℕ → ℕ
rounds_left bound none size = rank_rounds bound size
rounds_left bound (some previous) size =
    if leb 2 previous.pop_len
    then rank_rounds previous.rank (size + 1) + size + 1
    else rank_rounds previous.rank size

-- A reduction that passes the progress check and pops within the stack lowers `rounds_left`.
rounds_left-lt :
    (bound : ℕ) (previous : Option PreviousReduction) (rank pop_len size size' s t : ℕ)
    → rank < bound
    → check_reduction_progress previous rank s t ≡ ok tt
    → pop_len < size
    → size' + pop_len ≡ size + 1
    → rounds_left bound (some (record { rank = rank; pop_len = pop_len })) size'
      < rounds_left bound previous size
unfolding check_reduction_progress
rounds_left-lt bound none rank k n n' s t h c p e =
    ground (arith, rank_rounds-run rank bound (n' + 1) n h, rank_rounds-grow rank bound n' n h)
rounds_left-lt bound (some q) rank k n n' s t h c p e = ground (
  arith,
  rank_rounds_mono rank (n' + 1) (n + 1),
  rank_rounds_mono rank n' (n + 1),
  rank_rounds_mono q.rank n (n + 1),
  rank_rounds-run rank q.rank (n' + 1) n,
  rank_rounds-grow rank q.rank n' n,
)

module _ (alloc : Allocator) (p : ValidatedLalr) where
  push_goto-size :
      (stack stack' below : Stack) (id source k : ℕ) (prod : Production) (w w' : RunWork)
      → push_goto alloc p stack id prod source below w ≡ ok (applied k, stack', w')
      → (k ≡ prod.pop_len) × (length stack' ≡ length below + 2)
  unfolding push_goto charge parser_push
  push_goto-size stack stack' below id source k prod w w' h = ground arith

  reduce_onto-size :
      (stack stack' rest : Stack) (id k : ℕ) (prod : Production) (w w' : RunWork)
      → reduce_onto alloc p stack id prod w rest ≡ ok (applied k, stack', w')
      → (k ≡ prod.pop_len) × (length stack' ≡ length rest + 1)
  unfolding reduce_onto
  reduce_onto-size stack stack' [] id k prod w w' h = absurd (cc h)
  reduce_onto-size stack stack' (source ∷ below) id k prod w w' h =
      omega (arith, push_goto-size stack stack' below id source k prod w w' h)

  apply_production-size :
      (stack stack' : Stack) (id k : ℕ) (mode : UnderflowMode) (w w' : RunWork) (prod : Production)
      → apply_production alloc p stack id mode w prod ≡ ok (applied k, stack', w')
      → (k < length stack) × (length stack' + k ≡ length stack + 1)
  unfolding apply_production underflow
  apply_production-size stack stack' id k mode w w' prod h = ground (
    arith,
    reduce_onto-size stack stack' (drop prod.pop_len stack) id k prod w w',
    length-drop prod.pop_len stack,
  )

  -- A reduction that is applied pops within the stack and pushes one state.
  apply_reduction-size :
      (stack stack' : Stack) (id k : ℕ) (mode : UnderflowMode) (w w' : RunWork)
      → apply_reduction alloc p stack id mode w ≡ ok (applied k, stack', w')
      → (k < length stack) × (length stack' + k ≡ length stack + 1)
  unfolding apply_reduction charge
  apply_reduction-size stack stack' id k mode w w' h =
      grind (arith, apply_production-size stack stack' id k mode)

  push_goto-ne-fault :
      (stack below : Stack) (id source : ℕ) (prod : Production) (w : RunWork) (x : Fault)
      → push_goto alloc p stack id prod source below w ≢ fault x
  unfolding push_goto charge parser_push
  push_goto-ne-fault stack below id source prod w x h = ground arith

  apply_production-ne-fault :
      (stack : Stack) (id : ℕ) (mode : UnderflowMode) (w : RunWork) (prod : Production) (x : Fault)
      → apply_production alloc p stack id mode w prod ≢ fault x
  unfolding apply_production underflow reduce_onto
  apply_production-ne-fault stack id mode w prod x h = grind (arith, push_goto-ne-fault)

  apply_reduction-ne-fault :
      (stack : Stack) (id : ℕ) (mode : UnderflowMode) (w : RunWork) (x : Fault)
      → apply_reduction alloc p stack id mode w ≢ fault x
  unfolding apply_reduction charge
  apply_reduction-ne-fault stack id mode w x h = grind (arith, apply_production-ne-fault)

  module _ (mode : UnderflowMode) (t index count : ℕ) where
    abbrev size_left : Option PreviousReduction → Stack → ℕ
    size_left previous stack = rounds_left (rank_bound p.actions) previous (length stack)

    after_reduction-again :
        (rank : ℕ) (result : ReductionResult × Stack × RunWork) (previous' : PreviousReduction)
        (stack' : Stack) (w' : RunWork)
        → after_reduction alloc p mode t index count rank result ≡ ok (again previous' stack' w')
        → (k : ℕ) × (result ≡ (applied k, stack', w'))
          × (previous' ≡ record { rank = rank; pop_len = k })
    after_reduction-again rank (applied k, s, v) q' stack' w' h = (k, ground arith, cc)
    after_reduction-again rank (ReductionResult.dependent, s, v) q' stack' w' h = absurd (cc h)
    after_reduction-again rank (work_limit_exceeded, s, v) q' stack' w' h = absurd (cc h)

    reduce-lt :
        (id rank : ℕ) (previous : Option PreviousReduction) (stack : Stack) (w : RunWork) (s : ℕ)
        (previous' : PreviousReduction) (stack' : Stack) (w' : RunWork)
        → rank < rank_bound p.actions
        → act alloc p mode t index count previous stack w s (reduce id rank)
          ≡ ok (again previous' stack' w')
        → size_left (some previous') stack' < size_left previous stack
    unfolding act
    reduce-lt id rank previous stack w s q' stack' w' low h =
        let (_, progress, h₁) = >>=-eq-ok (check_reduction_progress previous rank s t) _ h in
        let (result, run, h₂) = >>=-eq-ok (apply_reduction alloc p stack id mode w) _ h₁ in
        let (k, e, eq) = after_reduction-again rank result q' stack' w' h₂ in
        let sizes = apply_reduction-size stack stack' id k mode w w' (run ∙ ap ok e) in
        rw eq (
          rounds_left-lt (rank_bound p.actions) previous rank k (length stack) (length stack') s t
            low progress sizes.0 sizes.1)

    act-lt :
        (a : Action) (previous : Option PreviousReduction) (stack : Stack) (w : RunWork) (s : ℕ)
        (previous' : PreviousReduction) (stack' : Stack) (w' : RunWork)
        → action p s t ≡ some a
        → act alloc p mode t index count previous stack w s a ≡ ok (again previous' stack' w')
        → size_left (some previous') stack' < size_left previous stack
    unfolding act charge parser_push
    act-lt (reduce id rank) previous stack w s q' stack' w' e h =
        reduce-lt id rank previous stack w s q' stack' w' (action-lt-rank_bound p s t id rank e) h
    act-lt Action.error previous stack w s q' stack' w' e h = absurd (cc h)
    act-lt (shift d) previous stack w s q' stack' w' e h = absurd (ground arith)
    act-lt accept previous stack w s q' stack' w' e h = absurd (ground arith)

    round-lt :
        (previous : Option PreviousReduction) (stack : Stack) (w : RunWork)
        (previous' : PreviousReduction) (stack' : Stack) (w' : RunWork)
        → round alloc p mode t index count previous stack w ≡ ok (again previous' stack' w')
        → size_left (some previous') stack' < size_left previous stack
    unfolding round charge stack_top
    round-lt previous stack w q' stack' w' h = grind (arith, act-lt)

    act-ne-fault :
        (a : Action) (previous : Option PreviousReduction) (stack : Stack) (w : RunWork) (s : ℕ)
        (x : Fault)
        → act alloc p mode t index count previous stack w s a ≢ fault x
    unfolding act charge parser_push check_reduction_progress
    act-ne-fault Action.error previous stack w s x h = cc
    act-ne-fault (shift d) previous stack w s x h = ground arith
    act-ne-fault accept previous stack w s x h = ground arith
    act-ne-fault (reduce id rank) previous stack w s x h =
        ground (arith, apply_reduction-ne-fault stack id mode w x)

    round-ne-fault :
        (previous : Option PreviousReduction) (stack : Stack) (w : RunWork) (x : Fault)
        → round alloc p mode t index count previous stack w ≢ fault x
    unfolding round charge stack_top
    round-ne-fault previous stack w x h = grind (arith, act-ne-fault)

    after_round-ne-fault :
        (rest : PreviousReduction → Stack → RunWork → Parse (TerminalRun × Stack × RunWork))
        (r : Parse Round) (x : Fault)
        → r ≢ fault x
        → ((q : PreviousReduction) (s : Stack) (v : RunWork)
            → r ≡ ok (again q s v)
            → rest q s v ≢ fault x)
        → (r >>= after_round alloc p mode t index count rest) ≢ fault x
    after_round-ne-fault rest (ok (done run s v)) x safe ih h = cc
    after_round-ne-fault rest (ok (again q s v)) x safe ih h = ih q s v refl h
    after_round-ne-fault rest (err e) x safe ih h = cc
    after_round-ne-fault rest (fault y) x safe ih h = safe (ground arith)

    -- As many rounds as are left are enough.
    run_loop-ne-fault :
        (fuel : ℕ) (previous : Option PreviousReduction) (stack : Stack) (w : RunWork) (x : Fault)
        → size_left previous stack ≤ fuel
        → run_loop alloc p mode t index count fuel previous stack w ≢ fault x
    unfolding run_loop
    run_loop-ne-fault zero previous stack w x enough h = absurd (ground arith)
    run_loop-ne-fault (suc fuel) previous stack w x enough h =
        after_round-ne-fault _ (round alloc p mode t index count previous stack w) x
          (round-ne-fault previous stack w x)
          (λ q s v e.
            run_loop-ne-fault fuel (some q) s v x
              (omega (arith, round-lt previous stack w q s v e)))
          h

    -- `run_terminal` ends without a panic for every table, stack and work limit: the rank and the
    -- pop length that the progress check compares bound the reductions of one terminal.
    pub run_terminal-ne-fault :
        (stack : Stack) (w : RunWork) (x : Fault)
        → run_terminal alloc p mode t index count stack w ≢ fault x
    unfolding run_terminal
    run_terminal-ne-fault stack w x =
        run_loop-ne-fault (rank_rounds (rank_bound p.actions) (length stack)) none stack w x
          (omega arith)
