-- ===== src/Lalr/Symbolic/Run.antt =====
-- Symbolic runs over a slice of terminals decide the concrete runs, after
-- crates/greatgramma-core/src/lalr.rs.
use greatgramma_rust.Base.{
  ℕ, suc, ◌+◌, ◌≤◌, ◌≡◌, ◌≢◌, ◌⊎◌, inl, inr, refl, ap, ◌∙◌, Bool, true, false, Option, none, some,
  List, [], ◌∷◌, ◌++◌, length, length-append, if◌then◌else◌, arith, >>=-eq-ok, ok, err, fault,
  ◌>>=◌, ok_or, Allocator,
}
use greatgramma_rust.Normalized.{TerminalId, ValidatedLalr, is_ignored}
use greatgramma_rust.Lalr.{
  RunDecision, rejected, accepted, UnderflowMode, RunWork, DecisionStatus, TerminalRun, shifted,
  complete, work_limit_exceeded, Stack, Parse, charge, rank_rounds, rank_bound, run_terminal,
  invariant_violation,
}
use greatgramma_rust.Lalr.Run.{unbounded, run_initialized, after_terminal, take_terminal}
use greatgramma_rust.Lalr.Reference.{direct_prefix, final_terminal}
use greatgramma_rust.Lalr.Fuel.{run_loop_mono}
use greatgramma_rust.Lalr.Endings.{run_terminal-IsEnding}
use greatgramma_rust.Lalr.Symbolic.{IsDecided, NeverRefuses, run_loop-extend}

rank_rounds_mono : (r m n : ℕ) → m ≤ n → rank_rounds r m ≤ rank_rounds r n
rank_rounds_mono r m n h = grind arith

module _ (alloc : Allocator) (p : ValidatedLalr) (roomy : NeverRefuses alloc) (below : Stack) where
  pub run_terminal-extend :
      (mode : UnderflowMode) (t i n j m : ℕ) (stack : Stack) (w : RunWork) (run : TerminalRun)
      (stack' : Stack) (w' : RunWork)
      → (i + 1 ≡ n → j + 1 ≡ m)
      → run_terminal alloc p mode t i n stack w ≡ ok (run, stack', w')
      → IsDecided run
      → run_terminal alloc p UnderflowMode.error t j m (stack ++ below) unbounded
        ≡ ok (run, stack' ++ below, unbounded)
  unfolding run_terminal
  run_terminal-extend mode t i n j m stack w run stack' w' last h d =
      let rounds = rank_rounds (rank_bound p.actions) (length stack) in
      let more = rank_rounds (rank_bound p.actions) (length (stack ++ below)) in
      let enough : rounds ≤ more =
        rank_rounds_mono (rank_bound p.actions) (length stack) (length (stack ++ below))
          (omega (arith, length-append stack below)) in
      run_loop_mono alloc p UnderflowMode.error t j m rounds more none (stack ++ below) unbounded
        (run, stack' ++ below, unbounded) enough
        (run_loop-extend alloc p roomy below mode t i n j m last rounds none stack w run stack' w' h
          d)

  -- A run that completes was within its work limit.
  charged-complete :
      (c : Parse (Bool × RunWork)) (within : RunWork → Parse (DecisionStatus × Stack))
      (stack : Stack) {d : RunDecision} {k : ℕ} {stack' : Stack}
      → (c >>= λ (fits, v).
          if fits then within v else ok (DecisionStatus.work_limit_exceeded v.used, stack))
        ≡ ok (DecisionStatus.complete d k, stack')
      → (v : RunWork) × (within v ≡ ok (DecisionStatus.complete d k, stack'))
  charged-complete (ok (true, v)) within stack h = (v, h)
  charged-complete (ok (false, v)) within stack h = absurd (cc h)
  charged-complete (err e) within stack h = absurd (cc h)
  charged-complete (fault x) within stack h = absurd (cc h)

  -- How a decided run over `t ∷ ts` begins: it goes on past `t`, or stops at it; the concrete run
  -- does the same, at any place in its slice but for an accept, which is the last terminal.
  abbrev Passes :
      (mode : UnderflowMode) (t i n : ℕ) (ts : List TerminalId) (stack : Stack) (d : RunDecision)
      (k : ℕ) (stack' : Stack)
      → Type 0
  Passes mode t i n ts stack d k stack' =
      (s : Stack) × (v : RunWork) × (run_initialized alloc p mode n (suc i) ts s v
        ≡ ok (DecisionStatus.complete d k, stack'))
      × ((j m : ℕ) (us : List TerminalId)
          → (i + 1 ≡ n → j + 1 ≡ m)
          → run_initialized alloc p UnderflowMode.error m j (t ∷ us) (stack ++ below) unbounded
            ≡ run_initialized alloc p UnderflowMode.error m (suc j) us (s ++ below) unbounded)

  abbrev Stops : (t i n : ℕ) (stack : Stack) (d : RunDecision) (stack' : Stack) → Type 0
  Stops t i n stack d stack' =
      ((d ≡ rejected) ⊎ ((d ≡ accepted) × (i + 1 ≡ n)))
      × ((j m : ℕ) (us : List TerminalId)
          → (i + 1 ≡ n → j + 1 ≡ m)
          → run_initialized alloc p UnderflowMode.error m j (t ∷ us) (stack ++ below) unbounded
            ≡ ok (DecisionStatus.complete d 0, stack' ++ below))

  terminal-begin :
      (mode : UnderflowMode) (n i : ℕ) (t : TerminalId) (ts : List TerminalId) (stack : Stack)
      (w : RunWork) (d : RunDecision) (k : ℕ) (stack' : Stack)
      (result : TerminalRun × Stack × RunWork)
      → is_ignored p t ≡ some false
      → d ≢ RunDecision.dependent
      → run_terminal alloc p mode t i n stack w ≡ ok result
      → after_terminal alloc p mode n (run_initialized alloc p mode n (suc i) ts) result
        ≡ ok (DecisionStatus.complete d k, stack')
      → Passes mode t i n ts stack d k stack' ⊎ Stops t i n stack d stack'
  unfolding run_initialized charge
  terminal-begin mode n i t ts stack w d k stack' (shifted, s, v) kept decided e h = inl (
    s,
    v,
    h,
    λ j m us last. rw (kept, run_terminal-extend mode t i n j m stack w shifted s v last e tt),
  )
  terminal-begin mode n i t ts stack w d k stack' (work_limit_exceeded, s, v) kept decided e h =
      absurd (cc h)
  terminal-begin mode n i t ts stack w d k stack' (complete rejected, s, v) kept decided e h =
      let ed : d ≡ rejected = ground arith in
      let es : stack' ≡ s = ground arith in
      inr (
        inl ed,
        λ j m us last. rw (
          kept,
          run_terminal-extend mode t i n j m stack w (complete rejected) s v last e tt,
          ed,
          es,
        ),
      )
  terminal-begin mode n i t ts stack w d k stack' (complete accepted, s, v) kept decided e h =
      let ed : d ≡ accepted = ground arith in
      let es : stack' ≡ s = ground arith in
      let end = run_terminal-IsEnding alloc p mode t i n stack w (complete accepted) s v e in
      inr (
        inr (ed, end),
        λ j m us last. rw (
          kept,
          run_terminal-extend mode t i n j m stack w (complete accepted) s v last e tt,
          ed,
          es,
        ),
      )
  terminal-begin mode n i t ts stack w d k stack' (complete RunDecision.continue, s, v) kept decided
        e h =
      absurd
        (run_terminal-IsEnding alloc p mode t i n stack w (complete RunDecision.continue) s v e)
  terminal-begin mode n i t ts stack w d k stack' (complete RunDecision.dependent, s, v) kept
        decided e h =
      absurd (decided (ground arith))

  ignored-begin :
      (mode : UnderflowMode) (n i : ℕ) (t : TerminalId) (ts : List TerminalId) (stack : Stack)
      (w : RunWork) (d : RunDecision) (k : ℕ) (stack' : Stack) (o : Option Bool)
      → is_ignored p t ≡ o
      → d ≢ RunDecision.dependent
      → (ok_or o invariant_violation
          >>= take_terminal alloc p mode n (run_initialized alloc p mode n (suc i) ts) i t stack w)
        ≡ ok (DecisionStatus.complete d k, stack')
      → Passes mode t i n ts stack d k stack' ⊎ Stops t i n stack d stack'
  unfolding run_initialized charge
  ignored-begin mode n i t ts stack w d k stack' none e decided h = absurd (cc h)
  ignored-begin mode n i t ts stack w d k stack' (some true) e decided h =
      inl (stack, w, h, λ j m us last. rw e)
  ignored-begin mode n i t ts stack w d k stack' (some false) e decided h =
      let (result, run, rest) = >>=-eq-ok (run_terminal alloc p mode t i n stack w) _ h in
      terminal-begin mode n i t ts stack w d k stack' result e decided run rest

  run_initialized-begin :
      (mode : UnderflowMode) (n i : ℕ) (t : TerminalId) (ts : List TerminalId) (stack : Stack)
      (w : RunWork) (d : RunDecision) (k : ℕ) (stack' : Stack)
      → d ≢ RunDecision.dependent
      → run_initialized alloc p mode n i (t ∷ ts) stack w ≡ ok (DecisionStatus.complete d k, stack')
      → Passes mode t i n ts stack d k stack' ⊎ Stops t i n stack d stack'
  unfolding run_initialized charge
  run_initialized-begin mode n i t ts stack w d k stack' decided h =
      let (v, begun) = charged-complete (charge w 1) _ stack h in
      ignored-begin mode n i t ts stack v d k stack' (is_ignored p t) refl decided begun

  -- What a symbolic run of the head `t ∷ ts` that decides `d` means for the concrete run on the
  -- stack with the states below: the direct prefix is rejected, or it is shifted and the probe of
  -- the final terminal decides `d`.
  abbrev pub Probed :
      (t : TerminalId) (ts : List TerminalId) (stack : Stack) (d : RunDecision) → Type 0
  Probed t ts stack d =
      (s : Stack) × (s' : Stack) × ((j m : ℕ)
        → run_initialized alloc p UnderflowMode.error m j (direct_prefix t ts) stack unbounded
          ≡ ok (DecisionStatus.complete RunDecision.continue 0, s))
      × (run_initialized alloc p UnderflowMode.error 1 0 (final_terminal t ts ∷ []) s unbounded
          ≡ ok (DecisionStatus.complete d 0, s'))

  abbrev pub Refused :
      (t : TerminalId) (ts : List TerminalId) (stack : Stack) (d : RunDecision) → Type 0
  Refused t ts stack d =
      (d ≡ rejected)
      × (s' : Stack) × ((j m : ℕ)
          → run_initialized alloc p UnderflowMode.error m j (direct_prefix t ts) stack unbounded
            ≡ ok (DecisionStatus.complete rejected 0, s'))

  pub head-Probed :
      (mode : UnderflowMode) (n i : ℕ) (t : TerminalId) (ts : List TerminalId) (stack : Stack)
      (w : RunWork) (d : RunDecision) (k : ℕ) (stack' : Stack)
      → i + length (t ∷ ts) ≡ n
      → d ≢ RunDecision.dependent
      → run_initialized alloc p mode n i (t ∷ ts) stack w ≡ ok (DecisionStatus.complete d k, stack')
      → Probed t ts (stack ++ below) d ⊎ Refused t ts (stack ++ below) d
  unfolding run_initialized
  head-Probed mode n i t [] stack w d k stack' len decided h =
      elim (run_initialized-begin mode n i t [] stack w d k stack' decided h) [
        | inl (s, v, rest, conc) ↦
            inl (stack ++ below, s ++ below, λ j m. refl, conc 0 1 [] (λ _. refl) ∙ ground arith)
        | inr (_, conc) ↦
            inl (stack ++ below, stack' ++ below, λ j m. refl, conc 0 1 [] (λ _. refl))
      ]
  head-Probed mode n i t (u ∷ us) stack w d k stack' len decided h =
      elim (run_initialized-begin mode n i t (u ∷ us) stack w d k stack' decided h) [
        | inl (s, v, rest, conc) ↦
            elim (head-Probed mode n (suc i) u us s v d k stack' (omega arith) decided rest) [
              | inl (s₁, s₂, direct, probe) ↦ inl (
                s₁,
                s₂,
                λ j m. conc j m (direct_prefix u us) (λ e. absurd (omega arith)) ∙ direct (suc j) m,
                probe,
              )
              | inr (e, s₂, direct) ↦ inr (
                e,
                s₂,
                λ j m. conc j m (direct_prefix u us) (λ e. absurd (omega arith)) ∙ direct (suc j) m,
              )
            ]
        | inr (inl e, conc) ↦ inr (
          e,
          stack' ++ below,
          λ j m.
              conc j m (direct_prefix u us) (λ e. absurd (omega arith))
              ∙ ap (λ x. ok (DecisionStatus.complete x 0, stack' ++ below)) e,
        )
        | inr (inr (e, end), conc) ↦ absurd (omega arith)
      ]
