-- ===== src/Lalr/Fuel.antt =====
-- The rounds given to `run_terminal` of crates/greatgramma-core/src/lalr.rs: more of them change
-- nothing.
use greatgramma_rust.Base.{ℕ, zero, suc, ◌≤◌, ◌≡◌, Option, some, arith, >>=-eq-ok, ok, Allocator}
use greatgramma_rust.Normalized.{ValidatedLalr}
use greatgramma_rust.Lalr.{
  UnderflowMode, PreviousReduction, RunWork, TerminalRun, Stack, Parse, Round, done, again, round,
  after_round, run_loop,
}

module _ (alloc : Allocator) (p : ValidatedLalr) (mode : UnderflowMode) (t i n : ℕ) where
  abbrev Rest : Type 0
  Rest = PreviousReduction → Stack → RunWork → Parse (TerminalRun × Stack × RunWork)

  after_round_mono :
      (rest rest' : Rest) (r : Round) (x : TerminalRun × Stack × RunWork)
      → ((q : PreviousReduction) (s : Stack) (v : RunWork) → rest q s v ≡ ok x → rest' q s v ≡ ok x)
      → after_round alloc p mode t i n rest r ≡ ok x
      → after_round alloc p mode t i n rest' r ≡ ok x
  after_round_mono rest rest' (done run s v) x ih h = h
  after_round_mono rest rest' (again q s v) x ih h = ih q s v h

  pub run_loop_mono :
      (f g : ℕ) (previous : Option PreviousReduction) (stack : Stack) (w : RunWork)
      (x : TerminalRun × Stack × RunWork)
      → f ≤ g
      → run_loop alloc p mode t i n f previous stack w ≡ ok x
      → run_loop alloc p mode t i n g previous stack w ≡ ok x
  unfolding run_loop
  run_loop_mono zero g previous stack w x le h = absurd (cc h)
  run_loop_mono (suc f) zero previous stack w x le h = absurd (omega arith)
  run_loop_mono (suc f) (suc g) previous stack w x le h =
      let (r, e, k) = >>=-eq-ok (round alloc p mode t i n previous stack w) _ h in
      rw e (
        after_round_mono (λ q. run_loop alloc p mode t i n f (some q)) _ r x
          (λ q s v. run_loop_mono f g (some q) s v x (omega arith)) k)
