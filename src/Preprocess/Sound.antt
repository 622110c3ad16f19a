-- ===== src/Preprocess/Sound.antt =====
-- The classification of a sequence head by crates/greatgramma-core/src/preprocess.rs against its
-- execution on whole stacks by crates/greatgramma-core/src/lalr_reference.rs.
use greatgramma_rust.Base.{
  ℕ, sym, ◌≡◌, ◌≢◌, ◌⊎◌, inl, inr, refl, ap, ◌∙◌, Bool, true, false, none, List, [], ◌∷◌, length,
  arith, >>=-eq-ok, ok, ◌>>=◌, ◌>>◌, Allocator,
}
use greatgramma_rust.Normalized.{TerminalId, ParserStateId, ValidatedLalr}
use greatgramma_rust.Lalr.{
  RunDecision, rejected, accepted, UnderflowMode, DecisionStatus, RunWork, Stack, charge,
  copy_stack_into, validate_inputs,
}
use greatgramma_rust.Lalr.Run.{
  unbounded, run_initialized, run_validated_into, run_validated_in_place, unbounded_decision,
  execute_terminals_concrete_into, execute_terminals_concrete_in_place, execute_terminals_symbolic,
}
use greatgramma_rust.Lalr.Reference.{
  sequence_head_allowed_with_scratch, direct_prefix, final_terminal,
}
use greatgramma_rust.Lalr.Symbolic.{NeverRefuses}
use greatgramma_rust.Lalr.Symbolic.Run.{Probed, Refused, head-Probed}
use greatgramma_rust.Preprocess.{
  SequenceClassification, always_readable, classify_decision, classify_sequence_head,
}

-- Whether a decision lets the head through.
abbrev allows : RunDecision → Bool
allows RunDecision.continue = true
allows accepted = true
allows _ = false

readable-allows :
    (d : RunDecision)
    → classify_decision d ≡ always_readable
    → (d ≢ RunDecision.dependent) × (allows d ≡ true)
unfolding classify_decision
readable-allows RunDecision.continue h = (λ e. cc, refl)
readable-allows accepted h = (λ e. cc, refl)
readable-allows rejected h = absurd (cc h)
readable-allows RunDecision.dependent h = absurd (cc h)

rejected-refuses :
    (d : RunDecision)
    → classify_decision d ≡ SequenceClassification.rejected
    → (d ≢ RunDecision.dependent) × (allows d ≡ false)
unfolding classify_decision
rejected-refuses RunDecision.continue h = absurd (cc h)
rejected-refuses accepted h = absurd (cc h)
rejected-refuses rejected h = (λ e. cc, refl)
rejected-refuses RunDecision.dependent h = absurd (cc h)

module _ (alloc : Allocator) (p : ValidatedLalr) (roomy : NeverRefuses alloc) where
  -- Without a work limit a run starts at the first terminal.
  run_validated_into_lem :
      (stack : Stack) (ts : List TerminalId) (mode : UnderflowMode)
      → run_validated_into alloc p stack ts mode none
        ≡ run_initialized alloc p mode (length ts) 0 ts stack unbounded
  unfolding run_validated_into charge copy_stack_into
  run_validated_into_lem stack ts mode = rw (roomy (length stack))

  -- Concrete execution without a work limit is the run from the first terminal.
  into_lem :
      (stack : Stack) (ts : List TerminalId) (d : RunDecision) (s : Stack)
      → run_initialized alloc p UnderflowMode.error (length ts) 0 ts stack unbounded
        ≡ ok (DecisionStatus.complete d 0, s)
      → execute_terminals_concrete_into alloc p stack ts ≡ ok (d, s)
  unfolding execute_terminals_concrete_into run_validated_into unbounded_decision charge
      copy_stack_into
  into_lem stack ts d s h = rw (roomy (length stack), h)

  in_place_lem :
      (stack : Stack) (ts : List TerminalId) (d : RunDecision) (s : Stack)
      → run_initialized alloc p UnderflowMode.error (length ts) 0 ts stack unbounded
        ≡ ok (DecisionStatus.complete d 0, s)
      → execute_terminals_concrete_in_place alloc p stack ts ≡ ok (d, s)
  unfolding execute_terminals_concrete_in_place run_validated_in_place unbounded_decision charge
  in_place_lem stack ts d s h = rw h

  head_allowed :
      (t : TerminalId) (ts : List TerminalId) (stack : Stack) (d : RunDecision)
      → d ≢ RunDecision.dependent
      → Probed alloc p roomy [] t ts stack d ⊎ Refused alloc p roomy [] t ts stack d
      → sequence_head_allowed_with_scratch alloc p stack (t ∷ ts) ≡ ok (allows d)
  unfolding sequence_head_allowed_with_scratch
  head_allowed t ts stack d decided (inl (s, s', direct, probe)) =
      rw
        (
          into_lem stack (direct_prefix t ts) RunDecision.continue s (direct 0 _),
          in_place_lem s (final_terminal t ts ∷ []) d s' probe,
        )
        (ground arith)
  head_allowed t ts stack d decided (inr (e, s', direct)) =
      rw (into_lem stack (direct_prefix t ts) rejected s' (direct 0 _), e)

  -- A head that is decided from the top state alone is decided alike on every stack with that top.
  pub decided-allowed :
      (top : ParserStateId) (below : Stack) (t : TerminalId) (ts : List TerminalId) (w : RunWork)
      (d : RunDecision) (k : ℕ) (s : Stack)
      → run_initialized alloc p UnderflowMode.dependent (length (t ∷ ts)) 0 (t ∷ ts) (top ∷ []) w
        ≡ ok (DecisionStatus.complete d k, s)
      → (classify_decision d ≡ always_readable
          → sequence_head_allowed_with_scratch alloc p (top ∷ below) (t ∷ ts) ≡ ok true)
        × (classify_decision d ≡ SequenceClassification.rejected
            → sequence_head_allowed_with_scratch alloc p (top ∷ below) (t ∷ ts) ≡ ok false)
  decided-allowed top below t ts w d k s run =
      let executed = λ (decided : d ≢ RunDecision.dependent).
        head_allowed t ts (top ∷ below) d decided (
          head-Probed alloc p roomy below UnderflowMode.dependent (length (t ∷ ts)) 0 t ts
            (top ∷ []) w d k s (omega arith) decided run) in
      (
        λ readable.
            let (decided, yes') = readable-allows d readable in executed decided ∙ ap ok yes',
        λ refused. let (decided, no') = rejected-refuses d refused in executed decided ∙ ap ok no',
      )

  unbounded_decision-eq-ok :
      (status : DecisionStatus × Stack) (d : RunDecision × Stack)
      → unbounded_decision status ≡ ok d
      → (k : ℕ) × (status ≡ (DecisionStatus.complete d.0 k, d.1))
  unfolding unbounded_decision
  unbounded_decision-eq-ok (DecisionStatus.complete d k, s) (d', s') h = (k, ground arith)
  unbounded_decision-eq-ok (DecisionStatus.work_limit_exceeded r, s) (d', s') h = absurd (cc h)

  symbolic-run :
      (top : ParserStateId) (t : TerminalId) (ts : List TerminalId) (c : SequenceClassification)
      → classify_sequence_head alloc p top (t ∷ ts) ≡ ok c
      → (d : RunDecision) × (k : ℕ) × (s : Stack) × (c ≡ classify_decision d)
        × (run_initialized alloc p UnderflowMode.dependent
              (length (t ∷ ts))
              0
              (t ∷ ts)
              (top ∷ [])
              unbounded
            ≡ ok (DecisionStatus.complete d k, s))
  unfolding classify_sequence_head execute_terminals_symbolic run_validated_into unbounded_decision
      charge copy_stack_into
  symbolic-run top t ts c h =
      let stack = top ∷ [] in
      let (d, symbolic, same) = >>=-eq-ok (execute_terminals_symbolic alloc p stack (t ∷ ts)) _ h in
      let checked = validate_inputs p stack (t ∷ ts) in
      let run = run_validated_into alloc p stack (t ∷ ts) UnderflowMode.dependent none in
      let (result, decision, first) =
        >>=-eq-ok (checked >> run >>= unbounded_decision) _ symbolic in
      let (status, completes, second) = >>=-eq-ok (checked >> run) _ decision in
      let (u, valid, third) = >>=-eq-ok checked _ completes in
      let (k, e) = unbounded_decision-eq-ok status result second in
      (
        result.0,
        k,
        result.1,
        ground arith,
        sym (run_validated_into_lem stack (t ∷ ts) UnderflowMode.dependent) ∙ third ∙ ap ok e,
      )

  -- With room for every reservation, a head that is classified from the top state alone is executed
  -- alike on every stack with that top: `always_readable` is allowed and `rejected` is refused,
  -- whatever states stand below.
  pub classify_sequence_head_sound :
      (top : ParserStateId) (below : Stack) (head : List TerminalId) (c : SequenceClassification)
      → classify_sequence_head alloc p top head ≡ ok c
      → (c ≡ always_readable
          → sequence_head_allowed_with_scratch alloc p (top ∷ below) head ≡ ok true)
        × (c ≡ SequenceClassification.rejected
            → sequence_head_allowed_with_scratch alloc p (top ∷ below) head ≡ ok false)
  unfolding classify_sequence_head classify_decision
  classify_sequence_head_sound top below [] c h = absurd (cc h)
  classify_sequence_head_sound top below (t ∷ ts) c h =
      let (d, k, s, e, run) = symbolic-run top t ts c h in
      let (readable, refused) = decided-allowed top below t ts unbounded d k s run in
      (λ is. readable (sym e ∙ is), λ is. refused (sym e ∙ is))
