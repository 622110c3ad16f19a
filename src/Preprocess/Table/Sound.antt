-- ===== src/Preprocess/Table/Sound.antt =====
-- The prepared classifications of crates/greatgramma-core/src/preprocess.rs against execution on
-- whole stacks.
use greatgramma_rust.Base.{
  ℕ, ◌<◌, ◌≡◌, sym, ap, ◌∙◌, subst, Bool, true, false, some, List, [], ◌∷◌, length, get_elem?,
  get_elem?-lt-length, if◌then◌else◌, ok, ◌>>=◌, ok_or, map_err, >>=-eq-ok, ok_or-eq-ok,
  map_err-eq-ok, ok_inj, collect, collect-MadeAt, length-collect, checked_mul, try_u32,
  try_u32-eq-some, Allocator,
}
use greatgramma_rust.Normalized.{ParserStateId, TerminalId, SequenceId, ValidatedLalr}
use greatgramma_rust.Lalr.{
  RunDecision, UnderflowMode, DecisionStatus, RunWork, Stack, new_work, charge as charge_run,
  copy_stack_into, invalid_state,
}
use greatgramma_rust.Lalr.Run.{
  run_initialized, run_validated_into, execute_terminals_symbolic_checked_with_limit,
}
use greatgramma_rust.Lalr.Reference.{sequence_head_allowed_with_scratch}
use greatgramma_rust.Lalr.Symbolic.{NeverRefuses}
use greatgramma_rust.TokenStep.Budget.{
  PreparationLimits, WorkBudget, invariant_violation, check_items, charge, remaining, prepared_vec,
}
use greatgramma_rust.Sequence.{sequence, sequence_count}
use greatgramma_rust.Spanner.{PreparedSpanner}
use greatgramma_rust.Preprocess.{SequenceClassification, always_readable}
use greatgramma_rust.Preprocess.Sound.{decided-allowed}
use greatgramma_rust.Preprocess.Table.{
  PreparedParser, classification, map_parser_preparation_error, charge_status,
  classify_sequence_head_with_budget, classify_cell, prepare_parser_row, parser_row_at, table_items,
  prepare_parser_with_budget,
}

-- What a classification says of a head on every stack with that top.
abbrev pub Foretells :
    Allocator → ValidatedLalr → Stack → List TerminalId → SequenceClassification → Type 0
Foretells alloc p stack head c =
    (c ≡ always_readable → sequence_head_allowed_with_scratch alloc p stack head ≡ ok true)
    × (c ≡ SequenceClassification.rejected
        → sequence_head_allowed_with_scratch alloc p stack head ≡ ok false)

module _ (alloc : Allocator) (p : ValidatedLalr) (roomy : NeverRefuses alloc) where
  within :
      (stack : Stack) (ts : List TerminalId) (fits : Bool) (w : RunWork) (d : RunDecision) (k : ℕ)
      (s : Stack)
      → (if fits
          then (copy_stack_into alloc p stack >>= λ stack'.
              run_initialized alloc p UnderflowMode.dependent (length ts) 0 ts stack' w)
          else ok (DecisionStatus.work_limit_exceeded w.used, stack))
        ≡ ok (DecisionStatus.complete d k, s)
      → run_initialized alloc p UnderflowMode.dependent (length ts) 0 ts stack w
        ≡ ok (DecisionStatus.complete d k, s)
  unfolding copy_stack_into
  within stack ts true w d k s h = rw (roomy (length stack)) at h
  within stack ts false w d k s h = absurd (cc h)

  limited-run :
      (stack : Stack) (ts : List TerminalId) (limit : ℕ) (d : RunDecision) (k : ℕ)
      → execute_terminals_symbolic_checked_with_limit alloc p stack ts limit
        ≡ ok (DecisionStatus.complete d k)
      → (w : RunWork) × (s : Stack) × (run_initialized alloc p UnderflowMode.dependent
            (length ts)
            0
            ts
            stack
            w
          ≡ ok (DecisionStatus.complete d k, s))
  unfolding execute_terminals_symbolic_checked_with_limit run_validated_into
  limited-run stack ts limit d k h =
      let (result, e, f) =
        >>=-eq-ok (run_validated_into alloc p stack ts UnderflowMode.dependent (some limit)) _ h in
      let (charged', e₁, f₁) = >>=-eq-ok (charge_run (new_work (some limit)) (length stack)) _ e in
      let same : result ≡ (DecisionStatus.complete d k, result.1) =
        ap (λ status. (status, result.1)) (ok_inj f) in
      (charged'.1, result.1, within stack ts charged'.0 charged'.1 d k result.1 (f₁ ∙ ap ok same))

  charge_status-Foretells :
      (top : ParserStateId) (below : Stack) (t : TerminalId) (ts : List TerminalId)
      (work : WorkBudget) (status : DecisionStatus) (made : SequenceClassification × WorkBudget)
      → execute_terminals_symbolic_checked_with_limit alloc p (top ∷ []) (t ∷ ts) (remaining work)
        ≡ ok status
      → charge_status work status ≡ ok made
      → Foretells alloc p (top ∷ below) (t ∷ ts) made.0
  unfolding charge_status
  charge_status-Foretells top below t ts work (DecisionStatus.complete d k) made run h =
      let (w, s, e) = limited-run (top ∷ []) (t ∷ ts) (remaining work) d k run in
      let (work', e₁, f) = >>=-eq-ok (charge work k) _ h in
      subst (λ m. Foretells alloc p (top ∷ below) (t ∷ ts) m.0) (ok_inj f)
        (decided-allowed alloc p roomy top below t ts w d k s e)
  charge_status-Foretells top below t ts work (DecisionStatus.work_limit_exceeded r) made run h =
      let (work', e₁, f) = >>=-eq-ok (charge work r) _ h in absurd (cc f)

  with_budget-Foretells :
      (top : ParserStateId) (below : Stack) (head : List TerminalId) (work : WorkBudget)
      (made : SequenceClassification × WorkBudget)
      → classify_sequence_head_with_budget alloc p top head work ≡ ok made
      → Foretells alloc p (top ∷ below) head made.0
  unfolding classify_sequence_head_with_budget
  with_budget-Foretells top below [] work made h = absurd (cc h)
  with_budget-Foretells top below (t ∷ ts) work made h =
      let (status, e, f) =
        >>=-eq-ok
          (map_err map_parser_preparation_error (
            execute_terminals_symbolic_checked_with_limit alloc p (top ∷ []) (t ∷ ts)
              (remaining work)))
          _ h in
      charge_status-Foretells top below t ts work status made
        (map_err-eq-ok map_parser_preparation_error _ e) f

  module _ (spanner : PreparedSpanner) where
    -- The head of an ID, and what its classification says on the stacks of a state.
    abbrev pub CellForetells : ParserStateId → SequenceId → SequenceClassification → Type 0
    CellForetells top id c =
        (head : List TerminalId) × (sequence spanner.sequences id ≡ some head)
        × ((below : Stack) → Foretells alloc p (top ∷ below) head c)

    classify_cell-CellForetells :
        (top : ParserStateId) (id : ℕ) (work : WorkBudget)
        (made : SequenceClassification × WorkBudget)
        → classify_cell alloc p spanner top id work ≡ ok made
        → CellForetells top id made.0
    unfolding classify_cell
    classify_cell-CellForetells top index work made h =
        let (id, e, h₁) = >>=-eq-ok (ok_or (try_u32 index) invariant_violation) _ h in
        let (head, e₁, h₂) =
          >>=-eq-ok (ok_or (sequence spanner.sequences id) invariant_violation) _ h₁ in
        (
          head,
          subst (λ n. sequence spanner.sequences n ≡ some head)
              (try_u32-eq-some index id (ok_or-eq-ok _ _ e)) (ok_or-eq-ok _ _ e₁),
          λ below. with_budget-Foretells top below head work made h₂,
        )

    row-CellForetells :
        (sequences index : ℕ) (work : WorkBudget) (made : List SequenceClassification × WorkBudget)
        (id : SequenceId) (c : SequenceClassification)
        → parser_row_at alloc p spanner sequences index work ≡ ok made
        → get_elem? made.0 id ≡ some c
        → CellForetells index id c
    unfolding parser_row_at prepare_parser_row
    row-CellForetells sequences index work made id c h at =
        let (top, e, h₁) = >>=-eq-ok (ok_or (try_u32 index) invariant_violation) _ h in
        let (u, e₁, h₂) = >>=-eq-ok (prepared_vec alloc sequences) _ h₁ in
        let cells = classify_cell alloc p spanner top in
        let len = length-collect cells sequences 0 work made h₂ in
        let (c', before, after, found, run) =
          collect-MadeAt cells sequences work made id h₂
            (subst (λ n. id < n) len (get_elem?-lt-length made.0 id at)) in
        let same : c' ≡ c = cc (found, at) in
        subst (λ c. CellForetells index id c) same
          (subst (λ t. CellForetells t id c') (try_u32-eq-some index top (ok_or-eq-ok _ _ e))
            (classify_cell-CellForetells top id before (c', after) run))

    -- With room for every reservation, in a table that `prepare_parser_with_budget` returns the
    -- classification of an interned head that is always readable (rejected) on a state means that
    -- the head is allowed (refused) on every stack with that state on top.
    pub prepare_parser_with_budget-CellForetells :
        (limits : PreparationLimits) (work : WorkBudget) (made : PreparedParser × WorkBudget)
        → prepare_parser_with_budget alloc p spanner limits work ≡ ok made
        → (top : ParserStateId) (id : SequenceId) (c : SequenceClassification)
        → classification made.0 top id ≡ ok c
        → CellForetells top id c
    unfolding prepare_parser_with_budget classification
    prepare_parser_with_budget-CellForetells limits work made h top id c k =
        let states = p.dimensions.state_count in
        let sequences = sequence_count spanner.sequences in
        let (items, e₁, h₁) =
          >>=-eq-ok
            (check_items (table_items alloc p spanner (checked_mul states sequences) states) limits)
            _ h in
        let (work', e₂, h₂) = >>=-eq-ok (charge work states) _ h₁ in
        let (u, e₃, h₃) = >>=-eq-ok (prepared_vec alloc states) _ h₂ in
        let rows_at = parser_row_at alloc p spanner sequences in
        let ((rows, work''), e₄, h₄) = >>=-eq-ok (collect rows_at states 0 work') _ h₃ in
        let (row, e₅, k₁) = >>=-eq-ok (ok_or (get_elem? made.0.rows top) (invalid_state top)) _ k in
        let row_is : get_elem? rows top ≡ some row =
          subst (λ m. get_elem? m.0.rows top ≡ some row) (sym (ok_inj h₄))
            (ok_or-eq-ok (get_elem? made.0.rows top) _ e₅) in
        let len = length-collect rows_at states 0 work' (rows, work'') e₄ in
        let (row', before, after, found, run) =
          collect-MadeAt rows_at states work' (rows, work'') top e₄
            (subst (λ n. top < n) len (get_elem?-lt-length rows top row_is)) in
        let same : row' ≡ row = cc (found, row_is) in
        row-CellForetells sequences top before (row', after) id c run
          (subst (λ r. get_elem? r id ≡ some c) (sym same) (ok_or-eq-ok (get_elem? row id) _ k₁))
