-- ===== src/Sequence/Facts/Next.antt =====
-- The facts of crates/greatgramma-core/src/sequence.rs against a relation: which terminal a lexer
-- state may emit next.
use greatgramma_rust.Base.{
  ℕ, zero, suc, ◌<◌, ◌≡◌, sym, ap, ◌∙◌, subst, false, Bool-cases, inl, inr, none, some, List,
  length, get_elem?, get_elem?-append_cases, get_elem?-set_cases, set, leb, leb→lt, ◌==◌, ok, ok_or,
  >>=-eq-ok, ok_or-eq-ok, ok_inj, for_range, for_range_inv_from_0, Option-cases, Allocator,
}
use greatgramma_rust.Normalized.{TerminalId, ValidatedGrammar, terminal}
use greatgramma_rust.Lexer.{LexerState, byte, LexerStep, lexer_step, dfa}
use greatgramma_rust.TokenStep.Budget.{
  invariant_violation, WorkBudget, charge, prepared_push, prepared_push-eq-ok,
}
use greatgramma_rust.TokenStep.Table.{source_at}
use greatgramma_rust.Sequence.Facts.{
  Fact, Facts, Scan, fact_index, mark_fact_seen, push_fact, add_fact, propagate_predecessor,
  propagate_fact, propagate_loop,
}

module _ (g : ValidatedGrammar) where
  -- From a lexer state some bytes lead to the first emission, of this terminal: the state accepts
  -- it, or a byte emits it, or a byte emits nothing and leads to such a state.
  pub data NextTerminal : LexerState → TerminalId → Type 0 where
    accepts : {q : ℕ} {t : TerminalId} → terminal g.lexer q ≡ some (some t) → NextTerminal (dfa q) t
    emits :
        {s s' : LexerState} {t : TerminalId} (b : ℕ)
        → b < 256
        → lexer_step g s (byte b) ≡ ok (LexerStep.continue s' (some t))
        → NextTerminal s t
    extends :
        {s s' : LexerState} {t : TerminalId} (b : ℕ)
        → b < 256
        → lexer_step g s (byte b) ≡ ok (LexerStep.continue s' none)
        → NextTerminal s' t
        → NextTerminal s t

  abbrev pub MayEmit : ℕ → TerminalId → Type 0
  MayEmit source t = (s : LexerState) × (source_at source ≡ some s) × NextTerminal s t

  -- Every fact is true, and every mark is that of a true fact.
  abbrev pub IsTrue : ℕ → Facts → Type 0
  IsTrue terminal_count known =
      ((i : ℕ) (fact : Fact)
        → get_elem? known.facts i ≡ some fact
        → MayEmit fact.source fact.terminal)
      × ((index mark : ℕ)
          → get_elem? known.seen index ≡ some mark
          → (mark == 0) ≡ false
          → (source : ℕ) × (t : ℕ) × (t < terminal_count)
            × (fact_index source t terminal_count ≡ ok index)
            × MayEmit source t)

  -- What the destination may emit, its predecessors may.
  abbrev pub Inherits : ℕ → ℕ → Type 0
  Inherits source destination = (t : TerminalId) → MayEmit destination t → MayEmit source t

  abbrev pub AllInherit : List (List ℕ) → Type 0
  AllInherit predecessors =
      (destination : ℕ) (row : List ℕ) (k source : ℕ)
      → get_elem? predecessors destination ≡ some row
      → get_elem? row k ≡ some source
      → Inherits source destination

  -- What the scan keeps.
  abbrev pub ScanIsTrue : ℕ → Scan → Type 0
  ScanIsTrue terminal_count scan = IsTrue terminal_count scan.known × AllInherit scan.predecessors

  module _ (alloc : Allocator) (terminal_count : ℕ) where
    push_fact-IsTrue :
        (known known' : Facts) (source t index : ℕ)
        → IsTrue terminal_count known
        → MayEmit source t
        → t < terminal_count
        → fact_index source t terminal_count ≡ ok index
        → push_fact alloc terminal_count known source t index ≡ ok known'
        → IsTrue terminal_count known'
    unfolding push_fact mark_fact_seen
    push_fact-IsTrue known known' source t index (facts_true, marks_true) may lt at h =
        let (seen, e, f) = >>=-eq-ok (mark_fact_seen known.seen index) _ h in
        let (present, e₁, f₁) =
          >>=-eq-ok (ok_or (get_elem? known.seen index) invariant_violation) _ e in
        let new : Fact = record { source = source; terminal = t } in
        let (facts, e₂, f₂) = >>=-eq-ok (prepared_push alloc known.facts new) _ f in
        let marked : set known.seen index 1 ≡ seen = ok_inj f₁ in
        let pushed = prepared_push-eq-ok alloc known.facts new facts e₂ in
        subst (IsTrue terminal_count) (ok_inj f₂) (
          λ i fact found.
              elim (get_elem?-append_cases known.facts new fact i
                (subst (λ fs. get_elem? fs i ≡ some fact) (sym pushed) found)) [
                  | inl old ↦ facts_true i fact old
                  | inr (place, is) ↦ subst (λ f. MayEmit f.source f.terminal) (sym is) may
                ],
          λ i mark found is_set.
              elim (get_elem?-set_cases known.seen index i 1 mark
                (subst (λ ms. get_elem? ms i ≡ some mark) (sym marked) found)) [
                  | inl old ↦ marks_true i mark old is_set
                  | inr (place, is) ↦ (source, t, lt, at ∙ ap ok (sym place), may)
                ],
        )

    pub add_fact-IsTrue :
        (known known' : Facts) (source t : ℕ)
        → IsTrue terminal_count known
        → MayEmit source t
        → add_fact alloc terminal_count known source t ≡ ok known'
        → IsTrue terminal_count known'
    unfolding add_fact
    add_fact-IsTrue known known' source t is_true may h = elim (Bool-cases (leb terminal_count t)) [
      | inl e ↦ absurd (cc (h, e))
      | inr e ↦
          let (index, e₁, f) = >>=-eq-ok (fact_index source t terminal_count) _ (rw e at h) in
          let (present, e₂, f₂) =
            >>=-eq-ok (ok_or (get_elem? known.seen index) invariant_violation) _ f in
          elim (Bool-cases (present == 0)) [
            | inl unset ↦
                push_fact-IsTrue known known' source t index is_true may (leb→lt terminal_count t e)
                  e₁ (rw unset at f₂)
            | inr is_set ↦ subst (IsTrue terminal_count) (ok_inj (rw is_set at f₂)) is_true
          ]
    ]

    propagate_fact-IsTrue :
        (predecessors : List (List ℕ)) (known : Facts) (fact : Fact) (work : WorkBudget)
        (made : Facts × WorkBudget)
        → AllInherit predecessors
        → IsTrue terminal_count known
        → MayEmit fact.source fact.terminal
        → propagate_fact alloc terminal_count predecessors known fact work ≡ ok made
        → IsTrue terminal_count made.0
    unfolding propagate_fact propagate_predecessor
    propagate_fact-IsTrue predecessors known fact work made inherit is_true may h =
        let (row, e, f) =
          >>=-eq-ok (ok_or (get_elem? predecessors fact.source) invariant_violation) _ h in
        let (work', e₁, f₁) = >>=-eq-ok (charge work (length row)) _ f in
        let body = propagate_predecessor alloc terminal_count row fact.terminal in
        let (known', e₂, f₂) = >>=-eq-ok (for_range body (length row) 0 known) _ f₁ in
        subst (λ m. IsTrue terminal_count m.0) (ok_inj f₂)
          (for_range_inv_from_0 (λ k t. IsTrue terminal_count t) body (length row) known known'
            (λ k t t' lt before step.
              let (source, e₃, f₃) =
                >>=-eq-ok (ok_or (get_elem? row k) invariant_violation) _ step in
              add_fact-IsTrue t t' source fact.terminal before
                (inherit fact.source row k source (ok_or-eq-ok _ _ e) (ok_or-eq-ok _ _ e₃)
                  fact.terminal may)
                f₃)
            is_true e₂)

    pub propagate_loop-IsTrue :
        (predecessors : List (List ℕ)) (fuel cursor : ℕ) (known : Facts) (work : WorkBudget)
        (made : Facts × WorkBudget)
        → AllInherit predecessors
        → IsTrue terminal_count known
        → propagate_loop alloc terminal_count predecessors fuel cursor known work ≡ ok made
        → IsTrue terminal_count made.0
    unfolding propagate_loop
    propagate_loop-IsTrue predecessors zero cursor known work made inherit is_true h = absurd (cc h)
    propagate_loop-IsTrue predecessors (suc fuel) cursor known work made inherit is_true h =
        elim (Option-cases (get_elem? known.facts cursor)) [
          | inl e ↦
              subst (λ m. IsTrue terminal_count m.0) (ok_inj (rw (e, propagate_loop) at h)) is_true
          | inr (fact, e) ↦
              let (r, e₁, f) =
                >>=-eq-ok (propagate_fact alloc terminal_count predecessors known fact work) _
                  (rw (e, propagate_loop) at h) in
              propagate_loop-IsTrue predecessors fuel (suc cursor) r.0 r.1 made inherit
                (propagate_fact-IsTrue predecessors known fact work r inherit is_true
                  (is_true.0 cursor fact e) e₁)
                f
        ]
