-- ===== src/Sequence/Facts/Counted.antt =====
-- Every fact of crates/greatgramma-core/src/sequence.rs has a mark of its own.
use greatgramma_rust.Base.{
  ℕ, zero, suc, ◌≤◌, ◌≡◌, sym, ap, ◌∙◌, subst, true, Bool-cases, inl, inr, Option, none, some, List,
  [], ◌∷◌, length, length-append, length-set, get_elem?, set, leb, ◌==◌, if◌then◌else◌, arith, ok,
  err, fault, ok_or, >>=-eq-ok, ok_or-eq-ok, ok_inj, for_range, for_range_inv_from_0, Allocator,
}
use greatgramma_rust.Normalized.{TerminalId, ValidatedGrammar}
use greatgramma_rust.Lexer.{
  LexerState, byte, LexerStep, LexerError, LexerResult, lexer_step, start, dfa,
}
use greatgramma_rust.TokenStep.Budget.{
  invariant_violation, WorkBudget, charge, prepared_vec, prepared_push, prepared_push-eq-ok,
}
use greatgramma_rust.TokenStep.Table.{source_at, source_index}
use greatgramma_rust.Sequence.Facts.{
  Fact, Facts, Scan, fact_index, mark_fact_seen, push_fact, add_fact, propagate_predecessor,
  propagate_fact, append_predecessor, contains, scan_move, scan_step, scan_byte, scan_accepted,
  scan_accepting, scan_source,
}

-- The number of marks that are set.
unfoldable pub marks : List ℕ → ℕ
marks [] = 0
marks (mark ∷ seen) = if mark == 0 then marks seen else suc (marks seen)

pub marks-length : (seen : List ℕ) → marks seen ≤ length seen
unfolding marks
marks-length [] = omega arith
marks-length (mark ∷ seen) = let rest = marks-length seen in ground arith

marks-set :
    (seen : List ℕ) (i mark : ℕ)
    → get_elem? seen i ≡ some mark
    → (mark == 0) ≡ true
    → marks (set seen i 1) ≡ suc (marks seen)
unfolding marks
marks-set [] i mark h e = absurd (cc h)
marks-set (m ∷ seen) zero mark h e = let is : m ≡ mark = cc h in ground arith
marks-set (m ∷ seen) (suc i) mark h e = let rest = marks-set seen i mark h e in ground arith

-- No more facts than marks, of which there are as many as cells.
abbrev pub Counted : ℕ → Facts → Type 0
Counted cells known = (length known.seen ≡ cells) × (length known.facts ≤ marks known.seen)

module _ (alloc : Allocator) (terminal_count cells : ℕ) where
  push_fact-Counted :
      (known known' : Facts) (source t index mark : ℕ)
      → Counted cells known
      → get_elem? known.seen index ≡ some mark
      → (mark == 0) ≡ true
      → push_fact alloc terminal_count known source t index ≡ ok known'
      → Counted cells known'
  unfolding push_fact mark_fact_seen
  push_fact-Counted known known' source t index mark (len, most) at unset h =
      let (seen, e, f) = >>=-eq-ok (mark_fact_seen known.seen index) _ h in
      let (present, e₁, f₁) =
        >>=-eq-ok (ok_or (get_elem? known.seen index) invariant_violation) _ e in
      let new : Fact = record { source = source; terminal = t } in
      let (facts, e₂, f₂) = >>=-eq-ok (prepared_push alloc known.facts new) _ f in
      let marked : set known.seen index 1 ≡ seen = ok_inj f₁ in
      let pushed = prepared_push-eq-ok alloc known.facts new facts e₂ in
      subst (Counted cells) (ok_inj f₂) (
        sym (ap length marked) ∙ length-set known.seen index 1 ∙ len,
        subst (λ seen. length facts ≤ marks seen) marked
            (subst (λ facts. length facts ≤ marks (set known.seen index 1)) pushed
              (omega (
                arith,
                most,
                length-append known.facts (new ∷ []),
                marks-set known.seen index mark at unset,
              ))),
      )

  add_fact-Counted :
      (known known' : Facts) (source t : ℕ)
      → Counted cells known
      → add_fact alloc terminal_count known source t ≡ ok known'
      → Counted cells known'
  unfolding add_fact
  add_fact-Counted known known' source t counted h = elim (Bool-cases (leb terminal_count t)) [
    | inl e ↦ absurd (cc (h, e))
    | inr e ↦
        let (index, e₁, f) = >>=-eq-ok (fact_index source t terminal_count) _ (rw e at h) in
        let (present, e₂, f₂) =
          >>=-eq-ok (ok_or (get_elem? known.seen index) invariant_violation) _ f in
        elim (Bool-cases (present == 0)) [
          | inl unset ↦
              push_fact-Counted known known' source t index present counted (ok_or-eq-ok _ _ e₂)
                unset (rw unset at f₂)
          | inr is_set ↦ subst (Counted cells) (ok_inj (rw is_set at f₂)) counted
        ]
  ]

  propagate_predecessor-Counted :
      (row : List ℕ) (t k : ℕ) (known known' : Facts)
      → Counted cells known
      → propagate_predecessor alloc terminal_count row t k known ≡ ok known'
      → Counted cells known'
  unfolding propagate_predecessor
  propagate_predecessor-Counted row t k known known' counted h =
      let (predecessor, e, f) = >>=-eq-ok (ok_or (get_elem? row k) invariant_violation) _ h in
      add_fact-Counted known known' predecessor t counted f

  pub propagate_fact-Counted :
      (predecessors : List (List ℕ)) (known : Facts) (fact : Fact) (work : WorkBudget)
      (made : Facts × WorkBudget)
      → Counted cells known
      → propagate_fact alloc terminal_count predecessors known fact work ≡ ok made
      → Counted cells made.0
  unfolding propagate_fact
  propagate_fact-Counted predecessors known fact work made counted h =
      let (row, e, f) =
        >>=-eq-ok (ok_or (get_elem? predecessors fact.source) invariant_violation) _ h in
      let (work', e₁, f₁) = >>=-eq-ok (charge work (length row)) _ f in
      let body = propagate_predecessor alloc terminal_count row fact.terminal in
      let (known', e₂, f₂) = >>=-eq-ok (for_range body (length row) 0 known) _ f₁ in
      subst (λ m. Counted cells m.0) (ok_inj f₂)
        (for_range_inv_from_0 (λ k t. Counted cells t) body (length row) known known'
          (λ k t t' lt. propagate_predecessor-Counted row fact.terminal k t t') counted e₂)

  -- The scan of the sources adds facts in the same way.
  module _ (g : ValidatedGrammar) where
    scan_move-Counted :
        (source destination : ℕ) (state state' : Scan × List ℕ)
        → Counted cells state.0.known
        → scan_move alloc terminal_count g source destination state ≡ ok state'
        → Counted cells state'.0.known
    unfolding scan_move
    scan_move-Counted source destination (scan, destinations) state' counted h =
        let (work, e, f) = >>=-eq-ok (charge scan.work (length destinations)) _ h in
        elim (Bool-cases (contains destinations destination)) [
          | inl there ↦ subst (λ s. Counted cells s.0.known) (ok_inj (rw there at f)) counted
          | inr new ↦
              let (predecessors, e₁, f₁) =
                >>=-eq-ok
                  (append_predecessor alloc terminal_count scan.predecessors destination source) _
                  (rw new at f) in
              subst (λ s. Counted cells s.0.known) (ok_inj f₁) counted
        ]

    scan_step-Counted :
        (source : ℕ) (state state' : Scan × List ℕ) (result : LexerResult)
        → Counted cells state.0.known
        → scan_step alloc terminal_count g source state result ≡ ok state'
        → Counted cells state'.0.known
    scan_step-Counted source state state' (ok (LexerStep.continue destination (some t))) counted h =
        let (known, e, f) = >>=-eq-ok (add_fact alloc terminal_count state.0.known source t) _ h in
        subst (λ s. Counted cells s.0.known) (ok_inj f)
          (add_fact-Counted state.0.known known source t counted e)
    scan_step-Counted source state state' (ok (LexerStep.continue destination none)) counted h =
        let (index, e, f) =
          >>=-eq-ok (ok_or (source_index g destination) invariant_violation) _ h in
        scan_move-Counted source index state state' counted f
    scan_step-Counted source state state' (ok (LexerStep.finished t eof)) counted h =
        subst (λ s. Counted cells s.0.known) (ok_inj h) counted
    scan_step-Counted source state state' (err (LexerError.invalid_state q)) counted h =
        absurd (cc h)
    scan_step-Counted source state state' (err (LexerError.cannot_begin_lexeme b)) counted h =
        subst (λ s. Counted cells s.0.known) (ok_inj h) counted
    scan_step-Counted source state state' (err (LexerError.byte_after_unfinished_residual q b))
          counted h =
        subst (λ s. Counted cells s.0.known) (ok_inj h) counted
    scan_step-Counted source state state' (err (LexerError.eos_after_unfinished_residual q)) counted
          h =
        subst (λ s. Counted cells s.0.known) (ok_inj h) counted
    scan_step-Counted source state state' (fault x) counted h = absurd (cc h)

    scan_accepted-Counted :
        (known known' : Facts) (source : ℕ) (accepted : Option (Option TerminalId))
        → Counted cells known
        → scan_accepted alloc terminal_count g known source accepted ≡ ok known'
        → Counted cells known'
    scan_accepted-Counted known known' source (some (some t)) counted h =
        add_fact-Counted known known' source t counted h
    scan_accepted-Counted known known' source (some none) counted h =
        subst (Counted cells) (ok_inj h) counted
    scan_accepted-Counted known known' source none counted h =
        subst (Counted cells) (ok_inj h) counted

    scan_accepting-Counted :
        (known known' : Facts) (source : ℕ) (s : LexerState)
        → Counted cells known
        → scan_accepting alloc terminal_count g known source s ≡ ok known'
        → Counted cells known'
    unfolding scan_accepting
    scan_accepting-Counted known known' source start counted h =
        subst (Counted cells) (ok_inj h) counted
    scan_accepting-Counted known known' source (dfa q) counted h =
        scan_accepted-Counted known known' source _ counted h

    pub scan_source-Counted :
        (source : ℕ) (scan scan' : Scan)
        → Counted cells scan.known
        → scan_source alloc terminal_count g source scan ≡ ok scan'
        → Counted cells scan'.known
    unfolding scan_source scan_byte
    scan_source-Counted source scan scan' counted h =
        let (s, e₁, h₁) = >>=-eq-ok (ok_or (source_at source) invariant_violation) _ h in
        let (known, e₂, h₂) =
          >>=-eq-ok (scan_accepting alloc terminal_count g scan.known source s) _ h₁ in
        let (u, e₃, h₃) = >>=-eq-ok (prepared_vec alloc 256) _ h₂ in
        let before : Scan × List ℕ = (record scan { known = known }, []) in
        let body = scan_byte alloc terminal_count g s source in
        let (scanned, e₄, h₄) = >>=-eq-ok (for_range body 256 0 before) _ h₃ in
        subst (λ s. Counted cells s.known) (ok_inj h₄)
          (for_range_inv_from_0 (λ k t. Counted cells t.0.known) body 256 before scanned
            (λ k t t' lt c step. scan_step-Counted source t t' (lexer_step g s (byte k)) c step)
            (scan_accepting-Counted scan.known known source s counted e₂) e₄)
