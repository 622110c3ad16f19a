-- ===== src/Sequence/Facts/Scanned.antt =====
-- What the scan of `SequenceTable::build_singletons` in
-- crates/greatgramma-core/src/sequence.rs adds to the facts and to the predecessors.
use greatgramma_rust.Base.{
  ◌<◌, ℕ, ◌≡◌, refl, sym, ◌∙◌, subst, Bool-cases, inl, inr, Option, none, some, List, [], length,
  get_elem?, get_elem?-append_cases, get_elem?-set_cases, ok, err, fault, ok_or, >>=-eq-ok,
  ok_or-eq-ok, ok_inj, for_range, for_range_inv_from_0, Allocator,
}
use greatgramma_rust.Normalized.{TerminalId, ValidatedGrammar, terminal}
use greatgramma_rust.Lexer.{
  LexerState, byte, LexerStep, LexerError, LexerResult, lexer_step, start, dfa,
}
use greatgramma_rust.TokenStep.Budget.{
  invariant_violation, charge, prepared_vec, prepared_push, prepared_push-eq-ok,
}
use greatgramma_rust.TokenStep.Table.{source_at, source_index}
use greatgramma_rust.TokenStep.Table.Sound.{source_at-position, source_index-eq-some}
use greatgramma_rust.Sequence.Facts.{
  Facts, Scan, add_fact, append_predecessor, contains, scan_move, scan_step, scan_byte,
  scan_accepted, scan_accepting, scan_source,
}
use greatgramma_rust.Sequence.Facts.Next.{
  NextTerminal, accepts, emits, extends, IsTrue, Inherits, AllInherit, ScanIsTrue, add_fact-IsTrue,
}

module _ (g : ValidatedGrammar) where
  module _ (alloc : Allocator) (terminal_count : ℕ) where
    scan_accepting-IsTrue :
        (known known' : Facts) (source : ℕ) (s : LexerState)
        → IsTrue g terminal_count known
        → source_at source ≡ some s
        → scan_accepting alloc terminal_count g known source s ≡ ok known'
        → IsTrue g terminal_count known'
    unfolding scan_accepting
    scan_accepting-IsTrue known known' source start is_true at h =
        subst (IsTrue g terminal_count) (ok_inj h) is_true
    scan_accepting-IsTrue known known' source (dfa q) is_true at h =
        from (terminal g.lexer q) refl h
      where
        from :
            (accepted : Option (Option TerminalId))
            → terminal g.lexer q ≡ accepted
            → scan_accepted alloc terminal_count g known source accepted ≡ ok known'
            → IsTrue g terminal_count known'
        from (some (some t)) e h =
            add_fact-IsTrue g alloc terminal_count known known' source t is_true
              (dfa q, at, accepts e) h
        from (some none) e h = subst (IsTrue g terminal_count) (ok_inj h) is_true
        from none e h = subst (IsTrue g terminal_count) (ok_inj h) is_true

    append_predecessor-AllInherit :
        (predecessors predecessors' : List (List ℕ)) (destination source : ℕ)
        → AllInherit g predecessors
        → Inherits g source destination
        → append_predecessor alloc terminal_count predecessors destination source ≡ ok predecessors'
        → AllInherit g predecessors'
    unfolding append_predecessor
    append_predecessor-AllInherit predecessors predecessors' destination source all new h =
        let (row, e, f) =
          >>=-eq-ok (ok_or (get_elem? predecessors destination) invariant_violation) _ h in
        let (row', e₁, f₁) = >>=-eq-ok (prepared_push alloc row source) _ f in
        let pushed = prepared_push-eq-ok alloc row source row' e₁ in
        let at = ok_or-eq-ok _ _ e in
        subst (AllInherit g) (ok_inj f₁) (λ d r k src found place.
          elim (get_elem?-set_cases predecessors destination d row' r found) [
            | inl old ↦ all d r k src old place
            | inr (same, is) ↦
                elim (get_elem?-append_cases row source src k
                  (subst (λ xs. get_elem? xs k ≡ some src) (is ∙ sym pushed) place)) [
                    | inl old ↦ subst (Inherits g src) (sym same) (all destination row k src at old)
                    | inr (end, is_source) ↦
                        subst (Inherits g src) (sym same)
                          (subst (λ x. Inherits g x destination) (sym is_source) new)
                  ]
          ])

    scan_move-IsTrue :
        (source destination : ℕ) (state state' : Scan × List ℕ)
        → ScanIsTrue g terminal_count state.0
        → Inherits g source destination
        → scan_move alloc terminal_count g source destination state ≡ ok state'
        → ScanIsTrue g terminal_count state'.0
    unfolding scan_move
    scan_move-IsTrue source destination (scan, destinations) state' (is_true, all) new h =
        let (work, e, f) = >>=-eq-ok (charge scan.work (length destinations)) _ h in
        elim (Bool-cases (contains destinations destination)) [
          | inl there ↦
              subst (λ s. ScanIsTrue g terminal_count s.0) (ok_inj (rw there at f)) (is_true, all)
          | inr other ↦
              let (predecessors, e₁, f₁) =
                >>=-eq-ok
                  (append_predecessor alloc terminal_count scan.predecessors destination source) _
                  (rw other at f) in
              subst (λ s. ScanIsTrue g terminal_count s.0) (ok_inj f₁)
                (
                  is_true,
                  append_predecessor-AllInherit scan.predecessors predecessors destination source
                      all new e₁,
                )
        ]

    scan_step-IsTrue :
        (source : ℕ) (s : LexerState) (b : ℕ) (state state' : Scan × List ℕ) (result : LexerResult)
        → b < 256
        → source_at source ≡ some s
        → lexer_step g s (byte b) ≡ result
        → ScanIsTrue g terminal_count state.0
        → scan_step alloc terminal_count g source state result ≡ ok state'
        → ScanIsTrue g terminal_count state'.0
    scan_step-IsTrue source s b state state' (ok (LexerStep.continue s' (some t))) lt at e keeps h =
        let (known, e₁, f) = >>=-eq-ok (add_fact alloc terminal_count state.0.known source t) _ h in
        subst (λ s. ScanIsTrue g terminal_count s.0) (ok_inj f)
          (
            add_fact-IsTrue g alloc terminal_count state.0.known known source t keeps.0
                (s, at, emits b lt e) e₁,
            keeps.1,
          )
    scan_step-IsTrue source s b state state' (ok (LexerStep.continue s' none)) lt at e keeps h =
        let (index, e₁, f) = >>=-eq-ok (ok_or (source_index g s') invariant_violation) _ h in
        let place = source_index-eq-some g index s' (ok_or-eq-ok _ _ e₁) in
        scan_move-IsTrue source index state state' keeps
          (λ t (r, found, next).
            let same = source_at-position s' r (subst (λ n. source_at n ≡ some r) place found) in
            (s, at, extends b lt e (subst (λ r. NextTerminal g r t) same next)))
          f
    scan_step-IsTrue source s b state state' (ok (LexerStep.finished t eof)) lt at e keeps h =
        subst (λ s. ScanIsTrue g terminal_count s.0) (ok_inj h) keeps
    scan_step-IsTrue source s b state state' (err (LexerError.invalid_state q)) lt at e keeps h =
        absurd (cc h)
    scan_step-IsTrue source s b state state' (err (LexerError.cannot_begin_lexeme c)) lt at e keeps
          h =
        subst (λ s. ScanIsTrue g terminal_count s.0) (ok_inj h) keeps
    scan_step-IsTrue source s b state state' (err (LexerError.byte_after_unfinished_residual q c))
          lt at e keeps h =
        subst (λ s. ScanIsTrue g terminal_count s.0) (ok_inj h) keeps
    scan_step-IsTrue source s b state state' (err (LexerError.eos_after_unfinished_residual q)) lt
          at e keeps h =
        subst (λ s. ScanIsTrue g terminal_count s.0) (ok_inj h) keeps
    scan_step-IsTrue source s b state state' (fault x) lt at e keeps h = absurd (cc h)

    pub scan_source-IsTrue :
        (source : ℕ) (scan scan' : Scan)
        → ScanIsTrue g terminal_count scan
        → scan_source alloc terminal_count g source scan ≡ ok scan'
        → ScanIsTrue g terminal_count scan'
    unfolding scan_source scan_byte
    scan_source-IsTrue source scan scan' keeps h =
        let (s, e₁, h₁) = >>=-eq-ok (ok_or (source_at source) invariant_violation) _ h in
        let at = ok_or-eq-ok _ _ e₁ in
        let (known, e₂, h₂) =
          >>=-eq-ok (scan_accepting alloc terminal_count g scan.known source s) _ h₁ in
        let (u, e₃, h₃) = >>=-eq-ok (prepared_vec alloc 256) _ h₂ in
        let before : Scan × List ℕ = (record scan { known = known }, []) in
        let body = scan_byte alloc terminal_count g s source in
        let (scanned, e₄, h₄) = >>=-eq-ok (for_range body 256 0 before) _ h₃ in
        subst (ScanIsTrue g terminal_count) (ok_inj h₄) (
          for_range_inv_from_0 (λ k t. ScanIsTrue g terminal_count t.0) body 256 before scanned
            (λ k t t' lt c step.
              scan_step-IsTrue source s k t t' (lexer_step g s (byte k)) lt at refl c step)
            (scan_accepting-IsTrue scan.known known source s keeps.0 at e₂, keeps.1) e₄)
