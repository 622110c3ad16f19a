-- ===== src/Sequence/Facts/Covered.antt =====
-- What `scan_sources` of crates/greatgramma-core/src/sequence.rs leaves: a fact for every terminal that
-- a source accepts or emits by one byte, and a predecessor for every byte that emits nothing.
use greatgramma_rust.Base.{
  ℕ, suc, ◌<◌, ◌≡◌, refl, sym, ◌∙◌, subst, Bool-cases, inl, inr, Option, none, some, List, [], ◌==◌,
  ==→≡, arith, ok, ok_or, >>=-eq-ok, ok_or-eq-ok, ok_inj, for_range, for_range_inv_from_0,
  Allocator,
}
use greatgramma_rust.Normalized.{TerminalId, ValidatedGrammar, terminal}
use greatgramma_rust.Lexer.{LexerState, byte, lexer_step, start, dfa}
use greatgramma_rust.TokenStep.Budget.{invariant_violation, prepared_vec}
use greatgramma_rust.TokenStep.Table.{source_at}
use greatgramma_rust.Sequence.Facts.{
  Facts, Scan, contains, scan_byte, scan_accepted, scan_accepting, scan_source, scan_sources,
}
use greatgramma_rust.Sequence.Facts.Known.{Known, Extends, Extends-trans, Indexed, add_fact-Learns}
use greatgramma_rust.Sequence.Facts.Predecessors.{
  Covered, Grows, Reached, Covered-Grows, scan_step-Covered,
}

module _ (alloc : Allocator) (width : ℕ) where
  module _ (g : ValidatedGrammar) (source : ℕ) where
    Grows-trans :
        (a b c : Scan)
        → Grows alloc width g source a b
        → Grows alloc width g source b c
        → Grows alloc width g source a c
    Grows-trans a b c (indexed, extends, (width, more)) (indexed', extends', (width', more')) = (
      indexed',
      Extends-trans a.known b.known c.known extends extends',
      (width' ∙ width, λ s d p. more' s d (more s d p)),
    )

    -- The source's state, which accepts what is known of it and whose bytes are covered.
    abbrev pub Scanned : Scan → Type 0
    Scanned scan =
        (s : LexerState) × (source_at source ≡ some s)
        × ((q : ℕ) (t : TerminalId)
            → s ≡ dfa q
            → terminal g.lexer q ≡ some (some t)
            → Known scan.known source t)
        × ((b : ℕ) → b < 256 → Covered alloc width g source scan s b)

    pub Scanned-Grows :
        (scan scan' : Scan) → Grows alloc width g source scan scan' → Scanned scan → Scanned scan'
    Scanned-Grows scan scan' grows (s, at, accepts, covered) = (
      s,
      at,
      λ q t e e'. let (k, found) = accepts q t e e' in (k, grows.1 k _ found),
      λ b lt. Covered-Grows alloc width g source scan scan' s b grows (covered b lt),
    )

    scan_accepting-Known :
        (known known' : Facts) (s : LexerState)
        → Indexed width known
        → scan_accepting alloc width g known source s ≡ ok known'
        → Indexed width known'
          × Extends known known'
          × ((q : ℕ) (t : TerminalId)
              → s ≡ dfa q
              → terminal g.lexer q ≡ some (some t)
              → Known known' source t)
    unfolding scan_accepting
    scan_accepting-Known known known' start indexed h =
        subst
          (λ n.
            Indexed width n
            × Extends known n
            × ((q : ℕ) (t : TerminalId)
                → start ≡ dfa q
                → terminal g.lexer q ≡ some (some t)
                → Known n source t))
          (ok_inj h) (indexed, λ k fact e. e, λ q t e. absurd (cc e))
    scan_accepting-Known known known' (dfa q) indexed h = from (terminal g.lexer q) refl h
      where
        from :
            (accepted : Option (Option TerminalId))
            → terminal g.lexer q ≡ accepted
            → scan_accepted alloc width g known source accepted ≡ ok known'
            → Indexed width known'
              × Extends known known'
              × ((q' : ℕ) (t : TerminalId)
                  → dfa q ≡ dfa q'
                  → terminal g.lexer q' ≡ some (some t)
                  → Known known' source t)
        from (some (some t)) e h =
            let (indexed', extends, new) =
              add_fact-Learns width alloc known known' source t indexed h in
            (
              indexed',
              extends,
              λ q' t' e' e''.
                  let same_q : q ≡ q' = cc e' in
                  let same : t ≡ t' = cc (e, e'', same_q) in subst (Known known' source) same new,
            )
        from (some none) e h = (
          subst (Indexed width) (ok_inj h) indexed,
          subst (Extends known) (ok_inj h) (λ k f e. e),
          λ q' t' e' e''. let same_q : q ≡ q' = cc e' in absurd (cc (e, e'', same_q)),
        )
        from none e h = (
          subst (Indexed width) (ok_inj h) indexed,
          subst (Extends known) (ok_inj h) (λ k f e. e),
          λ q' t' e' e''. let same_q : q ≡ q' = cc e' in absurd (cc (e, e'', same_q)),
        )

    -- A byte more of the scan of a source.
    abbrev CoveredTo : Scan → LexerState → ℕ → Scan × List ℕ → Type 0
    CoveredTo before s k state =
        Grows alloc width g source before state.0
        × Reached alloc width g source state
        × ((b : ℕ) → b < k → Covered alloc width g source state.0 s b)

    scan_byte-CoveredTo :
        (before : Scan) (s : LexerState) (k : ℕ) (state state' : Scan × List ℕ)
        → CoveredTo before s k state
        → scan_byte alloc width g s source k state ≡ ok state'
        → CoveredTo before s (suc k) state'
    unfolding scan_byte
    scan_byte-CoveredTo before s k state state' (grows, reached, covered) h =
        let (grows', reached', new) =
          scan_step-Covered alloc width g source s k state state' (lexer_step g s (byte k)) refl
            grows.0 reached h in
        (
          Grows-trans before state.0 state'.0 grows grows',
          reached',
          λ b lt. elim (Bool-cases (b == k)) [
            | inl e ↦ subst (Covered alloc width g source state'.0 s) (sym (==→≡ b k e)) new
            | inr e ↦
                Covered-Grows alloc width g source state.0 state'.0 s b grows'
                  (covered b (ground arith))
          ],
        )

    pub scan_source-Scanned :
        (scan scan' : Scan)
        → Indexed width scan.known
        → scan_source alloc width g source scan ≡ ok scan'
        → Grows alloc width g source scan scan' × Scanned scan'
    unfolding scan_source contains
    scan_source-Scanned scan scan' indexed h =
        let (s, e₁, h₁) = >>=-eq-ok (ok_or (source_at source) invariant_violation) _ h in
        let (known, e₂, h₂) = >>=-eq-ok (scan_accepting alloc width g scan.known source s) _ h₁ in
        let (u, e₃, h₃) = >>=-eq-ok (prepared_vec alloc 256) _ h₂ in
        let before : Scan × List ℕ = (record scan { known = known }, []) in
        let body = scan_byte alloc width g s source in
        let (scanned, e₄, h₄) = >>=-eq-ok (for_range body 256 0 before) _ h₃ in
        let (indexed', extends, accepts) = scan_accepting-Known scan.known known s indexed e₂ in
        let (grows, reached, covered) =
          for_range_inv_from_0 (CoveredTo before.0 s) body 256 before scanned
            (λ k t t' lt c step. scan_byte-CoveredTo before.0 s k t t' c step)
            (
              (indexed', λ k fact e. e, (refl, λ s d p. p)),
              λ d c. absurd (cc c),
              λ b lt. absurd (omega arith),
            )
            e₄ in
        subst (λ sc. Grows alloc width g source scan sc × Scanned sc) (ok_inj h₄)
          (
            (grows.0, Extends-trans scan.known known scanned.0.known extends grows.1, grows.2),
            (
              s,
              ok_or-eq-ok _ _ e₁,
              λ q t e e'. let (k, found) = accepts q t e e' in (k, grows.1 k _ found),
              covered,
            ),
          )

  pub scan_sources-Scanned :
      (g : ValidatedGrammar) (sources : ℕ) (scan scan' : Scan)
      → Indexed width scan.known
      → scan_sources alloc width g sources scan ≡ ok scan'
      → Grows alloc width g 0 scan scan'
        × ((source : ℕ) → source < sources → Scanned g source scan')
  unfolding scan_sources
  scan_sources-Scanned g sources scan scan' indexed h =
      for_range_inv_from_0
        (λ k t. Grows alloc width g 0 scan t × ((source : ℕ) → source < k → Scanned g source t))
        (scan_source alloc width g) sources scan scan'
        (λ k t t' lt (grows, done) step.
          let (grows', new) = scan_source-Scanned g k t t' grows.0 step in
          (
            Grows-trans g 0 scan t t' grows grows',
            λ source lt'. elim (Bool-cases (source == k)) [
              | inl e ↦ subst (λ n. Scanned g n t') (sym (==→≡ source k e)) new
              | inr e ↦ Scanned-Grows g source t t' grows' (done source (ground arith))
            ],
          ))
        ((indexed, λ k fact e. e, (refl, λ s d p. p)), λ source lt. absurd (omega arith)) h
