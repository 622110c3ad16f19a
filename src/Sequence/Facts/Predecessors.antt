-- ===== src/Sequence/Facts/Predecessors.antt =====
-- What one byte of a scan in crates/greatgramma-core/src/sequence.rs leaves: a fact if it
-- emits a terminal, a predecessor if it emits nothing.
use greatgramma_rust.Base.{
  ℕ, ◌≡◌, ◌≢◌, refl, ap, ◌∙◌, subst, true, Bool-cases, inl, inr, ◌⊎◌, Option, none, some, List, [],
  ◌∷◌, ◌++◌, length, length-set, get_elem?, get_elem?-lt-length, get_elem?-append_left,
  get_elem?-append_end, get_elem?-set_self, get_elem?-set_ne, set, ◌==◌, ==→≡, arith, ok, err,
  fault, ok_or, >>=-eq-ok, ok_or-eq-ok, ok_inj, Allocator,
}
use greatgramma_rust.Normalized.{TerminalId, ValidatedGrammar}
use greatgramma_rust.Lexer.{LexerState, byte, LexerStep, LexerError, LexerResult, lexer_step}
use greatgramma_rust.TokenStep.Budget.{
  invariant_violation, charge, prepared_push, prepared_push-eq-ok,
}
use greatgramma_rust.TokenStep.Table.{source_index}
use greatgramma_rust.TokenStep.Table.Sound.{source_index-eq-some}
use greatgramma_rust.TokenStep.Table.Sound.{position}
use greatgramma_rust.Sequence.Facts.{
  Scan, add_fact, append_predecessor, contains, scan_move, scan_step,
}
use greatgramma_rust.Sequence.Facts.Known.{Known, Extends, Indexed, add_fact-Learns}
use greatgramma_rust.Sequence.Facts.Closed.{Precedes}

abbrev pub PrecedesMore : List (List ℕ) → List (List ℕ) → Type 0
PrecedesMore predecessors predecessors' =
    (length predecessors' ≡ length predecessors)
    × ((s d : ℕ) → Precedes predecessors s d → Precedes predecessors' s d)

contains-push :
    (xs : List ℕ) (x y : ℕ) → contains (xs ++ x ∷ []) y ≡ true → (contains xs y ≡ true) ⊎ (x ≡ y)
unfolding contains
contains-push [] x y h = elim (Bool-cases (x == y)) [
  | inl e ↦ inr (==→≡ x y e)
  | inr e ↦ absurd (cc (rw e at h))
]
contains-push (z ∷ zs) x y h = elim (Bool-cases (z == y)) [
  | inl e ↦ inl (rw e refl)
  | inr e ↦ rw e (contains-push zs x y (rw e at h))
]

module _ (alloc : Allocator) (width : ℕ) where
  append_predecessor-Precedes :
      (predecessors predecessors' : List (List ℕ)) (d s : ℕ)
      → append_predecessor alloc width predecessors d s ≡ ok predecessors'
      → PrecedesMore predecessors predecessors' × Precedes predecessors' s d
  unfolding append_predecessor
  append_predecessor-Precedes predecessors predecessors' d s h =
      let (row, e, f) = >>=-eq-ok (ok_or (get_elem? predecessors d) invariant_violation) _ h in
      let (row', e₁, f₁) = >>=-eq-ok (prepared_push alloc row s) _ f in
      let pushed = prepared_push-eq-ok alloc row s row' e₁ in
      let at = ok_or-eq-ok (get_elem? predecessors d) _ e in
      let lt = get_elem?-lt-length predecessors d at in
      subst (λ ps. PrecedesMore predecessors ps × Precedes ps s d) (ok_inj f₁)
        (
          (
            length-set predecessors d row',
            λ s' d' (r, k, found, place). elim (Bool-cases (d == d')) [
              | inl same ↦
                  let is : d ≡ d' = ==→≡ d d' same in
                  let same_row : r ≡ row = cc (found, at, is) in
                  let place' = subst (λ r. get_elem? r k ≡ some s') same_row place in
                  (
                    row',
                    k,
                    subst (λ n. get_elem? (set predecessors d row') n ≡ some row') is
                        (get_elem?-set_self predecessors d row' lt),
                    subst (λ r. get_elem? r k ≡ some s') pushed
                        (get_elem?-append_left row (s ∷ []) k (get_elem?-lt-length row k place')
                          ∙ place'),
                  )
              | inr other ↦
                  let ne : d ≢ d' = ground arith in
                  (r, k, get_elem?-set_ne predecessors d d' row' ne ∙ found, place)
            ],
          ),
          (
            row',
            length row,
            get_elem?-set_self predecessors d row' lt,
            subst (λ r. get_elem? r (length row) ≡ some s) pushed (get_elem?-append_end row s),
          ),
        )

  module _ (g : ValidatedGrammar) (source : ℕ) where
    -- What is recorded for one byte from a state.
    abbrev pub Covered : Scan → LexerState → ℕ → Type 0
    Covered scan s b =
        ((s' : LexerState) (t : TerminalId)
          → lexer_step g s (byte b) ≡ ok (LexerStep.continue s' (some t))
          → Known scan.known source t)
        × ((s' : LexerState)
            → lexer_step g s (byte b) ≡ ok (LexerStep.continue s' none)
            → (index : ℕ) × (index ≡ position s') × Precedes scan.predecessors source index)

    -- One scan has what the other has, and maybe more.
    abbrev pub Grows : Scan → Scan → Type 0
    Grows scan scan' =
        Indexed width scan'.known
        × Extends scan.known scan'.known
        × PrecedesMore scan.predecessors scan'.predecessors

    abbrev pub Reached : Scan × List ℕ → Type 0
    Reached state = (d : ℕ) → contains state.1 d ≡ true → Precedes state.0.predecessors source d

    pub Covered-Grows :
        (scan scan' : Scan) (s : LexerState) (b : ℕ)
        → Grows scan scan'
        → Covered scan s b
        → Covered scan' s b
    Covered-Grows scan scan' s b (indexed, extends, (width, more)) (emits, extends_to) = (
      λ s' t e. let (k, found) = emits s' t e in (k, extends k _ found),
      λ s' e.
          let (index, at, precedes) = extends_to s' e in (index, at, more source index precedes),
    )

    scan_move-Reached :
        (d : ℕ) (state state' : Scan × List ℕ)
        → Indexed width state.0.known
        → Reached state
        → scan_move alloc width g source d state ≡ ok state'
        → Grows state.0 state'.0 × Reached state' × Precedes state'.0.predecessors source d
    unfolding scan_move
    scan_move-Reached d (scan, ds) state' indexed reached h =
        let (work, e, f) = >>=-eq-ok (charge scan.work (length ds)) _ h in
        elim (Bool-cases (contains ds d)) [
          | inl there ↦
              subst (λ s. Grows scan s.0 × Reached s × Precedes s.0.predecessors source d)
                (ok_inj (rw there at f))
                ((indexed, λ k fact e. e, (refl, λ s d p. p)), reached, reached d there)
          | inr other ↦
              let (predecessors, e₁, f₁) =
                >>=-eq-ok (append_predecessor alloc width scan.predecessors d source) _
                  (rw other at f) in
              let (more, new) =
                append_predecessor-Precedes scan.predecessors predecessors d source e₁ in
              subst (λ s. Grows scan s.0 × Reached s × Precedes s.0.predecessors source d)
                (ok_inj f₁)
                (
                  (indexed, λ k fact e. e, more),
                  λ d' c. elim (contains-push ds d d' c) [
                    | inl old ↦ more.1 source d' (reached d' old)
                    | inr is ↦ subst (Precedes predecessors source) is new
                  ],
                  new,
                )
        ]

    unmoved :
        (s : LexerState) (b : ℕ) (state state' : Scan × List ℕ)
        → Indexed width state.0.known
        → Reached state
        → ((s' : LexerState) (o : Option TerminalId)
            → lexer_step g s (byte b) ≡ ok (LexerStep.continue s' o)
            → ⊥)
        → state ≡ state'
        → Grows state.0 state'.0 × Reached state' × Covered state'.0 s b
    unmoved s b state state' indexed reached stops same =
        subst (λ st. Grows state.0 st.0 × Reached st × Covered st.0 s b) same
          (
            (indexed, λ k fact e. e, (refl, λ s d p. p)),
            reached,
            (λ s' t e. absurd (stops s' (some t) e), λ s' e. absurd (stops s' none e)),
          )

    pub scan_step-Covered :
        (s : LexerState) (b : ℕ) (state state' : Scan × List ℕ) (result : LexerResult)
        → lexer_step g s (byte b) ≡ result
        → Indexed width state.0.known
        → Reached state
        → scan_step alloc width g source state result ≡ ok state'
        → Grows state.0 state'.0 × Reached state' × Covered state'.0 s b
    scan_step-Covered s b state state' (ok (LexerStep.continue s' (some t))) e indexed reached h =
        let (known, e₁, f) = >>=-eq-ok (add_fact alloc width state.0.known source t) _ h in
        let (indexed', extends, new) =
          add_fact-Learns width alloc state.0.known known source t indexed e₁ in
        subst (λ st. Grows state.0 st.0 × Reached st × Covered st.0 s b) (ok_inj f)
          (
            (indexed', extends, (refl, λ s d p. p)),
            reached,
            (
              λ s'' t' e'. let same : t ≡ t' = cc (e, e') in subst (Known known source) same new,
              λ s'' e'. absurd (cc (e, e')),
            ),
          )
    scan_step-Covered s b state state' (ok (LexerStep.continue s' none)) e indexed reached h =
        let (index, e₁, f) = >>=-eq-ok (ok_or (source_index g s') invariant_violation) _ h in
        let place = source_index-eq-some g index s' (ok_or-eq-ok _ _ e₁) in
        let (grows, reached', precedes) = scan_move-Reached index state state' indexed reached f in
        (
          grows,
          reached',
          (
            λ s'' t e'. absurd (cc (e, e')),
            λ s'' e'.
                let same : s' ≡ s'' = cc (e, e') in (index, place ∙ ap position same, precedes),
          ),
        )
    scan_step-Covered s b state state' (ok (LexerStep.finished t eof)) e indexed reached h =
        unmoved s b state state' indexed reached (λ s' o e'. absurd (cc (e, e'))) (ok_inj h)
    scan_step-Covered s b state state' (err (LexerError.invalid_state q)) e indexed reached h =
        absurd (cc h)
    scan_step-Covered s b state state' (err (LexerError.cannot_begin_lexeme c)) e indexed reached
          h =
        unmoved s b state state' indexed reached (λ s' o e'. absurd (cc (e, e'))) (ok_inj h)
    scan_step-Covered s b state state' (err (LexerError.byte_after_unfinished_residual q c)) e
          indexed reached h =
        unmoved s b state state' indexed reached (λ s' o e'. absurd (cc (e, e'))) (ok_inj h)
    scan_step-Covered s b state state' (err (LexerError.eos_after_unfinished_residual q)) e indexed
          reached h =
        unmoved s b state state' indexed reached (λ s' o e'. absurd (cc (e, e'))) (ok_inj h)
    scan_step-Covered s b state state' (fault x) e indexed reached h = absurd (cc h)
