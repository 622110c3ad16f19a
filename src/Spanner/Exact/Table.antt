-- ===== src/Spanner/Exact/Table.antt =====
-- The whole table of inverse buckets of crates/greatgramma-core/src/spanner.rs.
use greatgramma_rust.Base.{
  ℕ, suc, ◌<◌, ◌≡◌, ◌↔◌, refl, sym, ap, ◌∙◌, subst, inl, inr, some, [], ◌∷◌, ◌++◌, length,
  length-append, get_elem?, get_elem?-append_cases, arith, ok, >>=-eq-ok, ok_inj,
  for_range_inv_from_0, Allocator,
}
use greatgramma_rust.Normalized.{TokenId, SequenceId, ValidatedGrammar}
use greatgramma_rust.TokenStep.Budget.{PreparationLimits, WorkBudget, prepared_vec}
use greatgramma_rust.TokenStep.Table.{PreparedTokenTable, prepare_token_table}
use greatgramma_rust.Sequence.{SequenceTable, sequence}
use greatgramma_rust.Sequence.Facts.{build_singletons}
use greatgramma_rust.Sequence.Interning.{Extends, IsDistinct}
use greatgramma_rust.Spanner.{
  Buckets, PreparedSpanner, Building, build_inverse_row, build_inverse_rows,
  prepare_spanner_with_budget,
}
use greatgramma_rust.Spanner.Buckets.{Holds}
use greatgramma_rust.Spanner.Exact.{singleton_terminal-eq, Realizes, Realizes-Extends}
use greatgramma_rust.Spanner.Exact.Rows.{RowExact, build_inverse_row-RowExact}

module _ (g : ValidatedGrammar) (table : PreparedTokenTable) (alloc : Allocator)
    (limits : PreparationLimits) where
  RowExact-Extends :
      (source : ℕ) (row : Buckets) (s s' : SequenceTable)
      → Extends s s'
      → RowExact g table alloc limits source row s
      → RowExact g table alloc limits source row s'
  RowExact-Extends source row s s' (same, x) (sound, covered) = (
    λ id t holds. Realizes-Extends g table s s' source id t (same, x) (sound id t holds),
    λ t lt state emitted destination j c run at next.
        let (id, holds, is) =
          covered t lt state emitted destination j c run at
            (singleton_terminal-eq s s' destination j c same next) in
        (id, holds, x id _ is),
  )

  -- The rows that are finished.
  abbrev RowsExact : ℕ → Building → Type 0
  RowsExact sources b =
      (length b.inverse ≡ sources)
      × IsDistinct b.sequences
      × ((i : ℕ) (row : Buckets)
          → get_elem? b.inverse i ≡ some row
          → RowExact g table alloc limits i row b.sequences)

  build_inverse_row-RowsExact :
      (k : ℕ) (b b' : Building)
      → RowsExact k b
      → build_inverse_row alloc limits g table k b ≡ ok b'
      → RowsExact (suc k) b'
  build_inverse_row-RowsExact k b b' (len, distinct, exact) h =
      let (row, pushed, extends, keeps, new) =
        build_inverse_row-RowExact g table alloc limits k b b' h in
      (
        ap length pushed ∙ length-append b.inverse (row ∷ []) ∙ omega (arith, len),
        keeps distinct,
        λ i other at.
            elim (get_elem?-append_cases b.inverse row other i
              (subst (λ rows. get_elem? rows i ≡ some other) pushed at)) [
                | inl old ↦
                    RowExact-Extends i other b.sequences b'.sequences extends (exact i other old)
                | inr (place, is) ↦
                    subst (λ r. RowExact g table alloc limits i r b'.sequences) (sym is)
                      (subst (λ n. RowExact g table alloc limits n row b'.sequences)
                        (sym (place ∙ len)) new)
              ],
      )

  pub build_inverse_rows-RowsExact :
      (sources : ℕ) (b b' : Building)
      → RowsExact 0 b
      → build_inverse_rows alloc limits g table sources b ≡ ok b'
      → RowsExact sources b'
  unfolding build_inverse_rows
  build_inverse_rows-RowsExact sources b b' exact h =
      let (u, e, f) = >>=-eq-ok (prepared_vec alloc sources) _ h in
      for_range_inv_from_0 RowsExact (build_inverse_row alloc limits g table) sources b b'
        (λ k t t' lt. build_inverse_row-RowsExact k t t') exact f

  build_inverse_rows-singletons :
      (sources : ℕ) (b b' : Building)
      → build_inverse_rows alloc limits g table sources b ≡ ok b'
      → b'.sequences.singletons ≡ b.sequences.singletons
  unfolding build_inverse_rows
  build_inverse_rows-singletons sources b b' h =
      let (u, e, f) = >>=-eq-ok (prepared_vec alloc sources) _ h in
      for_range_inv_from_0 (λ k t. t.sequences.singletons ≡ b.sequences.singletons)
        (build_inverse_row alloc limits g table) sources b b'
        (λ k t t' lt same step.
          let (row, pushed, extends, keeps, exact) =
            build_inverse_row-RowExact g table alloc limits k t t' step in
          extends.0 ∙ same)
        refl f

-- The rows of a spanner are exact, its heads are distinct, and its singletons are those that
-- `build_singletons` makes.
abbrev pub IsExact :
    ValidatedGrammar → Allocator → PreparationLimits → PreparedSpanner × WorkBudget → Type 0
IsExact g alloc limits made =
    ((source : ℕ) (row : Buckets)
      → get_elem? made.0.inverse source ≡ some row
      → RowExact g made.0.token_table alloc limits source row made.0.sequences)
    × IsDistinct made.0.sequences
    × (work₁ : WorkBudget) × (work₂ : WorkBudget) × (build_singletons alloc g limits work₁
        ≡ ok (made.0.sequences.singletons, work₂))

pub prepare_spanner_with_budget-IsExact :
    (g : ValidatedGrammar) (alloc : Allocator) (limits : PreparationLimits) (work : WorkBudget)
    (made : PreparedSpanner × WorkBudget)
    → prepare_spanner_with_budget alloc limits g work ≡ ok made
    → IsExact g alloc limits made
unfolding prepare_spanner_with_budget sequence
prepare_spanner_with_budget-IsExact g alloc limits work made h =
    let ((table, work₁), e₁, h₁) = >>=-eq-ok (prepare_token_table alloc g limits work) _ h in
    let ((singletons, work₂), e₂, h₂) = >>=-eq-ok (build_singletons alloc g limits work₁) _ h₁ in
    let start : Building = record {
      sequences = record { singletons = singletons; sequences = []; sequence_items = 0 };
      inverse = [];
      row = [];
      members = 0;
      work = work₂;
    } in
    let (built, e₃, h₃) =
      >>=-eq-ok (build_inverse_rows alloc limits g table (length table.rows) start) _ h₂ in
    let (len, distinct, exact) =
      build_inverse_rows-RowsExact g table alloc limits (length table.rows) start built
        (refl, λ i j head found. absurd (cc found), λ i row found. absurd (cc found)) e₃ in
    let kept =
      build_inverse_rows-singletons g table alloc limits (length table.rows) start built e₃ in
    subst (IsExact g alloc limits) (ok_inj h₃)
      (exact, distinct, work₁, work₂, e₂ ∙ ap (λ ss. ok (ss, work₂)) (sym kept))

-- In a spanner that `prepare_spanner_with_budget` returns, the row of a source has a bucket for a
-- sequence that holds a token of the table exactly if the token's execution from that source
-- continues in a state for which some terminal is a singleton and the sequence is the emitted
-- terminals followed by that one.
pub prepare_spanner_with_budget-Realizes :
    (g : ValidatedGrammar) (alloc : Allocator) (limits : PreparationLimits) (work : WorkBudget)
    (made : PreparedSpanner × WorkBudget)
    → prepare_spanner_with_budget alloc limits g work ≡ ok made
    → (source : ℕ) (row : Buckets) → get_elem? made.0.inverse source ≡ some row
    → (id : SequenceId) (token : TokenId) → token < g.token_count
    → Holds row id token ↔ Realizes g made.0.token_table made.0.sequences source id token
prepare_spanner_with_budget-Realizes g alloc limits work made h source row at id token lt =
    let (exact, distinct, work₁, work₂, singletons) =
      prepare_spanner_with_budget-IsExact g alloc limits work made h in
    (
      (exact source row at).0 id token,
      λ (state, emitted, destination, j, c, run, index, next, is).
          let (id', holds, is') =
            (exact source row at).1 token lt state emitted destination j c run index next in
          subst (λ i. Holds row i token) (distinct id' id (emitted ++ c ∷ []) is' is) holds,
    )
