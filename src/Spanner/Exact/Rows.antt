-- ===== src/Spanner/Exact/Rows.antt =====
-- The rows of inverse buckets of crates/greatgramma-core/src/spanner.rs, from one token's
-- continuations to the whole table.
use greatgramma_rust.Base.{
  ℕ, ◌<◌, ◌≡◌, sym, ap, subst, inl, inr, Bool-cases, Option, none, some, List, [], ◌∷◌, ◌++◌,
  get_elem?, get_elem?-lt-length, ◌==◌, ==→≡, arith, ok, ok_or, >>=-eq-ok, ok_or-eq-ok, ok_inj,
  for_range, for_range_inv_from_0, checked_add, Allocator,
}
use greatgramma_rust.Normalized.{TokenId, TerminalId, ValidatedGrammar}
use greatgramma_rust.Lexer.{LexerState}
use greatgramma_rust.TokenStep.{TokenExecution, continue, finished}
use greatgramma_rust.TokenStep.Budget.{PreparationLimits, invariant_violation, charge, check_items}
use greatgramma_rust.TokenStep.Table.{PreparedTokenTable, cell, source_index}
use greatgramma_rust.Sequence.{
  SequenceTable, singleton_terminal, singleton_count, sequence, in_row, row_length,
}
use greatgramma_rust.Sequence.Interning.{Extends, IsDistinct}
use greatgramma_rust.Spanner.{
  Buckets, Building, append_continuation, append_continuations, append_execution,
  append_token_continuations, build_inverse_row,
}
use greatgramma_rust.Spanner.Exact.{
  Grows, Grows-self, Grows-trans, Covered, Covered-Grows, singleton_terminal-eq, RowSound,
  TokenCovered, TokenCovered-Grows, append_continuation-Keeps,
}

some_length : {a b : ℕ} → some a ≡ some b → a ≡ b
some_length e = cc e

singleton_terminal-lt :
    (s : SequenceTable) (destination n j : ℕ) (c : TerminalId)
    → singleton_count s destination ≡ some n
    → singleton_terminal s destination j ≡ some c
    → j < n
unfolding singleton_count singleton_terminal
singleton_terminal-lt s destination n j c e h = row_lt (get_elem? s.singletons destination) e h
  where
    row_lt :
        (row : Option (List TerminalId)) → row_length row ≡ some n → in_row row j ≡ some c → j < n
    row_lt none e h = absurd (cc e)
    row_lt (some row) e h = subst (λ k. j < k) (some_length e) (get_elem?-lt-length row j h)

terminals_equal : {a : Option TerminalId} {c d : TerminalId} → a ≡ some c → a ≡ some d → c ≡ d
terminals_equal h k = cc (h, k)

module _ (g : ValidatedGrammar) (table : PreparedTokenTable) (alloc : Allocator)
    (limits : PreparationLimits) where
  -- What a step for one source keeps of the row in hand.
  abbrev Keeps : ℕ → Building → Building → Type 0
  Keeps source b b' =
      Grows b b'
      × (RowSound g table source b.row b.sequences → RowSound g table source b'.row b'.sequences)

  Keeps-self : (source : ℕ) (b : Building) → Keeps source b b
  Keeps-self source b = (Grows-self b, λ h. h)

  Keeps-trans :
      (source : ℕ) (a b c : Building) → Keeps source a b → Keeps source b c → Keeps source a c
  Keeps-trans source a b c (x, s) (x', s') = (Grows-trans a b c x x', λ h. s' (s h))

  append_continuations-Keeps :
      (source destination : ℕ) (state : LexerState) (emitted : List TerminalId) (token : TokenId)
      (b b' : Building)
      → cell table source token ≡ some (some (continue state emitted))
      → source_index g state ≡ some destination
      → append_continuations alloc limits destination emitted token b ≡ ok b'
      → Keeps source b b'
        × ((n : ℕ) × (singleton_count b.sequences destination ≡ some n)
            × Covered destination emitted token n b'.row b'.sequences)
  unfolding append_continuations
  append_continuations-Keeps source destination state emitted token b b' run at h =
      let (n, e, f) =
        >>=-eq-ok (ok_or (singleton_count b.sequences destination) invariant_violation) _ h in
      let (keeps, covered) =
        for_range_inv_from_0
          (λ k t. Keeps source b t × Covered destination emitted token k t.row t.sequences)
          (append_continuation alloc limits destination emitted token) n b b'
          (λ k t t' lt (keeps, covered) made.
            let (grows, sound, (c, id, next, holds, is)) =
              append_continuation-Keeps g table alloc limits source destination state emitted token
                k t t' run at made in
            (
              Keeps-trans source b t t' keeps (grows, sound),
              λ j d lt' found. elim (Bool-cases (j == k)) [
                | inl same ↦
                    let found_k : singleton_terminal t.sequences destination k ≡ some d =
                      singleton_terminal-eq t.sequences t'.sequences destination k d grows.1.0 (
                        subst (λ i. singleton_terminal t'.sequences destination i ≡ some d)
                          (==→≡ j k same) found) in
                    (
                      id,
                      holds,
                      subst (λ c. sequence t'.sequences id ≡ some (emitted ++ c ∷ []))
                          (terminals_equal next found_k) is,
                    )
                | inr other ↦
                    Covered-Grows destination emitted token k t t' grows covered j d (ground arith)
                      found
              ],
            ))
          (Keeps-self source b, λ j c lt. absurd (omega arith)) f in
      (keeps, (n, ok_or-eq-ok _ _ e, covered))

  append_execution-Keeps :
      (source : ℕ) (token : TokenId) (x : Option TokenExecution) (b b' : Building)
      → cell table source token ≡ some x
      → append_execution alloc limits g table token x b ≡ ok b'
      → Keeps source b b' × TokenCovered g table source token b'.row b'.sequences
  unfolding append_execution
  append_execution-Keeps source token none b b' run h = (
    subst (Keeps source b) (ok_inj h) (Keeps-self source b),
    λ state emitted destination j c run' at next. absurd (cc (run, run')),
  )
  append_execution-Keeps source token (some (finished emitted eof)) b b' run h = (
    subst (Keeps source b) (ok_inj h) (Keeps-self source b),
    λ state emitted' destination j c run' at next. absurd (cc (run, run')),
  )
  append_execution-Keeps source token (some (continue state emitted)) b b' run h =
      let (destination, e₁, h₁) =
        >>=-eq-ok (ok_or (source_index g state) invariant_violation) _ h in
      let (count, e₂, h₂) =
        >>=-eq-ok (ok_or (singleton_count b.sequences destination) invariant_violation) _ h₁ in
      let (members, e₃, h₃) = >>=-eq-ok (check_items (checked_add b.members count) limits) _ h₂ in
      let at = ok_or-eq-ok (source_index g state) _ e₁ in
      let (keeps, (n, counted, covered)) =
        append_continuations-Keeps source destination state emitted token
          (record b { members = members }) b' run at h₃ in
      (
        keeps,
        λ state' emitted' destination' j c run' at' next.
            let same_state : state ≡ state' = cc (run, run') in
            let same_emitted : emitted ≡ emitted' = cc (run, run') in
            let same_destination : destination ≡ destination' = cc (at, at', same_state) in
            let next' : singleton_terminal b'.sequences destination j ≡ some c =
              subst (λ d. singleton_terminal b'.sequences d j ≡ some c) (sym same_destination)
                next in
            let (id, holds, is) =
              covered j c
                (singleton_terminal-lt b.sequences destination n j c counted (
                  singleton_terminal-eq b.sequences b'.sequences destination j c keeps.0.1.0 next'))
                next' in
            (
              id,
              holds,
              subst (λ ts. sequence b'.sequences id ≡ some (ts ++ c ∷ [])) same_emitted is,
            ),
      )

  append_token_continuations-Keeps :
      (source : ℕ) (token : TokenId) (b b' : Building)
      → append_token_continuations alloc limits g table source token b ≡ ok b'
      → Keeps source b b' × TokenCovered g table source token b'.row b'.sequences
  unfolding append_token_continuations
  append_token_continuations-Keeps source token b b' h =
      let (work, e₁, h₁) = >>=-eq-ok (charge b.work 1) _ h in
      let (x, e₂, h₂) = >>=-eq-ok (ok_or (cell table source token) invariant_violation) _ h₁ in
      append_execution-Keeps source token x (record b { work = work }) b' (ok_or-eq-ok _ _ e₂) h₂

  -- A row that is complete and has nothing else.
  abbrev pub RowExact : ℕ → Buckets → SequenceTable → Type 0
  RowExact source row sequences =
      RowSound g table source row sequences
      × ((t : TokenId) → t < g.token_count → TokenCovered g table source t row sequences)

  pub build_inverse_row-RowExact :
      (source : ℕ) (b b' : Building)
      → build_inverse_row alloc limits g table source b ≡ ok b'
      → (row : Buckets) × (b'.inverse ≡ b.inverse ++ row ∷ [])
        × Extends b.sequences b'.sequences
        × (IsDistinct b.sequences → IsDistinct b'.sequences)
        × RowExact source row b'.sequences
  unfolding build_inverse_row
  build_inverse_row-RowExact source b b' h =
      let start : Building = record b { row = [] } in
      let (made, e, f) =
        >>=-eq-ok
          (for_range (append_token_continuations alloc limits g table source) g.token_count 0 start)
          _ h in
      let ((grows, sound), covered) =
        for_range_inv_from_0
          (λ k t.
            Keeps source start t
            × ((u : TokenId) → u < k → TokenCovered g table source u t.row t.sequences))
          (append_token_continuations alloc limits g table source) g.token_count start made
          (λ k t t' lt (keeps, before) step.
            let (keeps', covered) = append_token_continuations-Keeps source k t t' step in
            (
              Keeps-trans source start t t' keeps keeps',
              λ u lt'. elim (Bool-cases (u == k)) [
                | inl same ↦
                    subst (λ v. TokenCovered g table source v t'.row t'.sequences)
                      (sym (==→≡ u k same)) covered
                | inr other ↦
                    TokenCovered-Grows g table source u t t' keeps'.0 (before u (ground arith))
              ],
            ))
          (Keeps-self source start, λ u lt. absurd (omega arith)) e in
      subst
        (λ b'.
          (row : Buckets) × (b'.inverse ≡ b.inverse ++ row ∷ [])
          × Extends b.sequences b'.sequences
          × (IsDistinct b.sequences → IsDistinct b'.sequences)
          × RowExact source row b'.sequences)
        (ok_inj f)
        (
          made.row,
          ap (λ rows. rows ++ made.row ∷ []) grows.0,
          grows.1,
          grows.2,
          (sound (λ id t (index, bucket, place, at, same, found). absurd (cc at)), covered),
        )
