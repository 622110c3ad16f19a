-- ===== src/Spanner/Exact.antt =====
-- The inverse buckets of crates/greatgramma-core/src/spanner.rs are the inverse of the prepared
-- token table: a bucket holds the tokens that emit a head up to its last terminal and may emit
-- that one next.
pub mod Rows
pub mod Table
use greatgramma_rust.Base.{
  ℕ, suc, ◌+◌, ◌<◌, ◌≡◌, ◌↔◌, refl, sym, ap, ◌∙◌, subst, inl, inr, Bool, Bool-cases, Option, none,
  some, List, [], ◌∷◌, ◌++◌, length, length-append, get_elem?, get_elem?-lt-length,
  get_elem?-append_cases, ◌==◌, ==→≡, arith, Outcome, ok, err, fault, ◌>>=◌, ok_or, >>=-eq-ok,
  ok_or-eq-ok, ok_inj, for_range, for_range_inv_from_0, checked_add, Allocator,
}
use greatgramma_rust.Normalized.{TokenId, TerminalId, SequenceId, ValidatedGrammar}
use greatgramma_rust.Lexer.{LexerState}
use greatgramma_rust.TokenStep.{TokenExecution, continue, finished}
use greatgramma_rust.TokenStep.Budget.{
  PreparationLimits, WorkBudget, invariant_violation, charge, check_items, prepared_vec,
}
use greatgramma_rust.TokenStep.Table.{PreparedTokenTable, cell, source_index, prepare_token_table}
use greatgramma_rust.Sequence.{
  SequenceTable, singleton_terminal, singleton_count, sequence, intern_head, in_row,
}
use greatgramma_rust.Sequence.Facts.{build_singletons}
use greatgramma_rust.Sequence.Interning.{Extends, IsDistinct, intern_head-Interns}
use greatgramma_rust.Spanner.{
  Buckets, PreparedSpanner, Building, append_member, append_continuation, append_continuations,
  append_execution, append_token_continuations, build_inverse_row, build_inverse_rows,
  prepare_spanner_with_budget,
}
use greatgramma_rust.Spanner.Buckets.{Holds, append_member-Gains}

-- What a construction step keeps: the finished rows, the sequences and the members.
abbrev pub Grows : Building → Building → Type 0
Grows b b' =
    (b'.inverse ≡ b.inverse)
    × Extends b.sequences b'.sequences
    × (IsDistinct b.sequences → IsDistinct b'.sequences)
    × ((id : SequenceId) (t : TokenId) → Holds b.row id t → Holds b'.row id t)

pub Grows-self : (b : Building) → Grows b b
Grows-self b = (refl, (refl, λ id head h. h), λ d. d, λ id t h. h)

pub Grows-trans : (a b c : Building) → Grows a b → Grows b c → Grows a c
Grows-trans a b c (e, (s, x), d, h) (e', (s', x'), d', h') = (
  e' ∙ e,
  (s' ∙ s, λ id head k. x' id head (x id head k)),
  λ k. d' (d k),
  λ id t k. h' id t (h id t k),
)

-- A member of the row that the terminals of `destination` require for a token, up to the j-th.
abbrev pub Covered : ℕ → List TerminalId → TokenId → ℕ → Buckets → SequenceTable → Type 0
Covered destination emitted token count row sequences =
    (j : ℕ) (c : TerminalId)
    → j < count
    → singleton_terminal sequences destination j ≡ some c
    → (id : SequenceId) × Holds row id token × (sequence sequences id ≡ some (emitted ++ c ∷ []))

pub singleton_terminal-eq :
    (s s' : SequenceTable) (destination j : ℕ) (c : TerminalId)
    → s'.singletons ≡ s.singletons
    → singleton_terminal s' destination j ≡ some c
    → singleton_terminal s destination j ≡ some c
unfolding singleton_terminal
singleton_terminal-eq s s' destination j c e h =
    subst (λ rows. in_row (get_elem? rows destination) j ≡ some c) e h

pub Covered-Grows :
    (destination : ℕ) (emitted : List TerminalId) (token : TokenId) (count : ℕ) (b b' : Building)
    → Grows b b'
    → Covered destination emitted token count b.row b.sequences
    → Covered destination emitted token count b'.row b'.sequences
Covered-Grows destination emitted token count b b' (e, (s, x), d, h) covered j c lt found =
    let (id, holds, is) =
      covered j c lt (singleton_terminal-eq b.sequences b'.sequences destination j c s found) in
    (id, h id token holds, x id _ is)

module _ (g : ValidatedGrammar) (table : PreparedTokenTable) where
  -- From the source the token ends in a state that may emit the last terminal of the head next,
  -- and emits the other terminals of the head.
  abbrev pub Realizes : SequenceTable → ℕ → SequenceId → TokenId → Type 0
  Realizes sequences source id token =
      (state : LexerState) × (emitted : List TerminalId) × (destination : ℕ) × (j : ℕ)
      × (c : TerminalId) × (cell table source token ≡ some (some (continue state emitted)))
      × (source_index g state ≡ some destination)
      × (singleton_terminal sequences destination j ≡ some c)
      × (sequence sequences id ≡ some (emitted ++ c ∷ []))

  abbrev RowSound : ℕ → Buckets → SequenceTable → Type 0
  RowSound source row sequences =
      (id : SequenceId) (t : TokenId) → Holds row id t → Realizes sequences source id t

  abbrev TokenCovered : ℕ → TokenId → Buckets → SequenceTable → Type 0
  TokenCovered source token row sequences =
      (state : LexerState) (emitted : List TerminalId) (destination j : ℕ) (c : TerminalId)
      → cell table source token ≡ some (some (continue state emitted))
      → source_index g state ≡ some destination
      → singleton_terminal sequences destination j ≡ some c
      → (id : SequenceId) × Holds row id token × (sequence sequences id ≡ some (emitted ++ c ∷ []))

  pub Realizes-Extends :
      (s s' : SequenceTable) (source : ℕ) (id : SequenceId) (token : TokenId)
      → Extends s s'
      → Realizes s source id token
      → Realizes s' source id token
  Realizes-Extends s s' source id token (e, x)
        (state, emitted, destination, j, c, run, at, next, is) =
      (
        state,
        emitted,
        destination,
        j,
        c,
        run,
        at,
        singleton_terminal-eq s' s destination j c (sym e) next,
        x id _ is,
      )

  pub TokenCovered-Grows :
      (source : ℕ) (token : TokenId) (b b' : Building)
      → Grows b b'
      → TokenCovered source token b.row b.sequences
      → TokenCovered source token b'.row b'.sequences
  TokenCovered-Grows source token b b' (e, (s, x), d, h) covered state emitted destination j c run
        at next =
      let (id, holds, is) =
        covered state emitted destination j c run at
          (singleton_terminal-eq b.sequences b'.sequences destination j c s next) in
      (id, h id token holds, x id _ is)

  module _ (alloc : Allocator) (limits : PreparationLimits) where
    -- One continuation: its head has an ID and the token is in the bucket of that.
    pub append_continuation-Keeps :
        (source destination : ℕ) (state : LexerState) (emitted : List TerminalId) (token : TokenId)
        (k : ℕ) (b b' : Building)
        → cell table source token ≡ some (some (continue state emitted))
        → source_index g state ≡ some destination
        → append_continuation alloc limits destination emitted token k b ≡ ok b'
        → Grows b b'
          × (RowSound source b.row b.sequences → RowSound source b'.row b'.sequences)
          × ((c : TerminalId) × (id : SequenceId) × (singleton_terminal b.sequences destination k
                ≡ some c)
              × Holds b'.row id token
              × (sequence b'.sequences id ≡ some (emitted ++ c ∷ [])))
    unfolding append_continuation
    append_continuation-Keeps source destination state emitted token k b b' run at h =
        let (work₁, e₁, h₁) = >>=-eq-ok (charge b.work 1) _ h in
        let (c, e₂, h₂) =
          >>=-eq-ok (ok_or (singleton_terminal b.sequences destination k) invariant_violation) _
            h₁ in
        let ((id, sequences, work₂), e₃, h₃) =
          >>=-eq-ok (intern_head alloc limits b.sequences emitted c work₁) _ h₂ in
        let ((row, work₃), e₄, h₄) =
          >>=-eq-ok (append_member alloc limits b.row id token work₂) _ h₃ in
        let (is, extends, distinct) =
          intern_head-Interns alloc limits b.sequences emitted c work₁ (id, sequences, work₂) e₃ in
        let (new, kept, cases) =
          append_member-Gains alloc limits b.row id token work₂ (row, work₃) e₄ in
        let next = ok_or-eq-ok _ _ e₂ in
        let made : Building = record b { sequences = sequences; row = row; work = work₃ } in
        subst
          (λ b'.
            Grows b b'
            × (RowSound source b.row b.sequences → RowSound source b'.row b'.sequences)
            × ((c : TerminalId) × (id : SequenceId) × (singleton_terminal b.sequences destination k
                  ≡ some c)
                × Holds b'.row id token
                × (sequence b'.sequences id ≡ some (emitted ++ c ∷ []))))
          (ok_inj h₄)
          (
            (refl, extends, distinct, kept),
            λ sound i t holds. elim (cases i t holds) [
              | inl old ↦ Realizes-Extends b.sequences sequences source i t extends (sound i t old)
              | inr (same_id, same_token) ↦
                  subst (λ i. Realizes sequences source i t) same_id
                    (subst (λ t. Realizes sequences source id t) same_token
                      (
                        state,
                        emitted,
                        destination,
                        k,
                        c,
                        run,
                        at,
                        singleton_terminal-eq sequences b.sequences destination k c (sym extends.0)
                            next,
                        is,
                      ))
            ],
            (c, id, next, new, is),
          )
