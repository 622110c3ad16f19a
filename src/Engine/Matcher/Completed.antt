-- ===== src/Engine/Matcher/Completed.antt =====
-- A row of crates/greatgramma-core/src/engine.rs that has accepted is completed, and the other rows
-- stay.
use greatgramma_rust.Base.{
  ℕ, ◌≡◌, ◌≢◌, refl, ap, ◌∙◌, subst, true, length, get_elem?, get_elem?-lt-length,
  get_elem?-set_self, get_elem?-set_ne, set, some, ok, err, fault, ok_or, >>=-eq-ok, ok_or-eq-ok,
  leaving, leaving-eq-ok, ok_inj, Allocator,
}
use greatgramma_rust.Normalized.{TokenId}
use greatgramma_rust.Engine.{
  MatcherStatus, empty_status, AdvanceResult, TokenDecision, rejected, running_lexer, check_token,
  evaluate_token_into, allows_status, next_status_of, next_status_into,
}
use greatgramma_rust.Engine.Errors.{invalid_row, completed, corrupt_prepared_data}
use greatgramma_rust.Engine.Matcher.{
  Matcher, state, is_completed, allows, next_status_at, swap_status_at, StatusRows, Moving, rows_of,
  with_rows, returned, advance_row, advance,
}

module _ (alloc : Allocator) (m : Matcher) where
  returned-eq-ok :
      {A : Type 0} (o : Moving A) (a : A) (m' : Matcher)
      → returned m o ≡ (ok a, m')
      → (rows : StatusRows) × (o ≡ ok (a, rows)) × (with_rows m rows ≡ m')
  returned-eq-ok (ok (b, rows)) a m' h = (rows, cc h, ap (λ r. r.1) h)
  returned-eq-ok (err (e, rows)) a m' h = absurd (cc h)
  returned-eq-ok (fault x) a m' h = absurd (cc h)

  accepted-empty_status :
      (token : TokenId) (d : TokenDecision) (s' : MatcherStatus)
      → next_status_of alloc m.prepared token d ≡ ok (AdvanceResult.accepted, s')
      → s' ≡ empty_status
  accepted-empty_status token rejected s' h = absurd (cc h)
  accepted-empty_status token (TokenDecision.continue lexer stack) s' h = absurd (cc h)
  accepted-empty_status token TokenDecision.accepted s' h = cc h

  next_status_into-accepted :
      (s s' : MatcherStatus) (token : TokenId)
      → next_status_into alloc m.prepared s token ≡ ok (AdvanceResult.accepted, s')
      → s' ≡ empty_status
  unfolding next_status_into
  next_status_into-accepted s s' token h =
      let (lexer, e₁, h₁) = >>=-eq-ok (running_lexer s.phase) _ h in
      let (u, e₂, h₂) = >>=-eq-ok (check_token alloc m.prepared token) _ h₁ in
      let (d, e₃, h₃) =
        >>=-eq-ok (evaluate_token_into alloc m.prepared lexer s.parser_stack token) _ h₂ in
      accepted-empty_status token d s' h₃

  -- The rows after an advance of one row: it has its next status and the others are as they were.
  abbrev pub AdvancesOnly : ℕ → TokenId → AdvanceResult → Matcher → Type 0
  AdvancesOnly row token result m' =
      (s : MatcherStatus) × (s' : MatcherStatus) × (get_elem? m.states row ≡ some s)
      × (next_status_into alloc m.prepared s token ≡ ok (result, s'))
      × (get_elem? m'.states row ≡ some s')
      × ((other : ℕ) → row ≢ other → get_elem? m'.states other ≡ get_elem? m.states other)

  -- If `advance` succeeds, then the row has the status to which `next_status_into` leads from the
  -- one before, with the result of that, and no other row has changed.
  pub advance-AdvancesOnly :
      (row : ℕ) (token : TokenId) (result : AdvanceResult) (m' : Matcher)
      → advance alloc m row token ≡ (ok result, m')
      → AdvancesOnly row token result m'
  unfolding advance advance_row next_status_at swap_status_at
  advance-AdvancesOnly row token result m' h =
      let rows = rows_of m in
      let (moved, e, same) =
        returned-eq-ok (advance_row alloc m.prepared row token rows) result m' h in
      let (s, e₁, h₁) =
        >>=-eq-ok
          (leaving rows (ok_or (get_elem? m.states row) (invalid_row row (length m.states)))) _ e in
      let (next, e₂, h₂) = >>=-eq-ok (next_status_at alloc m.prepared s rows row token) _ h₁ in
      let (d, e₃, h₃) =
        >>=-eq-ok (leaving rows (ok_or (get_elem? m.staging row) corrupt_prepared_data)) _ e₂ in
      let (made, e₄, h₄) =
        >>=-eq-ok (leaving rows (next_status_into alloc m.prepared s token)) _ h₃ in
      let (swapped, e₅, h₅) = >>=-eq-ok (swap_status_at alloc m.prepared next.1 row) _ h₂ in
      let (s₁, e₆, h₆) =
        >>=-eq-ok (leaving next.1 (ok_or (get_elem? next.1.0 row) corrupt_prepared_data)) _ e₅ in
      let (s₂, e₇, h₇) =
        >>=-eq-ok (leaving next.1 (ok_or (get_elem? next.1.1 row) corrupt_prepared_data)) _ h₆ in
      let at = ok_or-eq-ok (get_elem? m.states row) _ (leaving-eq-ok rows _ e₁) in
      let in_staging =
        get_elem?-lt-length m.staging row (ok_or-eq-ok _ _ (leaving-eq-ok rows _ e₃)) in
      let run = leaving-eq-ok rows (next_status_into alloc m.prepared s token) e₄ in
      let kept : m.states ≡ next.1.0 = ap (λ p. p.1.0) (ok_inj h₄) in
      let written : set m.staging row made.1 ≡ next.1.1 = ap (λ p. p.1.1) (ok_inj h₄) in
      let read : made.1 ≡ s₂ = cc (
        get_elem?-set_self m.staging row made.1 in_staging,
        written,
        ok_or-eq-ok (get_elem? next.1.1 row) _ (leaving-eq-ok next.1 _ e₇),
      ) in
      let result_is : made.0 ≡ result = ap (λ p. p.0) (ok_inj h₄) ∙ ap (λ r. r.0) (ok_inj h₅) in
      let states_are : set m.states row s₂ ≡ m'.states =
        ap (λ ss. set ss row s₂) kept
        ∙ ap (λ p. p.0) (ok_inj h₇)
        ∙ ap (λ r. r.1.0) (ok_inj h₅)
        ∙ ap (λ m. m.states) same in
      (
        s,
        s₂,
        at,
        subst (λ r. next_status_into alloc m.prepared s token ≡ ok (r, s₂)) result_is
            (subst (λ t. next_status_into alloc m.prepared s token ≡ ok (made.0, t)) read run),
        subst (λ ss. get_elem? ss row ≡ some s₂) states_are
            (get_elem?-set_self m.states row s₂ (get_elem?-lt-length m.states row at)),
        λ other ne.
            subst (λ ss. get_elem? ss other ≡ get_elem? m.states other) states_are
              (get_elem?-set_ne m.states row other s₂ ne),
      )

-- After an advance of a row with the result Accepted, the row is completed, and `allows` reports that
-- for every token.
pub advance-accepted :
    (alloc : Allocator) (m m' : Matcher) (row : ℕ) (token next : TokenId)
    → advance alloc m row token ≡ (ok AdvanceResult.accepted, m')
    → (is_completed m' row ≡ ok true) × (allows alloc m' row next ≡ err completed)
unfolding is_completed state allows allows_status running_lexer
advance-accepted alloc m m' row token next h =
    let (s, s', at, run, found, others) =
      advance-AdvancesOnly alloc m row token AdvanceResult.accepted m' h in
    let empty = next_status_into-accepted alloc m s s' token run in
    (rw (found, empty) refl, rw (found, empty) refl)
