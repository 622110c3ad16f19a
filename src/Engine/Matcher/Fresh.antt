-- ===== src/Engine/Matcher/Fresh.antt =====
-- A new matcher of crates/greatgramma-core/src/engine.rs.
use greatgramma_rust.Base.{
  ℕ, zero, suc, ◌<◌, ◌≡◌, refl, sym, ap, ◌∙◌, subst, Bool-cases, inl, inr, false, List, [], ◌∷◌,
  length, length-replicate, get_elem?, ◌==◌, arith, some, ok, >>=-eq-ok, ok_inj, Allocator,
}
use greatgramma_rust.Lexer.{start}
use greatgramma_rust.Engine.{PreparedGrammar, running, MatcherStatus, empty_status, initial_status}
use greatgramma_rust.Engine.Matcher.{Matcher, initial_rows, into_matcher}

-- The status of a row that has taken no token.
abbrev pub fresh_status : PreparedGrammar → MatcherStatus
fresh_status prepared = record {
  phase = running start;
  parser_stack = prepared.grammar.lalr.start_state ∷ [];
}

-- As many rows and staging rows as were asked for, over the same tables, and no row has moved.
abbrev pub IsFresh : PreparedGrammar → ℕ → Matcher → Type 0
IsFresh prepared rows m =
    (m.prepared ≡ prepared)
    × (length m.states ≡ rows)
    × (length m.staging ≡ length m.states)
    × ((row : ℕ) → row < rows → get_elem? m.states row ≡ some (fresh_status prepared))

module _ (alloc : Allocator) (prepared : PreparedGrammar) where
  initial_status-fresh :
      (s : MatcherStatus) → initial_status alloc prepared ≡ ok s → fresh_status prepared ≡ s
  unfolding initial_status
  initial_status-fresh s h = elim (Bool-cases (alloc 1)) [
    | inl e ↦ ok_inj (rw e at h)
    | inr e ↦ absurd (cc (h, e))
  ]

  initial_rows-fresh :
      (rows : ℕ) (states : List MatcherStatus)
      → initial_rows alloc prepared rows ≡ ok states
      → (length states ≡ rows)
        × ((row : ℕ) → row < rows → get_elem? states row ≡ some (fresh_status prepared))
  unfolding initial_rows
  initial_rows-fresh zero states h = (sym (ap length (ok_inj h)), λ row lt. absurd (omega arith))
  initial_rows-fresh (suc rows) states h =
      let (s, e, h₁) = >>=-eq-ok (initial_status alloc prepared) _ h in
      let (rest, f, h₂) = >>=-eq-ok (initial_rows alloc prepared rows) _ h₁ in
      let (len, fresh) = initial_rows-fresh rows rest f in
      subst
        (λ states.
          (length states ≡ suc rows)
          × ((row : ℕ) → row < suc rows → get_elem? states row ≡ some (fresh_status prepared)))
        (ok_inj h₂) (ap suc len, at rest s (sym (initial_status-fresh s e)) fresh)
    where
      at :
          (rest : List MatcherStatus) (s : MatcherStatus)
          → s ≡ fresh_status prepared
          → ((row : ℕ) → row < rows → get_elem? rest row ≡ some (fresh_status prepared))
          → (row : ℕ) → row < suc rows
          → get_elem? (s ∷ rest) row ≡ some (fresh_status prepared)
      at rest s e fresh zero lt = ap some e
      at rest s e fresh (suc row) lt = fresh row (omega arith)

  -- If `into_matcher` succeeds, then the matcher has the rows that were asked for, at least one,
  -- as many staging rows, and every row is at the start of a lexeme with the parser's start state
  -- alone on its stack.
  pub into_matcher-IsFresh :
      (rows : ℕ) (m : Matcher)
      → into_matcher alloc prepared rows ≡ ok m
      → (0 < rows) × IsFresh prepared rows m
  unfolding into_matcher
  into_matcher-IsFresh zero m h = absurd (cc h)
  into_matcher-IsFresh (suc rows) m h =
      let positive : (suc rows == 0) ≡ false = ground arith in
      elim (Bool-cases (alloc (suc rows))) [
        | inl e ↦
            let (states, e₁, f) =
              >>=-eq-ok (initial_rows alloc prepared (suc rows)) _ (rw (positive, e) at h) in
            let (len, fresh) = initial_rows-fresh (suc rows) states e₁ in
            (
              omega arith,
              subst (IsFresh prepared (suc rows)) (ok_inj f)
                  (refl, len, length-replicate (suc rows) empty_status ∙ sym len, fresh),
            )
        | inr e ↦ absurd (cc (h, e, positive))
      ]
