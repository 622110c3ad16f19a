-- ===== src/Engine/Matcher/Agree.antt =====
-- `allows` and `advance` of crates/greatgramma-core/src/engine.rs agree on every row and token.
use greatgramma_rust.Base.{
  ℕ, Bool, true, false, ◌<◌, ◌≡◌, refl, ap, sym, ◌∙◌, Option, none, some, length, get_elem?,
  get_elem?-lt-length, get_elem?-total, leb, if◌then◌else◌, subst, arith, get_elem?-set_self, ok,
  err, fault, ◌>>=◌, ok_or, Allocator,
}
use greatgramma_rust.Normalized.{TokenId}
use greatgramma_rust.Lexer.{LexerState}
use greatgramma_rust.Engine.{
  PreparedGrammar, MatcherPhase, running, MatcherStatus, AdvanceResult, TokenDecision, rejected,
  running_lexer, check_token, is_allowed, evaluate_token_into, allows_status, next_status_of,
  next_status_into,
}
use greatgramma_rust.Engine.Internal.{is_internal, Internal, evaluate_token_into-Internal}
use greatgramma_rust.Engine.Errors.{EngineError, invalid_row, constraint_violation, Engine}
use greatgramma_rust.Engine.Matcher.{
  Matcher, state, allows, next_status_at, swap_status_at, advance_row, advance,
}

abbrev pub is_violation : EngineError → Bool
is_violation (constraint_violation token) = true
is_violation e = false

-- What the outcome of an advance says of the token: a constraint violation refuses it.
abbrev pub verdict : {A : Type 0} → Engine A → Engine Bool
verdict (ok a) = ok true
verdict (err e) = if is_violation e then ok false else err e
verdict (fault x) = fault x

is_internal-is_violation : (e : EngineError) → is_internal e ≡ true → is_violation e ≡ false
is_internal-is_violation e h = ground arith

module _ (alloc : Allocator) (prepared : PreparedGrammar) (token : TokenId) where
  decision_verdict :
      (o : Engine TokenDecision)
      → Internal o
      → (o >>= λ d. ok (is_allowed alloc prepared d))
        ≡ verdict (o >>= next_status_of alloc prepared token)
  unfolding Internal
  decision_verdict (ok rejected) h = refl
  decision_verdict (ok (TokenDecision.continue lexer stack)) h = refl
  decision_verdict (ok TokenDecision.accepted) h = refl
  decision_verdict (err e) h = rw (is_internal-is_violation e h) refl
  decision_verdict (fault x) h = refl

  after_check :
      (s : MatcherStatus) (lexer : LexerState) (out : Bool)
      → leb prepared.grammar.token_count token ≡ out
      → (check_token alloc prepared token >>= λ done.
          evaluate_token_into alloc prepared lexer s.parser_stack token >>= λ d.
          ok (is_allowed alloc prepared d))
        ≡ verdict (
            check_token alloc prepared token >>= λ done.
            evaluate_token_into alloc prepared lexer s.parser_stack token
            >>= next_status_of alloc prepared token)
  unfolding check_token
  after_check s lexer true e = rw e refl
  after_check s lexer false e = rw e (
      decision_verdict (evaluate_token_into alloc prepared lexer s.parser_stack token)
        (evaluate_token_into-Internal alloc prepared lexer s.parser_stack token))

  status_verdict :
      (s : MatcherStatus) (phase : MatcherPhase)
      → s.phase ≡ phase
      → allows_status alloc prepared s token ≡ verdict (next_status_into alloc prepared s token)
  unfolding allows_status next_status_into running_lexer
  status_verdict s (running lexer) e = rw e (after_check s lexer _ refl)
  status_verdict s MatcherPhase.accepted e = rw e refl

module _ (alloc : Allocator) (m : Matcher) where
  advanced_verdict :
      (row : ℕ) (token : TokenId) (s d : MatcherStatus)
      (next : Engine (AdvanceResult × MatcherStatus))
      → get_elem? m.states row ≡ some s
      → get_elem? m.staging row ≡ some d
      → next_status_into alloc m.prepared s token ≡ next
      → verdict next ≡ verdict (advance alloc m row token).0
  unfolding advance advance_row next_status_at swap_status_at
  advanced_verdict row token s d (ok (r, s')) e f h =
      rw (e, f, h, get_elem?-set_self m.staging row s' (get_elem?-lt-length m.staging row f), e)
        refl
  advanced_verdict row token s d (err x) e f h = rw (e, f, h) refl
  advanced_verdict row token s d (fault x) e f h = rw (e, f, h) refl

  row_verdict :
      (row : ℕ) (token : TokenId) (found : Option MatcherStatus)
      → get_elem? m.states row ≡ found
      → length m.staging ≡ length m.states
      → allows alloc m row token ≡ verdict (advance alloc m row token).0
  unfolding allows state advance advance_row
  row_verdict row token none e l = rw e refl
  row_verdict row token (some s) e l =
      let lt : row < length m.staging =
        subst (λ n. row < n) (sym l) (get_elem?-lt-length m.states row e) in
      let (d, f) = get_elem?-total m.staging row lt in
      ap
        (λ o. ok_or o (invalid_row row (length m.states)) >>= λ s.
          allows_status alloc m.prepared s token)
        e
      ∙ status_verdict alloc m.prepared token s s.phase refl
      ∙ advanced_verdict row token s d (next_status_into alloc m.prepared s token) e f refl

  -- With the same room for every reservation, the two agree on every row and token.
  pub allows-verdict :
      (row : ℕ) (token : TokenId)
      → length m.staging ≡ length m.states
      → allows alloc m row token ≡ verdict (advance alloc m row token).0
  allows-verdict row token l = row_verdict row token (get_elem? m.states row) refl l

-- On a matcher with as many staging rows as rows, with room for every reservation of the one and of
-- the other, `allows` answers `true` exactly if `advance` succeeds and `false` exactly if `advance`
-- reports a constraint violation, and on every other error or fault the two have the same.
pub allows-advance :
    (alloc alloc' : Allocator) (m : Matcher) (row : ℕ) (token : TokenId)
    → ((n : ℕ) → alloc n ≡ true)
    → ((n : ℕ) → alloc' n ≡ true)
    → length m.staging ≡ length m.states
    → allows alloc m row token ≡ verdict (advance alloc' m row token).0
allows-advance alloc alloc' m row token room room' l =
    let same : alloc ≡ alloc' = λ i n. (room n ∙ sym (room' n)) i in
    subst (λ a. allows alloc m row token ≡ verdict (advance a m row token).0) same
      (allows-verdict alloc m row token l)
