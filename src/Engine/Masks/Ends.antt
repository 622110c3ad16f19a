-- ===== src/Engine/Masks/Ends.antt =====
-- Which bits the tokens that end the input set in a mask of crates/greatgramma-core/src/engine.rs.
use greatgramma_rust.Base.{
  ℕ, suc, ◌<◌, ◌≤◌, ◌≡◌, refl, ap, ◌∙◌, subst, Bool, true, false, ◌||◌, ◌&&◌, Bool-cases, inl, inr,
  List, [], ◌∷◌, ◌==◌, ==→≡, arith, Option, none, some, ok, ◌>>=◌, map_err, >>=-eq-ok,
  map_err-eq-ok, leaving, leaving-eq-ok, ok_inj, for_range, for_range_inv_from_0, Allocator,
}
use greatgramma_rust.Normalized.{TokenId, TerminalId}
use greatgramma_rust.Lexer.{LexerState}
use greatgramma_rust.Lalr.{RunDecision, Stack}
use greatgramma_rust.Lalr.Run.{execute_terminals_concrete_into, execute_terminals_concrete_in_place}
use greatgramma_rust.TokenStep.{TokenExecution, continue, finished}
use greatgramma_rust.Spanner.{token_execution}
use greatgramma_rust.Mask.{set, is_set}
use greatgramma_rust.Mask.Bits.{is_set-set, set-IsBytes}
use greatgramma_rust.Engine.{
  PreparedGrammar, TokenDecision, rejected, is_allowed, after_eof, run_eof, evaluate_eos_into,
}
use greatgramma_rust.Engine.Errors.{Filling, map_parser_error, map_spanner_error}
use greatgramma_rust.Engine.Masks.{set_accepted_token, fill_execution, fill_eos_token}
use greatgramma_rust.Engine.Masks.Marks.{IsBytes, Marks, Marks-none, and_false}

or_and : (a b : Bool) → (a || b) ≡ (b || (a && true))
or_and true true = refl
or_and true false = refl
or_and false true = refl
or_and false false = refl

or_other : (same b c : Bool) → same ≡ false → (c || (same && b)) ≡ c
or_other true b c h = absurd (cc h)
or_other false b true h = refl
or_other false b false h = refl

or_same : (same b c : Bool) → same ≡ true → (c || (same && b)) ≡ (c || b)
or_same true b c h = refl
or_same false b c h = absurd (cc h)

module _ (alloc : Allocator) (prepared : PreparedGrammar) (stack : Stack) where
  -- What an execution says of the token at the end of the input.
  abbrev pub Ends : Option TokenExecution → Bool → Type 0
  Ends none b = b ≡ false
  Ends (some (continue state emitted)) b = b ≡ false
  Ends (some (finished emitted eof)) b =
      ((eof == prepared.grammar.lalr.eof_terminal) ≡ true)
      × ((evaluate_eos_into alloc prepared stack emitted eof >>= λ d.
            ok (is_allowed alloc prepared d))
          ≡ ok b)

  abbrev IsEnd : TokenDecision → Type 0
  IsEnd rejected = Unit
  IsEnd TokenDecision.accepted = Unit
  IsEnd (TokenDecision.continue lexer s) = ⊥

  after_eof-IsEnd :
      (r : RunDecision) (d : TokenDecision) → after_eof alloc prepared r ≡ ok d → IsEnd d
  after_eof-IsEnd RunDecision.accepted d h = subst IsEnd (ok_inj h) tt
  after_eof-IsEnd RunDecision.rejected d h = subst IsEnd (ok_inj h) tt
  after_eof-IsEnd RunDecision.continue d h = subst IsEnd (ok_inj h) tt
  after_eof-IsEnd RunDecision.dependent d h = absurd (cc h)

  run_eof-IsEnd :
      (eof : TerminalId) (r : RunDecision × Stack) (d : TokenDecision)
      → run_eof alloc prepared eof r ≡ ok d
      → IsEnd d
  run_eof-IsEnd eof (RunDecision.rejected, s) d h = subst IsEnd (ok_inj h) tt
  run_eof-IsEnd eof (RunDecision.continue, s) d h =
      let (r, e, f) =
        >>=-eq-ok
          (map_err map_parser_error
            (execute_terminals_concrete_in_place alloc prepared.grammar.lalr s (eof ∷ [])))
          _ h in
      after_eof-IsEnd r.0 d f
  run_eof-IsEnd eof (RunDecision.accepted, s) d h = absurd (cc h)
  run_eof-IsEnd eof (RunDecision.dependent, s) d h = absurd (cc h)

  evaluate_eos_into-IsEnd :
      (emitted : List TerminalId) (eof : TerminalId) (d : TokenDecision)
      → evaluate_eos_into alloc prepared stack emitted eof ≡ ok d
      → IsEnd d
  unfolding evaluate_eos_into
  evaluate_eos_into-IsEnd emitted eof d h =
      let (r, e, f) =
        >>=-eq-ok
          (map_err map_parser_error
            (execute_terminals_concrete_into alloc prepared.grammar.lalr stack emitted))
          _ h in
      run_eof-IsEnd eof r d f

  unchanged :
      (token k : TokenId) (before filled : Bool × List ℕ)
      → IsBytes before.1
      → ◌≡◌ {A = Filling (Bool × List ℕ)} (ok before) (ok filled)
      → Marks token ((k == token) && false) before.1 filled.1
  unchanged token k before filled bytes h =
      subst (λ f. Marks token ((k == token) && false) before.1 f.1) (ok_inj h)
        (subst (λ b. Marks token b before.1 before.1) (and_false (k == token))
          (Marks-none token before.1 bytes))

  set_accepted_token-Marks :
      (token k : TokenId) (before filled : Bool × List ℕ) (d : TokenDecision)
      → IsBytes before.1
      → IsEnd d
      → set_accepted_token alloc prepared k before d ≡ ok filled
      → Marks token ((k == token) && is_allowed alloc prepared d) before.1 filled.1
  set_accepted_token-Marks token k before filled rejected bytes end h =
      unchanged token k before filled bytes h
  set_accepted_token-Marks token k before filled (TokenDecision.continue lexer s) bytes end h =
      absurd end
  set_accepted_token-Marks token k before filled TokenDecision.accepted bytes end h =
      let (output, e₀, f) = >>=-eq-ok (leaving before.1 (set before.1 k)) _ h in
      let e = leaving-eq-ok before.1 (set before.1 k) e₀ in
      subst (λ f. Marks token ((k == token) && true) before.1 f.1) (ok_inj f)
        (
          set-IsBytes before.1 output k bytes e,
          is_set-set before.1 output k token bytes e ∙ or_and (k == token) (is_set before.1 token),
        )

  fill_execution-Marks :
      (token k : TokenId) (before filled : Bool × List ℕ) (x : Option TokenExecution)
      → IsBytes before.1
      → fill_execution alloc prepared stack k before x ≡ ok filled
      → (b : Bool) × Ends x b × Marks token ((k == token) && b) before.1 filled.1
  unfolding fill_execution
  fill_execution-Marks token k before filled none bytes h =
      (false, refl, unchanged token k before filled bytes h)
  fill_execution-Marks token k before filled (some (continue state emitted)) bytes h =
      (false, refl, unchanged token k before filled bytes h)
  fill_execution-Marks token k before filled (some (finished emitted eof)) bytes h =
      elim (Bool-cases (eof == prepared.grammar.lalr.eof_terminal)) [
        | inl e ↦
            let (d, e₀, f) =
              >>=-eq-ok (leaving before.1 (evaluate_eos_into alloc prepared stack emitted eof)) _
                (rw e at h) in
            let e₁ =
              leaving-eq-ok before.1 (evaluate_eos_into alloc prepared stack emitted eof) e₀ in
            (
              is_allowed alloc prepared d,
              (e, ap (λ o. o >>= λ d. ok (is_allowed alloc prepared d)) e₁),
              set_accepted_token-Marks token k before filled d bytes
                  (evaluate_eos_into-IsEnd emitted eof d e₁) f,
            )
        | inr e ↦ absurd (cc (h, e))
      ]

  module _ (lexer : LexerState) where
    fill_eos_token-Marks :
        (token k : TokenId) (before filled : Bool × List ℕ)
        → IsBytes before.1
        → fill_eos_token alloc prepared lexer stack k before ≡ ok filled
        → (x : Option TokenExecution) × (b : Bool) × (token_execution prepared.spanner lexer k
            ≡ ok x)
          × Ends x b
          × Marks token ((k == token) && b) before.1 filled.1
    unfolding fill_eos_token
    fill_eos_token-Marks token k before filled bytes h =
        let (x, e, f) =
          >>=-eq-ok
            (leaving before.1
              (map_err map_spanner_error (token_execution prepared.spanner lexer k)))
            _ h in
        let (b, ends, marks) = fill_execution-Marks token k before filled x bytes f in
        (x, b, map_err-eq-ok map_spanner_error _ (leaving-eq-ok before.1 _ e), ends, marks)

    -- The bit of one token, before and after the loop has come to it.
    abbrev BitAfter : TokenId → Bool × List ℕ → ℕ → Bool × List ℕ → Type 0
    BitAfter token before k f =
        IsBytes f.1
        × (k ≤ token → is_set f.1 token ≡ is_set before.1 token)
        × (token < k
            → (x : Option TokenExecution) × (b : Bool) × (token_execution prepared.spanner lexer
                  token
                ≡ ok x)
              × Ends x b
              × (is_set f.1 token ≡ (is_set before.1 token || b)))

    step :
        (token : TokenId) (before : Bool × List ℕ) (k : ℕ) (t t' : Bool × List ℕ)
        → BitAfter token before k t
        → fill_eos_token alloc prepared lexer stack k t ≡ ok t'
        → BitAfter token before (suc k) t'
    step token before k t t' (bytes, old, new) h =
        let (x, b, run, ends, (bytes', marks)) = fill_eos_token-Marks token k t t' bytes h in
        (
          bytes',
          λ le.
              marks ∙ or_other (k == token) b (is_set t.1 token) (ground arith) ∙ old (omega arith),
          λ lt. elim (Bool-cases (k == token)) [
            | inl e ↦
                let same : k ≡ token = ==→≡ k token e in
                (
                  x,
                  b,
                  subst (λ n. token_execution prepared.spanner lexer n ≡ ok x) same run,
                  ends,
                  marks
                      ∙ or_same (k == token) b (is_set t.1 token) e
                      ∙ ap (λ s. s || b) (old (omega (arith, same))),
                )
            | inr e ↦
                let (x', b', run', ends', bit) = new (ground arith) in
                (x', b', run', ends', marks ∙ or_other (k == token) b (is_set t.1 token) e ∙ bit)
          ],
        )

    -- If the loop over the tokens succeeds, then every token of the table has an execution, and its
    -- bit is what it was or whether the execution ends the input.
    pub fill_eos_mask-Ends :
        (token : TokenId) (before filled : Bool × List ℕ)
        → IsBytes before.1
        → token < prepared.grammar.token_count
        → for_range
            (fill_eos_token alloc prepared lexer stack)
            prepared.grammar.token_count
            0
            before
          ≡ ok filled
        → (x : Option TokenExecution) × (b : Bool) × (token_execution prepared.spanner lexer token
            ≡ ok x)
          × Ends x b
          × (is_set filled.1 token ≡ (is_set before.1 token || b))
    fill_eos_mask-Ends token before filled bytes lt h =
        let (bytes', old, new) =
          for_range_inv_from_0 (BitAfter token before) (fill_eos_token alloc prepared lexer stack)
            prepared.grammar.token_count before filled (λ k t t' lt. step token before k t t')
            (bytes, λ le. refl, λ lt. absurd (omega arith)) h in
        new lt
