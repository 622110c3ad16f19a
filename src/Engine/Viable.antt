-- ===== src/Engine/Viable.antt =====
-- What it means that crates/greatgramma-core/src/engine.rs allows a token that does not end the
-- input: the lexer may next emit a terminal that completes what the token emits to a head that the
-- parser's stack takes.
use greatgramma_rust.Base.{
  ℕ, ◌<◌, ◌≡◌, ◌↔◌, refl, ap, ◌∙◌, subst, Bool, true, false, List, [], ◌∷◌, ◌++◌, get_elem?, some,
  ok, ok_or, map_err, >>=-eq-ok, ok_or-eq-ok, map_err-eq-ok, ok_inj, Allocator,
}
use greatgramma_rust.Normalized.{TokenId, TerminalId, SequenceId, ValidatedGrammar}
use greatgramma_rust.Lexer.{LexerState}
use greatgramma_rust.Lalr.{Stack, Parse}
use greatgramma_rust.Lalr.Reference.{sequence_head_allowed_with_scratch}
use greatgramma_rust.Lalr.Symbolic.{NeverRefuses}
use greatgramma_rust.TokenStep.Budget.{PreparationLimits, new_budget}
use greatgramma_rust.TokenStep.{continue}
use greatgramma_rust.TokenStep.Table.{cell, source_index}
use greatgramma_rust.Sequence.{sequence, singleton_terminal}
use greatgramma_rust.Sequence.Facts.Next.{NextTerminal}
use greatgramma_rust.Sequence.Facts.Complete.{build_singletons-row, build_singletons-NextTerminal}
use greatgramma_rust.Engine.Masks.Exact.{token_execution-cell}
use greatgramma_rust.Spanner.{Buckets, query_source, token_execution, inverse_buckets}
use greatgramma_rust.Spanner.Exact.{Realizes}
use greatgramma_rust.Spanner.Exact.Table.{
  prepare_spanner_with_budget-Realizes, prepare_spanner_with_budget-IsExact,
}
use greatgramma_rust.Preprocess.{SequenceClassification}
use greatgramma_rust.Preprocess.Table.{classification}
use greatgramma_rust.Preprocess.Table.Sound.{
  CellForetells, prepare_parser_with_budget-CellForetells,
}
use greatgramma_rust.Engine.{
  PreparedGrammar, prepare, classified, sequence_allowed_with_scratch, any_bucket_allows,
  ordinary_token_allowed_with_scratch,
}
use greatgramma_rust.Engine.Parts.{prepare-IsPrepared}
use greatgramma_rust.Engine.Holding.{any_bucket_allows-Allowing, any_bucket_allows-false}
use greatgramma_rust.Engine.Errors.{corrupt_prepared_data, map_parser_error, map_spanner_error}

module _ (alloc : Allocator) (roomy : NeverRefuses alloc) (prepared : PreparedGrammar) where
  -- The head of a sequence, executed on the stack, gives the answer.
  abbrev pub Executes : Stack → SequenceId → Bool → Type 0
  Executes stack id b =
      (head : List TerminalId) × (sequence prepared.spanner.sequences id ≡ some head)
      × (sequence_head_allowed_with_scratch alloc prepared.grammar.lalr stack head ≡ ok b)

  classified-Executes :
      (top : ℕ) (below : Stack) (id : SequenceId) (c : SequenceClassification) (b : Bool)
      → CellForetells alloc prepared.grammar.lalr roomy prepared.spanner top id c
      → classified alloc prepared (top ∷ below) id c ≡ ok b
      → Executes (top ∷ below) id b
  classified-Executes top below id SequenceClassification.always_readable b (head, is, foretells)
        h =
      (head, is, (foretells below).0 refl ∙ ap ok (ok_inj h))
  classified-Executes top below id SequenceClassification.rejected b (head, is, foretells) h =
      (head, is, (foretells below).1 refl ∙ ap ok (ok_inj h))
  classified-Executes top below id SequenceClassification.dependent b cell h =
      let (head, e, f) =
        >>=-eq-ok (ok_or (sequence prepared.spanner.sequences id) corrupt_prepared_data) _ h in
      (head, ok_or-eq-ok _ _ e, map_err-eq-ok map_parser_error _ f)

  -- With room for every reservation, on prepared tables, whatever `sequence_allowed_with_scratch`
  -- answers for a stack and a sequence, from the classification or by execution, is what executing
  -- the head of the sequence on that stack answers.
  pub sequence_allowed-Executes :
      (limits : PreparationLimits) (g : ValidatedGrammar) (stack : Stack) (id : SequenceId)
      (b : Bool)
      → prepare alloc g limits ≡ ok prepared
      → sequence_allowed_with_scratch alloc prepared stack id ≡ ok b
      → Executes stack id b
  unfolding sequence_allowed_with_scratch
  sequence_allowed-Executes limits g [] id b made h = absurd (cc h)
  sequence_allowed-Executes limits g (top ∷ below) id b made h =
      let (work, work', spanner, parser, bytes) = prepare-IsPrepared alloc limits g prepared made in
      let (c, e, f) =
        >>=-eq-ok (map_err map_parser_error (classification prepared.parser top id)) _ h in
      classified-Executes top below id c b
        (prepare_parser_with_budget-CellForetells alloc prepared.grammar.lalr roomy prepared.spanner
          limits work (prepared.parser, work') parser top id c (map_err-eq-ok map_parser_error _ e))
        f

  -- The token's execution from the lexer state emits terminals and continues in a state with a
  -- singleton, and the stack takes them all.
  abbrev Realizable : LexerState → Stack → TokenId → Type 0
  Realizable lexer stack token =
      (source : ℕ) × (id : SequenceId) × (query_source prepared.spanner lexer ≡ ok source)
      × Realizes prepared.grammar prepared.spanner.token_table prepared.spanner.sequences source id
          token
      × Executes stack id true

  -- The token's execution from the lexer state emits terminals and continues in a state, one of
  -- the sources, that may emit another terminal next, and the stack takes them all.
  abbrev pub Viable : LexerState → Stack → TokenId → Type 0
  Viable lexer stack token =
      (state : LexerState) × (emitted : List TerminalId) × (destination : ℕ) × (t : TerminalId)
      × (token_execution prepared.spanner lexer token ≡ ok (some (continue state emitted)))
      × (source_index prepared.grammar state ≡ some destination)
      × NextTerminal prepared.grammar state t
      × (sequence_head_allowed_with_scratch alloc prepared.grammar.lalr stack (emitted ++ t ∷ [])
          ≡ ok true)

  ordinary-row :
      (lexer : LexerState) (stack : Stack) (token : TokenId) (b : Bool)
      → ordinary_token_allowed_with_scratch alloc prepared lexer stack token ≡ ok b
      → (row : Buckets) × (source : ℕ) × (query_source prepared.spanner lexer ≡ ok source)
        × (get_elem? prepared.spanner.inverse source ≡ some row)
        × (any_bucket_allows alloc prepared stack token row ≡ ok b)
  unfolding ordinary_token_allowed_with_scratch inverse_buckets
  ordinary-row lexer stack token b h =
      let (row, e, f) =
        >>=-eq-ok (map_err map_spanner_error (inverse_buckets prepared.spanner lexer)) _ h in
      let (source, e₁, f₁) =
        >>=-eq-ok (query_source prepared.spanner lexer) _ (map_err-eq-ok map_spanner_error _ e) in
      (row, source, e₁, ok_or-eq-ok _ _ f₁, f)

  refused-absurd :
      (limits : PreparationLimits) (g : ValidatedGrammar) (stack : Stack) (id : SequenceId)
      → prepare alloc g limits ≡ ok prepared
      → sequence_allowed_with_scratch alloc prepared stack id ≡ ok false
      → Executes stack id true
      → ⊥
  refused-absurd limits g stack id made refused (head, is, takes) =
      let (head', is', refuses) = sequence_allowed-Executes limits g stack id false made refused in
      let same : head ≡ head' = cc (is, is') in
      let both : ◌≡◌ {A = Parse Bool} (ok true) (ok false) = cc (takes, refuses, same) in
      true-false (ok_inj both)
    where
      true-false : true ≡ false → ⊥
      true-false e = cc e

  ordinary_token_allowed-Realizable :
      (limits : PreparationLimits) (g : ValidatedGrammar) (lexer : LexerState) (stack : Stack)
      (token : TokenId) (b : Bool)
      → prepare alloc g limits ≡ ok prepared
      → token < prepared.grammar.token_count
      → ordinary_token_allowed_with_scratch alloc prepared lexer stack token ≡ ok b
      → (b ≡ true) ↔ Realizable lexer stack token
  ordinary_token_allowed-Realizable limits g lexer stack token true made lt h =
      let (work, work', spanner, parser, bytes) = prepare-IsPrepared alloc limits g prepared made in
      let (row, source, at, found, any) = ordinary-row lexer stack token true h in
      let (id, holds, allows) = any_bucket_allows-Allowing alloc prepared stack token row any in
      let realizes =
        (prepare_spanner_with_budget-Realizes prepared.grammar alloc limits (new_budget limits)
            (prepared.spanner, work) spanner source row found id token lt).0
          holds in
      (
        λ e. (
          source,
          id,
          at,
          realizes,
          sequence_allowed-Executes limits g stack id true made allows,
        ),
        λ realizable. refl,
      )
  ordinary_token_allowed-Realizable limits g lexer stack token false made lt h = (
    λ e. absurd (cc e),
    λ (source, id, at, realizes, executes).
        let (work, work', spanner, parser, bytes) =
          prepare-IsPrepared alloc limits g prepared made in
        let (row, source', at', found, any) = ordinary-row lexer stack token false h in
        let same : source' ≡ source = cc (at, at') in
        let (index, bucket, place, bucket_at, is, token_at) =
          (prepare_spanner_with_budget-Realizes prepared.grammar alloc limits (new_budget limits)
              (prepared.spanner, work) spanner source row
              (subst (λ n. get_elem? prepared.spanner.inverse n ≡ some row) same found) id token
              lt).1
            realizes in
        let refused =
          any_bucket_allows-false alloc prepared stack token row index bucket place any bucket_at
            token_at in
        absurd (
          refused-absurd limits g stack id made
            (subst (λ i. sequence_allowed_with_scratch alloc prepared stack i ≡ ok false) is
              refused)
            executes),
  )

  Realizable-Viable :
      (limits : PreparationLimits) (g : ValidatedGrammar) (lexer : LexerState) (stack : Stack)
      (token : TokenId)
      → prepare alloc g limits ≡ ok prepared
      → Realizable lexer stack token
      → Viable lexer stack token
  unfolding token_execution singleton_terminal
  Realizable-Viable limits g lexer stack token made
        (
          source,
          id,
          at,
          (state, emitted, destination, j, c, run, index, next, is),
          (head, is', takes),
        ) =
      let (work, work', spanner, parser, bytes) = prepare-IsPrepared alloc limits g prepared made in
      let (exact, distinct, work₁, work₂, singletons) =
        prepare_spanner_with_budget-IsExact prepared.grammar alloc limits (new_budget limits)
          (prepared.spanner, work) spanner in
      let (row, found) =
        build_singletons-row alloc prepared.grammar limits work₁ _ state destination singletons
          index in
      let same : head ≡ emitted ++ c ∷ [] = cc (is, is') in
      (
        state,
        emitted,
        destination,
        c,
        rw (at, run) refl,
        index,
        (build_singletons-NextTerminal alloc prepared.grammar limits work₁ _ state destination row c
              singletons index found).0
            (j, rw found at next),
        subst
            (λ h. sequence_head_allowed_with_scratch alloc prepared.grammar.lalr stack h ≡ ok true)
            same takes,
      )

  Viable-Realizable :
      (limits : PreparationLimits) (g : ValidatedGrammar) (lexer : LexerState) (stack : Stack)
      (token : TokenId) (b : Bool)
      → prepare alloc g limits ≡ ok prepared
      → token < prepared.grammar.token_count
      → ordinary_token_allowed_with_scratch alloc prepared lexer stack token ≡ ok b
      → Viable lexer stack token
      → Realizable lexer stack token
  unfolding singleton_terminal
  Viable-Realizable limits g lexer stack token b made lt h
        (state, emitted, destination, c, run, index, next, takes) =
      let (work, work', spanner, parser, bytes) = prepare-IsPrepared alloc limits g prepared made in
      let (exact, distinct, work₁, work₂, singletons) =
        prepare_spanner_with_budget-IsExact prepared.grammar alloc limits (new_budget limits)
          (prepared.spanner, work) spanner in
      let (row, found) =
        build_singletons-row alloc prepared.grammar limits work₁ _ state destination singletons
          index in
      let (j, there) =
        (build_singletons-NextTerminal alloc prepared.grammar limits work₁ _ state destination row c
            singletons index found).1
          next in
      let (buckets, source, at, bucket_row, any) = ordinary-row lexer stack token b h in
      let (source', at', in_table) =
        token_execution-cell prepared.spanner lexer token (some (continue state emitted)) run in
      let same : source' ≡ source = cc (at, at') in
      let cell_at =
        subst
          (λ n. cell prepared.spanner.token_table n token ≡ some (some (continue state emitted)))
          same in_table in
      let listed : singleton_terminal prepared.spanner.sequences destination j ≡ some c =
        rw found there in
      let (id, holds, is) =
        (exact source buckets bucket_row).1 token lt state emitted destination j c cell_at index
          listed in
      (
        source,
        id,
        at,
        (state, emitted, destination, j, c, cell_at, index, listed, is),
        (emitted ++ c ∷ [], is, takes),
      )

  -- With room for every reservation, on prepared tables, if
  -- `ordinary_token_allowed_with_scratch` answers for a token of the table, then it answers
  -- true exactly if the token's execution from the lexer state continues in a state, one of the
  -- sources, from which some bytes lead to the emission of another terminal, and the stack
  -- takes the head of the emitted terminals followed by that one.
  pub ordinary_token_allowed-Viable :
      (limits : PreparationLimits) (g : ValidatedGrammar) (lexer : LexerState) (stack : Stack)
      (token : TokenId) (b : Bool)
      → prepare alloc g limits ≡ ok prepared
      → token < prepared.grammar.token_count
      → ordinary_token_allowed_with_scratch alloc prepared lexer stack token ≡ ok b
      → (b ≡ true) ↔ Viable lexer stack token
  ordinary_token_allowed-Viable limits g lexer stack token b made lt h =
      let (to, back) = ordinary_token_allowed-Realizable limits g lexer stack token b made lt h in
      (
        λ e. Realizable-Viable limits g lexer stack token made (to e),
        λ viable. back (Viable-Realizable limits g lexer stack token b made lt h viable),
      )
