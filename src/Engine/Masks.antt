-- ===== src/Engine/Masks.antt =====
-- The mask of one status, after crates/greatgramma-core/src/engine.rs: the buckets that are allowed
-- are set, then the tokens that end the input. An error comes with the output as it is then: clearing it
-- is the caller's part.
pub mod Marks
pub mod Ends
pub mod Exact
use greatgramma_rust.Base.{
  ℕ, Bool, true, false, ◌||◌, Option, none, some, List, [], ◌∷◌, length, ltb, ◌==◌, if◌then◌else◌,
  ok, err, leaving, ◌>>=◌, ◌>>◌, map_err, for_range, Allocator,
}
use greatgramma_rust.Normalized.{TokenId}
use greatgramma_rust.Lexer.{LexerState}
use greatgramma_rust.Lalr.{Stack}
use greatgramma_rust.TokenStep.{TokenExecution}
use greatgramma_rust.Spanner.{InverseBucket, Buckets, inverse_buckets, token_execution}
use greatgramma_rust.Mask.{set}
use greatgramma_rust.Engine.Errors.{
  buffer_too_small, no_valid_token, corrupt_prepared_data, Filling, map_spanner_error,
}
use greatgramma_rust.Engine.{
  PreparedGrammar, MatcherStatus, TokenDecision, rejected, running_lexer,
  sequence_allowed_with_scratch, evaluate_eos_into,
}

module _ (alloc : Allocator) (prepared : PreparedGrammar) where
  unfoldable pub set_tokens : List TokenId → List ℕ → Filling (List ℕ)
  set_tokens [] output = ok output
  set_tokens (token ∷ tokens) output = leaving output (set output token) >>= set_tokens tokens

  -- The tokens of an allowed bucket; whether there is one.
  abbrev pub some_token : List TokenId → Bool
  some_token [] = false
  some_token (token ∷ tokens) = true

  abbrev pub fill_allowed : InverseBucket → List ℕ → Bool → Filling (Bool × List ℕ)
  unfolding set_tokens
  fill_allowed bucket output false = ok (false, output)
  fill_allowed bucket output true =
      set_tokens bucket.tokens output >>= λ output'. ok (some_token bucket.tokens, output')

  unfoldable pub fill_bucket_mask : Stack → InverseBucket → List ℕ → Filling (Bool × List ℕ)
  unfolding set_tokens
  fill_bucket_mask stack bucket output =
      leaving output (sequence_allowed_with_scratch alloc prepared stack bucket.sequence)
      >>= fill_allowed bucket output

  unfoldable pub fill_ordinary_mask : Stack → Buckets → Bool × List ℕ → Filling (Bool × List ℕ)
  fill_ordinary_mask stack [] filled = ok filled
  fill_ordinary_mask stack (bucket ∷ buckets) filled =
      fill_bucket_mask stack bucket filled.1 >>= λ more.
      fill_ordinary_mask stack buckets (filled.0 || more.0, more.1)

  abbrev pub set_accepted_token : TokenId → Bool × List ℕ → TokenDecision → Filling (Bool × List ℕ)
  set_accepted_token token filled TokenDecision.accepted =
      leaving filled.1 (set filled.1 token) >>= λ output. ok (true, output)
  set_accepted_token token filled rejected = ok filled
  set_accepted_token token filled (TokenDecision.continue lexer stack) = ok filled

  abbrev pub fill_execution :
      Stack → TokenId → Bool × List ℕ → Option TokenExecution → Filling (Bool × List ℕ)
  unfolding evaluate_eos_into
  fill_execution stack token filled (some (TokenExecution.finished emitted eof)) =
      if eof == prepared.grammar.lalr.eof_terminal
      then leaving filled.1 (evaluate_eos_into alloc prepared stack emitted eof)
        >>= set_accepted_token token filled
      else err (corrupt_prepared_data, filled.1)
  fill_execution stack token filled (some (TokenExecution.continue state emitted)) = ok filled
  fill_execution stack token filled none = ok filled

  unfoldable pub fill_eos_token :
      LexerState → Stack → TokenId → Bool × List ℕ → Filling (Bool × List ℕ)
  unfolding evaluate_eos_into
  fill_eos_token lexer stack token filled =
      leaving filled.1 (map_err map_spanner_error (token_execution prepared.spanner lexer token))
      >>= fill_execution stack token filled

  unfoldable pub fill_eos_mask : LexerState → Stack → List ℕ → Filling (Bool × List ℕ)
  fill_eos_mask lexer stack output =
      for_range (fill_eos_token lexer stack) prepared.grammar.token_count 0 (false, output)

  unfoldable pub fill_mask_with_scratch : MatcherStatus → List ℕ → Filling (List ℕ)
  fill_mask_with_scratch state output = do
    lexer ← leaving output (running_lexer state.phase)
    (if ltb (length output) prepared.mask_bytes
        then err (buffer_too_small prepared.mask_bytes (length output), output)
        else ok tt)
    buckets ← leaving output (map_err map_spanner_error (inverse_buckets prepared.spanner lexer))
    (ordinary, output₁) ← fill_ordinary_mask state.parser_stack buckets (false, output)
    (eos, output₂) ← fill_eos_mask lexer state.parser_stack output₁
    if ordinary || eos then ok output₂ else err (no_valid_token, output₂)
