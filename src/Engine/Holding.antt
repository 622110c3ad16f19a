-- ===== src/Engine/Holding.antt =====
-- Which buckets of crates/greatgramma-core/src/engine.rs decide a token.
use greatgramma_rust.Base.{
  arith, ℕ, ◌≡◌, refl, ap, subst, Bool, true, false, Bool-cases, inl, inr, List, [], ◌∷◌, ◌==◌,
  ==→≡, zero, suc, get_elem?, some, ok, >>=-eq-ok, Allocator,
}
use greatgramma_rust.Normalized.{TokenId, SequenceId}
use greatgramma_rust.Lalr.{Stack}
use greatgramma_rust.Spanner.{InverseBucket, Buckets}
use greatgramma_rust.Spanner.Buckets.{Holds}
use greatgramma_rust.Engine.{
  PreparedGrammar, bucket_contains_token, bucket_sequence_for_token, sequence_allowed,
  sequence_allowed_with_scratch, bucket_allows_token, any_bucket_allows,
}
use greatgramma_rust.Engine.Errors.{Engine}

module _ (alloc : Allocator) (prepared : PreparedGrammar) where
  bucket_contains_token-Holds :
      (tokens : List TokenId) (token : TokenId)
      → bucket_contains_token tokens token ≡ true
      → (place : ℕ) × (get_elem? tokens place ≡ some token)
  unfolding bucket_contains_token
  bucket_contains_token-Holds [] token h = absurd (cc h)
  bucket_contains_token-Holds (t ∷ ts) token h = elim (Bool-cases (t == token)) [
    | inl e ↦ (0, ap some (==→≡ t token e))
    | inr e ↦
        let (place, found) =
          bucket_contains_token-Holds ts token (rw (e, bucket_contains_token) at h) in
        (suc place, found)
  ]

  bucket_contains_token_of :
      (tokens : List TokenId) (token : TokenId) (place : ℕ)
      → get_elem? tokens place ≡ some token
      → bucket_contains_token tokens token ≡ true
  unfolding bucket_contains_token
  bucket_contains_token_of [] token place h = absurd (cc h)
  bucket_contains_token_of (t ∷ ts) token zero h = let same : t ≡ token = cc h in ground arith
  bucket_contains_token_of (t ∷ ts) token (suc place) h =
      let later = bucket_contains_token_of ts token place h in ground arith

  bucket_allows_token-true :
      (stack : Stack) (token : TokenId) (bucket : InverseBucket)
      → bucket_allows_token alloc prepared stack bucket token ≡ ok true
      → (place : ℕ) × (get_elem? bucket.tokens place ≡ some token)
        × (sequence_allowed_with_scratch alloc prepared stack bucket.sequence ≡ ok true)
  unfolding bucket_allows_token sequence_allowed bucket_sequence_for_token
  bucket_allows_token-true stack token bucket h =
      elim (Bool-cases (bucket_contains_token bucket.tokens token)) [
        | inl e ↦
            let (place, found) = bucket_contains_token-Holds bucket.tokens token e in
            (place, found, rw e at h)
        | inr e ↦ absurd (cc (h, e))
      ]

  bucket_allows_token-false :
      (stack : Stack) (token : TokenId) (bucket : InverseBucket) (place : ℕ)
      → bucket_allows_token alloc prepared stack bucket token ≡ ok false
      → get_elem? bucket.tokens place ≡ some token
      → sequence_allowed_with_scratch alloc prepared stack bucket.sequence ≡ ok false
  unfolding bucket_allows_token sequence_allowed bucket_sequence_for_token
  bucket_allows_token-false stack token bucket place h found =
      rw (bucket_contains_token_of bucket.tokens token place found) at h

  -- A bucket of the row holds the token, and its sequence is allowed.
  abbrev pub Allowing : Stack → TokenId → Buckets → Type 0
  Allowing stack token buckets =
      (id : SequenceId) × Holds buckets id token
      × (sequence_allowed_with_scratch alloc prepared stack id ≡ ok true)

  first_or_later :
      (stack : Stack) (token : TokenId) (bucket : InverseBucket) (buckets : Buckets)
      (allowed : Bool) (rest : Engine Bool)
      → bucket_allows_token alloc prepared stack bucket token ≡ ok allowed
      → (elim allowed [ true ↦ ok true | false ↦ rest ]) ≡ ok true
      → (rest ≡ ok true → Allowing stack token buckets)
      → Allowing stack token (bucket ∷ buckets)
  first_or_later stack token bucket buckets true rest e f later =
      let (place, found, allows) = bucket_allows_token-true stack token bucket e in
      (bucket.sequence, (0, bucket, place, refl, refl, found), allows)
  first_or_later stack token bucket buckets false rest e f later =
      let (id, (index, other, place, at, same, found), allows) = later f in
      (id, (suc index, other, place, at, same, found), allows)

  -- A token that is allowed is in a bucket of an allowed sequence.
  pub any_bucket_allows-Allowing :
      (stack : Stack) (token : TokenId) (buckets : Buckets)
      → any_bucket_allows alloc prepared stack token buckets ≡ ok true
      → Allowing stack token buckets
  unfolding any_bucket_allows
  any_bucket_allows-Allowing stack token [] h = absurd (cc h)
  any_bucket_allows-Allowing stack token (bucket ∷ buckets) h =
      let (allowed, e, f) = >>=-eq-ok (bucket_allows_token alloc prepared stack bucket token) _ h in
      first_or_later stack token bucket buckets allowed
        (any_bucket_allows alloc prepared stack token buckets) e f
        (any_bucket_allows-Allowing stack token buckets)

  refused_first :
      (stack : Stack) (token : TokenId) (bucket : InverseBucket) (allowed : Bool)
      (rest : Engine Bool)
      → bucket_allows_token alloc prepared stack bucket token ≡ ok allowed
      → (elim allowed [ true ↦ ok true | false ↦ rest ]) ≡ ok false
      → (bucket_allows_token alloc prepared stack bucket token ≡ ok false) × (rest ≡ ok false)
  refused_first stack token bucket true rest e f = absurd (cc f)
  refused_first stack token bucket false rest e f = (e, f)

  -- If a token is refused, then the sequence of each bucket that holds it is.
  pub any_bucket_allows-false :
      (stack : Stack) (token : TokenId) (buckets : Buckets) (index : ℕ) (bucket : InverseBucket)
      (place : ℕ)
      → any_bucket_allows alloc prepared stack token buckets ≡ ok false
      → get_elem? buckets index ≡ some bucket
      → get_elem? bucket.tokens place ≡ some token
      → sequence_allowed_with_scratch alloc prepared stack bucket.sequence ≡ ok false
  unfolding any_bucket_allows
  any_bucket_allows-false stack token [] index bucket place h at found = absurd (cc at)
  any_bucket_allows-false stack token (first ∷ buckets) zero bucket place h at found =
      let (allowed, e, f) = >>=-eq-ok (bucket_allows_token alloc prepared stack first token) _ h in
      let (refused, rest) =
        refused_first stack token first allowed
          (any_bucket_allows alloc prepared stack token buckets) e f in
      let is : first ≡ bucket = cc at in
      bucket_allows_token-false stack token bucket place
        (subst (λ b. bucket_allows_token alloc prepared stack b token ≡ ok false) is refused) found
  any_bucket_allows-false stack token (first ∷ buckets) (suc index) bucket place h at found =
      let (allowed, e, f) = >>=-eq-ok (bucket_allows_token alloc prepared stack first token) _ h in
      let (refused, rest) =
        refused_first stack token first allowed
          (any_bucket_allows alloc prepared stack token buckets) e f in
      any_bucket_allows-false stack token buckets index bucket place rest at found
