-- ===== src/Engine/Masks/Marks.antt =====
-- Which bits the buckets of crates/greatgramma-core/src/engine.rs set in a mask: those of the tokens
-- that some bucket allows.
use greatgramma_rust.Base.{
  ℕ, ◌<◌, ◌≡◌, refl, ap, ◌∙◌, subst, Bool, true, false, ◌||◌, ◌&&◌, List, [], ◌∷◌, All, ◌==◌, ok,
  >>=-eq-ok, leaving, leaving-eq-ok, ok_inj, Allocator,
}
use greatgramma_rust.Normalized.{TokenId}
use greatgramma_rust.Lalr.{Stack}
use greatgramma_rust.Spanner.{InverseBucket, Buckets}
use greatgramma_rust.Mask.{set, is_set}
use greatgramma_rust.Mask.Bits.{is_set-set, set-IsBytes}
use greatgramma_rust.Engine.{
  PreparedGrammar, bucket_contains_token, bucket_sequence_for_token, sequence_allowed,
  sequence_allowed_with_scratch, bucket_allows_token, any_bucket_allows,
}
use greatgramma_rust.Engine.Masks.{set_tokens, fill_allowed, fill_bucket_mask, fill_ordinary_mask}

abbrev pub IsBytes : List ℕ → Type 0
IsBytes mask = All (λ byte. byte < 256) mask

-- A mask of bytes comes from another by setting the bit of `token` if `more` says so.
abbrev pub Marks : TokenId → Bool → List ℕ → List ℕ → Type 0
Marks token more output output' =
    IsBytes output' × (is_set output' token ≡ (is_set output token || more))

or_false : (b : Bool) → b ≡ (b || false)
or_false true = refl
or_false false = refl

or_assoc : (a b c : Bool) → ((a || b) || c) ≡ (a || (b || c))
or_assoc true b c = refl
or_assoc false b c = refl

or_swap : (a b c : Bool) → ((a || b) || c) ≡ (b || (a || c))
or_swap true true c = refl
or_swap true false c = refl
or_swap false true c = refl
or_swap false false c = refl

pub and_false : (b : Bool) → false ≡ (b && false)
and_false true = refl
and_false false = refl

and_true : (b : Bool) → b ≡ (b && true)
and_true true = refl
and_true false = refl

pub Marks-none :
    (token : TokenId) (output : List ℕ) → IsBytes output → Marks token false output output
Marks-none token output bytes = (bytes, or_false (is_set output token))

pub Marks-trans :
    (token : TokenId) (more more' : Bool) (a b c : List ℕ)
    → Marks token more a b
    → Marks token more' b c
    → Marks token (more || more') a c
Marks-trans token more more' a b c (bytes, e) (bytes', e') =
    (bytes', e' ∙ ap (λ x. x || more') e ∙ or_assoc (is_set a token) more more')

module _ (alloc : Allocator) (prepared : PreparedGrammar) where
  set_tokens-Marks :
      (token : TokenId) (tokens : List TokenId) (output output' : List ℕ)
      → IsBytes output
      → set_tokens alloc prepared tokens output ≡ ok output'
      → Marks token (bucket_contains_token tokens token) output output'
  unfolding set_tokens bucket_contains_token
  set_tokens-Marks token [] output output' bytes h =
      subst (Marks token false output) (ok_inj h) (Marks-none token output bytes)
  set_tokens-Marks token (t ∷ ts) output output' bytes h =
      let (made, e₀, f) = >>=-eq-ok (leaving output (set output t)) _ h in
      let e = leaving-eq-ok output (set output t) e₀ in
      let (bytes', rest) =
        set_tokens-Marks token ts made output' (set-IsBytes output made t bytes e) f in
      (
        bytes',
        rest
            ∙ ap (λ b. b || bucket_contains_token ts token) (is_set-set output made t token bytes e)
            ∙ or_swap (t == token) (is_set output token) (bucket_contains_token ts token),
      )

  bucket_allows_of :
      (stack : Stack) (token : TokenId) (bucket : InverseBucket) (contained allowed : Bool)
      → bucket_contains_token bucket.tokens token ≡ contained
      → sequence_allowed_with_scratch alloc prepared stack bucket.sequence ≡ ok allowed
      → bucket_allows_token alloc prepared stack bucket token ≡ ok (contained && allowed)
  unfolding bucket_allows_token sequence_allowed bucket_sequence_for_token
  bucket_allows_of stack token bucket true allowed c e = rw c e
  bucket_allows_of stack token bucket false allowed c e = rw c refl

  fill_allowed-Marks :
      (token : TokenId) (bucket : InverseBucket) (output : List ℕ) (allowed contained : Bool)
      (filled : Bool × List ℕ)
      → IsBytes output
      → bucket_contains_token bucket.tokens token ≡ contained
      → fill_allowed alloc prepared bucket output allowed ≡ ok filled
      → Marks token (contained && allowed) output filled.1
  unfolding fill_allowed
  fill_allowed-Marks token bucket output false contained filled bytes c h =
      subst (λ f. Marks token (contained && false) output f.1) (ok_inj h)
        (subst (λ b. Marks token b output output) (and_false contained)
          (Marks-none token output bytes))
  fill_allowed-Marks token bucket output true contained filled bytes c h =
      let (made, e, f) = >>=-eq-ok (set_tokens alloc prepared bucket.tokens output) _ h in
      subst (λ f. Marks token (contained && true) output f.1) (ok_inj f)
        (subst (λ b. Marks token b output made) (c ∙ and_true contained)
          (set_tokens-Marks token bucket.tokens output made bytes e))

  -- A bucket that is filled answers for the token, and what it answers is marked.
  fill_bucket_mask-Marks :
      (stack : Stack) (token : TokenId) (bucket : InverseBucket) (output : List ℕ)
      (filled : Bool × List ℕ)
      → IsBytes output
      → fill_bucket_mask alloc prepared stack bucket output ≡ ok filled
      → (b : Bool) × (bucket_allows_token alloc prepared stack bucket token ≡ ok b)
        × Marks token b output filled.1
  unfolding fill_bucket_mask
  fill_bucket_mask-Marks stack token bucket output filled bytes h =
      let (allowed, e, f) =
        >>=-eq-ok
          (leaving output (sequence_allowed_with_scratch alloc prepared stack bucket.sequence)) _
          h in
      let contained = bucket_contains_token bucket.tokens token in
      (
        contained && allowed,
        bucket_allows_of stack token bucket contained allowed refl (leaving-eq-ok output _ e),
        fill_allowed-Marks token bucket output allowed contained filled bytes refl f,
      )

  -- The buckets after one that answers, which `any_bucket_allows` asks only if it refuses.
  any_bucket_allows_of :
      (stack : Stack) (token : TokenId) (bucket : InverseBucket) (buckets : Buckets) (b c : Bool)
      → bucket_allows_token alloc prepared stack bucket token ≡ ok b
      → any_bucket_allows alloc prepared stack token buckets ≡ ok c
      → any_bucket_allows alloc prepared stack token (bucket ∷ buckets) ≡ ok (b || c)
  unfolding any_bucket_allows
  any_bucket_allows_of stack token bucket buckets true c e f = rw e refl
  any_bucket_allows_of stack token bucket buckets false c e f = rw e f

  -- If all the buckets are filled, then `any_bucket_allows` answers for the token, and the token's
  -- bit is what it was or what the buckets answer.
  pub fill_ordinary_mask-Marks :
      (stack : Stack) (token : TokenId) (buckets : Buckets) (before filled : Bool × List ℕ)
      → IsBytes before.1
      → fill_ordinary_mask alloc prepared stack buckets before ≡ ok filled
      → (b : Bool) × (any_bucket_allows alloc prepared stack token buckets ≡ ok b)
        × Marks token b before.1 filled.1
  unfolding fill_ordinary_mask any_bucket_allows
  fill_ordinary_mask-Marks stack token [] before filled bytes h = (
    false,
    refl,
    subst (λ f. Marks token false before.1 f.1) (ok_inj h) (Marks-none token before.1 bytes),
  )
  fill_ordinary_mask-Marks stack token (bucket ∷ buckets) before filled bytes h =
      let (more, e, f) = >>=-eq-ok (fill_bucket_mask alloc prepared stack bucket before.1) _ h in
      let (b, allows, marks) = fill_bucket_mask-Marks stack token bucket before.1 more bytes e in
      let (c, rest, marks') =
        fill_ordinary_mask-Marks stack token buckets (before.0 || more.0, more.1) filled marks.0
          f in
      (
        b || c,
        any_bucket_allows_of stack token bucket buckets b c allows rest,
        Marks-trans token b c before.1 more.1 filled.1 marks marks',
      )
