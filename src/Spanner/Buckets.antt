-- ===== src/Spanner/Buckets.antt =====
-- A bucket of crates/greatgramma-core/src/spanner.rs gets one more member: what a row of buckets
-- holds afterwards.
use greatgramma_rust.Base.{
  ℕ, zero, suc, ◌+◌, ◌≡◌, refl, sym, ap, ◌∙◌, subst, Bool-cases, inl, inr, ◌⊎◌, Option, none, some,
  [], ◌∷◌, ◌++◌, length, get_elem?, get_elem?-append_left, get_elem?-append_end,
  get_elem?-append_cases, get_elem?-set_cases, get_elem?-set_self, get_elem?-set_ne,
  get_elem?-lt-length, set, ◌==◌, ==→≡, ==→≢, arith, ok, ok_or, >>=-eq-ok, ok_or-eq-ok, ok_inj,
  checked_add, Allocator,
}
use greatgramma_rust.Normalized.{TokenId, SequenceId}
use greatgramma_rust.TokenStep.Budget.{
  PreparationLimits, WorkBudget, invariant_violation, charge, check_items, prepared_vec,
  prepared_push, prepared_push-eq-ok,
}
use greatgramma_rust.Spanner.{
  InverseBucket, Buckets, bucket_index, append_existing_member, append_at, append_member,
}

-- A bucket of the row holds the token and is that of the sequence.
abbrev pub Holds : Buckets → SequenceId → TokenId → Type 0
Holds row id token =
    (index : ℕ) × (bucket : InverseBucket) × (place : ℕ) × (get_elem? row index ≡ some bucket)
    × (bucket.sequence ≡ id)
    × (get_elem? bucket.tokens place ≡ some token)

-- The row has got this member and no other.
abbrev pub Gains : Buckets → SequenceId → TokenId → Buckets → Type 0
Gains row id token row' =
    Holds row' id token
    × ((i : SequenceId) (t : TokenId) → Holds row i t → Holds row' i t)
    × ((i : SequenceId) (t : TokenId) → Holds row' i t → Holds row i t ⊎ ((id ≡ i) × (token ≡ t)))

bucket_index-Holds :
    (row : Buckets) (id : SequenceId) (from index : ℕ)
    → bucket_index row id from ≡ some index
    → (j : ℕ) × (bucket : InverseBucket) × (index ≡ from + j)
      × (get_elem? row j ≡ some bucket)
      × (bucket.sequence ≡ id)
unfolding bucket_index
bucket_index-Holds [] id from index h = absurd (cc h)
bucket_index-Holds (entry ∷ row) id from index h = elim (Bool-cases (entry.sequence == id)) [
  | inl e ↦
      let same : some from ≡ some index = rw (e, bucket_index) at h in
      (0, entry, omega (arith, some_index same), refl, ==→≡ entry.sequence id e)
  | inr e ↦
      let (j, bucket, at, found, same) =
        bucket_index-Holds row id (suc from) index (rw (e, bucket_index) at h) in
      (suc j, bucket, omega (arith, at), found, same)
]
  where
    some_index : {a b : ℕ} → some a ≡ some b → a ≡ b
    some_index e = cc e

new_bucket-Gains :
    (row : Buckets) (id : SequenceId) (token : TokenId)
    → Gains row id token (row ++ record { sequence = id; tokens = token ∷ [] } ∷ [])
new_bucket-Gains row id token =
    let new : InverseBucket = record { sequence = id; tokens = token ∷ [] } in
    (
      (length row, new, 0, get_elem?-append_end row new, refl, refl),
      λ i t (index, bucket, place, at, same, found). (
        index,
        bucket,
        place,
        get_elem?-append_left row (new ∷ []) index (get_elem?-lt-length row index at) ∙ at,
        same,
        found,
      ),
      λ i t (index, bucket, place, at, same, found).
          elim (get_elem?-append_cases row new bucket index at) [
            | inl old ↦ inl (index, bucket, place, old, same, found)
            | inr (e, is_new) ↦ inr (new_member bucket i t place is_new same found)
          ],
    )
  where
    new_member :
        (bucket : InverseBucket) (i : SequenceId) (t : TokenId) (place : ℕ)
        → bucket ≡ record { sequence = id; tokens = token ∷ [] }
        → bucket.sequence ≡ i
        → get_elem? bucket.tokens place ≡ some t
        → (id ≡ i) × (token ≡ t)
    new_member bucket i t zero e same found = (sym (ap (λ b. b.sequence) e) ∙ same, cc (e, found))
    new_member bucket i t (suc place) e same found =
        absurd (cc (subst (λ b. get_elem? b.tokens (suc place) ≡ some t) e found))

-- Two buckets at one place are the same.
same_bucket :
    (row : Buckets) (index : ℕ) {a b : InverseBucket}
    → get_elem? row index ≡ some a
    → get_elem? row index ≡ some b
    → a ≡ b
same_bucket row index h k = cc (h, k)

old_member :
    (row : Buckets) (index : ℕ) (entry : InverseBucket) (token : TokenId)
    → get_elem? row index ≡ some entry
    → (i : SequenceId) (t : TokenId) → Holds row i t
    → Holds (set row index (record entry { tokens = entry.tokens ++ token ∷ [] })) i t
old_member row index entry token at i t (j, bucket, place, found, same, is_there) =
    let new : InverseBucket = record entry { tokens = entry.tokens ++ token ∷ [] } in
    elim (Bool-cases (index == j)) [
      | inl e ↦
          let here : index ≡ j = ==→≡ index j e in
          let is_entry : bucket ≡ entry =
            same_bucket row index (subst (λ n. get_elem? row n ≡ some bucket) (sym here) found)
              at in
          (
            index,
            new,
            place,
            get_elem?-set_self row index new (get_elem?-lt-length row index at),
            sym (ap (λ b. b.sequence) is_entry) ∙ same,
            get_elem?-append_left entry.tokens (token ∷ []) place (
                  get_elem?-lt-length entry.tokens place
                    (subst (λ b. get_elem? b.tokens place ≡ some t) is_entry is_there))
                ∙ subst (λ b. get_elem? b.tokens place ≡ some t) is_entry is_there,
          )
      | inr e ↦ (
        j,
        bucket,
        place,
        get_elem?-set_ne row index j new (==→≢ index j e) ∙ found,
        same,
        is_there,
      )
    ]

-- A member of the bucket with one more token.
grown_member :
    (row : Buckets) (index : ℕ) (entry : InverseBucket) (id : SequenceId) (token : TokenId)
    → get_elem? row index ≡ some entry
    → entry.sequence ≡ id
    → (bucket : InverseBucket) (i : SequenceId) (t : TokenId) (place : ℕ)
    → bucket ≡ record entry { tokens = entry.tokens ++ token ∷ [] }
    → bucket.sequence ≡ i
    → get_elem? bucket.tokens place ≡ some t
    → Holds row i t ⊎ ((id ≡ i) × (token ≡ t))
grown_member row index entry id token at is bucket i t place e same found =
    let named : entry.sequence ≡ i = sym (ap (λ b. b.sequence) e) ∙ same in
    elim (get_elem?-append_cases entry.tokens token t place
      (subst (λ b. get_elem? b.tokens place ≡ some t) e found)) [
        | inl old ↦ inl (index, entry, place, at, named, old)
        | inr (k, is_token) ↦ inr (sym is ∙ named, sym is_token)
      ]

old_bucket-Gains :
    (row : Buckets) (index : ℕ) (entry : InverseBucket) (id : SequenceId) (token : TokenId)
    → get_elem? row index ≡ some entry
    → entry.sequence ≡ id
    → Gains row id token (set row index (record entry { tokens = entry.tokens ++ token ∷ [] }))
old_bucket-Gains row index entry id token at is =
    let new : InverseBucket = record entry { tokens = entry.tokens ++ token ∷ [] } in
    (
      (
        index,
        new,
        length entry.tokens,
        get_elem?-set_self row index new (get_elem?-lt-length row index at),
        is,
        get_elem?-append_end entry.tokens token,
      ),
      old_member row index entry token at,
      λ i t (j, bucket, place, found, same, is_there).
          elim (get_elem?-set_cases row index j new bucket found) [
            | inl old ↦ inl (j, bucket, place, old, same, is_there)
            | inr (e, is_new) ↦
                grown_member row index entry id token at is bucket i t place is_new same is_there
          ],
    )

module _ (alloc : Allocator) (limits : PreparationLimits) where
  append_at-Gains :
      (row : Buckets) (id : SequenceId) (token : TokenId) (found : Option ℕ) (row' : Buckets)
      → bucket_index row id 0 ≡ found
      → append_at alloc limits row id token found ≡ ok row'
      → Gains row id token row'
  unfolding append_at append_existing_member
  append_at-Gains row id token none row' e h =
      let (n, e₁, h₁) = >>=-eq-ok (check_items (checked_add (length row) 1) limits) _ h in
      let (u, e₂, h₂) = >>=-eq-ok (prepared_vec alloc 1) _ h₁ in
      subst (Gains row id token)
        (prepared_push-eq-ok alloc row (record { sequence = id; tokens = token ∷ [] }) row' h₂)
        (new_bucket-Gains row id token)
  append_at-Gains row id token (some index) row' e h =
      let (entry, e₁, h₁) = >>=-eq-ok (ok_or (get_elem? row index) invariant_violation) _ h in
      let (n, e₂, h₂) = >>=-eq-ok (check_items (checked_add (length entry.tokens) 1) limits) _ h₁ in
      let (entry', e₃, h₃) = >>=-eq-ok (ok_or (get_elem? row index) invariant_violation) _ h₂ in
      let (tokens, e₄, h₄) = >>=-eq-ok (prepared_push alloc entry'.tokens token) _ h₃ in
      let (j, bucket, at, found, same) = bucket_index-Holds row id 0 index e in
      let place : j ≡ index = omega (arith, at) in
      let here = ok_or-eq-ok (get_elem? row index) _ e₃ in
      let is : bucket ≡ entry' =
        same_bucket row index (subst (λ n. get_elem? row n ≡ some bucket) place found) here in
      subst (Gains row id token)
        (ap (λ ts. set row index (record entry' { tokens = ts }))
            (prepared_push-eq-ok alloc entry'.tokens token tokens e₄)
          ∙ ok_inj h₄)
        (old_bucket-Gains row index entry' id token here (sym (ap (λ b. b.sequence) is) ∙ same))

  pub append_member-Gains :
      (row : Buckets) (id : SequenceId) (token : TokenId) (work : WorkBudget)
      (made : Buckets × WorkBudget)
      → append_member alloc limits row id token work ≡ ok made
      → Gains row id token made.0
  unfolding append_member
  append_member-Gains row id token work made h =
      let (work', e₁, h₁) = >>=-eq-ok (charge work (length row)) _ h in
      let (row', e₂, h₂) =
        >>=-eq-ok (append_at alloc limits row id token (bucket_index row id 0)) _ h₁ in
      subst (λ m. Gains row id token m.0) (ok_inj h₂)
        (append_at-Gains row id token (bucket_index row id 0) row' refl e₂)
