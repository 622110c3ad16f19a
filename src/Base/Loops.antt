-- ===== src/Base/Loops.antt =====
-- Counted loops of fallible code, and their invariant rules.
use Prim.Native.Nat.{ℕ, zero, suc, ◌+◌, ◌≤◌, ◌<◌}
use mathlib.Core.Path.{◌≡◌, refl, sym, ap, ◌∙◌, subst}
use mathlib.Core.Option.{some}
use mathlib.Core.List.{List, [], ◌∷◌}
use native.Mathlib.Omega.{arith}
use greatgramma_rust.Base.Lists.{length, get_elem?}
use greatgramma_rust.Base.Results.{Outcome, ok, ◌>>=◌, >>=-eq-ok, ok_inj, Ensures, Ensures-bind}

module _ {ℓ κ} {E : Type κ} {S : Type ℓ} where
  -- `while index < end && error.is_none() { error = body(index, state).err(); index += 1 }` with
  -- `count` rounds left, followed by the first error, if any.
  unfoldable pub for_range : (ℕ → S → Outcome E S) → (count index : ℕ) → S → Outcome E S
  for_range body zero index state = ok state
  for_range body (suc count) index state = body index state >>= for_range body count (suc index)

  -- What every successful round keeps holds after a loop that succeeds.
  pub for_range_inv {μ} :
      (P : ℕ → S → Type μ) (body : ℕ → S → Outcome E S) (count index : ℕ) (s s' : S)
      → ((k : ℕ) (t t' : S)
          → index ≤ k
          → k < index + count
          → P k t
          → body k t ≡ ok t'
          → P (suc k) t')
      → P index s
      → for_range body count index s ≡ ok s'
      → P (index + count) s'
  unfolding for_range
  for_range_inv P body zero index s s' keep p h =
      subst (λ n. P n s') (omega arith) (subst (P index) (ok_inj h) p)
  for_range_inv P body (suc count) index s s' keep p h =
      let (t, e, f) = >>=-eq-ok (body index s) _ h in
      subst (λ n. P n s') (omega arith)
        (for_range_inv P body count (suc index) t s'
          (λ k u u' lo hi. keep k u u' (omega arith) (omega arith))
          (keep index s t (omega arith) (omega arith) p e) f)

  -- What every successful round keeps, and what every round that fails leaves.
  for_range-Ensures_from {μ} :
      (P : ℕ → S → Type μ) (Q : E → Type μ) (body : ℕ → S → Outcome E S) (count index : ℕ) (s : S)
      → ((k : ℕ) (t : S) → index ≤ k → k < index + count → P k t → Ensures (P (suc k)) Q (body k t))
      → P index s
      → Ensures (P (index + count)) Q (for_range body count index s)
  unfolding for_range
  for_range-Ensures_from P Q body zero index s keep p = subst (λ n. P n s) (omega arith) p
  for_range-Ensures_from P Q body (suc count) index s keep p =
      Ensures-bind (P (suc index)) (P (index + suc count)) Q (body index s) _
        (keep index s (omega arith) (omega arith) p)
        (λ t p'.
          subst (λ n. Ensures (P n) Q (for_range body count (suc index) t)) (omega arith)
            (for_range-Ensures_from P Q body count (suc index) t
              (λ k u lo hi. keep k u (omega arith) (omega arith)) p'))

  pub for_range-Ensures {μ} :
      (P : ℕ → S → Type μ) (Q : E → Type μ) (body : ℕ → S → Outcome E S) (count : ℕ) (s : S)
      → ((k : ℕ) (t : S) → k < count → P k t → Ensures (P (suc k)) Q (body k t))
      → P 0 s
      → Ensures (P count) Q (for_range body count 0 s)
  for_range-Ensures P Q body count s keep p =
      subst (λ n. Ensures (P n) Q (for_range body count 0 s)) (omega arith)
        (for_range-Ensures_from P Q body count 0 s (λ k t lo hi. keep k t (omega arith)) p)

  -- The rule for a loop from 0 on.
  pub for_range_inv_from_0 {μ} :
      (P : ℕ → S → Type μ) (body : ℕ → S → Outcome E S) (count : ℕ) (s s' : S)
      → ((k : ℕ) (t t' : S) → k < count → P k t → body k t ≡ ok t' → P (suc k) t')
      → P 0 s
      → for_range body count 0 s ≡ ok s'
      → P count s'
  for_range_inv_from_0 P body count s s' keep p h =
      subst (λ n. P n s') (omega arith)
        (for_range_inv P body count 0 s s' (λ k t t' lo hi. keep k t t' (omega arith)) p h)

module _ {ℓ κ μ} {E : Type κ} {S : Type ℓ} {A : Type μ} where
  -- The same loop, where each round pushes an item.
  unfoldable pub collect :
      (ℕ → S → Outcome E (A × S)) → (count index : ℕ) → S → Outcome E (List A × S)
  collect item zero index state = ok ([], state)
  collect item (suc count) index state = item index state >>= λ made.
      collect item count (suc index) made.1 >>= λ rest. ok (made.0 ∷ rest.0, rest.1)

  -- An item of the vector was made at an index, from some state.
  abbrev pub MadeAt : (ℕ → S → Outcome E (A × S)) → List A → ℕ → ℕ → Type (ℓ ⊔ κ ⊔ μ)
  MadeAt item items i index =
      (a : A) × (before : S) × (after : S) × (get_elem? items i ≡ some a)
      × (item index before ≡ ok (a, after))

  made_first :
      (item : ℕ → S → Outcome E (A × S)) (index : ℕ) (before : S) (first : A × S) (rest : List A)
      → item index before ≡ ok first
      → MadeAt item (first.0 ∷ rest) 0 (index + 0)
  made_first item index before (a, after) rest e =
      (a, before, after, refl, subst (λ n. item n before ≡ ok (a, after)) (omega arith) e)

  made_later :
      (item : ℕ → S → Outcome E (A × S)) (index i : ℕ) (a : A) (rest : List A)
      → MadeAt item rest i (suc index + i)
      → MadeAt item (a ∷ rest) (suc i) (index + suc i)
  made_later item index i a rest m = subst (MadeAt item (a ∷ rest) (suc i)) (omega arith) m

  collect-MadeAt_from :
      (item : ℕ → S → Outcome E (A × S)) (count index : ℕ) (s : S) (made : List A × S) (i : ℕ)
      → collect item count index s ≡ ok made
      → i < count
      → MadeAt item made.0 i (index + i)
  unfolding collect
  collect-MadeAt_from item zero index s made i h k = absurd (omega arith)
  collect-MadeAt_from item (suc count) index s made zero h k =
      let (first, e, h₁) = >>=-eq-ok (item index s) _ h in
      let (rest, f, h₂) = >>=-eq-ok (collect item count (suc index) first.1) _ h₁ in
      subst (λ m. MadeAt item m.0 0 (index + 0)) (ok_inj h₂)
        (made_first item index s first rest.0 e)
  collect-MadeAt_from item (suc count) index s made (suc i) h k =
      let (first, e, h₁) = >>=-eq-ok (item index s) _ h in
      let (rest, f, h₂) = >>=-eq-ok (collect item count (suc index) first.1) _ h₁ in
      subst (λ m. MadeAt item m.0 (suc i) (index + suc i)) (ok_inj h₂)
        (made_later item index i first.0 rest.0
          (collect-MadeAt_from item count (suc index) first.1 rest i f (omega arith)))

  -- Each item of a vector was made at its own index.
  pub collect-MadeAt :
      (item : ℕ → S → Outcome E (A × S)) (count : ℕ) (s : S) (made : List A × S) (i : ℕ)
      → collect item count 0 s ≡ ok made
      → i < count
      → MadeAt item made.0 i i
  collect-MadeAt item count s made i h k =
      subst (MadeAt item made.0 i) (omega arith) (collect-MadeAt_from item count 0 s made i h k)

  pub length-collect :
      (item : ℕ → S → Outcome E (A × S)) (count index : ℕ) (s : S) (made : List A × S)
      → collect item count index s ≡ ok made
      → length made.0 ≡ count
  unfolding collect
  length-collect item zero index s made h = sym (ap (λ m. length m.0) (ok_inj h))
  length-collect item (suc count) index s made h =
      let (first, e, h₁) = >>=-eq-ok (item index s) _ h in
      let (rest, f, h₂) = >>=-eq-ok (collect item count (suc index) first.1) _ h₁ in
      sym (ap (λ m. length m.0) (ok_inj h₂))
      ∙ ap suc (length-collect item count (suc index) first.1 rest f)
