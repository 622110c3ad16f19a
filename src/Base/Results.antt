-- ===== src/Base/Results.antt =====
-- What a call of Rust code comes to: `Ok`, `Err`, or a fault, which the code must never reach.
use Prim.Native.Nat.{ℕ, zero, suc, ◌+◌}
use mathlib.Core.Path.{◌≡◌, refl}
use mathlib.Core.Bool.{Bool, true, false}
use greatgramma_rust.Base.Tests.{if◌then◌else◌}
use mathlib.Core.Option.{Option, none, some}
use mathlib.Core.List.{List, [], ◌∷◌}
use native.Mathlib.Omega.{arith}
use greatgramma_rust.Base.Lists.{get_elem?}

-- `panic` is an index out of range, `out_of_fuel` a loop of the model that used up its fuel.
pub data Fault : Type 0 where
  panic out_of_fuel : Fault

pub data Outcome {ℓ κ} (E : Type κ) (A : Type ℓ) : Type (ℓ ⊔ κ) where
  ok : (value : A) → Outcome E A
  err : (error : E) → Outcome E A
  fault : (reason : Fault) → Outcome E A

-- The `?` of Rust: a fault or an error ends the computation.
module _ {κ} {E : Type κ} where
  infixl 5 ◌>>=◌ ◌>>◌
  abbrev pub ◌>>=◌ {ℓ μ} : {A : Type ℓ} {B : Type μ} → Outcome E A → (A → Outcome E B) → Outcome E B
  fault reason >>= next = fault reason
  err error >>= next = err error
  ok value >>= next = next value

  abbrev pub ◌>>◌ {μ} : {B : Type μ} → Outcome E (Unit {0}) → Outcome E B → Outcome E B
  first >> second = first >>= λ done. second

-- `Option::ok_or`.
abbrev pub ok_or {ℓ κ} : {E : Type κ} {A : Type ℓ} → Option A → E → Outcome E A
ok_or none e = err e
ok_or (some a) e = ok a

-- `Result::map_err`.
abbrev pub map_err {ℓ κ μ} :
    {E : Type κ} {F : Type μ} {A : Type ℓ} → (E → F) → Outcome E A → Outcome F A
map_err f (ok a) = ok a
map_err f (err e) = err (f e)
map_err f (fault x) = fault x

-- A failure of a call, with what the caller has written by then.
abbrev pub leaving {ℓ κ μ} :
    {E : Type κ} {S : Type μ} {A : Type ℓ} → S → Outcome E A → Outcome (E × S) A
leaving s (ok a) = ok a
leaving s (err e) = err (e, s)
leaving s (fault x) = fault x

-- `vec[index]`.
abbrev pub index_or_panic {ℓ κ} : {E : Type κ} {A : Type ℓ} → List A → ℕ → Outcome E A
index_or_panic xs i = elim (get_elem? xs i) [ none ↦ fault panic | some x ↦ ok x ]

-- `Ok` or `Err`: no panic, and fuel enough.
abbrev pub Answers {ℓ κ} : {E : Type κ} {A : Type ℓ} → Outcome E A → Type 0
Answers (ok a) = Unit
Answers (err e) = Unit
Answers (fault x) = ⊥

pub Answers-bind {ℓ κ μ} :
    {E : Type κ} {A : Type ℓ} {B : Type μ} (o : Outcome E A) (f : A → Outcome E B)
    → Answers o
    → ((a : A) → Answers (f a))
    → Answers (o >>= f)
Answers-bind (ok a) f h k = k a
Answers-bind (err e) f h k = tt
Answers-bind (fault x) f h k = h

pub ok_or-Answers {ℓ κ} : {E : Type κ} {A : Type ℓ} (o : Option A) (e : E) → Answers (ok_or o e)
ok_or-Answers none e = tt
ok_or-Answers (some a) e = tt

pub if-Answers {ℓ κ} :
    {E : Type κ} {A : Type ℓ} (b : Bool) (x y : Outcome E A)
    → Answers x
    → Answers y
    → Answers (if b then x else y)
if-Answers true x y h k = h
if-Answers false x y h k = k

-- If the whole computation succeeds, so does its first part, and the rest of it on that result.
pub >>=-eq-ok {ℓ κ μ} :
    {E : Type κ} {A : Type ℓ} {B : Type μ} (first : Outcome E A) (next : A → Outcome E B)
    {result : B}
    → first >>= next ≡ ok result
    → (value : A) × (first ≡ ok value) × (next value ≡ ok result)
>>=-eq-ok (fault reason) next whole = cc
>>=-eq-ok (err error) next whole = cc
>>=-eq-ok (ok value) next whole = (value, refl, whole)

pub ok_or-eq-ok {ℓ κ} :
    {E : Type κ} {A : Type ℓ} (o : Option A) (e : E) {a : A} → ok_or o e ≡ ok a → o ≡ some a
ok_or-eq-ok none e h = cc
ok_or-eq-ok (some a) e h = cc

pub map_err-eq-ok {ℓ κ μ} :
    {E : Type κ} {F : Type μ} {A : Type ℓ} (f : E → F) (o : Outcome E A) {a : A}
    → map_err f o ≡ ok a
    → o ≡ ok a
map_err-eq-ok f (ok a) h = cc
map_err-eq-ok f (err e) h = cc
map_err-eq-ok f (fault x) h = cc

pub leaving-eq-ok {ℓ κ μ} :
    {E : Type κ} {S : Type μ} {A : Type ℓ} (s : S) (o : Outcome E A) {a : A}
    → leaving s o ≡ ok a
    → o ≡ ok a
leaving-eq-ok s (ok a) h = cc
leaving-eq-ok s (err e) h = cc
leaving-eq-ok s (fault x) h = cc

-- A result satisfies the one predicate, an error the other.
abbrev pub Ensures {ℓ κ μ} :
    {E : Type κ} {A : Type ℓ} → (A → Type μ) → (E → Type μ) → Outcome E A → Type μ
Ensures P Q (ok a) = P a
Ensures P Q (err e) = Q e
Ensures P Q (fault x) = Unit

pub Ensures-bind {ℓ κ μ ν} :
    {E : Type κ} {A : Type ℓ} {B : Type ν} (P : A → Type μ) (P' : B → Type μ) (Q : E → Type μ)
    (o : Outcome E A) (f : A → Outcome E B)
    → Ensures P Q o
    → ((a : A) → P a → Ensures P' Q (f a))
    → Ensures P' Q (o >>= f)
Ensures-bind P P' Q (ok a) f h k = k a h
Ensures-bind P P' Q (err e) f h k = h
Ensures-bind P P' Q (fault x) f h k = tt

pub Ensures-map_err {ℓ κ μ ν} :
    {E : Type κ} {F : Type ν} {A : Type ℓ} (P : A → Type μ) (Q : E → Type μ) (Q' : F → Type μ)
    (f : E → F) (o : Outcome E A)
    → ((e : E) → Q e → Q' (f e))
    → Ensures P Q o
    → Ensures P Q' (map_err f o)
Ensures-map_err P Q Q' f (ok a) k h = h
Ensures-map_err P Q Q' f (err e) k h = k e h
Ensures-map_err P Q Q' f (fault x) k h = tt

pub Ensures-leaving {ℓ κ μ ν σ} :
    {E : Type κ} {S : Type σ} {A : Type ℓ} {B : Type ν} (P : B → Type μ) (Q : E × S → Type μ)
    (s : S) (o : Outcome E A) (f : A → Outcome (E × S) B)
    → ((e : E) → Q (e, s))
    → ((a : A) → o ≡ ok a → Ensures P Q (f a))
    → Ensures P Q (leaving s o >>= f)
Ensures-leaving P Q s (ok a) f h k = k a refl
Ensures-leaving P Q s (err e) f h k = h e
Ensures-leaving P Q s (fault x) f h k = tt

pub ok_inj {ℓ κ} : {E : Type κ} {A : Type ℓ} {a b : A} → ◌≡◌ {A = Outcome E A} (ok a) (ok b) → a ≡ b
ok_inj h = cc h

-- `while index < xs.len() && error.is_none() { error = check(xs[index], index).err(); index += 1 }`
-- from `i` on, followed by the first error, if any.
module _ {ℓ κ} {E : Type κ} {A : Type ℓ} where
  unfoldable pub for_each : (ℕ → A → Outcome E (Unit {0})) → ℕ → List A → Outcome E (Unit {0})
  for_each check i [] = ok tt
  for_each check i (x ∷ xs) = check i x >> for_each check (suc i) xs

  -- If the loop succeeds, the check of each element did.
  pub for_each-get_elem? :
      (check : ℕ → A → Outcome E (Unit {0})) (i : ℕ) (xs : List A) (j : ℕ) (x : A)
      → for_each check i xs ≡ ok tt
      → get_elem? xs j ≡ some x
      → check (i + j) x ≡ ok tt
  unfolding for_each
  for_each-get_elem? check i [] j x h g = cc
  for_each-get_elem? check i (y ∷ ys) zero x h g =
      let (u, p, q) = >>=-eq-ok (check i y) _ h in ground arith
  for_each-get_elem? check i (y ∷ ys) (suc j) x h g =
      let (u, p, q) = >>=-eq-ok (check i y) _ h in
      let e : i + suc j ≡ suc i + j = omega arith in
      rw e (for_each-get_elem? check (suc i) ys j x q g)

  pub for_each-at :
      (check : ℕ → A → Outcome E (Unit {0})) (xs : List A) (j : ℕ) (x : A)
      → for_each check 0 xs ≡ ok tt
      → get_elem? xs j ≡ some x
      → check j x ≡ ok tt
  for_each-at check xs j x h g =
      let e : j ≡ 0 + j = omega arith in rw e (for_each-get_elem? check 0 xs j x h g)
