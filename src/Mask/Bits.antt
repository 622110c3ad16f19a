-- ===== src/Mask/Bits.antt =====
-- Setting a bit of a mask of crates/greatgramma-core/src/mask.rs sets that bit and no other.
use greatgramma_rust.Base.{
  ℕ, zero, suc, ◌/◌, ◌%◌, ◌^◌, ◌<◌, ◌≡◌, ◌≢◌, refl, sym, subst, Bool, true, false, ◌&&◌, ◌||◌,
  Bool-cases, inl, inr, Option, none, some, List, [], ◌∷◌, All, get_elem?, get_elem?-lt-length,
  get_elem?-set_self, get_elem?-set_ne, set as set_elem, ◌==◌, ==→≡, ==→≢, arith, ltb, ltb→lt,
  Outcome, ok,
}
use greatgramma_rust.Normalized.{TokenId}
use greatgramma_rust.Engine.Errors.{EngineError}
use greatgramma_rust.Mask.{clear, bit_in, set_bit, set, bit, is_set}
use Prim.Native.Nat.{bit_or}

abbrev beq : Bool → Bool → Bool
beq true b = b
beq false true = false
beq false false = true

beq→≡ : (a b : Bool) → beq a b ≡ true → a ≡ b
beq→≡ true true h = refl
beq→≡ true false h = cc h
beq→≡ false true h = cc h
beq→≡ false false h = refl

every_below : ℕ → (ℕ → Bool) → Bool
every_below zero test = true
every_below (suc n) test = test n && every_below n test

every_below-at :
    (n : ℕ) (test : ℕ → Bool) (x : ℕ) → every_below n test ≡ true → x < n → test x ≡ true
unfolding every_below
every_below-at zero test x h lt = absurd (omega arith)
every_below-at (suc n) test x h lt = ground (arith, every_below-at n test x)

-- Every byte and every two bits, by evaluation.
bit_or_table :
    every_below 256 (λ x.
      every_below 8
        (λ i. every_below 8 (λ j. beq (bit (bit_or x (2 ^ i)) j) ((i == j) || bit x j))))
    ≡ true
unfolding every_below
bit_or_table = refl

bit-bit_or :
    (x i j : ℕ) → x < 256 → i < 8 → j < 8 → bit (bit_or x (2 ^ i)) j ≡ ((i == j) || bit x j)
bit-bit_or x i j hx hi hj = beq→≡ (bit (bit_or x (2 ^ i)) j) ((i == j) || bit x j) (
    every_below-at 8 (λ j. beq (bit (bit_or x (2 ^ i)) j) ((i == j) || bit x j)) j
      (every_below-at 8
        (λ i. every_below 8 (λ j. beq (bit (bit_or x (2 ^ i)) j) ((i == j) || bit x j))) i
        (every_below-at 256
          (λ x.
            every_below 8
              (λ i. every_below 8 (λ j. beq (bit (bit_or x (2 ^ i)) j) ((i == j) || bit x j))))
          x bit_or_table hx)
        hi)
      hj)

some_inj : {a b : ℕ} → some a ≡ some b → a ≡ b
some_inj h = cc h

set_inj : {a b : List ℕ} → ◌≡◌ {A = Outcome EngineError (List ℕ)} (ok a) (ok b) → a ≡ b
set_inj h = cc h

All-get_elem? : (P : ℕ → Type 0) (xs : List ℕ) (i x : ℕ) → All P xs → get_elem? xs i ≡ some x → P x
All-get_elem? P [] i x h e = absurd (cc e)
All-get_elem? P (y ∷ ys) zero x h e = subst P (some_inj e) h.0
All-get_elem? P (y ∷ ys) (suc i) x h e = All-get_elem? P ys i x h.1 e

same_byte : (t u : ℕ) → t / 8 ≡ u / 8 → (t % 8 == u % 8) ≡ (t == u)
same_byte t u h = elim (Bool-cases (t == u)) [ inl e ↦ ground arith | inr e ↦ ground arith ]

other_byte : (t u : ℕ) → t / 8 ≢ u / 8 → (t == u) ≡ false
other_byte t u h = ground arith

written :
    (mask : List ℕ) (t u byte : ℕ) (same : Bool)
    → (t / 8 == u / 8) ≡ same
    → byte < 256
    → get_elem? mask (t / 8) ≡ some byte
    → is_set (set_elem mask (t / 8) (bit_or byte (2 ^ (t % 8)))) u ≡ ((t == u) || is_set mask u)
unfolding is_set
written mask t u byte true k h e =
    let same = ==→≡ (t / 8) (u / 8) k in
    let new = bit_or byte (2 ^ (t % 8)) in
    let lt = get_elem?-lt-length mask (t / 8) e in
    rw (sym same, get_elem?-set_self mask (t / 8) new lt, e, sym (same_byte t u same))
      (bit-bit_or byte (t % 8) (u % 8) h (omega arith) (omega arith))
written mask t u byte false k h e =
    let other = ==→≢ (t / 8) (u / 8) k in
    rw
      (
        get_elem?-set_ne mask (t / 8) (u / 8) (bit_or byte (2 ^ (t % 8))) other,
        other_byte t u other,
      )
      refl

set_bit-IsSet :
    (mask mask' : List ℕ) (t u : ℕ) (found : Option ℕ)
    → get_elem? mask (t / 8) ≡ found
    → All (λ b. b < 256) mask
    → set_bit mask (t / 8) (t % 8) found ≡ ok mask'
    → is_set mask' u ≡ ((t == u) || is_set mask u)
set_bit-IsSet mask mask' t u none e h g = absurd (cc g)
set_bit-IsSet mask mask' t u (some byte) e h g =
    subst (λ m. is_set m u ≡ ((t == u) || is_set mask u)) (set_inj g)
      (written mask t u byte (t / 8 == u / 8) refl
        (All-get_elem? (λ b. b < 256) mask (t / 8) byte h e) e)

-- If `set` succeeds on a mask of bytes, then a token is allowed by the new mask exactly if it is
-- the one that was set or the old mask allowed it.
pub is_set-set :
    (mask mask' : List ℕ) (t u : TokenId)
    → All (λ b. b < 256) mask
    → set mask t ≡ ok mask'
    → is_set mask' u ≡ ((t == u) || is_set mask u)
unfolding set
is_set-set mask mask' t u h g = set_bit-IsSet mask mask' t u (get_elem? mask (t / 8)) refl h g

zero_table : every_below 8 (λ j. beq (bit 0 j) false) ≡ true
unfolding every_below
zero_table = refl

-- A byte of a cleared mask is zero.
get_elem?-clear : (mask : List ℕ) (i byte : ℕ) → get_elem? (clear mask) i ≡ some byte → byte ≡ 0
unfolding clear
get_elem?-clear [] i byte e = absurd (cc e)
get_elem?-clear (x ∷ xs) zero byte e = sym (some_inj e)
get_elem?-clear (x ∷ xs) (suc i) byte e = get_elem?-clear xs i byte e

cleared_bit :
    (found : Option ℕ) (j : ℕ)
    → ((byte : ℕ) → found ≡ some byte → byte ≡ 0)
    → j < 8
    → bit_in found j ≡ false
cleared_bit none j zeros h = refl
cleared_bit (some byte) j zeros h =
    subst (λ b. bit b j ≡ false) (sym (zeros byte refl))
      (beq→≡ (bit 0 j) false (every_below-at 8 (λ j. beq (bit 0 j) false) j zero_table h))

-- A cleared mask allows no token.
pub is_set-clear : (mask : List ℕ) (u : TokenId) → is_set (clear mask) u ≡ false
unfolding is_set
is_set-clear mask u =
    cleared_bit (get_elem? (clear mask) (u / 8)) (u % 8) (get_elem?-clear mask (u / 8))
      (omega arith)

-- Writing a bit leaves a mask of bytes.
All-set_elem : (P : ℕ → Type 0) (xs : List ℕ) (i v : ℕ) → All P xs → P v → All P (set_elem xs i v)
All-set_elem P [] i v h p = tt
All-set_elem P (x ∷ xs) zero v h p = (p, h.1)
All-set_elem P (x ∷ xs) (suc i) v h p = (h.0, All-set_elem P xs i v h.1 p)

byte_table : every_below 256 (λ x. every_below 8 (λ i. ltb (bit_or x (2 ^ i)) 256)) ≡ true
unfolding every_below
byte_table = refl

bit_or-lt : (x i : ℕ) → x < 256 → i < 8 → bit_or x (2 ^ i) < 256
bit_or-lt x i hx hi = ltb→lt (bit_or x (2 ^ i)) 256 (
    every_below-at 8 (λ i. ltb (bit_or x (2 ^ i)) 256) i
      (every_below-at 256 (λ x. every_below 8 (λ i. ltb (bit_or x (2 ^ i)) 256)) x byte_table hx)
      hi)

set_bit-IsBytes :
    (mask mask' : List ℕ) (t : ℕ) (found : Option ℕ)
    → get_elem? mask (t / 8) ≡ found
    → All (λ b. b < 256) mask
    → set_bit mask (t / 8) (t % 8) found ≡ ok mask'
    → All (λ b. b < 256) mask'
set_bit-IsBytes mask mask' t none e h g = absurd (cc g)
set_bit-IsBytes mask mask' t (some byte) e h g = subst (All (λ b. b < 256)) (set_inj g) (
    All-set_elem (λ b. b < 256) mask (t / 8) (bit_or byte (2 ^ (t % 8))) h
      (bit_or-lt byte (t % 8) (All-get_elem? (λ b. b < 256) mask (t / 8) byte h e) (omega arith)))

pub set-IsBytes :
    (mask mask' : List ℕ) (t : TokenId)
    → All (λ b. b < 256) mask
    → set mask t ≡ ok mask'
    → All (λ b. b < 256) mask'
unfolding set
set-IsBytes mask mask' t h g = set_bit-IsBytes mask mask' t (get_elem? mask (t / 8)) refl h g

pub clear-IsBytes : (mask : List ℕ) → All (λ b. b < 256) (clear mask)
unfolding clear
clear-IsBytes [] = tt
clear-IsBytes (x ∷ xs) = (omega arith, clear-IsBytes xs)
