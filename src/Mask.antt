-- ===== src/Mask.antt =====
-- The bit mask of allowed tokens, after crates/greatgramma-core/src/mask.rs: one bit for a token,
-- the lowest bit of a byte first.
pub mod Bits
use greatgramma_rust.Base.{
  ℕ, ◌/◌, ◌%◌, ◌^◌, Bool, false, Option, none, some, List, [], ◌∷◌, get_elem?, set as set_elem,
  ◌==◌, Outcome, ok, err,
}
use greatgramma_rust.Normalized.{TokenId}
use greatgramma_rust.Engine.Errors.{EngineError, corrupt_prepared_data}
use Prim.Native.Nat.{bit_or}

unfoldable pub clear : List ℕ → List ℕ
clear [] = []
clear (byte ∷ output) = 0 ∷ clear output

abbrev pub set_bit : List ℕ → ℕ → ℕ → Option ℕ → Outcome EngineError (List ℕ)
set_bit output byte_index bit_index none = err corrupt_prepared_data
set_bit output byte_index bit_index (some byte) =
    ok (set_elem output byte_index (bit_or byte (2 ^ bit_index)))

unfoldable pub set : List ℕ → TokenId → Outcome EngineError (List ℕ)
set output token = set_bit output (token / 8) (token % 8) (get_elem? output (token / 8))

-- A bit of a byte, and a token's bit of a mask: out of range there is none.
abbrev pub bit : ℕ → ℕ → Bool
bit byte index = byte / 2 ^ index % 2 == 1

abbrev pub bit_in : Option ℕ → ℕ → Bool
bit_in none index = false
bit_in (some byte) index = bit byte index

unfoldable pub is_set : List ℕ → TokenId → Bool
is_set mask token = bit_in (get_elem? mask (token / 8)) (token % 8)
