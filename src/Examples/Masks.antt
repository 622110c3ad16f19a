-- ===== src/Examples/Masks.antt =====
-- The bits of a mask of twelve tokens.
use greatgramma_rust.Base.{◌≡◌, refl, false, ◌||◌, ◌==◌, [], ◌∷◌, ok, arith}
use greatgramma_rust.Mask.{clear, set, is_set}
use greatgramma_rust.Mask.Bits.{is_set-set, is_set-clear}

ninth_set : set (5 ∷ 1 ∷ []) 9 ≡ ok (5 ∷ 3 ∷ [])
unfolding set
ninth_set = refl

is_set-set_example : is_set (5 ∷ 3 ∷ []) 9 ≡ ((9 == 9) || is_set (5 ∷ 1 ∷ []) 9)
is_set-set_example =
    is_set-set (5 ∷ 1 ∷ []) (5 ∷ 3 ∷ []) 9 9 (omega arith, (omega arith, tt)) ninth_set

is_set-clear_example : is_set (clear (5 ∷ 3 ∷ [])) 9 ≡ false
is_set-clear_example = is_set-clear (5 ∷ 3 ∷ []) 9
