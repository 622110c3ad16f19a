-- ===== src/Validate/Checks.antt =====
-- The elementary checks of crates/greatgramma-core/src/validate.rs.
use greatgramma_rust.Base.{
  ℕ, ◌+◌, ◌*◌, Option, leb, ltb, ◌==◌, if◌then◌else◌, Outcome, ok, err, ok_or, try_u32, u32_max,
  checked_add, checked_mul,
}
use greatgramma_rust.Errors.{
  ValidationTable, IdKind, ArithmeticKind, LimitKind, ValidationError, wrong_table_length,
  id_out_of_range, arithmetic_overflow, limit_exceeded,
}

abbrev pub Check : Type 0 → Type 0
Check A = Outcome ValidationError A

unfoldable pub validate_id : ValidationTable → Option ℕ → IdKind → ℕ → ℕ → Check (Unit {0})
validate_id table index kind id count =
    if leb count id then err (id_out_of_range table index kind id count) else ok tt

unfoldable pub check_length : ValidationTable → ℕ → ℕ → Check (Unit {0})
check_length table expected actual =
    if actual == expected then ok tt else err (wrong_table_length table expected actual)

unfoldable pub check_limit : LimitKind → ℕ → ℕ → Check (Unit {0})
check_limit limit actual maximum =
    if ltb maximum actual then err (limit_exceeded limit actual maximum) else ok tt

unfoldable pub index_as_u32 : ℕ → ArithmeticKind → Check ℕ
unfolding try_u32
index_as_u32 index calculation = ok_or (try_u32 index) (arithmetic_overflow calculation)

unfoldable pub checked_len : ℕ → ArithmeticKind → Check ℕ
unfolding index_as_u32
checked_len length calculation = index_as_u32 length calculation

-- `u32::checked_mul`.
unfoldable pub checked_product : ℕ → ℕ → ArithmeticKind → Check ℕ
checked_product left right calculation =
    if leb (left * right) u32_max then ok (left * right) else err (arithmetic_overflow calculation)

-- `u32::checked_add`, with the error of the parser's cells.
unfoldable pub checked_sum : ℕ → ℕ → ArithmeticKind → Check ℕ
checked_sum left right calculation =
    if leb (left + right) u32_max then ok (left + right) else err (arithmetic_overflow calculation)

-- A `u32` always fits a `usize` of 64 bits.
unfoldable pub count_as_usize : ℕ → ArithmeticKind → Check ℕ
count_as_usize count calculation = ok count

-- `checked_add` and `checked_mul` on `u64`.
unfoldable pub add_u64 : ℕ → ℕ → ArithmeticKind → Check ℕ
unfolding checked_add
add_u64 left right calculation = ok_or (checked_add left right) (arithmetic_overflow calculation)

unfoldable pub mul_u64 : ℕ → ℕ → ArithmeticKind → Check ℕ
unfolding checked_mul
mul_u64 left right calculation = ok_or (checked_mul left right) (arithmetic_overflow calculation)
