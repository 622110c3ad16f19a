-- ===== src/Sequence/Interning.antt =====
-- Interning of heads in crates/greatgramma-core/src/sequence.rs: an ID stands for one head forever,
-- and a head has one ID.
use greatgramma_rust.Base.{
  ℕ, zero, suc, ◌+◌, ◌≡◌, ◌≢◌, refl, sym, ap, ◌∙◌, subst, true, Bool-cases, inl, inr, Option, none,
  some, List, [], ◌∷◌, ◌++◌, append_assoc, append-nil, length, get_elem?, get_elem?-append_left,
  get_elem?-append_end, get_elem?-append_cases, get_elem?-lt-length, arith, ok, >>=-eq-ok,
  ok_or-eq-ok, ok_inj, checked_add, try_u32, try_u32-eq-some, Allocator,
}
use greatgramma_rust.Normalized.{TerminalId, SequenceId}
use greatgramma_rust.TokenStep.Budget.{
  PreparationLimits, WorkBudget, charge, check_items, prepared_vec, prepared_push,
  prepared_push-eq-ok,
}
use greatgramma_rust.Sequence.{
  SequenceTable, sequence, terminals_eq, sequence_id, copy_direct, find_sequence, intern_new,
  after_find, intern_head, Interned,
}

terminals_eq→≡ : (ts us : List TerminalId) → terminals_eq ts us ≡ true → ts ≡ us
unfolding terminals_eq
terminals_eq→≡ [] [] h = refl
terminals_eq→≡ [] (u ∷ us) h = absurd (cc h)
terminals_eq→≡ (t ∷ ts) [] h = absurd (cc h)
terminals_eq→≡ (t ∷ ts) (u ∷ us) h = ground (arith, terminals_eq→≡ ts us)

terminals_eq_refl : (ts : List TerminalId) → terminals_eq ts ts ≡ true
unfolding terminals_eq
terminals_eq_refl [] = refl
terminals_eq_refl (t ∷ ts) = ground (arith, terminals_eq_refl ts)

copy_direct-append : (ts us : List TerminalId) → copy_direct ts us ≡ us ++ ts
unfolding copy_direct
copy_direct-append [] us = sym (append-nil us)
copy_direct-append (t ∷ ts) us = copy_direct-append ts (us ++ t ∷ []) ∙ append_assoc us (t ∷ []) ts

-- What a search from `index` on has found: the place of the head, or that there is none.
abbrev Found : List (List TerminalId) → List TerminalId → ℕ → Option ℕ → Type 0
Found rest head index (some found) = (j : ℕ) × (found ≡ index + j) × (get_elem? rest j ≡ some head)
Found rest head index none =
    (j : ℕ) (candidate : List TerminalId) → get_elem? rest j ≡ some candidate → candidate ≢ head

absent_later :
    (candidate : List TerminalId) (rest : List (List TerminalId)) (head : List TerminalId) (j : ℕ)
    (other : List TerminalId)
    → candidate ≢ head
    → Found rest head 0 none
    → get_elem? (candidate ∷ rest) j ≡ some other
    → other ≢ head
absent_later candidate rest head zero other ne absent e = λ same. ne (cc (e, same))
absent_later candidate rest head (suc j) other ne absent e = absent j other e

in_rest :
    (candidate : List TerminalId) (rest : List (List TerminalId)) (head : List TerminalId)
    (index : ℕ) (found : Option ℕ)
    → candidate ≢ head
    → Found rest head (suc index) found
    → Found (candidate ∷ rest) head index found
in_rest candidate rest head index (some found) ne (j, e, at) = (suc j, omega (arith, e), at)
in_rest candidate rest head index none ne absent =
    λ j other e. absent_later candidate rest head j other ne absent e

find_sequence-Found :
    (rest : List (List TerminalId)) (head : List TerminalId) (head_len index : ℕ)
    (work : WorkBudget) (found : Option ℕ × WorkBudget)
    → find_sequence rest head head_len index work ≡ ok found
    → Found rest head index found.0
unfolding find_sequence
find_sequence-Found [] head head_len index work found h =
    subst (λ r. Found [] head index r.0) (ok_inj h) (λ j c e. absurd (cc e))
find_sequence-Found (candidate ∷ rest) head head_len index work found h =
    let (work', e, f) = >>=-eq-ok (charge work head_len) _ h in
    elim (Bool-cases (terminals_eq candidate head)) [
      | inl same ↦
          subst (λ r. Found (candidate ∷ rest) head index r.0) (ok_inj (rw same at f))
            (0, omega arith, ap some (terminals_eq→≡ candidate head same))
      | inr other ↦
          in_rest candidate rest head index found.0
            (λ eq. absurd (
              cc
                (other, subst (λ c. terminals_eq c head ≡ true) (sym eq) (terminals_eq_refl head))))
            (find_sequence-Found rest head head_len (suc index) work' found (rw other at f))
    ]

-- The table grows: an ID keeps its head, and the rows of terminals stay.
abbrev pub Extends : SequenceTable → SequenceTable → Type 0
Extends table table' =
    (table'.singletons ≡ table.singletons)
    × ((id : SequenceId) (head : List TerminalId)
        → sequence table id ≡ some head
        → sequence table' id ≡ some head)

-- No head has two IDs.
abbrev pub IsDistinct : SequenceTable → Type 0
IsDistinct table =
    (i j : SequenceId) (head : List TerminalId)
    → sequence table i ≡ some head
    → sequence table j ≡ some head
    → i ≡ j

-- An ID for a head, in a table that extends the one before and is distinct if that was.
abbrev pub Interns : SequenceTable → List TerminalId → Interned → Type 0
Interns table head (id, table', work) =
    (sequence table' id ≡ some head) × Extends table table' × (IsDistinct table → IsDistinct table')

sequence_id-eq-ok : (index : ℕ) (id : SequenceId) → sequence_id index ≡ ok id → id ≡ index
unfolding sequence_id
sequence_id-eq-ok index id h = try_u32-eq-some index id (ok_or-eq-ok (try_u32 index) _ h)

pushed_distinct :
    (sequences : List (List TerminalId)) (head : List TerminalId)
    → Found sequences head 0 none
    → ((i j : ℕ) (other : List TerminalId)
        → get_elem? sequences i ≡ some other
        → get_elem? sequences j ≡ some other
        → i ≡ j)
    → (i j : ℕ) (other : List TerminalId) → get_elem? (sequences ++ head ∷ []) i ≡ some other
    → get_elem? (sequences ++ head ∷ []) j ≡ some other
    → i ≡ j
pushed_distinct sequences head absent distinct i j other h k =
    elim (get_elem?-append_cases sequences head other i h) [
      | inl old ↦ elim (get_elem?-append_cases sequences head other j k) [
        | inl old' ↦ distinct i j other old old'
        | inr (e, same) ↦ absurd (absent i other old same)
      ]
      | inr (e, same) ↦ elim (get_elem?-append_cases sequences head other j k) [
        | inl old' ↦ absurd (absent j other old' same)
        | inr (e', same') ↦ e ∙ sym e'
      ]
    ]

module _ (alloc : Allocator) (limits : PreparationLimits) where
  intern_new-Interns :
      (table : SequenceTable) (head : List TerminalId) (head_len : ℕ) (work : WorkBudget)
      (made : Interned)
      → Found table.sequences head 0 none
      → intern_new alloc limits table head head_len work ≡ ok made
      → Interns table head made
  unfolding intern_new sequence
  intern_new-Interns table head head_len work made absent h =
      let (count, e₁, h₁) =
        >>=-eq-ok (check_items (checked_add (length table.sequences) 1) limits) _ h in
      let (id, e₂, h₂) = >>=-eq-ok (sequence_id (length table.sequences)) _ h₁ in
      let (items, e₃, h₃) =
        >>=-eq-ok (check_items (checked_add table.sequence_items head_len) limits) _ h₂ in
      let (sequences, e₄, h₄) = >>=-eq-ok (prepared_push alloc table.sequences head) _ h₃ in
      let pushed = prepared_push-eq-ok alloc table.sequences head sequences e₄ in
      let at = sequence_id-eq-ok (length table.sequences) id e₂ in
      subst (Interns table head) (ok_inj h₄) (
        subst (λ ss. get_elem? ss id ≡ some head) pushed
            (subst (λ n. get_elem? (table.sequences ++ head ∷ []) n ≡ some head) (sym at)
              (get_elem?-append_end table.sequences head)),
        (
          refl,
          λ i other e.
              subst (λ ss. get_elem? ss i ≡ some other) pushed
                (get_elem?-append_left table.sequences (head ∷ []) i
                    (get_elem?-lt-length table.sequences i e)
                  ∙ e),
        ),
        λ distinct.
            subst
              (λ ss.
                (i j : ℕ) (other : List TerminalId)
                → get_elem? ss i ≡ some other
                → get_elem? ss j ≡ some other
                → i ≡ j)
              pushed (pushed_distinct table.sequences head absent distinct),
      )

  after_find-Interns :
      (table : SequenceTable) (head : List TerminalId) (head_len : ℕ)
      (found : Option ℕ × WorkBudget) (made : Interned)
      → Found table.sequences head 0 found.0
      → after_find alloc limits table head head_len found ≡ ok made
      → Interns table head made
  unfolding after_find sequence
  after_find-Interns table head head_len (none, work) made absent h =
      intern_new-Interns table head head_len work made absent h
  after_find-Interns table head head_len (some index, work) made (j, e, at) h =
      let (id, e₁, h₁) = >>=-eq-ok (sequence_id index) _ h in
      let place : j ≡ id = omega (arith, e, sequence_id-eq-ok index id e₁) in
      subst (Interns table head) (ok_inj h₁) (
        subst (λ n. get_elem? table.sequences n ≡ some head) place at,
        (refl, λ i other k. k),
        λ d. d,
      )

  -- If `intern_head` succeeds, then the ID that it returns stands for the direct terminals followed
  -- by the continuation, every older ID keeps its head, the rows of terminals stay, and no head
  -- gets a second ID.
  pub intern_head-Interns :
      (table : SequenceTable) (direct : List TerminalId) (continuation : TerminalId)
      (work : WorkBudget) (made : Interned)
      → intern_head alloc limits table direct continuation work ≡ ok made
      → Interns table (direct ++ continuation ∷ []) made
  unfolding intern_head
  intern_head-Interns table direct continuation work made h =
      let (head_len, e₁, h₁) = >>=-eq-ok (check_items (checked_add (length direct) 1) limits) _ h in
      let (work', e₂, h₂) = >>=-eq-ok (charge work (length direct)) _ h₁ in
      let (u, e₃, h₃) = >>=-eq-ok (prepared_vec alloc head_len) _ h₂ in
      let head = copy_direct direct [] ++ continuation ∷ [] in
      let (found, e₄, h₄) = >>=-eq-ok (find_sequence table.sequences head head_len 0 work') _ h₃ in
      subst (λ d. Interns table (d ++ continuation ∷ []) made) (copy_direct-append direct [])
        (after_find-Interns table head head_len found made
          (find_sequence-Found table.sequences head head_len 0 work' found e₄) h₄)
