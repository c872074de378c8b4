-- ===== src/Script/Conditional/Parsed.antt =====
-- `_parse_conditional_block` cuts the script at the marks of its own depth.
use mathlib.Core.Path.{subst}
use bitclone.Base.{
  ℕ, zero, suc, ◌≡◌, ◌<◌, refl, ap, ◌∙◌, ok, >>=-eq-ok, ok_inj, Bool, true, false, List, ◌∷◌, ◌++◌,
  some, length, All, arith, ◌⊎◌, inl, inr, Option-cases,
}
use bitclone.Base.Bytes.{Bytes, IsByte}
use bitclone.Script.Instruction.{Instruction, read_instruction}
use bitclone.Script.Instruction.Raw.{read_instruction-Splits, marker_raw}
use bitclone.Script.Conditional.{Mark, mark, Branches, parse_from, parse_conditional_block}
use bitclone.Script.Conditional.Cuts.{
  Stretches, raws, concat, Cut, Cut-write, Cut-else, Cut-end, mark-otherwise, mark-ends,
  opens-Closes, otherwise-Closes, ends-Closes, plain-Closes, All-tail,
}

pub Mark-cases :
    (m : Mark) → (m ≡ Mark.otherwise) ⊎ (m ≡ Mark.ends) ⊎ (m ≡ Mark.opens) ⊎ (m ≡ Mark.plain)
Mark-cases Mark.otherwise = inl refl
Mark-cases Mark.ends = inr (inl refl)
Mark-cases Mark.opens = inr (inr (inl refl))
Mark-cases Mark.plain = inr (inr (inr refl))

-- What an instruction that was read says of the bytes.
pub taken :
    (s : Bytes) (i : Instruction) (rest : Bytes)
    → All IsByte s
    → read_instruction s ≡ ok (some i, rest)
    → (s ≡ i.raw ++ rest) × All IsByte rest
taken s i rest bytes r =
    let split : s ≡ i.raw ++ rest = (rw r at (read_instruction-Splits s bytes)) in
    (split, All-tail i.raw rest (rw split at bytes))

marker :
    (s : Bytes) (i : Instruction) (rest : Bytes) (opcode : ℕ)
    → read_instruction s ≡ ok (some i, rest)
    → i.opcode ≡ opcode
    → 0x4e < opcode
    → s ≡ opcode ∷ rest
marker s i rest opcode r q big =
    marker_raw s i rest r (omega (arith, q, big)) ∙ ap (λ o. o ∷ rest) q

parse_lem :
    (fuel nested : ℕ) (in_else : Bool) (b : Branches) (s : Bytes) (b' : Branches) (end : Bytes)
    → All IsByte s
    → parse_from fuel nested in_else b s ≡ ok (b', end)
    → Cut in_else nested b s b' end
unfolding parse_from
parse_lem zero nested in_else b s b' end bytes h = ground arith
parse_lem (suc fuel) zero in_else b s b' end bytes h =
    let ((instr, rest), r, k) = >>=-eq-ok (read_instruction s) _ h in
    elim (Option-cases instr) [
      | inl e ↦ ground (arith, k, e)
      | inr (i, e) ↦
          let r' : read_instruction s ≡ ok (some i, rest) = r ∙ ap (λ o. ok (o, rest)) e in
          let (split, bytes') = taken s i rest bytes r' in
          elim (Mark-cases (mark i.opcode)) [
            | inl m ↦
                Cut-else in_else b b' s rest end rest
                  (marker s i rest 0x67 r' (mark-otherwise i.opcode m) (omega arith))
                  (parse_lem fuel zero true _ rest b' end bytes' (rw m at (rw e at k)))
            | inr (inl m) ↦
                subst (λ p. Cut in_else 0 b s p.0 p.1)
                  (ok_inj (b, rest) (b', end) (rw m at (rw e at k)))
                  (Cut-end in_else b s rest
                    (marker s i rest 0x68 r' (mark-ends i.opcode m) (omega arith)))
            | inr (inr (inl m)) ↦
                Cut-write in_else zero (suc zero) i b b' s rest end r'
                  (λ is closes. opens-Closes zero i is m closes)
                  (parse_lem fuel (suc zero) in_else _ rest b' end bytes' (rw m at (rw e at k)))
            | inr (inr (inr m)) ↦
                Cut-write in_else zero zero i b b' s rest end r'
                  (λ is closes. plain-Closes zero i is m closes)
                  (parse_lem fuel zero in_else _ rest b' end bytes' (rw m at (rw e at k)))
          ]
    ]
parse_lem (suc fuel) (suc n) in_else b s b' end bytes h =
    let ((instr, rest), r, k) = >>=-eq-ok (read_instruction s) _ h in
    elim (Option-cases instr) [
      | inl e ↦ ground (arith, k, e)
      | inr (i, e) ↦
          let r' : read_instruction s ≡ ok (some i, rest) = r ∙ ap (λ o. ok (o, rest)) e in
          let (split, bytes') = taken s i rest bytes r' in
          elim (Mark-cases (mark i.opcode)) [
            | inl m ↦
                Cut-write in_else (suc n) (suc n) i b b' s rest end r'
                  (λ is closes. otherwise-Closes n i is m closes)
                  (parse_lem fuel (suc n) in_else _ rest b' end bytes' (rw m at (rw e at k)))
            | inr (inl m) ↦
                Cut-write in_else (suc n) n i b b' s rest end r'
                  (λ is closes. ends-Closes n i is m closes)
                  (parse_lem fuel n in_else _ rest b' end bytes' (rw m at (rw e at k)))
            | inr (inr (inl m)) ↦
                Cut-write in_else (suc n) (suc (suc n)) i b b' s rest end r'
                  (λ is closes. opens-Closes (suc n) i is m closes)
                  (parse_lem fuel (suc (suc n)) in_else _ rest b' end bytes' (rw m at (rw e at k)))
            | inr (inr (inr m)) ↦
                Cut-write in_else (suc n) (suc n) i b b' s rest end r'
                  (λ is closes. plain-Closes (suc n) i is m closes)
                  (parse_lem fuel (suc n) in_else _ rest b' end bytes' (rw m at (rw e at k)))
          ]
    ]

-- Where `_parse_conditional_block` returns, the instructions that are read from the byte string are
-- a first stretch, more of them with an OP_ELSE before each, and an OP_ENDIF behind the last, where
-- the bytes left begin. In each stretch every OP_IF and OP_NOTIF is closed by an OP_ENDIF of its own,
-- and each OP_ELSE and OP_ENDIF is inside of one. The first branch is the bytes of the first stretch,
-- and the second those of the others, one after the other.
pub parse_conditional_block-cuts :
    (s : Bytes) (b : Branches) (rest : Bytes)
    → All IsByte s
    → parse_conditional_block s ≡ ok (b, rest)
    → (first : List Instruction) × (more : List (List Instruction)) × Stretches 0 s first more rest
      × (b.if_branch ≡ raws first)
      × (b.else_branch ≡ concat more)
unfolding parse_conditional_block
parse_conditional_block-cuts s b rest bytes h =
    parse_lem (suc (length s)) 0 false _ s b rest bytes h
