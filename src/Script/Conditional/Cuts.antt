-- ===== src/Script/Conditional/Cuts.antt =====
-- The branches are the script's instructions, cut at the marks of their own depth.
use bitclone.Base.{
  ℕ, suc, ◌≡◌, ◌≢◌, ◌⊎◌, inl, inr, refl, sym, ap, ◌∙◌, ok, Bool, true, false, List, [], ◌∷◌, ◌++◌,
  some, append_assoc, append-nil, All, arith,
}
use bitclone.Base.Bytes.{Bytes, IsByte}
use bitclone.Script.Instruction.{Instruction, read_instruction}
use bitclone.Script.Conditional.{Mark, mark, Branches, write}

-- The instructions that are read one after the other from `s`, with `rest` left.
abbrev pub Reads : Bytes → List Instruction → Bytes → Type 0
Reads s [] rest = s ≡ rest
Reads s (i ∷ is) rest = (t : Bytes) × (read_instruction s ≡ ok (some i, t)) × Reads t is rest

-- Instructions behind `n` open conditionals that close these, and all that they open themselves, and
-- that have no OP_ELSE but inside of one.
abbrev pub Closes : ℕ → List Instruction → Type 0
Closes n [] = n ≡ 0
Closes n (i ∷ is) =
    (((i.opcode ≡ 0x63) ⊎ (i.opcode ≡ 0x64)) × Closes (suc n) is)
    ⊎ ((i.opcode ≡ 0x67) × (n ≢ 0) × Closes n is)
    ⊎ ((i.opcode ≡ 0x68) × (m : ℕ) × (n ≡ suc m) × Closes m is)
    ⊎ ((i.opcode ≢ 0x63) × (i.opcode ≢ 0x64) × (i.opcode ≢ 0x67) × (i.opcode ≢ 0x68) × Closes n is)

-- Stretches of instructions with an OP_ELSE between them, the first one behind `n` conditionals, and
-- an OP_ENDIF behind the last.
abbrev pub Stretches : ℕ → Bytes → List Instruction → List (List Instruction) → Bytes → Type 0
Stretches n s first [] rest = Closes n first × Reads s first (0x68 ∷ rest)
Stretches n s first (next ∷ more) rest =
    Closes n first × (t : Bytes) × Reads s first (0x67 ∷ t) × Stretches 0 t next more rest

-- The bytes of instructions.
abbrev pub raws : List Instruction → Bytes
raws [] = []
raws (i ∷ is) = i.raw ++ raws is

abbrev pub concat : List (List Instruction) → Bytes
concat [] = []
concat (is ∷ more) = raws is ++ concat more

-- What a run of the loop adds, in the second branch and in the first.
abbrev pub Cut : Bool → ℕ → Branches → Bytes → Branches → Bytes → Type 0
Cut true n b s b' rest =
    (first : List Instruction) × (more : List (List Instruction)) × Stretches n s first more rest
    × (b'.if_branch ≡ b.if_branch)
    × (b'.else_branch ≡ b.else_branch ++ (raws first ++ concat more))
Cut false n b s b' rest =
    (first : List Instruction) × (more : List (List Instruction)) × Stretches n s first more rest
    × (b'.if_branch ≡ b.if_branch ++ raws first)
    × (b'.else_branch ≡ b.else_branch ++ concat more)

-- An instruction goes to the front of the stretch behind it, if it leads from `n` to `m`.
Stretches-front :
    (n m : ℕ) (s t : Bytes) (i : Instruction) (first : List Instruction)
    (more : List (List Instruction)) (rest : Bytes)
    → read_instruction s ≡ ok (some i, t)
    → ((is : List Instruction) → Closes m is → Closes n (i ∷ is))
    → Stretches m t first more rest
    → Stretches n s (i ∷ first) more rest
Stretches-front n m s t i first [] rest r leads (closes, reads) =
    (leads first closes, (t, r, reads))
Stretches-front n m s t i first (next ∷ more) rest r leads (closes, u, reads, others) =
    (leads first closes, u, (t, r, reads), others)

pub Cut-write :
    (in_else : Bool) (n m : ℕ) (i : Instruction) (b b' : Branches) (s t end : Bytes)
    → read_instruction s ≡ ok (some i, t)
    → ((is : List Instruction) → Closes m is → Closes n (i ∷ is))
    → Cut in_else m (write in_else i.raw b) t b' end
    → Cut in_else n b s b' end
unfolding write
Cut-write true n m i b b' s t end r leads (first, more, stretches, one, two) = (
  i ∷ first,
  more,
  Stretches-front n m s t i first more end r leads stretches,
  one,
  two
      ∙ append_assoc b.else_branch i.raw (raws first ++ concat more)
      ∙ ap (λ x. b.else_branch ++ x) (sym (append_assoc i.raw (raws first) (concat more))),
)
Cut-write false n m i b b' s t end r leads (first, more, stretches, one, two) = (
  i ∷ first,
  more,
  Stretches-front n m s t i first more end r leads stretches,
  one ∙ append_assoc b.if_branch i.raw (raws first),
  two,
)

-- OP_ELSE ends a stretch; what follows it is the next.
pub Cut-else :
    (in_else : Bool) (b b' : Branches) (s rest end at : Bytes)
    → s ≡ 0x67 ∷ rest
    → Cut true 0 (record b { else_at = at }) rest b' end
    → Cut in_else 0 b s b' end
Cut-else true b b' s rest end at e (first, more, stretches, one, two) =
    ([], first ∷ more, (refl, rest, e, stretches), one, two)
Cut-else false b b' s rest end at e (first, more, stretches, one, two) =
    ([], first ∷ more, (refl, rest, e, stretches), one ∙ sym (append-nil b.if_branch), two)

pub Cut-end :
    (in_else : Bool) (b : Branches) (s rest : Bytes) → s ≡ 0x68 ∷ rest → Cut in_else 0 b s b rest
Cut-end true b s rest e = ([], [], (refl, e), refl, sym (append-nil b.else_branch))
Cut-end false b s rest e =
    ([], [], (refl, e), sym (append-nil b.if_branch), sym (append-nil b.else_branch))

pub mark-otherwise : (opcode : ℕ) → mark opcode ≡ Mark.otherwise → opcode ≡ 0x67
unfolding mark
mark-otherwise opcode h = ground arith

pub mark-ends : (opcode : ℕ) → mark opcode ≡ Mark.ends → opcode ≡ 0x68
unfolding mark
mark-ends opcode h = ground arith

pub opens-Closes :
    (n : ℕ) (i : Instruction) (is : List Instruction)
    → mark i.opcode ≡ Mark.opens
    → Closes (suc n) is
    → Closes n (i ∷ is)
unfolding mark
opens-Closes n i is h closes =
    let either : (i.opcode ≡ 0x63) ⊎ (i.opcode ≡ 0x64) = ground (arith, h) in inl (either, closes)

pub otherwise-Closes :
    (n : ℕ) (i : Instruction) (is : List Instruction)
    → mark i.opcode ≡ Mark.otherwise
    → Closes (suc n) is
    → Closes (suc n) (i ∷ is)
otherwise-Closes n i is h closes =
    inr (inl (mark-otherwise i.opcode h, (λ z. omega (arith, z)), closes))

pub ends-Closes :
    (n : ℕ) (i : Instruction) (is : List Instruction)
    → mark i.opcode ≡ Mark.ends
    → Closes n is
    → Closes (suc n) (i ∷ is)
ends-Closes n i is h closes = inr (inr (inl (mark-ends i.opcode h, n, refl, closes)))

pub plain-Closes :
    (n : ℕ) (i : Instruction) (is : List Instruction)
    → mark i.opcode ≡ Mark.plain
    → Closes n is
    → Closes n (i ∷ is)
unfolding mark
plain-Closes n i is h closes = inr (
    inr (
      inr (
        (λ e. ground (arith, h, e)),
        (λ e. ground (arith, h, e)),
        (λ e. ground (arith, h, e)),
        (λ e. ground (arith, h, e)),
        closes,
      )))

pub All-tail : (xs ys : Bytes) → All IsByte (xs ++ ys) → All IsByte ys
All-tail [] ys h = h
All-tail (x ∷ xs) ys h = All-tail xs ys h.1
