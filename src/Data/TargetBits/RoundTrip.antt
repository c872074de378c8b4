-- ===== src/Data/TargetBits/RoundTrip.antt =====
-- A target that its compact form gave has that compact form.
use bitclone.Base.{
  ℕ, zero, suc, ◌+◌, ◌*◌, ◌-◌, ◌/◌, ◌%◌, ◌^◌, ◌≤◌, ◌<◌, ◌≡◌, ◌≢◌, ◌⊎◌, refl, sym, ap, ◌∙◌, ok, [],
  ◌∷◌, ◌++◌, length, All, take, drop, replicate, reverse, append-nil, append_assoc, length-append,
  inl, inr, Bool-cases, ◌==◌, arith,
}
use mathlib.Core.List.{reverse-append}
use native.Mathlib.Nat.{
  pow-suc, suc-add, zero-add, mul-one, mul_assoc, mul_right_comm, pow-le-pow_right, lt_of_lt_of_le,
}
use bitclone.Base.Bytes.{Bytes, IsByte, to_le, to_le-from_le, from_le-lt, from_be, int_to_be}
use bitclone.Data.TargetBits.{
  expand, bits_to_target, first_nonzero, pad_right, compact, target_to_bits,
}

pub times_256 : (n k : ℕ) → n * 256 ^ suc k ≡ 256 * (n * 256 ^ k)
times_256 n k = rw (pow-suc 256 k) (omega (arith, mul_assoc n (256 ^ k) 256))

-- Low zero bytes.
to_le-shift : (k m n : ℕ) → to_le (k + m) (n * 256 ^ k) ≡ replicate k 0 ++ to_le m n
to_le-shift zero m n = rw (zero-add m, mul-one n) refl
to_le-shift (suc k) m n =
    let low : (n * 256 ^ suc k) % 256 ≡ 0 = omega (arith, times_256 n k) in
    let high : (n * 256 ^ suc k) / 256 ≡ n * 256 ^ k = omega (arith, times_256 n k) in
    rw (suc-add k m, low, high) (ap (λ bs. 0 ∷ bs) (to_le-shift k m n))

to_le_zero : (m : ℕ) → to_le m 0 ≡ replicate m 0
to_le_zero zero = refl
to_le_zero (suc m) = ap (λ bs. 0 ∷ bs) (to_le_zero m)

zeros-last : (k : ℕ) (bs : Bytes) → replicate k 0 ++ (0 ∷ bs) ≡ 0 ∷ (replicate k 0 ++ bs)
zeros-last zero bs = refl
zeros-last (suc k) bs = ap (λ cs. 0 ∷ cs) (zeros-last k bs)

reverse-replicate : (k : ℕ) → reverse (replicate {A = ℕ} k 0) ≡ replicate k 0
reverse-replicate zero = refl
reverse-replicate (suc k) =
    reverse-append (0 ∷ []) (replicate k 0)
    ∙ ap (λ bs. bs ++ (0 ∷ [])) (reverse-replicate k)
    ∙ zeros-last k []
    ∙ ap (λ bs. 0 ∷ bs) (append-nil (replicate k 0))

first_nonzero-zeros :
    (k : ℕ) (b : ℕ) (bs : Bytes) → b ≢ 0 → first_nonzero (replicate k 0 ++ (b ∷ bs)) ≡ k
unfolding first_nonzero
first_nonzero-zeros zero b bs h = ground (arith, h)
first_nonzero-zeros (suc k) b bs h = ground (arith, first_nonzero-zeros k b bs h)

length-replicate : (k : ℕ) → length (replicate {A = ℕ} k 0) ≡ k
length-replicate zero = refl
length-replicate (suc k) = ap suc (length-replicate k)

drop-zeros : (k : ℕ) (bs : Bytes) → drop k (replicate k 0 ++ bs) ≡ bs
drop-zeros zero bs = refl
drop-zeros (suc k) bs = drop-zeros k bs

-- High zero bytes.
to_le-high : (m j n : ℕ) → n < 256 ^ m → to_le (m + j) n ≡ to_le m n ++ replicate j 0
to_le-high zero j n h = let none : n ≡ 0 = omega (arith, h) in rw (zero-add j, none) (to_le_zero j)
to_le-high (suc m) j n h =
    rw (suc-add m j)
      (ap (λ bs. (n % 256) ∷ bs) (to_le-high m j (n / 256) (omega (arith, h, pow-suc 256 m))))

-- Three bytes of a coefficient, the highest first.
abbrev pub three : ℕ → ℕ → ℕ → Bytes
three c1 c2 c3 = c1 ∷ c2 ∷ c3 ∷ []

three_le :
    (c1 c2 c3 : ℕ)
    → All IsByte (three c1 c2 c3)
    → (to_le 3 (from_be (three c1 c2 c3)) ≡ three c3 c2 c1) × (from_be (three c1 c2 c3) < 256 ^ 3)
three_le c1 c2 c3 (h1, (h2, (h3, _))) = (
  to_le-from_le (three c3 c2 c1) (h3, (h2, (h1, tt))),
  from_le-lt (three c3 c2 c1) (h3, (h2, (h1, tt))),
)

-- The bytes of a target with the coefficient behind `j` and before `k` zero bytes.
abbrev target_of : ℕ → ℕ → Bytes → Bytes
target_of j k coeff = replicate j 0 ++ (coeff ++ replicate k 0)

reverse-target :
    (j k : ℕ) (bs : Bytes)
    → reverse (replicate k 0 ++ (bs ++ replicate j 0)) ≡ target_of j k (reverse bs)
reverse-target j k bs =
    reverse-append (replicate k 0) (bs ++ replicate j 0)
    ∙ ap (λ zs. reverse (bs ++ replicate j 0) ++ zs) (reverse-replicate k)
    ∙ ap (λ ys. ys ++ replicate k 0) (reverse-append bs (replicate j 0))
    ∙ ap (λ zs. (zs ++ reverse bs) ++ replicate k 0) (reverse-replicate j)
    ∙ append_assoc (replicate j 0) (reverse bs) (replicate k 0)

to_be-target :
    (j k n : ℕ)
    → n < 256 ^ 3
    → reverse (to_le (k + (3 + j)) (n * 256 ^ k)) ≡ target_of j k (reverse (to_le 3 n))
to_be-target j k n small =
    ap reverse (to_le-shift k (3 + j) n ∙ ap (λ bs. replicate k 0 ++ bs) (to_le-high 3 j n small))
    ∙ reverse-target j k (to_le 3 n)

pow2-add : (a m : ℕ) → 2 ^ (a + m) ≡ 2 ^ a * 2 ^ m
pow2-add zero m = rw (zero-add m) (omega arith)
pow2-add (suc a) m =
    rw (suc-add a m, pow-suc 2 (a + m), pow-suc 2 a, pow2-add a m)
      (mul_right_comm (2 ^ a) (2 ^ m) 2)

pow-256 : (k : ℕ) → 2 ^ (8 * k) ≡ 256 ^ k
pow-256 zero = refl
pow-256 (suc k) =
    ap (λ m. 2 ^ m) {x = 8 * suc k} {y = 8 + 8 * k} (omega arith)
    ∙ pow2-add 8 (8 * k)
    ∙ omega (arith, pow-256 k, pow-suc 256 k)

-- The compact form of a target, by its parts.
abbrev IsCompact : ℕ → ℕ → ℕ → ℕ → Type 0
IsCompact e c1 c2 c3 =
    (3 ≤ e) × (e ≤ 32) × All IsByte (three c1 c2 c3) × (c1 < 0x80) × ((c1 ≢ 0) ⊎ (0x80 ≤ c2))

pub shifted_lt : (n k j : ℕ) → n < 256 ^ 3 → n * 256 ^ k < 256 ^ (k + (3 + j))
shifted_lt n zero j h =
    rw (zero-add (3 + j), mul-one n)
      (lt_of_lt_of_le h (pow-le-pow_right (omega arith) {i = 3} (omega arith)))
shifted_lt n (suc k) j h =
    rw (times_256 n k, suc-add k (3 + j), pow-suc 256 (k + (3 + j)))
      (omega (arith, shifted_lt n k j h))

pub expand_lem :
    (k : ℕ) (coeff : Bytes) → expand (3 + k) coeff ≡ int_to_be 32 (from_be (take 3 coeff) * 256 ^ k)
unfolding expand
expand_lem k coeff =
    let exponent : 3 + k - 3 ≡ k = omega arith in ground (arith, exponent, pow-256 k)

pub int_to_be-fits : (k n : ℕ) → n < 256 ^ k → int_to_be k n ≡ ok (reverse (to_le k n))
unfolding int_to_be
int_to_be-fits k n h = ground (arith, h)

pub bits_to_target_lem :
    (j k c1 c2 c3 : ℕ)
    → k + (3 + j) ≡ 32
    → All IsByte (three c1 c2 c3)
    → bits_to_target ((3 + k) ∷ three c1 c2 c3) ≡ ok (target_of j k (three c1 c2 c3))
unfolding bits_to_target
bits_to_target_lem j k c1 c2 c3 size h =
    let (le, small) = three_le c1 c2 c3 h in
    let n = from_be (three c1 c2 c3) in
    expand_lem k (three c1 c2 c3)
    ∙ ap (λ m. int_to_be m (n * 256 ^ k)) (sym size)
    ∙ int_to_be-fits (k + (3 + j)) (n * 256 ^ k) (shifted_lt n k j small)
    ∙ ap ok (to_be-target j k n small ∙ ap (λ bs. target_of j k (reverse bs)) le)

length-target : (j k : ℕ) (c1 c2 c3 : ℕ) → length (target_of j k (three c1 c2 c3)) ≡ k + (3 + j)
length-target j k c1 c2 c3 =
    length-append (replicate j 0) _ ∙ omega (arith, length-replicate j, length-replicate k)

-- The two kinds of coefficients: those without a leading zero byte, and those that have one to keep
-- the sign bit clear.
large_coeff :
    (j k c1 c2 c3 : ℕ)
    → k + (3 + j) ≡ 32
    → c1 ≢ 0
    → c1 < 0x80
    → target_to_bits (target_of j k (three c1 c2 c3)) ≡ ok ((3 + k) ∷ three c1 c2 c3)
unfolding target_to_bits compact pad_right
large_coeff j k c1 c2 c3 size h low =
    let exponent : 32 - j ≡ 3 + k = omega (arith, size) in
    rw
      (
        first_nonzero-zeros j c1 (c2 ∷ c3 ∷ replicate k 0) h,
        drop-zeros j (three c1 c2 c3 ++ replicate k 0),
        length-target j k c1 c2 c3,
        size,
        exponent,
      )
      (ground (arith, low))

pad_right-head :
    (c2 c3 k : ℕ) → (cs : Bytes) × (pad_right 3 (take 3 (c2 ∷ c3 ∷ replicate k 0)) ≡ c2 ∷ c3 ∷ cs)
unfolding pad_right
pad_right-head c2 c3 zero = (0 ∷ [], refl)
pad_right-head c2 c3 (suc k) = (0 ∷ [], refl)

compact-sign :
    (e c2 c3 : ℕ) (cs : Bytes) → 0x80 ≤ c2 → compact e (c2 ∷ c3 ∷ cs) ≡ ok (suc e ∷ three 0 c2 c3)
unfolding compact
compact-sign e c2 c3 cs h = ground (arith, h)

small_coeff :
    (j k c2 c3 : ℕ)
    → k + (3 + j) ≡ 32
    → 0x80 ≤ c2
    → target_to_bits (target_of j k (three 0 c2 c3)) ≡ ok ((3 + k) ∷ three 0 c2 c3)
unfolding target_to_bits
small_coeff j k c2 c3 size h =
    let exponent : 32 - suc j ≡ 2 + k = omega (arith, size) in
    let some_bit : c2 ≢ 0 = omega (arith, h) in
    let (cs, padded) = pad_right-head c2 c3 k in
    let first : first_nonzero (target_of j k (three 0 c2 c3)) ≡ suc j =
      ap first_nonzero (zeros-last j (c2 ∷ c3 ∷ replicate k 0))
      ∙ first_nonzero-zeros (suc j) c2 (c3 ∷ replicate k 0) some_bit in
    let rest : drop (suc j) (target_of j k (three 0 c2 c3)) ≡ c2 ∷ c3 ∷ replicate k 0 =
      ap (drop (suc j)) (zeros-last j (c2 ∷ c3 ∷ replicate k 0))
      ∙ drop-zeros (suc j) (c2 ∷ c3 ∷ replicate k 0) in
    rw (first, rest, length-target j k 0 c2 c3, size, exponent, padded)
      (ground (arith, compact-sign (2 + k) c2 c3 cs h))

-- Compact bits with an exponent from 3 to 32, bytes as coefficient, a clear sign bit and no leading
-- zero byte but one that keeps it clear expand to a target of 32 bytes, of which
-- `target_to_bits` gives these bits back.
pub target_to_bits-bits_to_target :
    (e c1 c2 c3 : ℕ)
    → IsCompact e c1 c2 c3
    → (target : Bytes) × (bits_to_target (e ∷ three c1 c2 c3) ≡ ok target)
      × (length target ≡ 32)
      × (target_to_bits target ≡ ok (e ∷ three c1 c2 c3))
target_to_bits-bits_to_target e c1 c2 c3 (low, high, bytes, sign, lead) =
    let k = e - 3 in
    let j = 32 - e in
    let size : k + (3 + j) ≡ 32 = omega (arith, low, high) in
    let same : 3 + k ≡ e = omega (arith, low) in
    (
      target_of j k (three c1 c2 c3),
      ap (λ x. bits_to_target (x ∷ three c1 c2 c3)) (sym same)
          ∙ bits_to_target_lem j k c1 c2 c3 size bytes,
      length-target j k c1 c2 c3 ∙ size,
      back j k size lead ∙ ap (λ x. ok (x ∷ three c1 c2 c3)) same,
    )
  where
    back :
        (j k : ℕ)
        → k + (3 + j) ≡ 32
        → (c1 ≢ 0) ⊎ (0x80 ≤ c2)
        → target_to_bits (target_of j k (three c1 c2 c3)) ≡ ok ((3 + k) ∷ three c1 c2 c3)
    back j k size (inl h) = large_coeff j k c1 c2 c3 size h sign
    back j k size (inr h) = elim (Bool-cases (c1 == 0)) [
      | inl z ↦
          let zero_byte : c1 ≡ 0 = ground (arith, z) in rw zero_byte (small_coeff j k c2 c3 size h)
      | inr z ↦ large_coeff j k c1 c2 c3 size (ground (arith, z)) sign
    ]
