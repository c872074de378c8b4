-- ===== src/Chain/Subsidy/Supply.antt =====
-- The subsidies of all blocks together.
use bitclone.Base.{
  ℕ, zero, suc, ◌+◌, ◌*◌, ◌/◌, ◌%◌, ◌≤◌, ◌<◌, ◌≡◌, inl, inr, refl, ap, ◌∙◌, leb, arith, Bool-cases,
}
use native.Mathlib.Nat.{suc-mul, le_antisymm}
use bitclone.Base.Int.{pos}
use bitclone.Chain.Subsidy.{
  halving_interval, initial_subsidy, subsidy_after, halvings, calc_subsidy, height_before,
  block_subsidy,
}

-- What `f` gives the blocks below a height, all together.
abbrev pub total : (ℕ → ℕ) → ℕ → ℕ
total f zero = 0
total f (suc n) = total f n + f n

-- A total over blocks of which each interval has the same share, by its intervals.
module _ (g : ℕ → ℕ) where
  shares : ℕ → ℕ → ℕ
  shares q r = halving_interval * total g q + r * g q

  carry : (q r : ℕ) → suc r ≡ halving_interval → shares q r + g q ≡ shares (suc q) 0
  unfolding shares
  carry q r h = let full = ap (λ k. k * g q) h in omega (arith, suc-mul r (g q), full)

  within : (q r : ℕ) → shares q r + g q ≡ shares q (suc r)
  unfolding shares
  within q r = omega (arith, suc-mul r (g q))

  total-shares :
      (n : ℕ)
      → total (λ h. g (h / halving_interval)) n
        ≡ shares (n / halving_interval) (n % halving_interval)
  unfolding shares
  total-shares zero = omega arith
  total-shares (suc n) = elim (Bool-cases (leb halving_interval (suc (n % halving_interval)))) [
    | inl e ↦
        let full : suc (n % halving_interval) ≡ halving_interval = ground (arith, e) in
        let q : suc n / halving_interval ≡ suc (n / halving_interval) = omega (arith, full) in
        let r : suc n % halving_interval ≡ 0 = omega (arith, full) in
        rw (q, r) (omega (arith, total-shares n, carry (n / halving_interval) _ full))
    | inr e ↦
        let room : suc (n % halving_interval) < halving_interval = ground (arith, e) in
        let q : suc n / halving_interval ≡ n / halving_interval = omega (arith, room) in
        let r : suc n % halving_interval ≡ suc (n % halving_interval) = omega (arith, room) in
        rw (q, r) (omega (arith, total-shares n, within (n / halving_interval) _))
  ]

all_intervals : ℕ
all_intervals = 9_999_999_989

intervals_end : (n : ℕ) → 64 ≤ n → total subsidy_after n ≡ all_intervals
unfolding subsidy_after all_intervals
intervals_end zero h = absurd (omega (arith, h))
intervals_end (suc n) h = elim (Bool-cases (leb 64 n)) [
  | inl e ↦ rw e (ground (arith, intervals_end n (ground (arith, e))))
  | inr e ↦ let last : n ≡ 63 = ground (arith, e, h) in rw last refl
]

total_mono : (f : ℕ → ℕ) (m n : ℕ) → m ≤ n → total f m ≤ total f n
total_mono f m zero h = ground (arith, h)
total_mono f m (suc n) h = elim (Bool-cases (leb m n)) [
  | inl e ↦ omega (arith, total_mono f m n (ground (arith, e)))
  | inr e ↦ let same : m ≡ suc n = ground (arith, e, h) in rw same (omega arith)
]

abbrev scheduled : ℕ → ℕ
scheduled height = calc_subsidy (pos height)

-- Whole intervals, at least 64 of them.
scheduled_intervals :
    (k : ℕ) → 64 ≤ k → total scheduled (halving_interval * k) ≡ halving_interval * all_intervals
unfolding calc_subsidy halvings shares
scheduled_intervals k h =
    let q : (halving_interval * k) / halving_interval ≡ k = omega arith in
    let r : (halving_interval * k) % halving_interval ≡ 0 = omega arith in
    total-shares subsidy_after (halving_interval * k) ∙ rw (q, r) (omega (arith, intervals_end k h))

supply : ℕ
supply = 2_099_999_997_690_000

supply_lem : (n : ℕ) → total scheduled n ≤ supply
unfolding supply all_intervals
supply_lem n = omega (
  arith,
  scheduled_intervals (64 + n) (omega arith),
  total_mono scheduled n (halving_interval * (64 + n)) (omega arith),
)

supply_floor : (k n : ℕ) → 64 ≤ k → halving_interval * k ≤ n → supply ≤ total scheduled n
unfolding supply all_intervals
supply_floor k n h m =
    omega (arith, scheduled_intervals k h, total_mono scheduled (halving_interval * k) n m)

supply_reached : (n : ℕ) → halving_interval * 64 ≤ n → total scheduled n ≡ supply
supply_reached n h =
    le_antisymm (supply_lem n)
      (supply_floor (n / halving_interval) n (omega (arith, h)) (omega arith))

-- The schedule of `calc_subsidy` makes 2,099,999,997,690,000 satoshis and no more, however many
-- blocks there are, and has made them all after 64 halvings.
pub scheduled_supply :
    (n : ℕ)
    → (total (λ height. calc_subsidy (pos height)) n ≤ 2_099_999_997_690_000)
      × (halving_interval * 64 ≤ n
          → total (λ height. calc_subsidy (pos height)) n ≡ 2_099_999_997_690_000)
unfolding supply
scheduled_supply n = (supply_lem n, supply_reached n)

block_subsidy_late : (n : ℕ) → total block_subsidy (suc n) ≡ initial_subsidy + total scheduled n
unfolding block_subsidy height_before calc_subsidy subsidy_after halvings
block_subsidy_late zero = omega arith
block_subsidy_late (suc n) = omega (arith, block_subsidy_late n)

one_more :
    {t s : ℕ} → t ≡ initial_subsidy + s → s ≤ 2_099_999_997_690_000 → t ≤ 2_100_004_997_690_000
one_more e h = omega (arith, e, h)

-- The subsidy that a coinbase may claim is the scheduled one of the block before, since
-- `_validate_coinbase` reads the cached value. All blocks together may claim 50 coins more than the
-- schedule makes, and from 64 halvings on they may have claimed them.
pub claimed_supply :
    (n : ℕ)
    → (block_subsidy (suc n) ≡ calc_subsidy (pos n))
      × (total block_subsidy (suc n) ≤ 2_100_004_997_690_000)
      × (halving_interval * 64 ≤ n → total block_subsidy (suc n) ≡ 2_100_004_997_690_000)
unfolding block_subsidy height_before
claimed_supply n =
    let (most, all) = scheduled_supply n in
    let late = block_subsidy_late n in
    (refl, one_more late most, λ end. late ∙ ap (λ t. initial_subsidy + t) (all end))
