-- ===== src/Types/Score/Bounds.antt =====
-- The range of the trust score of crates/rc-types/src/state.rs.
use routinechain.Base.{
  ℕ, ◌*◌, ◌/◌, ◌≡◌, ◌≤◌, ◌<◌, ◌≢◌, ℤ, pos, negsuc, arith, sym, ◌==◌, if◌then◌else◌, Bool-cases, inl,
  inr, refl,
}
use native.Mathlib.Nat.{mul-le-mul, div-eq_of_eq-mul_left, le_of_eq}
use routinechain.Types.State.{Participant}
use routinechain.Types.Score.{
  success_score, dispute_score, rating_score, volume_score, longevity_score, active_days,
  maturity_factor, raw_total, full_score, compute_trust_score,
}

div-le : (a b c : ℕ) → a ≤ b * c → 0 < b → a / b ≤ c
div-le a b c h p = grind arith

success_score-le :
    (p : Participant) → p.success_tx ≤ p.total_tx → 0 < p.total_tx → success_score p ≤ 10000
unfolding success_score
success_score-le p h t = div-le (p.success_tx * 10000) p.total_tx 10000 (omega arith) t

dispute_score-le : (p : Participant) → dispute_score p ≤ 10000
unfolding dispute_score
dispute_score-le p = ground arith

rating_score-le : (p : Participant) → p.rating_sum ≤ 5 * p.rating_count → rating_score p ≤ 10000
unfolding rating_score
rating_score-le p h = ground (arith, div-le (p.rating_sum * 2000) p.rating_count 10000)

volume_score-le : (p : Participant) → volume_score p ≤ 10000
unfolding volume_score
volume_score-le p = ground arith

longevity_score-le : (d : ℤ) → longevity_score d ≤ 10000
unfolding longevity_score
longevity_score-le (pos d) = ground arith
longevity_score-le (negsuc d) = ground arith

maturity_factor_bounds : (n : ℕ) → (3000 ≤ maturity_factor n) × (maturity_factor n ≤ 10000)
unfolding maturity_factor
maturity_factor_bounds n = ground arith

raw_total-le :
    (p : Participant)
    → p.success_tx ≤ p.total_tx
    → 0 < p.total_tx
    → p.rating_sum ≤ 5 * p.rating_count
    → raw_total p ≤ 1000000
unfolding raw_total
raw_total-le p h t r = omega (
  arith,
  success_score-le p h t,
  dispute_score-le p,
  rating_score-le p r,
  volume_score-le p,
  longevity_score-le (active_days p),
)

full_score-le :
    (p : Participant)
    → p.success_tx ≤ p.total_tx
    → 0 < p.total_tx
    → p.rating_sum ≤ 5 * p.rating_count
    → full_score p ≤ 10000
unfolding full_score
full_score-le p h t r =
    omega (arith, mul-le-mul (raw_total-le p h t r) (maturity_factor_bounds p.total_tx).1)

-- If no more transactions succeeded than were counted and the ratings average at most 5, then the
-- score is at most 10000 (100.00%), and it is 0 for a participant without transactions and otherwise
-- the computed total, with nothing cut off by the cast to u16.
pub trust_score_range :
    (p : Participant)
    → p.success_tx ≤ p.total_tx
    → p.rating_sum ≤ 5 * p.rating_count
    → (compute_trust_score p ≤ 10000)
      × (compute_trust_score p ≡ (if p.total_tx == 0 then 0 else full_score p))
unfolding compute_trust_score
trust_score_range p h r = elim (Bool-cases (p.total_tx == 0)) [
  | inl new ↦ rw (compute_trust_score, new) (omega arith, refl)
  | inr old ↦
      let some_tx : 0 < p.total_tx = ground (arith, old) in
      rw (compute_trust_score, old) (ground (arith, full_score-le p h some_tx r))
]

rating_score_of_five_stars :
    (p : Participant)
    → 0 < p.rating_count
    → p.rating_sum ≡ 500 * p.rating_count
    → rating_score p ≡ 1000000
unfolding rating_score
rating_score_of_five_stars p c e = ground (
  arith,
  div-eq_of_eq-mul_left {n = p.rating_count} {m = p.rating_sum * 2000} {k = 1000000} c
      (omega arith),
)

raw_total_of_five_stars :
    (p : Participant)
    → 0 < p.rating_count
    → p.rating_sum ≡ 500 * p.rating_count
    → 20000000 ≤ raw_total p
unfolding raw_total
raw_total_of_five_stars p c e = omega (arith, rating_score_of_five_stars p c e)

mature : (n : ℕ) → 100 ≤ n → maturity_factor n ≡ 10000
unfolding maturity_factor
mature n h = ground arith

-- A participant with at least 100 transactions, whose every rating is the highest that
-- `record_rating` accepts (500 points), has a computed total of 200000 or more, twenty times the
-- range, and the reported score is not that total: the cast to u16 cuts it.
pub five_stars_overflow :
    (p : Participant)
    → 100 ≤ p.total_tx
    → 0 < p.rating_count
    → p.rating_sum ≡ 500 * p.rating_count
    → (200000 ≤ full_score p) × (compute_trust_score p ≢ full_score p)
unfolding compute_trust_score full_score
five_stars_overflow p m c e = ground (
  arith,
  mature p.total_tx m,
  mul-le-mul (raw_total_of_five_stars p c e) (le_of_eq (sym (mature p.total_tx m))),
)
