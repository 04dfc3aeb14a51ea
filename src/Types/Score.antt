-- ===== src/Types/Score.antt =====
-- `compute_trust_score` of crates/rc-types/src/state.rs. The u128 intermediate values cannot wrap
-- for u64 inputs, so they are plain numbers; the final `as u16` keeps the low 16 bits.
pub mod Bounds
use routinechain.Base.{
  ℕ, ◌+◌, ◌-◌, ◌*◌, ◌/◌, ◌%◌, ◌^◌, ℤ, pos, negsuc, suc, zero, ltb, leb, ◌==◌, if◌then◌else◌, ltb_ℤ,
  pos_part, neg_part, saturating_sub,
}
use routinechain.Types.State.{Participant}

-- `a - b` on i64 for `b < a`: it wraps where the difference passes the range
unfoldable pub sub_i64 : ℤ → ℤ → ℤ
sub_i64 a b =
    let d = (pos_part a + neg_part b) - (pos_part b + neg_part a) in
    if ltb d (2 ^ 63) then pos d else negsuc (2 ^ 64 - d - 1)

-- Division by a positive number, towards zero.
abbrev pub div_i64 : ℤ → ℕ → ℤ
div_i64 (pos n) k = pos (n / k)
div_i64 (negsuc n) k = elim (suc n / k) [ zero ↦ pos 0 | suc m ↦ negsuc m ]

unfoldable pub success_score : Participant → ℕ
success_score p = p.success_tx * 10000 / p.total_tx

unfoldable pub dispute_score : Participant → ℕ
dispute_score p =
    if ltb 0 p.dispute_count
    then saturating_sub 10000 (p.dispute_count * 10000 / p.total_tx * 3)
    else 10000

unfoldable pub rating_score : Participant → ℕ
rating_score p = if ltb 0 p.rating_count then p.rating_sum * 2000 / p.rating_count else 0

unfoldable pub volume_score : Participant → ℕ
volume_score p =
    if p.total_volume == 0
    then 0
    else if leb p.total_volume 100000
    then 2500
    else if leb p.total_volume 1000000
    then 5000
    else if leb p.total_volume 10000000
    then 7500
    else 10000

-- whole days between registration and the last activity
unfoldable pub active_days : Participant → ℤ
unfolding sub_i64
active_days p =
    if ltb_ℤ p.registered_at p.last_activity_at
    then div_i64 (sub_i64 p.last_activity_at p.registered_at) 86400
    else pos 0

-- the `match days`: a negative number of days falls into the last arm
unfoldable pub longevity_score : ℤ → ℕ
longevity_score (pos d) =
    if leb d 30
    then 2000
    else if leb d 90
    then 4000
    else if leb d 180
    then 6000
    else if leb d 365
    then 8000
    else 10000
longevity_score (negsuc _) = 10000

unfoldable pub maturity_factor : ℕ → ℕ
maturity_factor n =
    if leb n 9 then 3000 else if leb n 49 then 6000 else if leb n 99 then 8000 else 10000

unfoldable pub raw_total : Participant → ℕ
raw_total p =
    success_score p * 35
    + dispute_score p * 25
    + rating_score p * 20
    + volume_score p * 10
    + longevity_score (active_days p) * 10

-- the last expression before `as u16`
unfoldable pub full_score : Participant → ℕ
full_score p = raw_total p * maturity_factor p.total_tx / 10000 / 100

unfoldable pub compute_trust_score : Participant → ℕ
compute_trust_score p = if p.total_tx == 0 then 0 else full_score p % 2 ^ 16
