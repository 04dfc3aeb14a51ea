-- ===== src/Consensus/Skew.antt =====
-- Nodes in different rounds: `leader_for_height_round` of crates/rc-consensus/src/lib.rs.
use routinechain.Base.{
  ℕ, zero, suc, ◌+◌, ◌-◌, ◌%◌, ◌<◌, ◌≤◌, ◌≡◌, ◌≢◌, refl, sym, ap, ◌∙◌, List, [], ◌∷◌, length, true,
  false, contains, IsDistinct, u64_max, arith, inl, inr, Bool-cases, add_u64, ltb,
}
use mathlib.Core.List.{Permᴰ}
use native.Mathlib.Nat.{mod-lt, mod-eq_of_lt, mod-add-mod, mod-eq-sub-mod}
use routinechain.Types.Bytes.{Id32}
use routinechain.Consensus.{Consensus, insert, sort, node_ids, nth, leader_for_height_round}
use routinechain.Consensus.Leader.{
  contains-insert, contains-sort, length-sort, leader_at, nodes_positive, leader_agreed,
}

insert-IsDistinct :
    (x : Id32) (ys : List Id32) → contains ys x ≡ false → IsDistinct ys → IsDistinct (insert x ys)
unfolding insert
insert-IsDistinct x [] new d = (refl, tt)
insert-IsDistinct x (y ∷ ys) new d =
    ground (arith, contains-insert x ys y, insert-IsDistinct x ys (ground arith) d.1)

sort-IsDistinct : (xs : List Id32) → IsDistinct xs → IsDistinct (sort xs)
unfolding sort
sort-IsDistinct [] d = tt
sort-IsDistinct (x ∷ xs) d =
    insert-IsDistinct x (sort xs) (contains-sort xs x ∙ d.0) (sort-IsDistinct xs d.1)

contains-nth : (xs : List Id32) (d : Id32) (i : ℕ) → i < length xs → contains xs (nth d xs i) ≡ true
contains-nth [] d i lt = absurd (omega arith)
contains-nth (x ∷ xs) d zero lt = ground arith
contains-nth (x ∷ xs) d (suc i) lt = ground (arith, contains-nth xs d i (omega arith))

-- Different places of a list without repetitions hold different ids.
nth_injective :
    (xs : List Id32) (d : Id32) (i j : ℕ)
    → IsDistinct xs
    → i < length xs
    → j < length xs
    → nth d xs i ≡ nth d xs j
    → i ≡ j
nth_injective [] d i j dis li lj e = absurd (omega arith)
nth_injective (x ∷ xs) d zero zero dis li lj e = refl
nth_injective (x ∷ xs) d zero (suc j) dis li lj e =
    absurd (ground (arith, dis.0, contains-nth xs d j (omega arith)))
nth_injective (x ∷ xs) d (suc i) zero dis li lj e =
    absurd (ground (arith, dis.0, contains-nth xs d i (omega arith)))
nth_injective (x ∷ xs) d (suc i) (suc j) dis li lj e =
    ap suc (nth_injective xs d i j dis.1 (omega arith) (omega arith) e)

below_twice : (n m : ℕ) → n ≤ m → m - n < n → m % n ≡ m - n
below_twice n m le lt = mod-eq-sub-mod le ∙ mod-eq_of_lt lt

-- A shift by less than a turn is seen.
mod_shift : (n h r : ℕ) → 0 < r → r < n → (h + r) % n ≢ h % n
mod_shift n h r pos less e =
    let lt : h % n < n = mod-lt h (omega arith) in
    let split : (h % n + r) % n ≡ h % n = mod-add-mod h n r ∙ e in
    elim (Bool-cases (ltb (h % n + r) n)) [
      | inl small ↦ omega (arith, split, mod-eq_of_lt {n = h % n + r} {m = n} (ground arith))
      | inr large ↦
          let over : n ≤ h % n + r = ground arith in
          omega (arith, split, below_twice n (h % n + r) over (omega arith))
    ]

-- Two nodes that know the same nodes, no id twice, and of which one has left round 0 and the other
-- not, by fewer rounds than there are nodes, disagree on the leader of every height whose sum with
-- the round stays in u64.
pub rounds_disagree :
    (a b : Consensus) (height round : ℕ)
    → Permᴰ (node_ids a) (node_ids b)
    → IsDistinct (node_ids a)
    → 0 < round
    → round < length (node_ids a)
    → height + round ≤ u64_max
    → leader_for_height_round a height round ≢ leader_for_height_round b height 0
rounds_disagree a b height round p dis pos less fits same =
    let n = length (sort (node_ids a)) in
    mod_shift n height round pos (omega (arith, length-sort (node_ids a))) (
      ap (λ k. k % n) (omega arith)
      ∙ nth_injective (sort (node_ids a)) a.node_id (add_u64 height round % n)
          (add_u64 height 0 % n) (sort-IsDistinct (node_ids a) dis) (mod-lt _ (nodes_positive a))
          (mod-lt _ (nodes_positive a))
          (sym (leader_at a height round)
            ∙ (same ∙ (sym (leader_agreed a b height 0 p) ∙ leader_at a height 0)))
      ∙ ap (λ k. k % n) (omega arith))
