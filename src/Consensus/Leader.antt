-- ===== src/Consensus/Leader.antt =====
-- Who leads: `leader_for_height_round` of crates/rc-consensus/src/lib.rs.
use routinechain.Base.{
  ℕ, zero, suc, ◌+◌, ◌-◌, ◌%◌, ◌<◌, ◌≤◌, ◌≡◌, refl, sym, ap, ◌∙◌, List, [], ◌∷◌, ◌++◌, length, ◌==◌,
  ◌||◌, true, contains, u64_max, arith, inl, inr, Bool-cases, add_u64,
}
use mathlib.Core.List.{Permᴰ}
use native.Mathlib.Nat.{mod-lt, mod-eq_of_lt, add-mod_right, zero-add}
use routinechain.Types.Bytes.{Id32}
use routinechain.Consensus.{
  Consensus, insert, sort, node_ids, all_node_ids, nth, leader_for_height_round,
}

insert_comm : (x y : Id32) (zs : List Id32) → insert x (insert y zs) ≡ insert y (insert x zs)
unfolding insert
insert_comm x y [] = ground arith
insert_comm x y (z ∷ zs) = ground (arith, insert_comm x y zs)

-- Sorting forgets the order.
pub sort-Perm : (xs ys : List Id32) → Permᴰ xs ys → sort xs ≡ sort ys
unfolding sort
sort-Perm _ _ Permᴰ.nil = refl
sort-Perm _ _ (Permᴰ.cons {a} {b} {l₁} {l₂} e p) = cc (sort-Perm l₁ l₂ p, e)
sort-Perm _ _ (Permᴰ.swap {a} {b} {a'} {b'} {l} e e') = rw (e, e') (insert_comm b' a' (sort l))
sort-Perm _ _ (Permᴰ.trans {l₁} {l₂} {l₃} p q) = sort-Perm l₁ l₂ p ∙ sort-Perm l₂ l₃ q

length-insert : (x : Id32) (ys : List Id32) → length (insert x ys) ≡ suc (length ys)
unfolding insert
length-insert x [] = refl
length-insert x (y ∷ ys) = ground (arith, length-insert x ys)

pub length-sort : (xs : List Id32) → length (sort xs) ≡ length xs
unfolding sort
length-sort [] = refl
length-sort (x ∷ xs) = length-insert x (sort xs) ∙ ap suc (length-sort xs)

pub contains-insert :
    (x : Id32) (ys : List Id32) (a : Id32) → contains (insert x ys) a ≡ (x == a || contains ys a)
unfolding insert
contains-insert x [] a = refl
contains-insert x (y ∷ ys) a = ground (arith, contains-insert x ys a)

pub contains-sort : (xs : List Id32) (a : Id32) → contains (sort xs) a ≡ contains xs a
unfolding sort
contains-sort [] a = refl
contains-sort (x ∷ xs) a = ground (arith, contains-insert x (sort xs) a, contains-sort xs a)

contains-snoc : (xs : List Id32) (a : Id32) → contains (xs ++ a ∷ []) a ≡ true
contains-snoc [] a = ground arith
contains-snoc (x ∷ xs) a = ground (arith, contains-snoc xs a)

-- There is always a leader to choose: the node itself is in the list.
positive : (xs : List Id32) (a : Id32) → contains xs a ≡ true → 0 < length xs
positive [] a h = cc
positive (x ∷ xs) a h = omega arith

pub nth_default : (xs : List Id32) (d d' : Id32) (i : ℕ) → i < length xs → nth d xs i ≡ nth d' xs i
nth_default [] d d' i h = omega arith
nth_default (x ∷ xs) d d' zero h = refl
nth_default (x ∷ xs) d d' (suc i) h = nth_default xs d d' i (omega arith)

pub leader_at :
    (c : Consensus) (height round : ℕ)
    → leader_for_height_round c height round
      ≡ nth c.node_id (sort (node_ids c)) (add_u64 height round % length (sort (node_ids c)))
unfolding leader_for_height_round all_node_ids
leader_at c height round = ground arith

pub nodes_positive : (c : Consensus) → 0 < length (sort (node_ids c))
nodes_positive c =
    positive (sort (node_ids c)) c.node_id
      (contains-sort (node_ids c) c.node_id ∙ contains-snoc _ c.node_id)

-- Two nodes that know the same nodes, each counting itself, in whatever order, agree on the leader
-- of every height and round.
pub leader_agreed :
    (a b : Consensus) (height round : ℕ)
    → Permᴰ (node_ids a) (node_ids b)
    → leader_for_height_round a height round ≡ leader_for_height_round b height round
leader_agreed a b height round p =
    leader_at a height round
    ∙ nth_default (sort (node_ids a)) a.node_id b.node_id _
        (mod-lt (add_u64 height round) (nodes_positive a))
    ∙ ap (λ xs. nth b.node_id xs (add_u64 height round % length xs)) (sort-Perm _ _ p)
    ∙ sym (leader_at b height round)

turn_next :
    (n i h : ℕ)
    → i < n
    → (k : ℕ) × (k < n) × ((h + k) % n ≡ i)
    → (k : ℕ) × (k < n) × ((suc h + k) % n ≡ i)
turn_next n i h lt (zero, kn, e) = (
  n - 1,
  omega arith,
  ap (λ x. x % n) (omega arith) ∙ (add-mod_right h n ∙ (ap (λ x. x % n) (omega arith) ∙ e)),
)
turn_next n i h lt (suc k, kn, e) = (k, omega arith, ap (λ x. x % n) (omega arith) ∙ e)

-- Each index is reached from any start within one turn.
turn : (n i h : ℕ) → i < n → (k : ℕ) × (k < n) × ((h + k) % n ≡ i)
turn n i zero lt = (i, lt, rw zero-add (mod-eq_of_lt lt))
turn n i (suc h) lt = turn_next n i h lt (turn n i h lt)

index_of :
    (xs : List Id32) (d a : Id32)
    → contains xs a ≡ true
    → (i : ℕ) × (i < length xs) × (nth d xs i ≡ a)
index_of [] d a h = cc
index_of (x ∷ xs) d a h = elim (Bool-cases (x == a)) [
  | inl same ↦ (0, omega arith, ground arith)
  | inr other ↦ let (i, lt, e) = index_of xs d a (ground arith) in (suc i, omega arith, e)
]

-- Every node that is known has its turn: among as many consecutive heights as there are nodes, it
-- leads one, in every round, as long as the sum of height and round stays in u64.
every_node_leads :
    (c : Consensus) (id : Id32) (height round : ℕ)
    → contains (node_ids c) id ≡ true
    → height + round + length (node_ids c) ≤ u64_max
    → (k : ℕ) × (k < length (node_ids c)) × (leader_for_height_round c (height + k) round ≡ id)
every_node_leads c id height round known fits =
    let (i, lt, here) =
      index_of (sort (node_ids c)) c.node_id id (contains-sort (node_ids c) id ∙ known) in
    let (k, kn, e) = turn (length (sort (node_ids c))) i (height + round) lt in
    (
      k,
      omega (arith, length-sort (node_ids c)),
      leader_at c (height + k) round
          ∙ ap (λ x. nth c.node_id (sort (node_ids c)) (x % length (sort (node_ids c))))
              (omega (arith, length-sort (node_ids c)))
          ∙ ap (nth c.node_id (sort (node_ids c))) e
          ∙ here,
    )
