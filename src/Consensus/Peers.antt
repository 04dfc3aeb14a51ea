-- ===== src/Consensus/Peers.antt =====
-- Peers found by handshake: `add_peer` of crates/rc-consensus/src/lib.rs.
use routinechain.Base.{
  Bool, Option, none, some, if◌then◌else◌, ◌==◌, ◌&&◌, append_assoc, ap, ◌≡◌, refl, ◌∙◌, List, [],
  ◌∷◌, ◌++◌, true, false, not, contains, arith, Bool-cases, inl, inr, contains-append, map, String,
}
use routinechain.Types.Bytes.{Id32}
use routinechain.Consensus.{Consensus, Peer, node_ids, add_peer}

ids-snoc :
    (ps : List Peer) (p : Peer) → map (λ q. q.id) (ps ++ p ∷ []) ≡ map (λ q. q.id) ps ++ p.id ∷ []
ids-snoc [] p = refl
ids-snoc (q ∷ ps) p = cc (ids-snoc ps p)

added :
    (id public_key : Id32) (address : String) (c : Consensus)
    → contains (node_ids c) id ≡ false
    → ((add_peer id public_key address c).0 ≡ true)
      × (node_ids (add_peer id public_key address c).1
          ≡ (map (λ q. q.id) c.peers ++ id ∷ []) ++ c.node_id ∷ [])
unfolding add_peer
added id public_key address c h = ground (
  arith,
  h,
  contains-append (map (λ q. q.id) c.peers) (c.node_id ∷ []) id,
  ids-snoc c.peers (record { id = id; address = address; public_key = public_key }),
)

not_added :
    (id public_key : Id32) (address : String) (c : Consensus)
    → contains (node_ids c) id ≡ true
    → add_peer id public_key address c ≡ (false, c)
unfolding add_peer
not_added id public_key address c h =
    ground (arith, h, contains-append (map (λ q. q.id) c.peers) (c.node_id ∷ []) id)

-- No id occurs twice, as a test.
abbrev pub is_distinct : List Id32 → Bool
is_distinct [] = true
is_distinct (x ∷ xs) = not (contains xs x) && is_distinct xs

-- the first peer of an id
abbrev pub find_peer : Id32 → List Peer → Option Peer
find_peer id [] = none
find_peer id (p ∷ ps) = if p.id == id then some p else find_peer id ps

-- a node after handshakes, the first one first
unfoldable pub met : List Peer → Consensus → Consensus
met [] c = c
met (p ∷ ps) c = met ps (add_peer p.id p.public_key p.address c).1

is_distinct-before_last :
    (xs : List Id32) (a z : Id32)
    → contains (xs ++ z ∷ []) a ≡ false
    → is_distinct ((xs ++ a ∷ []) ++ z ∷ []) ≡ is_distinct (xs ++ z ∷ [])
is_distinct-before_last [] a z d = ground arith
is_distinct-before_last (x ∷ xs) a z d = ground (
  arith,
  contains-append xs (z ∷ []) x,
  contains-append (xs ++ a ∷ []) (z ∷ []) x,
  contains-append xs (a ∷ []) x,
  is_distinct-before_last xs a z,
)

find_peer-append :
    (id : Id32) (ps qs : List Peer)
    → find_peer id (ps ++ qs) ≡ elim (find_peer id ps) [ none ↦ find_peer id qs | some p ↦ some p ]
find_peer-append id [] qs = refl
find_peer-append id (p ∷ ps) qs = ground (arith, find_peer-append id ps qs)

find_peer-contains :
    (id : Id32) (ps : List Peer)
    → contains (map (λ p. p.id) ps) id ≡ elim (find_peer id ps) [ none ↦ false | some _ ↦ true ]
find_peer-contains id [] = refl
find_peer-contains id (p ∷ ps) = ground (arith, find_peer-contains id ps)

-- What the peers answer for an id after one handshake, followed by others.
find_peer-add_peer :
    (p : Peer) (ps : List Peer) (c : Consensus) (id : Id32)
    → let c' = (add_peer p.id p.public_key p.address c).1 in
      (if id == c.node_id then find_peer id c'.peers else find_peer id (c'.peers ++ ps))
      ≡ (if id == c.node_id then find_peer id c.peers else find_peer id (c.peers ++ p ∷ ps))
unfolding add_peer
find_peer-add_peer p ps c id = ground (
  arith,
  find_peer-contains p.id c.peers,
  find_peer-contains id c.peers,
  find_peer-append id c.peers (p ∷ ps),
  find_peer-append id c.peers (p ∷ []),
  find_peer-append id c.peers ps,
  append_assoc c.peers (p ∷ []) ps,
)

add_peer-node_id :
    (p : Peer) (c : Consensus) → (add_peer p.id p.public_key p.address c).1.node_id ≡ c.node_id
unfolding add_peer
add_peer-node_id p c = ground arith

is_distinct-add_peer :
    (p : Peer) (c : Consensus)
    → is_distinct (node_ids (add_peer p.id p.public_key p.address c).1) ≡ is_distinct (node_ids c)
is_distinct-add_peer p c = elim (Bool-cases (contains (node_ids c) p.id)) [
  | inl known ↦ rw (not_added p.id p.public_key p.address c known) refl
  | inr new ↦
      rw (added p.id p.public_key p.address c new).1 (is_distinct-before_last _ p.id c.node_id new)
]

met-node_id : (ps : List Peer) (c : Consensus) → (met ps c).node_id ≡ c.node_id
unfolding met
met-node_id [] c = refl
met-node_id (p ∷ ps) c = met-node_id ps _ ∙ add_peer-node_id p c

is_distinct-met :
    (ps : List Peer) (c : Consensus) → is_distinct (node_ids (met ps c)) ≡ is_distinct (node_ids c)
unfolding met
is_distinct-met [] c = refl
is_distinct-met (p ∷ ps) c = is_distinct-met ps _ ∙ is_distinct-add_peer p c

find_peer-met :
    (ps : List Peer) (c : Consensus) (id : Id32)
    → find_peer id (met ps c).peers
      ≡ (if id == c.node_id then find_peer id c.peers else find_peer id (c.peers ++ ps))
unfolding met
find_peer-met [] c id = ground (arith, find_peer-append id c.peers [])
find_peer-met (p ∷ ps) c id =
    find_peer-met ps (add_peer p.id p.public_key p.address c).1 id
    ∙ rw (add_peer-node_id p c) (find_peer-add_peer p ps c id)

add_peer-says :
    (p : Peer) (c : Consensus)
    → (add_peer p.id p.public_key p.address c).0 ≡ not (contains (node_ids c) p.id)
add_peer-says p c = elim (Bool-cases (contains (node_ids c) p.id)) [
  | inl known ↦ rw (not_added p.id p.public_key p.address c known, known) refl
  | inr new ↦ rw ((added p.id p.public_key p.address c new).0, new) refl
]

contains-node_ids :
    (c : Consensus) (id : Id32)
    → contains (node_ids c) id
      ≡ (if id == c.node_id then true else contains (map (λ p. p.id) c.peers) id)
contains-node_ids c id =
    ground (arith, contains-append (map (λ p. p.id) c.peers) (c.node_id ∷ []) id)

-- The node itself, or the start or an earlier handshake names the id.
abbrev pub is_named : Id32 → List Peer → Consensus → Bool
is_named id handshakes c =
    if id == c.node_id then true else contains (map (λ p. p.id) (c.peers ++ handshakes)) id

contains-met :
    (ps : List Peer) (c : Consensus) (id : Id32)
    → contains (node_ids (met ps c)) id ≡ is_named id ps c
contains-met ps c id = ground (
  arith,
  contains-node_ids (met ps c) id,
  met-node_id ps c,
  find_peer-contains id (met ps c).peers,
  find_peer-contains id (c.peers ++ ps),
  find_peer-met ps c id,
)

-- Whoever names an id first holds it. After any handshakes a node finds for another id than its own
-- the peer that it had for it at the start, or else the first handshake that named it, with the key
-- and the address given there, or nothing if none did; for its own id it finds what it found at the
-- start. The next handshake adds a peer exactly if it names neither the node itself, nor a peer that
-- it had at the start, nor an id of an earlier handshake. The node keeps its own id, and an id occurs
-- twice among the peers and the node itself exactly if one did at the start.
pub add_peer_known :
    (handshakes : List Peer) (c : Consensus) (id : Id32) (next : Peer)
    → (find_peer id (met handshakes c).peers
        ≡ (if id == c.node_id then find_peer id c.peers else find_peer id (c.peers ++ handshakes)))
      × ((add_peer next.id next.public_key next.address (met handshakes c)).0
          ≡ not (is_named next.id handshakes c))
      × ((met handshakes c).node_id ≡ c.node_id)
      × (is_distinct (node_ids (met handshakes c)) ≡ is_distinct (node_ids c))
add_peer_known handshakes c id next = (
  find_peer-met handshakes c id,
  add_peer-says next (met handshakes c) ∙ ap not (contains-met handshakes c next.id),
  met-node_id handshakes c,
  is_distinct-met handshakes c,
)
