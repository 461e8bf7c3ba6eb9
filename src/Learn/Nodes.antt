-- ===== src/Learn/Nodes.antt =====
-- The nodes from which paxos_commit begins to learn (libmotmot/src/paxos_learn.c).
use motmot.Base.{
  ℕ, ◌<◌, ◌≡◌, refl, sym, ap, ◌∙◌, ==-refl, eq-of-==, Bool-cases, inl, inr, Bool, true, false, ◌==◌,
  List, [], ◌∷◌, some, arith, if◌then◌else◌,
}
use motmot.Session.{Instance}
use motmot.SessionLocal.{inum_of, get_at}
use motmot.SessionLocal.Tables.{Increasing, get_at-Over, get_at_key}
use motmot.Learn.{nodes_from, tail, start_nodes}

nodes_from-found :
    (n : ℕ) (l : List Instance) (x : Instance) (r : List Instance)
    → nodes_from n l ≡ x ∷ r
    → get_at inum_of n l ≡ some x
unfolding nodes_from get_at
nodes_from-found n [] x r e = ground arith
nodes_from-found n (y ∷ l) x r e = ground (arith, nodes_from-found n l x r)

nodes_from-front : (x : Instance) (r : List Instance) → nodes_from (inum_of x) (x ∷ r) ≡ x ∷ r
unfolding nodes_from
nodes_from-front x r = rw (==-refl (inum_of x)) refl

-- A node below a number is passed over.
nodes_from-below :
    (n : ℕ) (y : Instance) (l : List Instance)
    → inum_of y < n
    → nodes_from n (y ∷ l) ≡ nodes_from n l
unfolding nodes_from
nodes_from-below n y l h = ground arith

-- The nodes from a number on, where they are known not to begin with the first node.
nodes_from-later :
    (y x : Instance) (l r : List Instance)
    → Increasing inum_of (y ∷ l)
    → nodes_from (inum_of x) l ≡ x ∷ r
    → nodes_from (inum_of x) (y ∷ l) ≡ x ∷ r
nodes_from-later y x l r s e =
    nodes_from-below (inum_of x) y l
      (get_at-Over inum_of (inum_of y) (inum_of x) l x s.0 (nodes_from-found (inum_of x) l x r e))
    ∙ e

-- In a sorted list, the nodes after a node that begin with a number are the nodes from that number on.
tail-nodes_from :
    (n : ℕ) (l : List Instance) (x : Instance) (r : List Instance)
    → Increasing inum_of l
    → tail (nodes_from n l) ≡ x ∷ r
    → nodes_from (inum_of x) l ≡ x ∷ r
unfolding nodes_from
tail-nodes_from n [] x r s e = ground arith
tail-nodes_from n (y ∷ l) x r s e = elim (Bool-cases (inum_of y == n)) [
  | inl b ↦
      let q : l ≡ x ∷ r = ground arith in
      nodes_from-later y x l r s (ap (nodes_from (inum_of x)) q ∙ nodes_from-front x r)
  | inr b ↦
      let later : tail (nodes_from n l) ≡ x ∷ r = ground arith in
      nodes_from-later y x l r s (tail-nodes_from n l x r s.1 later)
]

start-hole :
    (b : Bool) (n hole : ℕ) (l : List Instance) (x : Instance) (r : List Instance)
    → Increasing inum_of l
    → (n == hole) ≡ b
    → (if b then nodes_from n l else tail (nodes_from n l)) ≡ x ∷ r
    → inum_of x ≡ hole
    → (if b then nodes_from n l else tail (nodes_from n l)) ≡ nodes_from hole l
start-hole true n hole l x r s b e h = ap (λ m. nodes_from m l) (eq-of-== n hole b)
start-hole false n hole l x r s b e h =
    e ∙ sym (tail-nodes_from n l x r s e) ∙ ap (λ m. nodes_from m l) h

-- The nodes that the loop goes over, if they begin with the hole, are those from the hole on.
pub start_nodes-hole :
    (hole : ℕ) (start : Instance) (l : List Instance) (x : Instance) (r : List Instance)
    → Increasing inum_of l
    → start_nodes hole start l ≡ x ∷ r
    → inum_of x ≡ hole
    → start_nodes hole start l ≡ nodes_from hole l
unfolding start_nodes
start_nodes-hole hole start l x r s e h =
    start-hole (inum_of start == hole) (inum_of start) hole l x r s refl e h

-- Nodes from a number on begin with it.
pub nodes_from-hole :
    (n hole : ℕ) (l : List Instance) (x : Instance) (r : List Instance)
    → nodes_from n l ≡ x ∷ r
    → inum_of x ≡ hole
    → nodes_from n l ≡ nodes_from hole l
nodes_from-hole n hole l x r e h =
    ap (λ m. nodes_from m l) (sym (get_at_key inum_of n l x (nodes_from-found n l x r e)) ∙ h)
