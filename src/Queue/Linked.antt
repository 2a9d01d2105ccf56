-- ===== src/Queue/Linked.antt =====
-- lib/queue.c: the nodes of a queue are linked in both directions in the order of the list that it
-- stands for, and the operations keep this.
use zmap_embedded_ip.Base.{
  ℕ, ◌+◌, ◌<◌, ◌≡◌, ◌≢◌, refl, sym, ap, true, false, Option, none, some, List, [], ◌∷◌, ◌++◌,
  length, ◌==◌, ◌^◌, ==_refl, length-append, arith,
}
use zmap_embedded_ip.Queue.{
  Node, Queue, update, is_empty, only_node, link_behind, push_back, clear_prev, unlink,
  pop_front_unsafe,
}

abbrev pub NotIn : ℕ → List ℕ → Type 0
NotIn a [] = Unit {0}
NotIn a (b ∷ addrs) = (b ≢ a) × NotIn a addrs

abbrev pub Distinct : List ℕ → Type 0
Distinct [] = Unit {0}
Distinct (a ∷ addrs) = NotIn a addrs × Distinct addrs

abbrev pub first : List ℕ → Option ℕ
first [] = none
first (a ∷ addrs) = some a

abbrev pub last : ℕ → List ℕ → ℕ
last a [] = a
last a (b ∷ addrs) = last b addrs

-- The nodes at the addresses hold the values in order, and each points to its neighbours.
abbrev pub Linked : (ℕ → Node) → Option ℕ → List ℕ → List ℕ → Type 0
Linked cells before [] [] = Unit {0}
Linked cells before [] (x ∷ xs) = ⊥
Linked cells before (a ∷ addrs) [] = ⊥
Linked cells before (a ∷ addrs) (x ∷ xs) =
    ((cells a).content ≡ x)
    × ((cells a).prev ≡ before)
    × ((cells a).next ≡ first addrs)
    × Linked cells (some a) addrs xs

-- The back of a queue that is not empty; that of an empty one may be a node that is gone.
abbrev pub EndsAt : Option ℕ → List ℕ → Type 0
EndsAt back [] = Unit {0}
EndsAt back (a ∷ addrs) = back ≡ some (last a addrs)

pub record IsQueue (q : Queue) (addrs xs : List ℕ) : Type 0 where
  pub front : q.front ≡ first addrs
  pub back : EndsAt q.back addrs
  pub size : q.size ≡ length xs
  pub count : length xs < 2 ^ 64
  pub distinct : Distinct addrs
  pub linked : Linked q.cells none addrs xs

-- A write to a node that is not in the list.
Linked-update :
    (cells : ℕ → Node) (before : Option ℕ) (a : ℕ) (node : Node) (addrs xs : List ℕ)
    → NotIn a addrs
    → Linked cells before addrs xs
    → Linked (update cells a node) before addrs xs
Linked-update cells before a node [] [] other h = tt
Linked-update cells before a node [] (x ∷ xs) other h = h
Linked-update cells before a node (b ∷ addrs) [] other h = h
Linked-update cells before a node (b ∷ addrs) (x ∷ xs) other h =
    let e : (b == a) ≡ false = ground (arith, other.0) in
    rw e (h.0, h.1, h.2, Linked-update cells (some b) a node addrs xs other.1 h.3)

-- Another front: only the first node's `prev` changes.
Linked-front :
    (cells : ℕ → Node) (before : Option ℕ) (addrs xs : List ℕ)
    → Distinct addrs
    → Linked cells before addrs xs
    → Linked (clear_prev cells (first addrs)) none addrs xs
Linked-front cells before [] [] distinct h = tt
Linked-front cells before [] (x ∷ xs) distinct h = h
Linked-front cells before (a ∷ addrs) [] distinct h = h
Linked-front cells before (a ∷ addrs) (x ∷ xs) distinct h =
    rw (==_refl a) (h.0, refl, h.2, Linked-update cells (some a) a _ addrs xs distinct.0 h.3)

last-NotIn : (a b : ℕ) (addrs : List ℕ) → NotIn a (b ∷ addrs) → last b addrs ≢ a
last-NotIn a b [] h = h.0
last-NotIn a b (c ∷ addrs) h = last-NotIn a c addrs h.1

-- The memory after a node `new` has been linked behind the node `b`.
record Appends (cells cells' : ℕ → Node) (b new value : ℕ) : Type 0 where
  other : (c : ℕ) → c ≢ new → c ≢ b → cells' c ≡ cells c
  linked : cells' b ≡ record (cells b) { next = some new }
  added : cells' new ≡ record { content = value; prev = some b; next = none }

Linked-append :
    (cells cells' : ℕ → Node) (before : Option ℕ) (value new a : ℕ) (addrs xs : List ℕ)
    → Distinct (a ∷ addrs)
    → NotIn new (a ∷ addrs)
    → Appends cells cells' (last a addrs) new value
    → Linked cells before (a ∷ addrs) xs
    → Linked cells' before ((a ∷ addrs) ++ new ∷ []) (xs ++ value ∷ [])
Linked-append cells cells' before value new a addrs [] distinct other m h = absurd h
Linked-append cells cells' before value new a [] (x ∷ []) distinct other m h =
    rw (m.linked, m.added) (h.0, h.1, refl, (refl, refl, refl, tt))
Linked-append cells cells' before value new a [] (x ∷ y ∷ xs) distinct other m h = absurd h.3
Linked-append cells cells' before value new a (b ∷ addrs) (x ∷ xs) distinct other m h =
    let ne : a ≢ last b addrs = λ e. last-NotIn a b addrs distinct.0 (sym e) in
    let same = m.other a other.0 ne in
    rw same (
      h.0,
      h.1,
      h.2,
      Linked-append cells cells' (some a) value new b addrs xs distinct.1 other.1 m h.3,
    )

appends :
    (cells : ℕ → Node) (b new value : ℕ)
    → b ≢ new
    → let fresh = update cells new (record { content = value; prev = none; next = none }) in
      let linked = update fresh b (record (fresh b) { next = some new }) in
      Appends cells (update linked new (record (linked new) { prev = some b })) b new value
appends cells b new value ne = record {
  other = λ c c_new c_b. ground (arith, c_new, c_b);
  linked = ground (arith, ne);
  added = ground (arith, ne);
}

NotIn-append : (a new : ℕ) (addrs : List ℕ) → NotIn a addrs → new ≢ a → NotIn a (addrs ++ new ∷ [])
NotIn-append a new [] h ne = (ne, tt)
NotIn-append a new (b ∷ addrs) h ne = (h.0, NotIn-append a new addrs h.1 ne)

Distinct-append :
    (new : ℕ) (addrs : List ℕ) → Distinct addrs → NotIn new addrs → Distinct (addrs ++ new ∷ [])
Distinct-append new [] h other = (tt, tt)
Distinct-append new (a ∷ addrs) h other =
    (NotIn-append a new addrs h.0 (λ e. other.0 (sym e)), Distinct-append new addrs h.1 other.1)

last-append : (a new : ℕ) (addrs : List ℕ) → last a (addrs ++ new ∷ []) ≡ new
last-append a new [] = refl
last-append a new (b ∷ addrs) = last-append b new addrs

-- `push_back` with an address that is not in use puts the value at the end.
pub push_back-IsQueue :
    (q : Queue) (addrs xs : List ℕ) (value new : ℕ)
    → IsQueue q addrs xs
    → NotIn new addrs
    → length xs + 1 < 2 ^ 64
    → (q' : Queue) × (push_back value new q ≡ some q')
      × IsQueue q' (addrs ++ new ∷ []) (xs ++ value ∷ [])
unfolding push_back is_empty
push_back-IsQueue q [] [] value new ok other room =
    let empty : (q.size == 0) ≡ true = ground (arith, ok.size) in
    let node : Node = record { content = value; prev = none; next = none } in
    (
      only_node (update q.cells new node) new q,
      rw empty refl,
      record {
        front = refl;
        back = refl;
        size = omega (arith, ok.size);
        count = room;
        distinct = (tt, tt);
        linked = rw (==_refl new) (refl, refl, refl, tt);
      },
    )
push_back-IsQueue q [] (x ∷ xs) value new ok other room = absurd ok.linked
push_back-IsQueue q (a ∷ addrs) [] value new ok other room = absurd ok.linked
push_back-IsQueue q (a ∷ addrs) (x ∷ xs) value new ok other room =
    let filled : (q.size == 0) ≡ false = ground (arith, ok.size) in
    let b = last a addrs in
    let ne : b ≢ new = last-NotIn new a addrs other in
    let node : Node = record { content = value; prev = none; next = none } in
    (
      link_behind (update q.cells new node) b new q,
      rw (filled, ok.back) refl,
      record {
        front = ok.front;
        back = ap some (sym (last-append a new addrs));
        size = omega (arith, ok.size, length-append (x ∷ xs) (value ∷ []));
        count = omega (arith, room, length-append (x ∷ xs) (value ∷ []));
        distinct = Distinct-append new (a ∷ addrs) ok.distinct other;
        linked =
            Linked-append q.cells _ none value new a addrs (x ∷ xs) ok.distinct other
              (appends q.cells b new value ne) ok.linked;
      },
    )

EndsAt-rest :
    (back : Option ℕ) (a : ℕ) (addrs : List ℕ) → EndsAt back (a ∷ addrs) → EndsAt back addrs
EndsAt-rest back a [] h = tt
EndsAt-rest back a (b ∷ addrs) h = h

-- `pop_front_unsafe` on a queue that is not empty takes off the node with the first value.
pub pop_front_unsafe-IsQueue :
    (q : Queue) (a x : ℕ) (addrs xs : List ℕ)
    → IsQueue q (a ∷ addrs) (x ∷ xs)
    → (q' : Queue) × (pop_front_unsafe q ≡ some (a, q'))
      × ((q.cells a).content ≡ x)
      × IsQueue q' addrs xs
unfolding pop_front_unsafe
pop_front_unsafe-IsQueue q a x addrs xs ok = (
  unlink a q,
  rw ok.front refl,
  ok.linked.0,
  record {
    front = ok.linked.2;
    back = EndsAt-rest q.back a addrs ok.back;
    size = omega (arith, ok.size, ok.count);
    count = omega (arith, ok.count);
    distinct = ok.distinct.1;
    linked = rw ok.linked.2 (Linked-front q.cells (some a) addrs xs ok.distinct.1 ok.linked.3);
  },
)
