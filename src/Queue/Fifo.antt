-- ===== src/Queue/Fifo.antt =====
-- lib/queue.c: a queue refines a list: what goes in at the back comes out at the front, in order.
use zmap_embedded_ip.Base.{
  ℕ, ◌+◌, ◌^◌, ◌<◌, ◌≡◌, refl, true, false, Option, none, some, List, [], ◌∷◌, ◌++◌, length,
  length-append, ◌==◌, arith,
}
use zmap_embedded_ip.Queue.{Queue, waits, returns, is_empty, push_back, pop_front_unsafe, pop_front}
use zmap_embedded_ip.Queue.Linked.{NotIn, IsQueue, push_back-IsQueue, pop_front_unsafe-IsQueue}

-- What the threads do, in the order of the lock: a value is put into a node at an address, or a
-- value is taken.
pub data Op : Type 0 where
  push : ℕ → ℕ → Op
  pop : Op

-- The content of the node that `pop_front` returns, and the rest of the run.
abbrev pub taken : ℕ → Option (List ℕ) → Option (List ℕ)
taken x none = none
taken x (some xs) = some (x ∷ xs)

-- The values that are taken, up to where a thread waits on an empty queue; `none` is a fault.
unfoldable pub run : List Op → Queue → Option (List ℕ)
run [] q = some []
run (push value new ∷ ops) q = elim (push_back value new q) [ none ↦ none | some q' ↦ run ops q' ]
run (pop ∷ ops) q = elim (pop_front q) [
  | none ↦ none
  | some waits ↦ some []
  | some (returns (a, q')) ↦ taken (q.cells a).content (run ops q')
]

-- The same on a list.
abbrev pub run_list : List Op → List ℕ → List ℕ
run_list [] xs = []
run_list (push value new ∷ ops) xs = run_list ops (xs ++ value ∷ [])
run_list (pop ∷ ops) [] = []
run_list (pop ∷ ops) (x ∷ xs) = x ∷ run_list ops xs

abbrev rest : List ℕ → List ℕ
rest [] = []
rest (a ∷ addrs) = addrs

-- The allocator gives no address that is in use.
abbrev pub Allocates : List Op → List ℕ → Type 0
Allocates [] addrs = Unit {0}
Allocates (push value new ∷ ops) addrs = NotIn new addrs × Allocates ops (addrs ++ new ∷ [])
Allocates (pop ∷ ops) addrs = Allocates ops (rest addrs)

pop_front-waits : (q : Queue) (addrs : List ℕ) → IsQueue q addrs [] → pop_front q ≡ some waits
unfolding pop_front is_empty
pop_front-waits q addrs ok =
    let empty : (q.size == 0) ≡ true = ground (arith, ok.size) in rw empty refl

pop_front-returns :
    (q q' : Queue) (a x : ℕ) (addrs xs : List ℕ)
    → IsQueue q addrs (x ∷ xs)
    → pop_front_unsafe q ≡ some (a, q')
    → pop_front q ≡ some (returns (a, q'))
unfolding pop_front is_empty
pop_front-returns q q' a x addrs xs ok e =
    let filled : (q.size == 0) ≡ false = ground (arith, ok.size) in rw (pop_front, filled, e) refl

-- Any sequence of `push_back` and `pop_front` on a queue, of fewer than 2^64 steps and values
-- together, takes the values that the same sequence takes from a list, without a fault and up to
-- where it waits. A new node never stands where one of the queue does; the memory of a node may
-- be used again once its value is taken.
pub run-IsQueue :
    (ops : List Op) (q : Queue) (addrs xs : List ℕ)
    → IsQueue q addrs xs
    → Allocates ops addrs
    → length xs + length ops < 2 ^ 64
    → run ops q ≡ some (run_list ops xs)
unfolding run
run-IsQueue [] q addrs xs ok alloc room = refl
run-IsQueue (push value new ∷ ops) q addrs xs ok alloc room =
    let (q', pushed, ok') = push_back-IsQueue q addrs xs value new ok alloc.0 (omega arith) in
    let later =
      run-IsQueue ops q' (addrs ++ new ∷ []) (xs ++ value ∷ []) ok' alloc.1
        (omega (arith, length-append xs (value ∷ []))) in
    rw (run, pushed) later
run-IsQueue (pop ∷ ops) q addrs [] ok alloc room = rw (run, pop_front-waits q addrs ok) refl
run-IsQueue (pop ∷ ops) q [] (x ∷ xs) ok alloc room = absurd ok.linked
run-IsQueue (pop ∷ ops) q (a ∷ addrs) (x ∷ xs) ok alloc room =
    let (q', took, content, ok') = pop_front_unsafe-IsQueue q a x addrs xs ok in
    let returned = pop_front-returns q q' a x (a ∷ addrs) xs ok took in
    let later = run-IsQueue ops q' addrs xs ok' alloc (omega arith) in
    rw (run, returned, content, later) refl
