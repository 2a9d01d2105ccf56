-- ===== src/Queue.antt =====
-- lib/queue.c, lib/queue.h: the queue of linked nodes between the threads of a tool. The mutex is
-- held for all of an operation, so each is one step; NULL is `none`.
pub mod Linked
pub mod Fifo
use zmap_embedded_ip.Base.{
  ℕ, ◌+◌, ◌-◌, ◌^◌, Bool, true, false, Option, none, some, ◌==◌, if◌then◌else◌, ◌>>=◌, u64,
}

-- `znode_t`; the `void *` of the data is a number.
pub record Node : Type 0 where
  pub content : ℕ
  pub prev : Option ℕ
  pub next : Option ℕ

-- `zqueue_t` with the memory of the nodes.
pub record Queue : Type 0 where
  pub front : Option ℕ
  pub back : Option ℕ
  pub size : ℕ
  pub cells : ℕ → Node

-- A write to one node.
abbrev pub update : (ℕ → Node) → ℕ → Node → ℕ → Node
update cells a node b = if b == a then node else cells b

unfoldable pub queue_init : (ℕ → Node) → Queue
queue_init cells = record { front = none; back = none; size = 0; cells = cells }

unfoldable pub is_empty : Queue → Bool
is_empty q = q.size == 0

-- The two branches of `push_back`: the new node is the only one, or is linked behind `b`.
unfoldable pub only_node : (ℕ → Node) → ℕ → Queue → Queue
only_node cells new q = record {
  front = some new;
  back = some new;
  size = u64 (q.size + 1);
  cells = cells;
}

unfoldable pub link_behind : (ℕ → Node) → ℕ → ℕ → Queue → Queue
link_behind cells b new q =
    let linked = update cells b (record (cells b) { next = some new }) in
    record {
      front = q.front;
      back = some new;
      size = u64 (q.size + 1);
      cells = update linked new (record (linked new) { prev = some b });
    }

-- The new node is at the address `new`; `none` is a write through NULL.
unfoldable pub push_back : ℕ → ℕ → Queue → Option Queue
unfolding is_empty only_node link_behind
push_back value new q =
    let node : Node = record { content = value; prev = none; next = none } in
    let cells = update q.cells new node in
    if is_empty q
    then some (only_node cells new q)
    else elim q.back [ none ↦ none | some b ↦ some (link_behind cells b new q) ]

-- The memory when a node has become the front.
abbrev pub clear_prev : (ℕ → Node) → Option ℕ → ℕ → Node
clear_prev cells none = cells
clear_prev cells (some f) = update cells f (record (cells f) { prev = none })

unfoldable pub unlink : ℕ → Queue → Queue
unlink temp q = record {
  front = (q.cells temp).next;
  back = q.back;
  size = u64 (q.size + 2 ^ 64 - 1);
  cells = clear_prev q.cells (q.cells temp).next;
}

-- The node that is taken off; `none` is a read through NULL.
unfoldable pub pop_front_unsafe : Queue → Option (ℕ × Queue)
unfolding unlink
pop_front_unsafe q = elim q.front [ none ↦ none | some temp ↦ some (temp, unlink temp q) ]

-- What a thread meets that may have to wait on the condition variable.
pub data Waits {ℓ} (A : Type ℓ) : Type ℓ where
  waits : Waits A
  returns : A → Waits A

unfoldable pub pop_front : Queue → Option (Waits (ℕ × Queue))
unfolding is_empty pop_front_unsafe
pop_front q =
    if is_empty q
    then some waits
    else elim (pop_front_unsafe q) [ none ↦ none | some r ↦ some (returns r) ]

unfoldable pub get_front : Queue → Waits (Option ℕ)
unfolding is_empty
get_front q = if is_empty q then waits else returns q.front

unfoldable pub get_back : Queue → Waits (Option ℕ)
unfolding is_empty
get_back q = if is_empty q then waits else returns q.back

unfoldable pub get_size : Queue → ℕ
get_size q = q.size
