-- ===== src/Tracker.antt =====
-- tracker.hpp and tracker.cpp: the operations on each key are counted and, on demand, published;
-- with `publish` of message_queue.cpp. A message that is handed to ZeroMQ is a value here.
pub mod Counting
pub mod Print
use janosh.Common.{
  ℕ, ◌+◌, ◌%◌, ◌^◌, List, [], ◌∷◌, ◌++◌, Bool, true, false, ◌&&◌, Option, none, some, Bytes, codes,
  bytes_eq, bytes_lt, ◌==◌, if◌then◌else◌,
}

-- `enum PrintDirective`
pub data PrintDirective : Type 0 where
  dont_print print_meta print_full : PrintDirective

-- `enum Operation`
pub data Operation : Type 0 where
  read write delete trigger : Operation

-- `map<string, size_t>`, in the order of its keys
abbrev pub Counts : Type 0
Counts = List (Bytes × ℕ)

pub record Tracker : Type 0 where
  pub reads : Counts
  pub writes : Counts
  pub deletes : Counts
  pub triggers : Counts
  pub print_directive : PrintDirective
  pub do_publish : Bool

-- `Tracker::Tracker()`
abbrev pub new : Tracker
new = record {
  reads = [];
  writes = [];
  deletes = [];
  triggers = [];
  print_directive = dont_print;
  do_publish = false;
}

-- `m.find(key)`
unfoldable pub find : Bytes → Counts → Option ℕ
find key [] = none
find key ((k, n) ∷ m) = if bytes_eq k key then some n else find key m

-- `m[key]++` for a key that is there
increment : Bytes → Counts → Counts
increment key [] = []
increment key ((k, n) ∷ m) =
    if bytes_eq k key then (k, (n + 1) % 2 ^ 64) ∷ m else (k, n) ∷ increment key m

-- `m[key] = n` for a key that is not there
insert : Bytes → ℕ → Counts → Counts
insert key n [] = (key, n) ∷ []
insert key n ((k, j) ∷ m) =
    if bytes_lt key k then (key, n) ∷ (k, j) ∷ m else (k, j) ∷ insert key n m

-- The branch of `update` that counts.
unfoldable pub count : Bytes → Counts → Counts
unfolding find increment insert
count key m = elim (find key m) [ some n ↦ increment key m | none ↦ insert key 1 m ]

-- `get(op)`
abbrev pub get : Operation → Tracker → Counts
get read t = t.reads
get write t = t.writes
get delete t = t.deletes
get trigger t = t.triggers

abbrev pub set_counts : Operation → Counts → Tracker → Tracker
set_counts read m t = record t { reads = m }
set_counts write m t = record t { writes = m }
set_counts delete m t = record t { deletes = m }
set_counts trigger m t = record t { triggers = m }

-- A C string ends at its first zero byte.
unfoldable pub c_str : Bytes → Bytes
c_str [] = []
c_str (c ∷ s) = if c == 0 then [] else c ∷ c_str s

-- The message of `MessageQueue::publish`.
unfoldable pub message : Bytes → Bytes → Bytes → Bytes
message key op value = key ++ b' ' ∷ (op ++ b' ' ∷ c_str value)

-- What `update` publishes.
unfoldable pub publication : Tracker → Bytes → Bytes → Operation → List Bytes
publication t key value write = if t.do_publish then message key (codes "W") value ∷ [] else []
publication t key value delete = if t.do_publish then message key (codes "D") value ∷ [] else []
publication t key value _ = []

abbrev pub counts_on : PrintDirective → Bool
counts_on dont_print = false
counts_on _ = true

-- `update`: the tracker and the messages
unfoldable pub update : Tracker → Bytes → Bytes → Operation → Tracker × List Bytes
unfolding count publication
update t key value op = (
  if counts_on t.print_directive then set_counts op (count key (get op t)) t else t,
  publication t key value op,
)

-- `get(s, op)`: `operator[]` puts a zero where the key is not there.
unfoldable pub get_count : Tracker → Bytes → Operation → Tracker × ℕ
unfolding find insert
get_count t key op = elim (find key (get op t)) [
  | some n ↦ (t, n)
  | none ↦ (set_counts op (insert key 0 (get op t)) t, 0)
]

-- What `reset` leaves; what it prints is `Print.print`.
unfoldable pub reset : Tracker → Tracker
reset t = record t { reads = []; writes = []; deletes = []; triggers = [] }

-- `instances_`: the tracker of each thread that has asked for one
abbrev pub Instances : Type 0
Instances = List (ℕ × Tracker)

find_instance : ℕ → Instances → Option Tracker
find_instance tid [] = none
find_instance tid ((i, t) ∷ ts) = if i == tid then some t else find_instance tid ts

-- `getInstancePerThread`
unfoldable pub get_instance_per_thread : ℕ → Instances → Instances × Tracker
unfolding find_instance
get_instance_per_thread tid ts = elim (find_instance tid ts) [
  | some t ↦ (ts, t)
  | none ↦ ((tid, new) ∷ ts, new)
]
