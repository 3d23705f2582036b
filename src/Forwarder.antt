-- ===== src/Forwarder.antt =====
-- v4/forwarder/forwarder.go: bidirectional forwarding between pairs of connections, as the
-- interleavings of the goroutines of any number of `Start` calls.
pub mod Machine
pub mod Tally
pub mod Moves
pub mod Balance
pub mod Counters
pub mod Finish
pub mod Limit
pub mod Progress
pub mod Unblocks
pub mod Race
mod Tests
use tlswrapper.Base.{
  ℕ, ◌+◌, ◌-◌, ◌%◌, ◌^◌, Bool, true, false, ◌||◌, Option, none, some, List, [], ◌∷◌, ◌++◌, ◌==◌,
  if◌then◌else◌, get_elem?, set,
}
use tlswrapper.Base.Int.{ℤ, pos, negsuc, ◌+ℤ◌}
use Machine.{
  Pair, Effect, nothing, count_inc, count_dec, half_inc, half_dec, track, untrack, close_both, View,
  Thread, step_pair, checking, waiting,
}

-- The shared state. `conn` is the map of tracked connections, `closed` the connections whose
-- `Close` was called. The counters are atomic; `stopping` says that the group is closed.
pub record Forwarder : Type 0 where
  pub conn : ℕ → Bool
  pub closed : ℕ → Bool
  pub count : ℕ
  pub limit : ℕ
  pub num_half_open : ℤ
  pub stopping : Bool
  pub pairs : List Pair

-- `New`
unfoldable pub new : ℕ → Forwarder
new max_conn = record {
  conn = λ _. false;
  closed = λ _. false;
  count = 0;
  limit = max_conn;
  num_half_open = pos 0;
  stopping = false;
  pairs = [];
}

abbrev pub assign : ℕ → Bool → (ℕ → Bool) → ℕ → Bool
assign k v m j = if j == k then v else m j

-- An action of the pair that forwards between `a` and `d`. `f.count` holds 1 for the pair when it
-- is decremented, so the truncated `-` is exact.
unfoldable pub apply : Effect → ℕ → ℕ → Forwarder → Forwarder
apply nothing a d f = f
apply count_inc a d f = record f { count = f.count + 1 }
apply count_dec a d f = record f { count = f.count - 1 }
apply half_inc a d f = record f { num_half_open = f.num_half_open +ℤ pos 1 }
apply half_dec a d f = record f { num_half_open = f.num_half_open +ℤ negsuc 0 }
apply track a d f = record f { conn = assign d true (assign a true f.conn) }
apply untrack a d f = record f { conn = assign d false (assign a false f.conn) }
apply close_both a d f = record f { closed = assign d true (assign a true f.closed) }

abbrev pub view : Forwarder → View
view f = record { stopping = f.stopping; count = f.count; limit = f.limit }

pub data Event : Type 0 where
  start : (accepted dialed : ℕ) (accepted_cw dialed_cw handler : Bool) → Event
  run : (i : ℕ) → Thread → (choice : Bool) → Event
  set_limit : ℕ → Event
  stop_group : Event
  close_all : Event

abbrev pub new_pair : ℕ → ℕ → Bool → Bool → Bool → Pair
new_pair a d acw dcw h = record {
  accepted = a;
  dialed = d;
  accepted_half_close = acw;
  dialed_half_close = dcw;
  has_handler = h;
  starter = checking;
  back = waiting;
  forth = waiting;
  remaining = 2;
  closed_once = false;
  write_closed_calls = 0;
  closed_calls = 0;
}

unfoldable pub run_pair : Forwarder → ℕ → Thread → Bool → Option Pair → Forwarder
run_pair f i t b none = f
run_pair f i t b (some p) =
    let (e, q) = step_pair (view f) t b p in
    record (apply e p.accepted p.dialed f) { pairs = set f.pairs i q }

-- `close_all` is `Close`, which closes what the map holds.
unfoldable pub step : Forwarder → Event → Forwarder
unfolding run_pair
step f (start a d acw dcw h) = record f { pairs = f.pairs ++ (new_pair a d acw dcw h ∷ []) }
step f (run i t b) = run_pair f i t b (get_elem? f.pairs i)
step f (set_limit n) = record f { limit = n }
step f stop_group = record f { stopping = true }
step f close_all = record f { closed = λ c. f.closed c || f.conn c }

unfoldable pub run_all : Forwarder → List Event → Forwarder
run_all f [] = f
run_all f (e ∷ es) = run_all (step f e) es

-- `HalfOpenCount`, as `Server.Stats` of v4/server.go reports it: a conversion to uint32.
unfoldable pub half_open_u32 : Forwarder → ℕ
half_open_u32 f = elim f.num_half_open [
  | pos n ↦ n % 2 ^ 32
  | negsuc n ↦ (2 ^ 32 - 1 - n % 2 ^ 32) % 2 ^ 32
]
