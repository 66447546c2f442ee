-- ===== src/Timer.antt =====
-- The delta list of the timer process in tcpd.c (of which proj1/timmer.c is an earlier version).
-- Each node holds the time that it waits after the node before it.
pub mod Deadlines
pub mod Insertion
pub mod Expiry
pub mod Pending
pub mod Removal
mod Tests
use osu_cse.Base.{ℕ, ◌+◌, ◌/◌, ◌%◌, Bool, true, false, List, [], ◌∷◌, ◌==◌, if◌then◌else◌, ◌&&◌}
use osu_cse.Base.Int.{ℤ, pos, pos_part, neg_part}
use osu_cse.Timeval.{Timeval, Difference, from_micros, timeval_subtract, timeval_add}

-- `TimeNode`. `port_num` and `info` are never read, and the links are the order of the list.
pub record TimeNode : Type 0 where
  pub id : ℕ
  pub delta_time : Timeval

-- `head` and `lasttime`.
pub record Timers : Type 0 where
  pub nodes : List TimeNode
  pub lasttime : Timeval

unfoldable pub find_timenode : List TimeNode → ℕ → Bool
find_timenode [] id = false
find_timenode (node ∷ rest) id = if node.id == id then true else find_timenode rest id

-- The search for the insert point. A comparison writes its second time; then the node that waits
-- longer is taken down by the other's wait.
pub insert_node : TimeNode → List TimeNode → List TimeNode
insert_node new [] = new ∷ []
insert_node new (node ∷ rest) =
    let test = timeval_subtract new.delta_time node.delta_time in
    let before = timeval_subtract test.y new.delta_time in
    let later = timeval_subtract new.delta_time test.y in
    elim test.negative [
      | true ↦
          record new { delta_time = before.y } ∷ record node { delta_time = before.result } ∷ rest
      | false ↦
          record node { delta_time = later.y }
          ∷ insert_node (record new { delta_time = later.result }) rest
    ]

-- `now` is what `gettimeofday` gives.
unfoldable pub add_timenode : Timers → ℕ → ℕ → Timeval → Timers
add_timenode t id d now = if find_timenode t.nodes id then t else elim t.nodes [
  | [] ↦ record { nodes = record { id = id; delta_time = from_micros d } ∷ []; lasttime = now }
  | node ∷ rest ↦ record t {
    nodes = insert_node (record { id = id; delta_time = from_micros d }) (node ∷ rest);
  }
]

-- What a node that leaves the list hands on to the next.
unfoldable pub hand_on : Timeval → List TimeNode → List TimeNode
hand_on d [] = []
hand_on d (node ∷ rest) = record node { delta_time = timeval_add node.delta_time d } ∷ rest

unfoldable pub remove_node : List TimeNode → ℕ → List TimeNode
unfolding hand_on
remove_node [] id = []
remove_node (node ∷ rest) id =
    if node.id == id then hand_on node.delta_time rest else node ∷ remove_node rest id

unfoldable pub delete_timenode : List TimeNode → ℕ → List TimeNode
delete_timenode nodes id = if find_timenode nodes id then remove_node nodes id else nodes

-- The loop of `update_time_list` and the step after it: the ids written to the driver, in order,
-- and the nodes that stay.
unfoldable pub expire : Timeval → List TimeNode → List ℕ × List TimeNode
expire dtime [] = ([], [])
expire dtime (node ∷ rest) =
    let test = timeval_subtract dtime node.delta_time in
    let passed = timeval_subtract dtime test.y in
    let stays = timeval_subtract test.y dtime in
    elim test.negative [
      | true ↦ ([], record node { delta_time = stays.result } ∷ rest)
      | false ↦ let (ids, nodes) = expire passed.result rest in (node.id ∷ ids, nodes)
    ]

-- Both parts zero, the test for a clock that was never read.
abbrev pub is_zero : ℤ → Bool
is_zero a = pos_part a + neg_part a == 0

unfoldable pub elapsed : Timers → Timeval → Timeval
elapsed t now =
    if is_zero t.lasttime.tv_sec && is_zero t.lasttime.tv_usec
    then t.lasttime
    else (timeval_subtract now t.lasttime).result

unfoldable pub update_time_list : Timers → Timeval → List ℕ × Timers
unfolding elapsed
update_time_list t now =
    let (ids, nodes) = expire (elapsed t now) t.nodes in
    (ids, record { nodes = nodes; lasttime = now })
