-- ===== src/Runner/Cluster.antt =====
-- apps/bzy-runner/internal/cluster/cluster.go: the nodes that are alive, and their capacity. The Redis client and the
-- JSON codec of a node are parameters.
pub mod Keys
use Prim.Native.Char.{code}
use Prim.Native.String
use bzy_personal.Prelude.{
  ℕ, zero, suc, ◌+◌, ◌-◌, ◌%◌, ◌^◌, Bool, true, false, String, List, [], ◌∷◌, ◌++◌, Option, none,
  some, ◌==◌, ltb, if◌then◌else◌,
}
use bzy_personal.Prelude.Texts.{◌<>◌}
use bzy_personal.Errors.{Error, text, wrap, Result, ok, err}
use bzy_personal.Runtime.{Env}

-- `heartbeat.NodeInfo`
pub record NodeInfo : Type 0 where
  pub id : String
  pub hostname : String
  pub addr : String
  pub concurrency : ℕ
  pub active_tasks : ℕ
  pub queued_tasks : ℕ
  pub version : String
  pub started_at : ℕ
  pub last_seen : ℕ

-- A page of SCAN is its keys and the next cursor, which is 0 at the end.
pub record Redis (W : Type 0) : Type 0 where
  pub scan : ℕ → W → Result (List String × ℕ) × W
  pub get : String → W → Result String × W
  pub unmarshal : String → Result NodeInfo

abbrev pub node_key : String → String
node_key id = "bzy:nodes:" <> id

-- The text behind the first colon.
unfoldable pub after_colon : String → Option String
after_colon String.[] = none
after_colon (String.◌∷◌ c s) = let rest = after_colon s in if code c == 58 then some s else rest

third_part : String → Option String → String
third_part key none = key
third_part key (some s) = elim (after_colon s) [ none ↦ key | some t ↦ t ]

-- `ExtractNodeID`: the third of at most three parts between colons.
unfoldable pub extract_node_id : String → String
unfolding third_part
extract_node_id key = third_part key (after_colon key)

-- `total += n.Concurrency - n.ActiveTasks`, for an int by its 64 bits: a node with more tasks than slots takes away.
unfoldable pub add_node : ℕ → NodeInfo → ℕ
add_node total n = (total + n.concurrency + (2 ^ 64 - n.active_tasks % 2 ^ 64)) % 2 ^ 64

unfoldable pub sum_nodes : ℕ → List NodeInfo → ℕ
unfolding add_node
sum_nodes total [] = total
sum_nodes total (n ∷ ns) = sum_nodes (add_node total n) ns

-- The filter of `HealthyNodes`: `LastSeen` is later than the time to live ago.
unfoldable pub healthy_of : ℕ → ℕ → List NodeInfo → List NodeInfo
healthy_of now ttl [] = []
healthy_of now ttl (n ∷ ns) =
    let rest = healthy_of now ttl ns in if ltb now (n.last_seen + ttl) then n ∷ rest else rest

module _ {W : Type 0} (env : Env W) (redis : Redis W) where
  after_page :
      (ℕ → List String → W → Option (Result (List String) × W))
      → List String
      → Result (List String × ℕ) × W
      → Option (Result (List String) × W)
  after_page again keys (err e, w) = some (err (wrap "cluster scan: " e), w)
  after_page again keys (ok (batch, next), w) =
      if next == 0 then some (ok (keys ++ batch), w) else again next (keys ++ batch) w

  -- The loop over the pages, for so many of them. `none` is a scan that has not come to its end.
  scan_from : ℕ → ℕ → List String → W → Option (Result (List String) × W)
  unfolding after_page
  scan_from zero cursor keys w = none
  scan_from (suc pages) cursor keys w =
      after_page (λ c ks v. scan_from pages c ks v) keys (redis.scan cursor w)

  kept : Result NodeInfo → List NodeInfo → List NodeInfo
  kept (ok n) ns = n ∷ ns
  kept (err e) ns = ns

  decoded : Result String → Result NodeInfo
  decoded (ok raw) = redis.unmarshal raw
  decoded (err e) = err e

  -- The second loop of `ListNodes`: a key that is gone or cannot be read is passed over.
  read_nodes : List String → W → List NodeInfo × W
  unfolding kept decoded
  read_nodes [] w = ([], w)
  read_nodes (key ∷ keys) w =
      let (raw, w1) = redis.get key w in
      let (ns, w2) = read_nodes keys w1 in (kept (decoded raw) ns, w2)

  after_scan : Option (Result (List String) × W) → Option (Result (List NodeInfo) × W)
  unfolding read_nodes
  after_scan none = none
  after_scan (some (err e, w)) = some (err e, w)
  after_scan (some (ok keys, w)) = let (ns, w') = read_nodes keys w in some (ok ns, w')

  -- `ListNodes`
  unfoldable pub list_nodes : ℕ → W → Option (Result (List NodeInfo) × W)
  unfolding scan_from after_scan
  list_nodes pages w = after_scan (scan_from pages 0 [] w)

  found_node : String → Result String × W → Result NodeInfo × W
  found_node id (err e, w) = (err (text ("node not found: " <> id)), w)
  found_node id (ok raw, w) = (redis.unmarshal raw, w)

  -- `GetNode`
  unfoldable pub get_node : String → W → Result NodeInfo × W
  unfolding found_node
  get_node id w = found_node id (redis.get (node_key id) w)

  after_list : ℕ → Option (Result (List NodeInfo) × W) → Option (Result (List NodeInfo) × W)
  unfolding healthy_of
  after_list ttl none = none
  after_list ttl (some (err e, w)) = some (err e, w)
  after_list ttl (some (ok ns, w)) =
      let (now, w') = env.now w in some (ok (healthy_of now ttl ns), w')

  -- `HealthyNodes`
  unfoldable pub healthy_nodes : ℕ → ℕ → W → Option (Result (List NodeInfo) × W)
  unfolding list_nodes after_list
  healthy_nodes pages ttl w = after_list ttl (list_nodes pages w)

  capacity_of : Option (Result (List NodeInfo) × W) → Option (Result ℕ × W)
  unfolding sum_nodes
  capacity_of none = none
  capacity_of (some (err e, w)) = some (err e, w)
  capacity_of (some (ok ns, w)) = some (ok (sum_nodes 0 ns), w)

  -- `TotalCapacity`
  unfoldable pub total_capacity : ℕ → W → Option (Result ℕ × W)
  unfolding healthy_nodes capacity_of
  total_capacity pages w = capacity_of (healthy_nodes pages 30000000000 w)
