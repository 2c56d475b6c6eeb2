-- ===== src/Runner/Cluster/Keys.antt =====
-- The keys and the capacity of the nodes of a cluster.

use text.Mathlib.TextLemmas.{cons-append, nil-append}
use bzy_personal.Prelude.{◌≡◌, refl, ◌∙◌, ℕ, ◌+◌, ◌-◌, ◌^◌, ◌≤◌, ◌<◌, String, List, [], ◌∷◌, arith}
use bzy_personal.Runner.Cluster.{
  NodeInfo, node_key, after_colon, third_part, extract_node_id, add_node, sum_nodes,
}

-- The key of a node gives its identifier back, which may have colons of its own.
pub extract_node_id-node_key : (id : String) → extract_node_id (node_key id) ≡ id
unfolding extract_node_id third_part after_colon
extract_node_id-node_key id =
    rw
      (
        cons-append "b" "zy:nodes:" id,
        cons-append "z" "y:nodes:" id,
        cons-append "y" ":nodes:" id,
        cons-append ":" "nodes:" id,
        cons-append "n" "odes:" id,
        cons-append "o" "des:" id,
        cons-append "d" "es:" id,
        cons-append "e" "s:" id,
        cons-append "s" ":" id,
        cons-append ":" "" id,
        nil-append id,
      )
      refl

abbrev pub free_slots : List NodeInfo → ℕ
free_slots [] = 0
free_slots (n ∷ ns) = (n.concurrency - n.active_tasks) + free_slots ns

-- No node has more tasks than slots, and the slots are an int.
abbrev pub NoneOver : List NodeInfo → Type 0
NoneOver [] = Unit
NoneOver (n ∷ ns) = (n.active_tasks ≤ n.concurrency) × (n.concurrency < 2 ^ 63) × NoneOver ns

one_node :
    (total : ℕ) (n : NodeInfo)
    → n.active_tasks ≤ n.concurrency
    → total + (n.concurrency - n.active_tasks) < 2 ^ 64
    → n.active_tasks < 2 ^ 64
    → add_node total n ≡ total + (n.concurrency - n.active_tasks)
unfolding add_node
one_node total n fits room small = omega arith

-- The capacity of nodes none of which has more tasks than slots is the sum of their free slots, where the sum is an
-- int.
pub sum_nodes-free_slots :
    (total : ℕ) (ns : List NodeInfo)
    → NoneOver ns
    → total + free_slots ns < 2 ^ 63
    → sum_nodes total ns ≡ total + free_slots ns
unfolding sum_nodes
sum_nodes-free_slots total [] h room = omega arith
sum_nodes-free_slots total (n ∷ ns) (fits, small, h) room =
    rw (one_node total n fits (omega (arith, room)) (omega (arith, fits, small))) (
      sum_nodes-free_slots (total + (n.concurrency - n.active_tasks)) ns h (omega (arith, room))
      ∙ omega arith)
