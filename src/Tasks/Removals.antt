-- ===== src/Tasks/Removals.antt =====
-- What a repair removes from the cluster: pkg/tasks/etcd.go.
use kubeone.Prelude.{ℕ, String, Bool, not, ◌&&◌, List, [], ◌∷◌, ◌++◌, map, keep, count, ◌≡◌, inr}
use kubeone.Tasks.Etcd.{Peer, RepairClients, has_text}
use kubeone.Tasks.Ring.{dead_name}

-- `removed` lists the members whose removal was requested, and `deleted` the nodes whose deletion
-- was, in order, whether or not the request succeeded. A loop over a map takes each entry once, in
-- any order, and neither request changes the answer to a listing of the nodes.
pub record RepairLog {W : Type 0} (clients : RepairClients W) (removed : W → List ℕ)
    (deleted : W → List String) (nodes : List String) : Type 0 where
  pub remove_logged :
      (id : ℕ) (w : W) → removed (clients.member_remove id w).1 ≡ removed w ++ (id ∷ [])
  pub remove_not : (id : ℕ) (w : W) → deleted (clients.member_remove id w).1 ≡ deleted w
  pub delete_logged :
      (n : String) (w : W) → deleted (clients.delete_node n w).1 ≡ deleted w ++ (n ∷ [])
  pub delete_not : (n : String) (w : W) → removed (clients.delete_node n w).1 ≡ removed w
  pub arranged :
      (t : ℕ → Bool) (m : List (String × ℕ))
      → count t (map (λ e. e.1) (clients.arrange m)) ≡ count t (map (λ e. e.1) m)
  pub listed : (w : W) → clients.control_plane_nodes w ≡ inr nodes

module _ {W : Type 0} (clients : RepairClients W) where
  -- The nodes without a member of their name, and those with a dead one.
  pub stale_nodes : List String → List Peer → List String → List String
  stale_nodes known peers nodes =
      keep
        (λ n. not (has_text n (map (λ p. p.name) peers) && not (dead_name clients known peers n)))
        nodes
