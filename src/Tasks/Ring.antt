-- ===== src/Tasks/Ring.antt =====
-- Which etcd members and nodes a repair removes: pkg/tasks/etcd.go.
use kubeone.Prelude.{
  ℕ, String, Bool, false, not, ◌||◌, ◌&&◌, Option, none, some, List, [], ◌∷◌, any, map, keep,
  is_some, str_eq, eq_iff, ◌≡◌, inl, inr, refl, ap, ◌∙◌, arith, Bool-cases, if◌then◌else◌,
}
use kubeone.Tasks.Etcd.{
  Peer, RepairClients, has_text, insert, lookup, url_hostnames, schedule_failing, schedule_peer,
  members_to_delete, deletes_node, remaining_members,
}

pub lookup-insert :
    (k n : String) (v : ℕ) (m : List (String × ℕ))
    → lookup n (insert k v m) ≡ (if str_eq n k then some v else lookup n m)
lookup-insert k n v [] = ground arith
lookup-insert k n v ((k', v') ∷ m) = elim (Bool-cases (str_eq k k')) [
  | inl same ↦ let e : k ≡ k' = (eq_iff k k').0 same in ground arith
  | inr other ↦ elim (Bool-cases (str_eq n k)) [
    | inl here ↦ let e : n ≡ k = (eq_iff n k).0 here in ground (arith, lookup-insert k n v m)
    | inr there ↦ ground (arith, lookup-insert k n v m)
  ]
]

module _ {W : Type 0} (clients : RepairClients W) where
  -- Whether the status of some endpoint fails.
  unfoldable pub fails_somewhere : List String → Bool
  fails_somewhere [] = false
  fails_somewhere (u ∷ us) =
      (is_some (clients.parse_hostname u) && clients.status_fails u) || fails_somewhere us

  -- Whether a member is dead: an endpoint fails, or neither its name nor the host of an endpoint
  -- belongs to a configured host.
  unfoldable pub is_dead : List String → Peer → Bool
  is_dead known p =
      fails_somewhere p.client_urls
      || not (any (λ i. has_text i known) (p.name ∷ url_hostnames clients p.client_urls))

  -- The number of the last dead member of a name.
  pub last_dead : List String → String → List Peer → Option ℕ → Option ℕ
  last_dead known n [] found = found
  last_dead known n (p ∷ ps) found =
      last_dead known n ps (if is_dead known p && str_eq n p.name then some p.id else found)

  schedule_failing-lookup :
      (p : Peer) (n : String) (us : List String) (m : List (String × ℕ))
      → lookup n (schedule_failing clients p us m)
        ≡ (if fails_somewhere us && str_eq n p.name then some p.id else lookup n m)
  unfolding schedule_failing fails_somewhere
  schedule_failing-lookup p n [] m = ground arith
  schedule_failing-lookup p n (u ∷ us) m = ground (
    arith,
    schedule_failing-lookup p n us m,
    schedule_failing-lookup p n us (insert p.name p.id m),
    lookup-insert p.name n p.id m,
  )

  schedule_peer-lookup :
      (known : List String) (p : Peer) (n : String) (m : List (String × ℕ))
      → lookup n (schedule_peer clients known p m)
        ≡ (if is_dead known p && str_eq n p.name then some p.id else lookup n m)
  unfolding schedule_peer is_dead
  schedule_peer-lookup known p n m =
      let m' = schedule_failing clients p p.client_urls m in
      ground (arith, schedule_failing-lookup p n p.client_urls m, lookup-insert p.name n p.id m')

  -- After the loop over the ring, the map of members to delete leads from a name to the last dead
  -- member of that name, and to what it led to before the loop if there is none.
  pub members_to_delete-lookup :
      (known : List String) (n : String) (ps : List Peer) (m : List (String × ℕ))
      → lookup n (members_to_delete clients known ps m) ≡ last_dead known n ps (lookup n m)
  unfolding members_to_delete last_dead
  members_to_delete-lookup known n [] m = refl
  members_to_delete-lookup known n (p ∷ ps) m =
      members_to_delete-lookup known n ps (schedule_peer clients known p m)
      ∙ ap (last_dead known n ps) (schedule_peer-lookup known p n m)

  kept-has_text :
      (alive : String → Bool) (n : String) (ns : List String)
      → has_text n (keep alive ns) ≡ (alive n && has_text n ns)
  kept-has_text alive n [] = ground arith
  kept-has_text alive n (x ∷ xs) = elim (Bool-cases (str_eq n x)) [
    | inl same ↦
        let e : n ≡ x = (eq_iff n x).0 same in ground (arith, kept-has_text alive n xs, ap alive e)
    | inr other ↦ ground (arith, kept-has_text alive n xs)
  ]

  -- Whether a dead member has the name.
  unfoldable pub dead_name : List String → List Peer → String → Bool
  dead_name known ps n = any (λ p. is_dead known p && str_eq n p.name) ps

  is_some-last_dead :
      (known : List String) (n : String) (ps : List Peer) (found : Option ℕ)
      → is_some (last_dead known n ps found) ≡ (dead_name known ps n || is_some found)
  unfolding last_dead dead_name
  is_some-last_dead known n [] found = refl
  is_some-last_dead known n (p ∷ ps) found =
      ground (arith, is_some-last_dead known n ps found, is_some-last_dead known n ps (some p.id))

  -- A node is to be deleted unless a member has its name and none that has is dead.
  pub deletes_node-names :
      (known : List String) (ps : List Peer) (n : String)
      → let dead = members_to_delete clients known ps [] in
        deletes_node clients dead (remaining_members clients ps dead) n
        ≡ not (has_text n (map (λ p. p.name) ps) && not (dead_name known ps n))
  unfolding deletes_node remaining_members
  deletes_node-names known ps n =
      let dead = members_to_delete clients known ps [] in
      ground (
        arith,
        members_to_delete-lookup known n ps [],
        is_some-last_dead known n ps none,
        kept-has_text (λ k. not (is_some (lookup k dead))) n (map (λ p. p.name) ps),
      )
