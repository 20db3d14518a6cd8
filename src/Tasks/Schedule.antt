-- ===== src/Tasks/Schedule.antt =====
-- How often a member stands in the schedule of a repair: pkg/tasks/etcd.go.
use kubeone.Prelude.{
  ℕ, ◌+◌, String, Bool, true, not, ◌&&◌, none, List, [], ◌∷◌, map, count, str_eq, str_eq_refl,
  eq_iff, ◌≡◌, refl, ap, ◌∙◌, sym, inl, inr, arith, Bool-cases, if◌then◌else◌,
}
use kubeone.Tasks.Etcd.{
  Peer, RepairClients, insert, lookup, schedule_failing, schedule_peer, members_to_delete,
}
use kubeone.Tasks.Ring.{lookup-insert, fails_somewhere, is_dead, dead_name}

-- The entries whose key and value pass.
weight : (String → Bool) → (ℕ → Bool) → List (String × ℕ) → ℕ
weight key value [] = 0
weight key value ((k, v) ∷ m) = (if key k && value v then 1 else 0) + weight key value m

-- Every key stands once.
Once : List (String × ℕ) → Type 0
Once [] = Unit
Once ((k, v) ∷ m) = (lookup k m ≡ none) × Once m

weight-same :
    (f g : String → Bool) (t : ℕ → Bool) (m : List (String × ℕ))
    → ((n : String) → f n ≡ g n)
    → weight f t m ≡ weight g t m
unfolding weight
weight-same f g t [] h = refl
weight-same f g t ((k, v) ∷ m) h = ground (arith, h k, weight-same f g t m h)

weight-absent :
    (f : String → Bool) (t : ℕ → Bool) (k : String) (m : List (String × ℕ))
    → lookup k m ≡ none
    → weight (λ n. f n && not (str_eq n k)) t m ≡ weight f t m
unfolding weight
weight-absent f t k [] h = refl
weight-absent f t k ((k', v) ∷ m) h = elim (Bool-cases (str_eq k k')) [
  | inl same ↦ ground (arith, h, same)
  | inr differs ↦
      ground (arith, h, differs, eq_iff k k', eq_iff k' k, weight-absent f t k m (ground arith))
]

weight-insert :
    (f : String → Bool) (t : ℕ → Bool) (k : String) (v : ℕ) (m : List (String × ℕ))
    → Once m
    → weight f t (insert k v m)
      ≡ (if f k && t v then 1 else 0) + weight (λ n. f n && not (str_eq n k)) t m
unfolding weight Once
weight-insert f t k v [] once = omega arith
weight-insert f t k v ((k', v') ∷ m) (fresh, once) = elim (Bool-cases (str_eq k k')) [
  | inl same ↦
      let e : k ≡ k' = (eq_iff k k').0 same in
      let gone = weight-absent f t k m (ap (λ x. lookup x m) e ∙ fresh) in
      ground (arith, same, eq_iff k' k, e, gone, ap f e)
  | inr differs ↦ ground (arith, differs, eq_iff k k', eq_iff k' k, weight-insert f t k v m once)
]

insert-Once : (k : String) (v : ℕ) (m : List (String × ℕ)) → Once m → Once (insert k v m)
unfolding Once
insert-Once k v [] once = (refl, tt)
insert-Once k v ((k', v') ∷ m) (fresh, once) = elim (Bool-cases (str_eq k k')) [
  | inl same ↦
      let e : k ≡ k' = (eq_iff k k').0 same in rw same (ap (λ x. lookup x m) e ∙ fresh, once)
  | inr differs ↦ rw differs (
    ground (arith, differs, eq_iff k k', eq_iff k' k, lookup-insert k k' v m, fresh),
    insert-Once k v m once,
  )
]

insert_again :
    (k : String) (v : ℕ) (m : List (String × ℕ)) → insert k v (insert k v m) ≡ insert k v m
insert_again k v [] = ground (arith, str_eq_refl k)
insert_again k v ((k', v') ∷ m) = ground (arith, str_eq_refl k, insert_again k v m)

-- The members that a repair removes: each dead one behind which no dead one of its name stands.
module _ {W : Type 0} (clients : RepairClients W) (known : List String) where
  pub doomed : List Peer → List ℕ
  doomed [] = []
  doomed (p ∷ ps) =
      if is_dead clients known p && not (dead_name clients known ps p.name)
      then p.id ∷ doomed ps
      else doomed ps

  schedule_failing-insert :
      (p : Peer) (us : List String) (m : List (String × ℕ))
      → schedule_failing clients p us m
        ≡ (if fails_somewhere clients us then insert p.name p.id m else m)
  unfolding schedule_failing fails_somewhere
  schedule_failing-insert p [] m = refl
  schedule_failing-insert p (u ∷ us) m = ground (
    arith,
    insert_again p.name p.id m,
    schedule_failing-insert p us m,
    schedule_failing-insert p us (insert p.name p.id m),
  )

  schedule_peer-insert :
      (p : Peer) (m : List (String × ℕ))
      → schedule_peer clients known p m
        ≡ (if is_dead clients known p then insert p.name p.id m else m)
  unfolding schedule_peer is_dead
  schedule_peer-insert p m =
      ground (arith, insert_again p.name p.id m, schedule_failing-insert p p.client_urls m)

  members_to_delete-weight :
      (t : ℕ → Bool) (ps : List Peer) (m : List (String × ℕ))
      → Once m
      → weight (λ _. true) t (members_to_delete clients known ps m)
        ≡ weight (λ n. not (dead_name clients known ps n)) t m + count t (doomed ps)
  unfolding members_to_delete doomed dead_name
  members_to_delete-weight t [] m once =
      weight-same (λ _. true) (λ n. not (dead_name clients known [] n)) t m (λ n. refl)
      ∙ ground arith
  members_to_delete-weight t (p ∷ ps) m once = elim (Bool-cases (is_dead clients known p)) [
    | inl dead ↦
        let m' = insert p.name p.id m in
        let here : schedule_peer clients known p m ≡ m' =
          schedule_peer-insert p m ∙ ground (arith, dead) in
        let ih = members_to_delete-weight t ps m' (insert-Once p.name p.id m once) in
        let alive = λ (n : String). not (dead_name clients known ps n) in
        let entry = weight-insert alive t p.name p.id m once in
        let rest =
          weight-same (λ n. alive n && not (str_eq n p.name))
            (λ n. not (dead_name clients known (p ∷ ps) n)) t m (λ n. ground (arith, dead)) in
        ap (λ x. weight (λ _. true) t (members_to_delete clients known ps x)) here
        ∙ ground (arith, ih, entry, rest, dead)
    | inr fine ↦
        let here : schedule_peer clients known p m ≡ m =
          schedule_peer-insert p m ∙ ground (arith, fine) in
        let ih = members_to_delete-weight t ps m once in
        let rest =
          weight-same (λ n. not (dead_name clients known ps n))
            (λ n. not (dead_name clients known (p ∷ ps) n)) t m (λ n. ground (arith, fine)) in
        ap (λ x. weight (λ _. true) t (members_to_delete clients known ps x)) here
        ∙ ground (arith, ih, rest, fine)
  ]

  weight-count :
      (t : ℕ → Bool) (m : List (String × ℕ)) → weight (λ _. true) t m ≡ count t (map (λ e. e.1) m)
  unfolding weight
  weight-count t [] = refl
  weight-count t ((k, v) ∷ m) = ground (arith, weight-count t m)

  -- The schedule holds the numbers of the doomed members, each as often as they do.
  pub members_to_delete-doomed :
      (t : ℕ → Bool) (ps : List Peer)
      → count t (map (λ e. e.1) (members_to_delete clients known ps [])) ≡ count t (doomed ps)
  unfolding weight Once
  members_to_delete-doomed t ps =
      let dead = members_to_delete clients known ps [] in
      sym (weight-count t dead) ∙ (members_to_delete-weight t ps [] tt ∙ omega arith)
