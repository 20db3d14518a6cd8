-- ===== src/State/Quorum.antt =====
-- The etcd quorum survives the recommended removals: `SafeToDeleteHosts` of pkg/state/cluster.go.
use kubeone.Prelude.{
  ◌+◌, ◌-◌, ◌≤◌, ◌<◌, String, Bool, false, ◌&&◌, List, [], ◌∷◌, ◌++◌, length, take, All, All-map,
  All-both, length-take, ◌≡◌, ◌≢◌, refl, sym, ◌∙◌, subst, arith, if◌then◌else◌, str_eq, eq_iff,
  Bool-cases, inl, inr,
}
use kubeone.State.Status.{container_healthy}
use kubeone.State.Host.{Host}
use kubeone.State.Cluster.{Cluster, names_where, healthy_etcd, quorum, safe_to_delete_hosts}
use kubeone.State.Removal.{
  etcd_failed, api_server_failed, worker_failed, safe_to_delete_hosts-parts,
}

module _ {V : Type 0} where
  abbrev pub named : Host V → String
  named h = h.config.hostname

  drop_name : String → List (Host V) → List (Host V)
  drop_name n [] = []
  drop_name n (h ∷ hs) = let rest = drop_name n hs in if str_eq (named h) n then rest else h ∷ rest

  -- The hosts that are left once every host with one of the names is removed.
  pub remaining : List String → List (Host V) → List (Host V)
  unfolding drop_name
  remaining [] hs = hs
  remaining (n ∷ ns) hs = remaining ns (drop_name n hs)

  -- No two hosts share a name.
  abbrev pub Distinct : List (Host V) → Type 0
  Distinct [] = Unit
  Distinct (h ∷ hs) = All (λ k. named k ≢ named h) hs × Distinct hs

  abbrev member_healthy : Host V → Bool
  member_healthy h = h.is_in_cluster && container_healthy h.etcd

  -- No healthy etcd member has this name.
  abbrev NoMember : List (Host V) → String → Type 0
  NoMember [] n = Unit
  NoMember (h ∷ hs) n = (named h ≡ n → member_healthy h ≡ false) × NoMember hs n

  drop_name-All :
      (P : Host V → Type 0) (n : String) (hs : List (Host V)) → All P hs → All P (drop_name n hs)
  unfolding drop_name
  drop_name-All P n [] a = tt
  drop_name-All P n (h ∷ hs) (p, a) = elim (Bool-cases (str_eq (named h) n)) [
    | inl e ↦ rw e (drop_name-All P n hs a)
    | inr e ↦ rw e (p, drop_name-All P n hs a)
  ]

  drop_name-Distinct : (n : String) (hs : List (Host V)) → Distinct hs → Distinct (drop_name n hs)
  unfolding drop_name
  drop_name-Distinct n [] d = tt
  drop_name-Distinct n (h ∷ hs) (a, d) = elim (Bool-cases (str_eq (named h) n)) [
    | inl e ↦ rw e (drop_name-Distinct n hs d)
    | inr e ↦ rw e (drop_name-All (λ k. named k ≢ named h) n hs a, drop_name-Distinct n hs d)
  ]

  drop_name-NoMember :
      (m n : String) (hs : List (Host V)) → NoMember hs n → NoMember (drop_name m hs) n
  unfolding drop_name
  drop_name-NoMember m n [] a = tt
  drop_name-NoMember m n (h ∷ hs) (p, a) = elim (Bool-cases (str_eq (named h) m)) [
    | inl e ↦ rw e (drop_name-NoMember m n hs a)
    | inr e ↦ rw e (p, drop_name-NoMember m n hs a)
  ]

  -- A name that no host has drops no host.
  drop_absent : (n : String) (hs : List (Host V)) → All (λ k. named k ≢ n) hs → drop_name n hs ≡ hs
  unfolding drop_name
  drop_absent n [] a = refl
  drop_absent n (h ∷ hs) (p, a) = ground (arith, eq_iff (named h) n, p, drop_absent n hs a)

  healthy_etcd-NoMember :
      (n : String) (hs : List (Host V))
      → NoMember hs n
      → healthy_etcd (drop_name n hs) ≡ healthy_etcd hs
  unfolding drop_name healthy_etcd
  healthy_etcd-NoMember n [] a = refl
  healthy_etcd-NoMember n (h ∷ hs) (p, a) =
      ground (arith, eq_iff (named h) n, p, healthy_etcd-NoMember n hs a)

  healthy_etcd-drop_name :
      (n : String) (hs : List (Host V))
      → Distinct hs
      → healthy_etcd hs ≤ healthy_etcd (drop_name n hs) + 1
  unfolding drop_name healthy_etcd
  healthy_etcd-drop_name n [] d = omega arith
  healthy_etcd-drop_name n (h ∷ hs) (a, d) = elim (Bool-cases (str_eq (named h) n)) [
    | inl e ↦
        let absent : All (λ k. named k ≢ n) hs =
          subst (λ m. All (λ k. named k ≢ m) hs) ((eq_iff (named h) n).0 e) a in
        ground (arith, drop_absent n hs absent)
    | inr e ↦ ground (arith, healthy_etcd-drop_name n hs d)
  ]

  remaining-append :
      (xs ys : List String) (hs : List (Host V))
      → remaining (xs ++ ys) hs ≡ remaining ys (remaining xs hs)
  unfolding remaining
  remaining-append [] ys hs = refl
  remaining-append (x ∷ xs) ys hs = remaining-append xs ys (drop_name x hs)

  remaining-Distinct :
      (ns : List String) (hs : List (Host V)) → Distinct hs → Distinct (remaining ns hs)
  unfolding remaining
  remaining-Distinct [] hs d = d
  remaining-Distinct (n ∷ ns) hs d =
      remaining-Distinct ns (drop_name n hs) (drop_name-Distinct n hs d)

  remaining-NoMember :
      (ns : List String) (n : String) (hs : List (Host V))
      → NoMember hs n
      → NoMember (remaining ns hs) n
  unfolding remaining
  remaining-NoMember [] n hs a = a
  remaining-NoMember (m ∷ ns) n hs a =
      remaining-NoMember ns n (drop_name m hs) (drop_name-NoMember m n hs a)

  -- Removing hosts that are no healthy members keeps the healthy members.
  healthy_etcd-remaining :
      (ns : List String) (hs : List (Host V))
      → All (NoMember hs) ns
      → healthy_etcd (remaining ns hs) ≡ healthy_etcd hs
  unfolding remaining
  healthy_etcd-remaining [] hs a = refl
  healthy_etcd-remaining (n ∷ ns) hs (p, a) =
      healthy_etcd-remaining ns (drop_name n hs) (All-map (λ m. drop_name-NoMember n m hs) ns a)
      ∙ healthy_etcd-NoMember n hs p

  -- Every name removes one member at most.
  healthy_etcd-remaining-le :
      (ns : List String) (hs : List (Host V))
      → Distinct hs
      → healthy_etcd hs ≤ healthy_etcd (remaining ns hs) + length ns
  unfolding remaining
  healthy_etcd-remaining-le [] hs d = omega arith
  healthy_etcd-remaining-le (n ∷ ns) hs d = omega (
    arith,
    healthy_etcd-drop_name n hs d,
    healthy_etcd-remaining-le ns (drop_name n hs) (drop_name-Distinct n hs d),
  )

  names_where-All :
      (P : String → Type 0) (p : Host V → Bool) (hs : List (Host V))
      → All (λ h. P (named h)) hs
      → All P (names_where p hs)
  unfolding names_where
  names_where-All P p [] a = tt
  names_where-All P p (h ∷ hs) (q, a) = elim (Bool-cases (p h)) [
    | inl e ↦ rw e (q, names_where-All P p hs a)
    | inr e ↦ rw e (names_where-All P p hs a)
  ]

  absent-NoMember : (n : String) (hs : List (Host V)) → All (λ k. named k ≢ n) hs → NoMember hs n
  absent-NoMember n [] a = tt
  absent-NoMember n (h ∷ hs) (p, a) = ((λ e. absurd (p e)), absent-NoMember n hs a)

  -- The name of a failed member belongs to no healthy one.
  failed-NoMember :
      (hs : List (Host V)) → Distinct hs → All (NoMember hs) (names_where etcd_failed hs)
  unfolding names_where
  failed-NoMember [] d = tt
  failed-NoMember (h ∷ hs) (a, d) =
      let others = names_where etcd_failed hs in
      let differ : All (λ n. named h ≢ n) others =
        names_where-All (λ n. named h ≢ n) etcd_failed hs (All-map (λ k ne e. ne (sym e)) hs a) in
      let rest : All (NoMember (h ∷ hs)) others =
        All-both (λ n ne no. ((λ e. absurd (ne e)), no)) others differ (failed-NoMember hs d) in
      elim (Bool-cases (etcd_failed h)) [
        | inl e ↦ rw e ((ground arith, absent-NoMember (named h) hs a), rest)
        | inr e ↦ rw e rest
      ]

  -- With names that tell the control plane hosts apart from one another and from the static
  -- workers, and a healthy etcd member, the members that stay healthy once every recommended host
  -- is removed are still a quorum of those that were healthy.
  pub safe_to_delete_hosts-quorum :
      (c : Cluster V)
      → Distinct c.control_plane
      → All (λ w. All (λ k. named k ≢ named w) c.control_plane) c.static_workers
      → 0 < healthy_etcd c.control_plane
      → quorum (healthy_etcd c.control_plane)
        ≤ healthy_etcd (remaining (safe_to_delete_hosts c) c.control_plane)
  unfolding quorum
  safe_to_delete_hosts-quorum c d apart some_member =
      let cp = c.control_plane in
      let n = healthy_etcd cp in
      let failed = names_where etcd_failed cp in
      let spare = n - quorum n - length failed in
      let chosen = take spare (names_where api_server_failed cp) in
      let workers = names_where worker_failed c.static_workers in
      let left = remaining failed cp in
      let no_worker : All (NoMember (remaining chosen left)) workers =
        names_where-All (λ m. NoMember (remaining chosen left) m) worker_failed c.static_workers
          (All-map
            (λ w out.
              remaining-NoMember chosen (named w) left
                (remaining-NoMember failed (named w) cp (absent-NoMember (named w) cp out)))
            c.static_workers apart) in
      rw (safe_to_delete_hosts-parts c) (
        rw (remaining-append (failed ++ chosen) workers cp) (
          rw (remaining-append failed chosen cp) (
            omega (
              arith,
              healthy_etcd-remaining workers (remaining chosen left) no_worker,
              healthy_etcd-remaining-le chosen left (remaining-Distinct failed cp d),
              healthy_etcd-remaining failed cp (failed-NoMember cp d),
              length-take spare (names_where api_server_failed cp),
            ))))
