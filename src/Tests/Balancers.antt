-- ===== src/Tests/Balancers.antt =====
-- The theorems on load balancers at a cloud with one balancer.
use kubeone.Prelude.{
  ℕ, ◌-◌, ◌==◌, String, true, Option, none, some, List, [], ◌∷◌, str_eq, eq_iff, ◌≡◌, ◌≢◌, ◌∙◌,
  refl, sym, ap, arith, Bool-cases, inl, inr, if◌then◌else◌, All, Any, here, there, subst,
}
use kubeone.Fail.{plain}
use kubeone.Fail.Outcome.{ok}
use kubeone.Api.Cluster.{KubeOneCluster}
use kubeone.DigitalOcean.Objects.{
  LoadBalancer, LoadBalancerRequest, is_up, owned_by_kubeone, lb_spec, create_request,
}
use kubeone.DigitalOcean.Client.{
  Client, Reply, done, failed, Page, Poll, checks, matching, find_load_balancer_by_name,
  wait_for_load_balancer,
}
use kubeone.DigitalOcean.Balancer.{ensure_load_balancer, provider_cleanup_load_balancer}
use kubeone.DigitalOcean.Allowed.{Allows, Seen}
use kubeone.DigitalOcean.Cleaned.{provider_cleanup_load_balancer-allowed}
use kubeone.DigitalOcean.Found.{
  preferred, last_page, next_page, find_load_balancer_by_name-preferred,
}
use kubeone.DigitalOcean.Waiting.{now, later, wait_for_load_balancer-Becomes}
use kubeone.DigitalOcean.Faithful.{Settings, settings_of, Told, Faithful}
use kubeone.DigitalOcean.Ensured.{ensure_load_balancer-Serving}
use kubeone.DigitalOcean.Serving.{Serves}
use kubeone.DigitalOcean.Tags.{cluster_tag}
use kubeone.Tests.Samples.{cluster}
use kubeone.Fail.Exec.{◌>>=◌}

-- The cloud holds at most one balancer, and `pending` reads of it until it is up.
record Cloud : Type 0 where
  balancer : Option LoadBalancer
  pending : ℕ

abbrev sixty : Poll
sixty = record {
  poll = λ S condition s. checks (plain "timeout") 60 condition s;
  expired = plain "timeout";
  least = 60;
  poll-checks = λ S condition s. (60, omega arith, refl);
}

abbrev request_of : LoadBalancer → LoadBalancerRequest
request_of lb = record {
  name = lb.name;
  region = "";
  size_unit = 1;
  size_slug = "";
  tag = lb.tag;
  droplet_ids = lb.droplet_ids;
  health_check = lb.health_check;
  forwarding_rules = lb.forwarding_rules;
}

abbrev balancer_of : LoadBalancerRequest → LoadBalancer
balancer_of req = record {
  id = "1";
  name = req.name;
  type = "REGIONAL";
  status = "new";
  ip = "";
  region = none;
  vpc_uuid = "";
  tag = req.tag;
  droplet_ids = [];
  health_check = req.health_check;
  forwarding_rules = req.forwarding_rules;
}

-- What a read makes of the balancer and of the reads that are left.
abbrev read : ℕ → LoadBalancer → LoadBalancer
read n lb = if n == 0 then record lb { status = "active"; ip = "10.0.0.1" } else lb

abbrev got : String → Cloud → Option LoadBalancer → Reply LoadBalancer × Cloud
got id w none = (failed (plain "not found") (some 404), w)
got id w (some lb) =
    let lb' = read w.pending lb in
    if str_eq lb.id id
    then (done lb', record { balancer = some lb'; pending = w.pending - 1 })
    else (failed (plain "not found") (some 404), w)

abbrev items_of : Option LoadBalancer → List LoadBalancer
items_of none = []
items_of (some lb) = lb ∷ []

abbrev cloud_client : Client Cloud
cloud_client = record {
  get_balancer = λ id w. got id w w.balancer;
  list_page = λ page w. (done (record { items = items_of w.balancer; more = none }), w);
  create = λ req w. (done (balancer_of req), record w { balancer = some (balancer_of req) });
  update = λ id req w. (done (balancer_of req), record w { balancer = some (balancer_of req) });
  delete = λ id w. (done tt, record w { balancer = none });
  get_vpc = λ id w. (done (record { default = true }), w);
  as_request = request_of;
  waits = sixty;
  global_type = "GLOBAL";
}

abbrev no_settings : Settings
no_settings = record { tag = ""; health_check = none; forwarding_rules = [] }

abbrev stored_of : Option LoadBalancer → Settings
stored_of none = no_settings
stored_of (some lb) = settings_of lb

read_settings : (n : ℕ) (lb : LoadBalancer) → settings_of (read n lb) ≡ settings_of lb
read_settings n lb = elim (Bool-cases (n == 0)) [ inl e ↦ rw e refl | inr e ↦ rw e refl ]

reply_leaves_settings :
    (id : String) (w : Cloud) (o : Option LoadBalancer)
    → w.balancer ≡ o
    → stored_of (got id w o).1.balancer ≡ stored_of o
reply_leaves_settings id w none e = ap stored_of e
reply_leaves_settings id w (some lb) e = elim (Bool-cases (str_eq lb.id id)) [
  | inl same ↦ rw same (read_settings w.pending lb)
  | inr other ↦ rw other (ap stored_of e)
]

reply_settings :
    (id : String) (w : Cloud) (o : Option LoadBalancer)
    → Told (λ lb. (lb.id ≡ id) × (settings_of lb ≡ stored_of o)) (got id w o).0
reply_settings id w none = tt
reply_settings id w (some lb) = elim (Bool-cases (str_eq lb.id id)) [
  | inr other ↦ rw other tt
  | inl same ↦ rw same (read_id ∙ (eq_iff lb.id id).0 same, read_settings w.pending lb)
]
  where
    read_id : (read w.pending lb).id ≡ lb.id
    read_id = elim (Bool-cases (w.pending == 0)) [ inl e ↦ rw e refl | inr e ↦ rw e refl ]

listed_told :
    (w : Cloud) (o : Option LoadBalancer) → All (λ lb. settings_of lb ≡ stored_of o) (items_of o)
listed_told w none = tt
listed_told w (some lb) = (refl, tt)

abbrev faithful : Faithful cloud_client
faithful = record {
  stored = λ w id. stored_of w.balancer;
  get_kept = λ id w. λ i _. reply_leaves_settings id w w.balancer refl i;
  get_told = λ id w. reply_settings id w w.balancer;
  vpc_kept = λ id w. refl;
  list_kept = λ page w. refl;
  list_told = λ page w. listed_told w w.balancer;
  create_told = λ req w. (refl, refl);
  update_told = λ id req w. (refl, refl);
  as_request_kept = λ lb. refl;
}

abbrev with_balancer : KubeOneCluster
with_balancer = record cluster {
  api_endpoint = record cluster.api_endpoint { host = "" };
  cloud_provider = record cluster.cloud_provider {
    aws = none;
    digital_ocean = some (record {
      control_plane = some (record { id = ""; name = "lb"; region = ""; size_unit = 1 });
    });
  };
}

abbrev empty_cloud : Cloud
empty_cloud = record { balancer = none; pending = 2 }

abbrev created : LoadBalancer
created = record (balancer_of (create_request with_balancer)) { status = "active"; ip = "10.0.0.1" }

ensured :
    ensure_load_balancer cloud_client 1 with_balancer empty_cloud
    ≡ (ok created, record { balancer = some created; pending = 0 })
unfolding ensure_load_balancer find_load_balancer_by_name create_request ◌>>=◌
    wait_for_load_balancer checks
ensured = refl

ensure_load_balancer-Serving_example :
    Serves (cluster_tag with_balancer.name) (settings_of created) × (is_up created ≡ true)
ensure_load_balancer-Serving_example =
    ensure_load_balancer-Serving cloud_client faithful 1 with_balancer empty_cloud
      (record { balancer = some created; pending = 0 }) created ensured

-- Two balancers of the same name, on two pages, the second one with the tag of the cluster.
abbrev foreign : LoadBalancer
foreign = record created { id = "2"; tag = "web" }

abbrev two_pages : Client Cloud
two_pages = record cloud_client {
  list_page = λ page w. (
    if page == 1
        then done (record { items = foreign ∷ []; more = some (ok 1) })
        else done (record { items = created ∷ []; more = none }),
    w,
  );
}

find_load_balancer_by_name-preferred_example :
    (find_load_balancer_by_name two_pages 2 "lb" "" with_balancer.name empty_cloud).0
    ≡ ok (
        preferred
          (matching "lb" "")
          (λ lb. owned_by_kubeone lb with_balancer.name)
          (foreign ∷ created ∷ []))
find_load_balancer_by_name-preferred_example =
    find_load_balancer_by_name-preferred two_pages 2 "lb" "" with_balancer.name empty_cloud
      (foreign ∷ created ∷ []) (next_page {items = foreign ∷ []} refl (last_page refl))

second_page_wins :
    preferred
      (matching "lb" "")
      (λ lb. owned_by_kubeone lb with_balancer.name)
      (foreign ∷ created ∷ [])
    ≡ some created
unfolding owned_by_kubeone cluster_tag create_request
second_page_wins = refl

abbrev provisioned : LoadBalancer
provisioned = balancer_of (create_request with_balancer)

abbrev cloud_at : ℕ → LoadBalancer → Cloud
cloud_at n lb = record { balancer = some lb; pending = n }

new_ne : ◌≢◌ {A = String} "new" "errored"
new_ne e = cc ((eq_iff "new" "errored").1 e)

wait_for_load_balancer-Becomes_example :
    wait_for_load_balancer cloud_client provisioned true (cloud_at 2 provisioned)
    ≡ (ok created, cloud_at 0 created)
wait_for_load_balancer-Becomes_example =
    wait_for_load_balancer-Becomes cloud_client provisioned created true 2 (cloud_at 2 provisioned)
      (cloud_at 0 created) refl
      (later {w' = cloud_at 1 provisioned} {reply = done provisioned} refl (new_ne, refl)
        (later {w' = cloud_at 0 provisioned} {reply = done provisioned} refl (new_ne, refl)
          (now refl refl)))
      (omega arith)

-- The cloud holds the foreign balancer.
abbrev HoldsForeign : Cloud → Type 0
HoldsForeign w = w.balancer ≡ some foreign

stays_there :
    (id : String) (w : Cloud) → HoldsForeign w → (got id w (some foreign)).1.balancer ≡ some foreign
stays_there id w h = elim (Bool-cases (str_eq foreign.id id)) [
  | inr other ↦ rw other h
  | inl same ↦ elim (Bool-cases (w.pending == 0)) [
    | inl ready ↦ rw (same, ready) refl
    | inr waits ↦ rw (same, waits) refl
  ]
]

page_items : Reply Page → List LoadBalancer
page_items (done p) = p.items
page_items (failed e status) = []

only_foreign : (lb : LoadBalancer) → Any (λ x. x ≡ lb) (foreign ∷ []) → foreign ≡ lb
only_foreign lb (here e) = e
only_foreign lb (there h) = elim h [ ]

not_foreign :
    (lb : LoadBalancer)
    → Seen cloud_client with_balancer HoldsForeign lb
    → lb.tag ≢ cluster_tag with_balancer.name
unfolding page_items cluster_tag
not_foreign lb (u, held, number, page, e, some_place, name) own =
    let items : foreign ∷ [] ≡ page.items = ap items_of (sym held) ∙ ap page_items e in
    let same = only_foreign lb (subst (Any (λ x. x ≡ lb)) (sym items) some_place) in
    let tag : ◌≡◌ {A = String} "web" (cluster_tag with_balancer.name) =
      ap (λ (x : LoadBalancer). x.tag) same ∙ own in
    cc ((eq_iff "web" (cluster_tag with_balancer.name)).1 tag)

nothing_harms_it : Allows cloud_client with_balancer HoldsForeign
unfolding lb_spec
nothing_harms_it = record {
  get_allowed =
      λ id w h. subst (λ o. (got id w o).1.balancer ≡ some foreign) (sym h) (stays_there id w h);
  list_allowed = λ page w h. h;
  delete_allowed = λ lb w no_id seen own leads h. absurd (not_foreign lb seen own);
  untag_allowed = λ lb w by_id _ h. absurd (by_id refl);
}

provider_cleanup_load_balancer-allowed_example :
    HoldsForeign
      (provider_cleanup_load_balancer cloud_client 1 (ok tt) with_balancer (cloud_at 0 foreign)).1
provider_cleanup_load_balancer-allowed_example =
    provider_cleanup_load_balancer-allowed cloud_client 1 with_balancer HoldsForeign
      nothing_harms_it (ok tt) (cloud_at 0 foreign) refl
