-- ===== src/DigitalOcean/Waiting.antt =====
-- The wait for a load balancer: `waitForLoadBalancer` of
-- pkg/cloudprovider/digitalocean/loadbalancer.go.
use kubeone.Prelude.{
  ℕ, zero, suc, ◌<◌, String, Bool, true, false, Option, none, some, ◌≡◌, ◌≢◌, refl, arith, str_eq,
  eq_iff,
}
use kubeone.Fail.{Error}
use kubeone.Fail.Outcome.{ok}
use kubeone.DigitalOcean.Objects.{LoadBalancer, is_up}
use kubeone.DigitalOcean.Client.{
  Client, Reply, done, failed, checks, look, becomes_up, is_permanent_error, wait_for_load_balancer,
}

-- An answer after which the wait goes on: an error that may be temporary, or a balancer that is
-- still provisioned.
abbrev pub NotYet : Bool → Reply LoadBalancer → Type 0
NotYet just_created (failed e status) = is_permanent_error status just_created ≡ false
NotYet just_created (done lb) = (lb.status ≢ "errored") × (is_up lb ≡ false)

module _ {W : Type 0} (c : Client W) (id : String) (just_created : Bool) where
  -- The balancer is up at the read after `n` others.
  pub data Becomes : ℕ → W → LoadBalancer → W → Type 0 where
    now :
        {w w' : W} {lb : LoadBalancer}
        → c.get_balancer id w ≡ (done lb, w')
        → is_up lb ≡ true
        → Becomes zero w lb w'
    later :
        {n : ℕ} {w w' w'' : W} {lb : LoadBalancer} {reply : Reply LoadBalancer}
        → c.get_balancer id w ≡ (reply, w')
        → NotYet just_created reply
        → Becomes n w' lb w''
        → Becomes (suc n) w lb w''

  up-ne-errored : (lb : LoadBalancer) → is_up lb ≡ true → str_eq lb.status "errored" ≡ false
  up-ne-errored lb h =
      let active : lb.status ≡ "active" = (eq_iff lb.status "active").0 (ground arith) in
      rw active refl

  checks-Becomes :
      (expired : Error) (n k : ℕ) (w w' : W) (lb : LoadBalancer) (current : Option LoadBalancer)
      → Becomes k w lb w'
      → k < n
      → checks expired n (becomes_up c id just_created) (w, current) ≡ (ok tt, (w', some lb))
  unfolding checks becomes_up look
  checks-Becomes expired zero k w w' lb current b h = elim h [ ]
  checks-Becomes expired (suc n) zero w w' lb current (now e up) h =
      ground (arith, e, up-ne-errored lb up)
  checks-Becomes expired (suc n) (suc k) w w' lb current (later {reply = failed f s} e wait b) h =
      ground (arith, e, checks-Becomes expired n k _ w' lb current b)
  checks-Becomes expired (suc n) (suc k) w w' lb current (later {reply = done x} e wait b) h =
      ground (arith, e, eq_iff x.status "errored", checks-Becomes expired n k _ w' lb (some x) b)

-- A balancer that is not up yet, and is up at some read within the checks that the timeout leaves
-- room for, with no answer before it but temporary errors and reads of a balancer that is still
-- provisioned: the wait ends with the balancer as that read shows it.
pub wait_for_load_balancer-Becomes :
    {W : Type 0} (c : Client W) (lb up : LoadBalancer) (just_created : Bool) (k : ℕ) (w w' : W)
    → is_up lb ≡ false
    → Becomes c lb.id just_created k w up w'
    → k < c.waits.least
    → wait_for_load_balancer c lb just_created w ≡ (ok up, w')
unfolding wait_for_load_balancer
wait_for_load_balancer-Becomes {W} c lb up just_created k w w' down b h =
    let (n, room, polled) =
      c.waits.poll-checks (W × Option LoadBalancer) (becomes_up c lb.id just_created) (w, none) in
    ground
      (arith, down, polled, checks-Becomes c lb.id just_created c.waits.expired n k w w' up none b)
