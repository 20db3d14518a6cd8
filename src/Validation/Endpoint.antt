-- ===== src/Validation/Endpoint.antt =====
-- Which API endpoints are accepted: `ValidateAPIEndpoint` of
-- pkg/apis/kubeone/validation/validation.go.
use kubeone.Prelude.{
  ℕ, ◌≤◌, String, Bool, true, false, not, ◌&&◌, ◌||◌, List, [], ◌∷◌, ◌++◌, any, append-eq-nil, All,
  All-map, All-both, str_eq, eq_iff, is_empty, ◌≡◌, ◌≢◌, ◌↔◌, ◌⊎◌, inl, inr, refl, arith,
  Bool-cases,
}
use kubeone.Prelude.Int.{ℤ, pos, negsuc, leb_ℤ}
use kubeone.Api.Cluster.{NodeSet, ApiEndpoint, non_empty}
use kubeone.Validation.Field.{error_if, required, invalid}
use kubeone.Validation.Hosts.{validate_alternative_names, validate_api_endpoint}

-- No name stands twice.
abbrev pub Unrepeated : List String → Type 0
Unrepeated [] = Unit
Unrepeated (a ∷ names) = All (λ b. b ≢ a) names × Unrepeated names

abbrev Unvisited : List String → String → Type 0
Unvisited visited a = any (str_eq a) visited ≡ false

other_name : (a b : String) (v : Bool) → (str_eq b a || v) ≡ false → (b ≢ a) × (v ≡ false)
other_name a b v h = ((λ e. ground (arith, (eq_iff b a).1 e)), ground arith)

fresh_name : (a b : String) (v : Bool) → b ≢ a → v ≡ false → (str_eq b a || v) ≡ false
fresh_name a b v ne h = elim (Bool-cases (str_eq b a)) [
  | inl same ↦ absurd (ne ((eq_iff b a).0 same))
  | inr other ↦ ground arith
]

unvisited : (names : List String) → All (Unvisited []) names
unvisited [] = tt
unvisited (a ∷ names) = (refl, unvisited names)

validate_alternative_names_iff :
    (visited names : List String)
    → (validate_alternative_names visited names ≡ [])
      ↔ (All (Unvisited visited) names × Unrepeated names)
unfolding validate_alternative_names
validate_alternative_names_iff visited [] = ((λ _. (tt, tt)), λ _. refl)
validate_alternative_names_iff visited (a ∷ names) =
    let ih = validate_alternative_names_iff (a ∷ visited) names in
    (
      (λ e.
          let (unvisited, fresh) = ih.0 (ground arith) in
          let here : Unvisited visited a = ground arith in
          (
            (here, All-map (λ b u. (other_name a b (any (str_eq b) visited) u).1) names unvisited),
            (All-map (λ b u. (other_name a b (any (str_eq b) visited) u).0) names unvisited, fresh),
          )),
      λ p.
          let here : Unvisited visited a = p.0.0 in
          let rest = ih.1 (
            All-both (λ b u ne. fresh_name a b (any (str_eq b) visited) ne u) names p.0.1 p.1.0,
            p.1.1,
          ) in
          ground arith,
    )

abbrev InRange : ℤ → Type 0
InRange port = (n : ℕ) × (port ≡ pos n) × (1 ≤ n) × (n ≤ 65535)

port-InRange : (p : ℤ) → leb_ℤ p (pos 0) ≡ false → leb_ℤ p (pos 65535) ≡ true → InRange p
port-InRange (pos n) low high = (n, refl, ground arith, ground arith)
port-InRange (negsuc n) low high = ground arith

InRange-port : (p : ℤ) → InRange p → (leb_ℤ p (pos 0) ≡ false) × (leb_ℤ p (pos 65535) ≡ true)
InRange-port p (n, e, low, high) = ground arith

-- An API endpoint is accepted exactly if it has a host or KubeOne creates the control plane, its
-- port is between 1 and 65535, and no alternative name stands twice.
pub validate_api_endpoint_iff :
    (a : ApiEndpoint) (node_sets : List NodeSet)
    → (validate_api_endpoint a node_sets ≡ []) ↔ (
        ((is_empty a.host ≡ false) ⊎ (non_empty node_sets ≡ true))
        × ((n : ℕ) × (a.port ≡ pos n) × (1 ≤ n) × (n ≤ 65535))
        × Unrepeated a.alternative_names)
unfolding validate_api_endpoint
validate_api_endpoint_iff a node_sets =
    let host = error_if (is_empty a.host && not (non_empty node_sets)) required "host" in
    let low = error_if (leb_ℤ a.port (pos 0)) invalid "port" in
    let high = error_if (not (leb_ℤ a.port (pos 65535))) invalid "port" in
    let names = validate_alternative_names [] a.alternative_names in
    let outer = append-eq-nil (host ++ low ++ high) names in
    let middle = append-eq-nil (host ++ low) high in
    let inner = append-eq-nil host low in
    let alternatives = validate_alternative_names_iff [] a.alternative_names in
    (
      (λ e.
          let (ports, unrepeated) = outer.0 e in
          let (first, below) = middle.0 ports in
          let (named, above) = inner.0 first in
          (
            ground arith,
            port-InRange a.port (ground arith) (ground arith),
            (alternatives.0 unrepeated).1,
          )),
      λ p.
          let (above, below) = InRange-port a.port p.1 in
          let named = p.0 in
          outer.1 (
            middle.1 (inner.1 (ground arith, ground arith), ground arith),
            alternatives.1 (unvisited a.alternative_names, p.2),
          ),
    )
