-- ===== src/DigitalOcean.antt =====
-- The load balancers and machines of DigitalOcean: pkg/cloudprovider/digitalocean.
pub mod Tags
pub mod Objects
pub mod Client
pub mod Balancer
pub mod Found
pub mod Waiting
pub mod Routes
pub mod Faithful
pub mod Searched
pub mod Listed
pub mod Serving
pub mod Ensured
pub mod Allowed
pub mod Seen
pub mod Cleaned
pub mod Valid
