-- ===== src/Examples.antt =====
-- The theorems applied to concrete inputs.
mod Numbers
mod Ratelimit
mod Breaker
mod Pool
mod Requests
mod Outlier
mod Tcp
mod Balancer
mod Cache
mod Cluster
mod Limits
mod Gate
mod Sticky
mod Ingress
mod Health
mod Protocol
