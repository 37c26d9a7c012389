-- ===== src/Tests.antt =====
-- The theorems at concrete inputs, on a small host that stands in for systemd, Nomad and the clock.
mod Concurrency
mod Logs
mod TestHost
mod Units
mod Restart
mod Service
mod Delivery
mod Watch
mod Pprof
mod Tasks
mod Managers
