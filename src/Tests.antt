-- ===== src/Tests.antt =====
-- The theorems at concrete inputs.
mod Caddy
mod Options
mod Responses
mod Keys
mod Handler
mod Purge
mod Background
mod Unsafe
mod Esi
mod Store
mod Redis
