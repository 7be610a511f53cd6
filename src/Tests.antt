-- ===== src/Tests.antt =====
-- Runs of the definitions at concrete inputs, and instances of the theorems.
mod Fixtures
mod Reader
mod Writer
mod Store
mod Router
mod Config
mod Logs
mod Monitor
mod Current
mod Status
mod Lifespan
mod Rendering
mod Server
