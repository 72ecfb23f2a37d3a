-- ===== src/Examples.antt =====
-- Small runs of the program, at which the theorems are applied.
mod Domain
mod Store
mod Cases
mod Queue
mod Outbox
mod Pages
mod Web
