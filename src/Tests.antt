-- ===== src/Tests.antt =====
-- Concrete worlds, the runs of the services on them, and the theorems at them.
mod Sample
mod Board
mod Agent
mod Review
mod Events
mod Gateway
mod Webhook
mod ReviewLoop
mod ReviewEngine
mod ReviewPr
mod SkipComments
mod Document
