-- ===== src/Examples.antt =====
-- Runs at concrete inputs, by the part of the program that they exercise.
mod Values
mod Workers
mod Intervals
mod Instances
mod Commits
mod Domains
mod Pages
mod Supervision
mod Mining
mod Caches
mod Indexing
