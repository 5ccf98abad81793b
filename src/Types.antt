-- ===== src/Types.antt =====
-- pkg/types: the domain types that the agent and the control plane share.
-- A time is a number of nanoseconds on one clock, a duration a number of nanoseconds, and a nil
-- pointer is `none`. A Go map is an association list. JSON payloads are opaque texts.
pub mod Agent
pub mod Tier
pub mod Target
pub mod Probe
pub mod Alert
