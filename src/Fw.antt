-- ===== src/Fw.antt =====
-- fw: the forwarding thread's pipelines and its two strategies.
pub mod Tables
pub mod Thread
pub mod Incoming
pub mod Interests
pub mod Admissions
pub mod Satisfaction
pub mod Downstreams
pub mod Dispatch
pub mod Hints
pub mod Scopes
mod Small
mod Tests
