-- ===== src/Lp.antt =====
-- face/ndnlp-link-service.go: cutting a packet into NDNLPv2 frames, and putting it together again. The
-- codec, the transport's state, its MTU and the length of its send queue are parameters.
pub mod Frames
pub mod Outgoing
pub mod Incoming
pub mod Fragments
pub mod Reassembly
pub mod Bypass
mod Tests
