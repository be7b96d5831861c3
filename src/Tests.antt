-- ===== src/Tests.antt =====
-- Runs of the model on concrete inputs, and each theorem with hypotheses at an input that meets them.
mod Rtp
mod Ports
mod Video
mod Api
mod Audio
mod Loops
mod Manager
mod Pcap
mod RtpPeer
mod Options
