-- ===== src/Stream.antt =====
-- src/stream: the media plane. What decides, without GStreamer, is modelled; GStreamer itself is not.
pub mod Errors
pub mod Naming
pub mod Bus
pub mod Args
pub mod TestPipeline
pub mod Gst
pub mod Branch
pub mod Egress
pub mod GstPipeline
