-- ===== src/History.antt =====
-- pkg/history: the search in the transcripts of agents.
pub mod Spans
pub mod Bytes
pub mod Ascii
pub mod Unicode
pub mod Prefilter
pub mod Stream
pub mod Compile
pub mod Required
