-- ===== src/Recovery.antt =====
-- The recovery of tool calls from text, src/turbohaul/api/tool_call_recovery.py. A text is the list
-- of its code points.
pub mod Scan
pub mod Json
pub mod Regex
pub mod Candidates
pub mod Apply
mod Examples
