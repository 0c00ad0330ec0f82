-- ===== src/ToolLoop.antt =====
-- The tool-use loops: packaging/revue_core/src/revue_core/core/tool_loop.py. The client of the
-- provider is a parameter, a function of the requests that were sent so far, and so are the tools'
-- handlers, the JSON parser and the clock.
pub mod Dispatch
pub mod Messages
pub mod Anthropic
pub mod Requests
pub mod Conversation
pub mod Breakpoints
pub mod Sent
pub mod OpenAi
pub mod Deadline
pub mod Answers
mod Examples
