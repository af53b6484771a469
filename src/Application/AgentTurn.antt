-- ===== src/Application/AgentTurn.antt =====
-- application/agent/use_cases.py: one agent turn, user message in, assistant message out.
pub mod Command
pub mod Request
pub mod Stored
pub mod Phases
pub mod Settlement
pub mod Finish
pub mod Execute
pub mod Validation
pub mod Prompt
pub mod Failure
pub mod Replay
pub mod Silence
pub mod Calm
pub mod AtMostOnce
pub mod Unsettled
pub mod Settles
pub mod Starting
pub mod Authority
pub mod Answered
pub mod Repetition
pub mod Closing
pub mod Granting
pub mod Answering
pub mod Persisting
pub mod Outcome
