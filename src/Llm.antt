-- ===== src/Llm.antt =====
-- src/nexabot/infrastructure/llm
pub mod StubGateway
