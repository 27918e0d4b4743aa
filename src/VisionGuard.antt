-- ===== src/VisionGuard.antt =====
-- What the router lets through to the chat server's multimodal paths, and bounded body reads:
-- scripts/files/vision_guard.py.
pub mod Check
pub mod Chat
pub mod Accepts
pub mod Anthropic
pub mod AnthropicBlocks
pub mod AnthropicAccepts
pub mod Body
pub mod Completions
mod Tests
