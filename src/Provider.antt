-- ===== src/Provider.antt =====
-- `OpenAIResponsesAdapter` of src/prompt_performance_engine/adapters.py: what it reads in a response
-- of the provider, and its attempts; and the permissions of the command adapter.
pub mod Output
pub mod Attempts
pub mod AttemptLaws
pub mod Permissions
mod Tests
