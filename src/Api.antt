-- ===== src/Api.antt =====
-- The custom resources and their admission webhooks: api/v1beta1.
pub mod Types
pub mod Validation
pub mod Config
pub mod QuestDbWebhook
pub mod SnapshotWebhook
pub mod ScheduleWebhook
