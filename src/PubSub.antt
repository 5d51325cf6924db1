-- ===== src/PubSub.antt =====
-- pubsub: topics with buffered subscriptions.
pub mod Local
