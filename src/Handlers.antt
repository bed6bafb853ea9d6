-- ===== src/Handlers.antt =====
-- internal/transport/http/handlers: the HTTP API of subscriptions.
pub mod Text
pub mod Store
pub mod Refines
pub mod Response
pub mod Confirm
pub mod Confirmation
pub mod Unsubscription
pub mod Resolution
pub mod Steps
pub mod Listing
pub mod Disclosure
pub mod Subscribe
pub mod Tokens
pub mod Subscription
mod Tests
mod Examples
