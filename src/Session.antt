-- ===== src/Session.antt =====
-- The console's session with the API: web/src/providers.ts. Children: the browser state, the shared
-- fetch, the interleaving of concurrent calls, the auth provider, the data provider and the messages.
pub mod World
pub mod Fetch
pub mod Auth
pub mod Flight
pub mod Provider
pub mod Message
pub mod Tests
pub mod Handler
pub mod LoginPage
