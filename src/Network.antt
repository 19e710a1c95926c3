-- ===== src/Network.antt =====
-- cmd/dstest/network: messages, their queues and translation, the router, the interceptors, the
-- manager, and the handlers of requests side by side.
pub mod Message
pub mod Queue
pub mod Translator
pub mod Router
pub mod Interceptor
pub mod Manager
pub mod Proxy
pub mod Handlers
