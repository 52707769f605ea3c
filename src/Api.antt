-- ===== src/Api.antt =====
-- api: the interfaces of the server.
pub mod Limiting
pub mod Graphql
pub mod Streaming
pub mod Grpc
pub mod Agreement
pub mod Http
