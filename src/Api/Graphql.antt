-- ===== src/Api/Graphql.antt =====
-- api/graphql: the resolvers and their data loader.
pub mod Dataloader
pub mod Resolvers
