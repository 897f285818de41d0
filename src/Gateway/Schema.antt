-- ===== src/Gateway/Schema.antt =====
-- gen/graphql/generated.go: the part of the executable schema that is about the repository's own types. The runtime of gqlgen is a
-- parameter: how a raw value of the variables reads, and what `graphql.ResolveField` makes of a field.
pub mod Input
pub mod Object
pub mod Root
pub mod Query
pub mod Laws
pub mod ReadBack
