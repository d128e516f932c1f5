-- ===== src/Lib.antt =====
-- Toolbox is a small multi-tenant helpdesk with an invoicing side. Its API is the Rust crate `toolbox`
-- under api/: GraphQL mutations and an inbound-mail lambda call a database handler on DynamoDB and a
-- handful of pure modules. This library models the pure modules, the handler's writes of billable
-- items, invoices and invoice numbers, and the mutations that make them.
--
-- Prelude: text as a list of code points, numbers, results with the `?` operator, and lemmas on lists.
-- Prelude/Int has the signed integers. Decimal is the print and the parse of unsigned numbers.
--
-- Db: the rows and errors of api/src/db.rs that invoicing uses.
-- Dynamo: the DynamoDB service as a record of operations with the guarantees that its documentation
-- gives: a list of conditional writes is made whole or not at all, only if every condition holds; after
-- a failure the caller cannot know which. `transact_write` is the method of api/src/dynamodb.rs, behind
-- `ensure_writable`; a conditional write of one row is a list of one.
-- Billing: one function per method of `Handler` in api/src/dynamodb.rs that writes a billable item or an
-- invoice, with the same name; its condition and update expressions are functions on rows.
-- Billing/Numbers is the counter of invoice numbers. Billing/Commands makes each call a value, so that
-- the requests of other clients that run in between are a list, any list; the one thing that such a list
-- may not do is to create an invoice under an id that is already in use, which `new_id` makes by chance
-- at most.
--
-- Money: api/src/invoicing/money.rs. Invoicing: api/src/invoicing/snapshot.rs and the input checks of
-- api/src/invoicing/mod.rs; sums of `i64` wrap, and chrono's date parser is a parameter.
--
-- Mail: api/src/inbound/routing.rs, and the tags of api/src/inbound/resolution.rs and
-- api/src/outbound.rs. `str::to_lowercase` is a parameter: it follows the Unicode tables.
-- Tickets: status, markers and notification settings of api/src/db.rs, the recipients of
-- api/src/staff_notify.rs, the notice and the threading of api/src/outbound.rs.
-- Paging: api/src/graphql/pagination.rs.
-- Inbound: `constant_time_eq` of api/src/inbound/resolution.rs on bytes, and `resolve_ticket` of
-- api/src/inbound/pipeline.rs over the reads of tickets, an interface,
-- with `get_ticket_id_by_instance_number` of api/src/dynamodb.rs over a query of the number index.
-- Mutations: the billing mutations of api/src/graphql/mutations.rs with the checks of the caller
-- (api/src/auth.rs, api/src/graphql/auth.rs, api/src/graphql/error.rs). A mutation is a program with
-- the tables as state that ends in a result or an error; `call` and `read` first run a batch of other
-- clients' requests, any list. Mutations/Checks has the pure checks, Mutations/Items and
-- Mutations/Invoices one function per mutation with its name; the steps of `finalize_invoice` have
-- names of their own. A read of projects or instances answers as a function, since a mutation reads
-- such a row once; serde's print of a snapshot and chrono's parse are parameters. Mutations/Records is
-- `get_records_consistent` of api/src/dynamodb.rs: chunks of a hundred keys, five attempts each; which
-- keys the service defers and which requests it fails are parameters, and each row is looked up after a
-- batch of the others' requests. The chunks are as many as the keys at most. Mutations/Logic has
-- the rules by which a run is followed step by step.
-- TicketStore: `create_ticket`, `update_ticket` and `list_tickets` of api/src/dynamodb.rs: the stored
-- row is the ticket with the attributes that the sparse indexes are keyed on. The service of one
-- conditional write has the guarantees of Dynamo. The index service is a record, of one
-- state of the rows for the queries of one listing: an index has the
-- rows with its attribute under the key, in the order of the stored rows; one query examines one row
-- at least, and says if there may be more. The fuel of the loop is one more than the rows under the
-- key, as each query but the last leaves fewer.
-- Grants: api/src/oauth.rs with the `oauth_grant` methods of api/src/dynamodb.rs. Grants/Users has
-- `fetch_update_user_auth_info` (api/src/auth.rs), Grants/Access `verify_access_token`, Grants/Refresh
-- `token_refresh` (api/src/oauth_http.rs); each takes the table as it was read and the table that it
-- writes, so that anything may happen in between. Hashes, nonces and the clock are parameters. A sum of
-- `u64` wraps.
-- Examples: the theorems applied to concrete data, with a service that keeps the guarantees.
--
-- Ids, names and dates are texts; the string set `item_ids` is a list, in the order that `add`
-- made; `u64`, `u32` and `usize` are unbounded where no theorem needs a bound. A version stays far
-- below 2^64. Loops are structural recursion; the print of a number divides by ten with the number
-- itself as fuel, which is more than its digits.
--
-- Not modelled: the other resolvers and the schema (api/src/graphql), sessions and codes
-- (api/src/auth.rs), client ids, PKCE and the exchange of codes (api/src/oauth.rs,
-- api/src/oauth_http.rs), the tool server (api/src/mcp), MIME and HTML output, PDF layout (floating
-- point over a library), the rest of the inbound pipeline, the hydration of rows, mocks, binaries,
-- the web client and the infrastructure.
pub mod Prelude
pub mod Decimal
pub mod Money
pub mod Db
pub mod Dynamo
pub mod Billing
pub mod Invoicing
pub mod Mail
pub mod Tickets
pub mod Paging
pub mod Inbound
pub mod Mutations
pub mod TicketStore
pub mod Grants
pub mod Examples
