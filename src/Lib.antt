-- ===== src/Lib.antt =====
-- Nexus Panel: the backend of a panel for game servers (packages/backend), and what its pages in
-- the browser (packages/frontend) share. The panel keeps its tables in a database, sends
-- requests to one daemon (Wings) on each node, and is called back by the daemons. This library
-- models the services that carry its logic, and proves what they promise.
--
-- Parts and files, with paths from the root of the repository:
--
-- Database: Entities holds one record for each table of packages/backend/src/database/entities;
-- Panel is the state that the services share (the tables, the heartbeats, the client cache of
-- the Wings service, the logs of calls that have left for the daemons) and the monad of a
-- request, which keeps what was written before an exception; Orm states what the services rely
-- on of TypeORM; Rows and Requests are the lemmas on rows under a key and on requests; Pages is
-- a paged query with its meta data, Inserts a save of several rows.
--
-- Nodes: nodes/nodes.service.ts and nodes/node-heartbeat.store.ts. The heartbeats in memory say
-- which node is online; the row of a node holds its connection status. Controller is
-- nodes/nodes.controller.ts behind its guards.
--
-- Wings: wings/wings.service.ts, the gRPC client of the daemons with its cache of clients
-- (getClient, callGrpc, one function for each request message, checkAvailability). Protocol
-- holds the messages of packages/shared/src/wings. Files has the file operations, which go over
-- HTTP.
--
-- Validator: common/utils/variable-validator.ts. Meaning is a reading of the rules without the
-- code; Reading compares the two.
--
-- Servers: servers/servers.service.ts. Service has the lookups, power, suspend, unsuspend,
-- reinstall, delete, update and updateInstallStatus; Callbacks is
-- server-callbacks.controller.ts; Create is create, one function for each of its numbered steps.
-- Creation uses the validator, the heartbeats and the Wings client; deletion and power use the
-- Wings client. Listing is findAll; Controller is servers.controller.ts behind its guards;
-- Service/Owned is the check of access with which the controllers below a server start.
--
-- Auth: auth/auth.service.ts (Service, TwoFactor), auth/strategies/jwt.strategy.ts and
-- common/guards (Guards), auth/auth.controller.ts with its cookies (Controller),
-- audit-log/audit-log.service.ts (log in Service, AuditLog), api-keys/api-keys.service.ts
-- (ApiKeys). Crypto is what they use of bcrypt, @nestjs/jwt and otplib.
--
-- Events: sse/sse.service.ts and wings/event-handlers.ts: what the daemons report, the caches of
-- live state, and the connections that are told.
--
-- Websocket: websocket/websocket.gateway.ts. Gateway is one socket: its connection and its
-- messages, run in the order of their arrival, with the Wings client and the lookups of Servers;
-- Access is who gets through. Polls is one round of its timers, which ask the daemons and tell
-- the rooms.
--
-- Files: files/files.service.ts and files/files.controller.ts, over the Wings client and the
-- lookups of Servers.
--
-- Users: users/users.service.ts, users/users.controller.ts, and the writes of
-- admin/admin-users.controller.ts, which differ in their exceptions. Eggs: eggs/eggs.service.ts
-- (Rows, Service) and eggs/dto (Dto), with import and export. Schedules, Notifications,
-- Databases: the services of these names with their controllers.
--
-- Admin: admin/admin-allocations.controller.ts, admin/admin-nodes.controller.ts and the
-- impersonation of admin/admin.service.ts.
--
-- Frontend: packages/frontend/src/hooks/useServerWebSocket.ts by the events of its socket
-- (Socket), and stores/auth.store.ts by its actions (AuthStore). Socket/Handshake puts the hook
-- before the gateway of Websocket.
--
-- Allocations: allocations/allocations.service.ts: ranges of ports.
--
-- Locations: locations/locations.service.ts: short codes, and the assignment of nodes.
--
-- Subusers: subusers/subusers.service.ts: users that may act on a server of another, and their
-- controller.
--
-- Common: texts as lists of UTF-16 code units, JavaScript maps in insertion order, Boolean tests
-- on the native numbers, and Js, the JavaScript numbers and regular expressions. Tests has
-- concrete inputs.
--
-- Parameters. The row store is the argument `orm : Orm` with named laws of a relational store: a
-- query for one row returns some row that matches or none if there is none, inserts and saves
-- are refused on a clash of unique columns, updates and deletions touch the rows that match;
-- `list_store` meets the laws. The network is `net : Network`: what a daemon answers may depend
-- on all that was sent before, over gRPC and over HTTP. JavaScript's numbers and regular
-- expressions are `js : Js`; that sums of integers are exact up to 2^53 - 1 is a hypothesis
-- where it is used. bcrypt, tokens and one-time codes are `crypto : Crypto`, with the laws that
-- a password matches its hash and that a token verifies until it expires. A paged query is
-- `pages : Pages`: the length of a page is known, and that its rows match; two pages may share
-- rows, since the order may differ from query to query. The grouped query is `grouped :
-- GroupedCounts`. The extractor of passport for the header, and the bytes of an upload read as
-- text, are arguments too. So are the clock, ids, random draws, and in the browser what the
-- server answers.
--
-- Conventions. Requests run one after the other. The order of the rows of a table says nothing.
-- Messages of exceptions keep their fixed part. Sizes, counts and times are natural numbers;
-- overallocations, swap and io may be negative (Common/Integers); a heartbeat from the future
-- counts as new. A column that is assigned undefined keeps its value in a save.
--
-- Not modelled: the columns that the database fills in at updates, logging, cascades of foreign
-- keys but those to a deleted server, the order of lists by time or name, integer-like and
-- prototype keys of JavaScript objects, the search and the dashboard (their queries name a
-- column that the table does not have), controllers that only hand on to a service, React
-- components, and the Wings daemon. All loops are structural recursion: no fuel bounds a
-- theorem; the one fuel, for the digits of a number in Wings/Protocol, is one more than the
-- number.
pub mod Common
pub mod Nodes
pub mod Wings
pub mod Database
pub mod Validator
pub mod Servers
pub mod Auth
pub mod Events
pub mod Allocations
pub mod Locations
pub mod Tests
pub mod Files
pub mod Users
pub mod Eggs
pub mod Frontend
pub mod Databases
pub mod Notifications
pub mod Admin
pub mod Schedules
pub mod Websocket
pub mod Subusers
