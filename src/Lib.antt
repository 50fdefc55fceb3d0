-- ===== src/Lib.antt =====
-- The backend of the Medium clone in this repository: a NestJS application (src/) over PostgreSQL,
-- Redis and a queue.
--
-- A request reaches a controller, past a guard that authenticates its token; the controller calls a
-- service; a service runs statements through TypeORM, often in a transaction, and returns a
-- serialized body or throws an error of its own; a filter turns every error into a response. The
-- registration of a user also stores a welcome mail in an outbox, which a relay moves to the queue.
--
-- How the code is modelled:
--   Base         strings as lists of UTF-16 code units, Boolean tests, searches and counts on lists,
--                white space, integers and their decimal digits;
--   Runtime      what an async function does: it returns or throws, and passes a state on
--                (Runtime.Monad); the error classes of the services (Runtime.Exceptions); the values
--                of JavaScript that some code inspects (Runtime.Values);
--   Database     the tables of the entity classes (Database.Schema) and the driver as a parameter
--                (Database.Driver, the record Orm). Of the driver the proofs use two documented facts:
--                a statement takes effect or fails without effect, and a transaction commits what its
--                callback did or nothing. Database.Reliable has an in-memory driver that fails
--                where a schedule says so, which shows that the laws can be met, and the further
--                assumption that no statement fails by itself; Database.ReadOnly has the calls that
--                change no row;
--   Serializers  src/common/serializers: the bodies of the responses;
--   Articles     src/articles: Slug (article-create-slug.ts), Tags (article-tag-persistence.ts), and
--                the classes of article.service.ts: Read (getBySlug), Create, Update, Delete, Favorite;
--                the lists: List (article-list-query.service.ts), Hydrator
--                (article-list-hydrator.ts), Feed (the feed of both); Requests (the numbers of
--                article.dto.ts) and Controller (articles.controller.ts);
--   Comments     src/comments: create, list, delete (comment.service.ts), and Controller, their routes;
--   Profiles     src/profiles: the service and the controller;
--   Jobs         src/jobs: Outbox (welcome-mail-outbox-store.ts), with its life as a step relation in
--                Outbox.Steps; Relay (welcome-mail-outbox-relay.ts); Runner, the timer and the shutdown
--                of the relay, as a step relation; WelcomeMailQueue (welcome-mail-queue.ts);
--   Common       src/common: Filter (filters/api-exception.filter.ts) and Log
--                (logging/request-failure-log.ts);
--   Auth         src/auth: Registration (register of auth.service.ts, its route, and
--                auth-registration-support.ts), Login (login, and its route), Limiter
--                (auth-login-rate-limiter.ts and its script), DenyList (token-deny-list.service.ts),
--                Connection (the connections of both to Redis, as in redis-token-deny-list-client.ts),
--                Guard (authenticate and the two guards), Tokens (auth-token-issuer.ts), Session (the
--                logout), CurrentUser (users/user.service.ts and the handlers of the current user);
--   Files        src/attachments and src/files: Storage (the paths of private-attachment-storage.ts),
--                Read (file-read-handler.ts); MediaTypes, Upload and Avatar
--                (auth/user-avatar-upload.interceptor.ts and auth/user-avatar-handler.ts);
--   Config       src/config: Values (app-config.ts, auth-config.ts, and src/jobs/redis-database.ts),
--                Database (database-config.ts), Reset (src/database/database-reset-config.ts,
--                reset-database.ts and reset-database-runner.ts);
--   Tags         src/tags: the list of the tags;
--   Api          facts on the routes of several controllers;
--   Tests        concrete databases and runs.
--
-- A method of a service is the function of the same name in snake_case. The ids and times that the
-- database or the process generates are arguments. Loops are recursions on lists and on the values
-- of JSON, and need no fuel; the digits of a number are written with fuel one above it, which
-- Base.Decimals shows to be enough. Row locks (`setLock`, `skip_locked`) have no effect here, since
-- one operation runs at a time; what other clients may do to a running transaction is not modelled,
-- but the step relation of the outbox lets any number of relays take turns. Parameters are, beside
-- the driver: Unicode normalization and lower-casing, argon2, SHA-256, the signature and the
-- verification of a JWT, the queue, the files of node:fs, the parser of multipart bodies, the parser
-- of URLs, the data source of a reset, BullMQ, and the collation of the database. Redis is modelled by
-- the documented effect of the commands that the code sends; what becomes of a connection that
-- cannot be opened is shown apart, in Auth.Connection.
--
-- The local variables of the upload of an avatar that outlive its transaction are parameters too; where
-- a theorem needs it, they have the laws of a variable (Files.Avatar.Noted).
--
-- Not modelled: decorators, dependency injection (authenticate has the verifier and the deny list that
-- auth.module.ts gives it), validation by class-validator, HTTP itself, and the migrations.
pub mod Base
pub mod Runtime
pub mod Database
pub mod Serializers
pub mod Articles
pub mod Comments
pub mod Profiles
pub mod Jobs
pub mod Common
pub mod Auth
mod Tests
pub mod Config
pub mod Files
pub mod Api
pub mod Tags
