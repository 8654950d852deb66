-- ===== src/Lib.antt =====
-- Verification library for IRRd, the Internet Routing Registry daemon (irrd/ in this repository).
--
-- IRRd keeps the routing objects of many registries ("sources") in a database, mirrors sources from
-- elsewhere, decides for each object whether queries may see it, and answers queries. The library
-- models the parts that decide: three filters that set a status on the objects (RPKI, scope filter,
-- route preference), the submission of changes, which checks the requests of a submission against the
-- database and against each other, the database handler, which writes objects, statuses and the
-- journal, the query resolver, which applies the three statuses and resolves sets over the preloaded
-- store, the NRTMv4 client, which brings in the changes of a mirror, and the
-- scheduler, which starts the mirrors and the filters.
--
-- Rpki: irrd/rpki/validators.py and status.py. The bulk validator (its trees of ROAs, keyed by the bits
--   of a prefix, as in BulkRouteROAValidator), the single-route validator, and the validation of all
--   routes. Rpki.Trie and Rpki.Single state what is used of datrie and of the query for covering ROAs.
-- ScopeFilter: irrd/scopefilter/validators.py and status.py, ScopeFilterValidator.
-- RoutePref: irrd/routepref/routepref.py and status.py, RoutePreferenceValidator, over the radix tree
--   that RoutePref.Radix states.
-- Query: irrd/server/query_resolver.py, QuerySourceManager and QueryResolver._prepare_query.
-- Sets: the same file, QueryResolver._recursive_set_resolve, _find_set_members, routes_for_as_set.
-- Preload: irrd/storage/preload.py, Preloader.set_members and routes_for_origins.
-- AsNumber: irrd/utils/validators.py, parse_as_number.
-- Nrtm4: irrd/mirroring/nrtm4/nrtm4_types.py (the Update Notification File); in Nrtm4.Status, the
--   recorded status, the keys, the next version and the file history, and in Nrtm4.Client, the run of
--   nrtm4_client.py. A run of the client is the list of its calls of the database handler, in their
--   order, and its result or exception.
-- Jsonseq: irrd/mirroring/nrtm4/jsonseq.py.
-- Scheduler: irrd/mirroring/scheduler.py, MirrorScheduler as a record; `started` logs process.start().
-- NrtmGenerator: irrd/mirroring/nrtm_generator.py, the answers to NRTM version 1 and 3 queries, by their parts.
-- AccessCheck: irrd/server/access_check.py, is_client_permitted.
-- WhoisResponse: irrd/server/whois/query_response.py, WhoisQueryResponse.
-- NrtmOperation: irrd/mirroring/nrtm_operation.py, NRTMOperation.save, as its calls of the database
--   handler and its result.
-- Storage: irrd/storage/database_handler.py, with what it uses of models.py. Storage.Handler has
--   DatabaseHandler and its buffers, Storage.Operations its other methods, Storage.Statuses the updates of
--   statuses (and chunked_iterable of irrd/utils/misc.py), Storage.Tracker DatabaseStatusTracker and
--   SessionChangedObjectsTracker, and Storage.Sql the statements and is_serial_synchronised. A method
--   takes the handler to a new one, or to the exception that ends it. The statements of PostgreSQL are
--   operations of a parameter, of which Storage.Concrete is an instance; a query itself is an argument.
-- Updates: irrd/updates/, of which Updates.Request has ChangeRequest (parser.py), Updates.References the
--   ReferenceValidator (validators.py), and Updates.Handler the passes over the requests of a submission
--   (handler.py). A request is a value that each check takes to its next state, together with the state
--   of the reference validator; what is saved is the list of the calls of the database handler. The
--   parser, the queries and the validators of authentication and rules are operations of two parameters,
--   Intake and World. Updates.Auth has AuthValidator, with the hashes and queries as operations of
--   Environment, on what it uses of an object. For the passes, the authentication is one function of the
--   maintainers approved beforehand and of the object, and the answers of the queries do not change
--   while a submission is checked.
--   Updates.Suspension has reactivate_for_mntner (suspension.py). A validation can end in the
--   AssertionError of the RPKI check, on a route of AS 0, and the submission with it.
-- Conf: the settings that are read, as records. Enrich: the second query of the bulk validators.
-- Ip: what is used of IPy and inet_pton, with an instance for IPv4 in Ip.Concrete. Text: Python's
--   strings, of which upper, lower and int are modelled on ASCII. Base: shared helpers and lemmas.
--
-- Numbers are natural numbers: AS numbers, versions and timers are never negative here, and Python's
-- integers do not overflow. The depth of the set resolver, which counts down below zero, is a type
-- of its own. A Python set is a list without repetition in the order in which the elements came in; Python
-- leaves that order open, and of the results here only the class of a set that is looked for without
-- a class depends on it. An exception is `none`, or a case of a result type where there are several.
--
-- The set resolver recurses on fuel: one more than the number of names that the stores and the query
-- hold, and each call but the last marks one of these as seen. So do the digits of a number, in Text
-- and WhoisResponse, on one more than the number, which has fewer digits.
--
-- Databases, Redis, sockets, files, signatures and the JSON, IP and tree libraries are parameters or
-- arguments. Loading of the preloaded store, the parser of RPSL objects, the rules and the
-- suspensions of submissions and the reports on them, the other mirror runners, the NRTMv4 server and
-- the web interface are not modelled: the parsed objects and the rows of queries are arguments of what
-- is. So is the new hash that replaces the dummy hashes of a maintainer: Updates.Auth has the password.
-- The RPKI validators are given addresses that inet_pton reads. Where a stream of JSON objects has one
-- that cannot be read, the result is the error alone, without the objects before it.
pub mod Base
pub mod Conf
pub mod Ip
pub mod Text
pub mod AsNumber
pub mod Preload
pub mod Storage
pub mod Updates
pub mod Query
pub mod Jsonseq
pub mod Nrtm4
pub mod Scheduler
pub mod NrtmGenerator
pub mod AccessCheck
pub mod WhoisResponse
pub mod NrtmOperation
pub mod Sets
pub mod Enrich
pub mod Rpki
pub mod ScopeFilter
pub mod RoutePref
