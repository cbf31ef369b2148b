-- ===== src/Lib.antt =====
-- Lied, the sheet-music library of music organizations: its domain layer, its permission checks,
-- the storage of its files and its WebDAV file system.
--
-- The program is a web server over PostgreSQL. The routes check permissions (lied/src/auth) and
-- call the domain layer (lied/src/domain), whose functions are SQL statements with checks around
-- them; the WebDAV server parses a request path into a place of the entity tree
-- (lied/src/webdav/path.rs) before it looks anything up. A file is a row of the database and an
-- object of an S3 storage; the routes write both through lied/src/file_service.rs, the WebDAV
-- server does it by itself.
--
-- Prelude holds the tests and list lemmas that all parts share, Prelude.Int the integers of an
-- `i32` column, Prelude.Text the byte lists that stand for strings, Prelude.Utf8 their
-- conversions. Sql is the statements UPDATE, INSERT and ORDER BY over a table that is the list
-- of its rows; a unique index is checked at each row that is written, as PostgreSQL does for an
-- index that is not deferred. Ids and timestamps are numbers, and the transaction's clock is an
-- argument `now`. An operation returns the new table, or an error that stands for the rollback;
-- a constraint that is violated becomes the error that the source makes of it. Failures of the
-- connection are not modelled.
--
-- Domain.CollectionItem is lied/src/domain/collection_item.rs: each function of that module has
-- the function of the same name here, and its children prove what reorder, remove and restore do
-- to the running order. Domain.Membership is lied/src/domain/membership.rs: Roles has the enum
-- `Role`, Owners and Changes the last-owner rule, Validation the checks of a write, Invariant
-- and Kept the invariant of the table, Reachable sequences of writes, Races the interleaving of
-- two calls of `delete`. Domain.User and Error are the types that the checks mention. Auth.Authz
-- is lied/src/auth/authz.rs over the membership table, Auth.Csrf lied/src/auth/csrf.rs, with
-- Fields about the fields of a form, Cookies about the cookie and Checked about the requests that
-- are run. WebDav.Path is lied/src/webdav/path.rs, with the
-- match of `from_segments` split by the segments that it inspects; Item is `split_item_segment`
-- with the standard parser of `i32`, Decimal the printer of item directories in
-- lied/src/webdav/fs.rs, RoundTrip and Safety what is proved of them.
--
-- Domain.PartAssignment is lied/src/domain/part_assignment.rs, with Assigned about the upsert of
-- `assign`, Kept about the unique index and Reachable about sequences of writes.
--
-- Domain.Entities has the columns of the other tables that joins read. Domain.File is
-- lied/src/domain/file.rs: Name the formats, file names and keys, Slugs `resolve_path_slugs`,
-- Slots the unique indexes, Rollback `restore_replaced` after `replace`. Storage is the upload
-- of lied/src/storage.rs: Parts is about one round of its loop, Upload about the whole; Pages is
-- `list_objects`. A record of functions stands for the storage, which takes or refuses each
-- request. FileService is lied/src/file_service.rs, whose two functions work on a world of rows
-- and objects: Atomic is about `store_upload`, Replacement about `store_replacement`, Bytes
-- about whose bytes stand in a slot.
--
-- Domain.AuditLog is lied/src/domain/audit_log.rs, with Redaction about what can be read in a
-- payload. WebDav.Access is lied/src/webdav/access.rs, with its arrangements subtree in
-- Arrangements: Phantoms is about empty directories, Narrowing and Staff about the two views,
-- Items about the check of one item. WebDav.Fs is lied/src/webdav/fs.rs: the resolution of names
-- to ids; Objects has its data and keys, Nodes `stat`, Directories `list`, Reads `open_read`,
-- Write `resolve_write_target`, `commit_write`, `remove` and `create_dir`, Buffer the open file,
-- Handlers what dav-server calls. Results, Items, Scopes, Listings, Agreement, Names,
-- Permissions, Commit with its child Logs, Buffer.Session and Handlers.Keys are about them.
--
-- Domain.Coverage is lied/src/domain/coverage.rs behind its two queries: Tally is about the
-- numbers of a report, Org about the agreement of the two loops. Listing is lied/src/listing.rs:
-- Allowed is about the lists of an endpoint, Etag about the version tags, Escapes about percent
-- decoding; Pagination is lied/src/pagination.rs, whose bounds also hold for a listing;
-- Prelude.Decimal has the standard printer and parser of integers.
--
-- There are three fuels. That of `decimal`, the printer of a number: a number has no more digits
-- than its successor, which is what it is given. That of `flush_parts`, which sends the full
-- parts of a buffer: each round takes a part of at least one byte, so the length of the buffer,
-- which is what it is given, is enough. And that of `list_objects`, for the requests, as it is
-- S3 that says whether there is a next page. The index of an item is an integer with the
-- overflow check of a 32-bit column; positions below 999999 keep all numbers far from it. The
-- byte counts of an upload are far from the bounds of their 64 bits.
--
-- Not modelled: failures of the database, the interleaving of two requests (but for Races), the
-- dav-server library, the JSON of responses, the HTML and JSON routes, sessions, tokens and passwords, whose substance lies in other
-- libraries, and the operations of the remaining entities.
pub mod Auth
pub mod Domain
pub mod Error
pub mod FileService
pub mod Listing
pub mod Pagination
pub mod Prelude
pub mod Sql
pub mod Storage
pub mod WebDav
