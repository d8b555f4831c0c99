-- ===== src/Lib.antt =====
-- LNR-High-Performance: a server that answers, for telephone numbers, which routing number each has
-- been ported to, and what several other databases say of it.
--
-- The parts. A database is a text file of lines; a loader in callfwd/Control.cpp reads it in batches
-- of 10000 lines through the `fromCSV` of a builder, builds the indexes and puts the result in a
-- global slot. HTTP and SIP handlers look numbers up in the slots, in batches, or walk over rows
-- with a cursor.
--
-- Which file models what:
--   Base: Boolean tests, lists by native indices, results (`Result` for exceptions, `Run` for
--     computations that may read past an array or be cut off).
--   Vendor: folly as the code uses it: the F14 map, `dynamic` and the text functions are parameters
--     with the documented behaviour that the code relies on; Tests.Concrete shows that it can hold.
--   Batch: the loop of every `getXs`. Its fuel is the number of keys.
--   Text: `std::stoll`, `>>`, the split of a line at commas, `deleteCharacter`.
--   Csv: a stream that throws on failbit, `fromCSV` over it, and the loop of the loaders; what a line
--     does is an argument. The fuel of the loaders' loop exceeds the number of lines by two.
--   PhoneMapping (callfwd/PhoneMapping.cpp): `PhoneMapping::Builder` is `new_data`, `set_metadata`,
--     `add_row`, `read_line` and `build`; `Data::getRNs` is `get_rns`; a cursor is opened by
--     `inverse_rns` and `visit_rows`, refilled by `fetch`, moved by `advance`. `Cursors.drain` is the
--     loop of a client, with more fuel than there are rows.
--   PhoneNumber: `PhoneNumber::fromString`.
--   Keyed: what the siblings of PhoneMapping share word for word; Dnc, TollFree, Youmail, Geo, Ftc,
--     F404, F606 (callfwd/*Mapping.cpp) are built on it, Lerg and Dno have maps of their own. What a
--     line says is the relation `Spells` of each, over the columns of Text.Columns, stated without
--     the reader.
--   Reverse: `ReverseHandler`; Target: the life of a request in `TargetHandler`, with its lookups in
--     Target.Lookup, the answer of `onQueryComplete` in Target.Page and the text of one number in
--     Target.Record; Service: `ApiHandlerFactory` (callfwd/ApiHandler.cpp).
--   Sip: `SIPHandler` (callfwd/SipHandler.cpp), from a datagram to the text of its reply; what it
--     logs, and the ACL and the mappings that change between datagrams, are in Sip.Logging.
--   Acl: `isCallAllowed` and `fromCSV` (callfwd/ACL.cpp).
--   Control: the slots and the load commands; Control.Verify and Control.Dump: `verifyMappingFile`
--     and `dumpMappingFile`; Control.Server: the messages of the control socket and what all commands
--     do to the slots (callfwd/Control.cpp). `Control.Reachable.Reach` is what messages lead to. A
--     verification stops at the end of its file, with more fuel than the file has lines.
--   AccessLog: the formatter, the filter and the rotated files (callfwd/AccessLog.cpp).
--   Stir: the STIR/SHAKEN server. Stir.Errors and Stir.Types are stir/StirApiTypes.cpp, Stir.Handler
--     is stir/StirApiHandler.cpp, Stir.Passport is `makePassport`, Stir.Identity and Stir.Verify are
--     `verifyPassport` of stir/Passport.cpp, with the early returns in Stir.Checked. Stir.Json,
--     Stir.Pieces, `Base64` and `Signer` are the libraries it calls; Stir.Documents has the documents
--     of a passport and their compact JSON; Tests.Documents and Tests.Tools
--     show that their laws can hold. The loop over the parameters of an identity has as much fuel as
--     there are bytes.
--   Tests: sample data, and each theorem at a small input.
--
-- Machine integers: `PhoneList` keeps 34 and 30 bits, written as remainders; sums and products of
-- 64-bit numbers are taken modulo 2^64 where they can pass it. A read past a vector's end, which C++
-- leaves undefined, is the error `out_of_bounds` or the outcome `fault`; a variable that is read before
-- it is written is an argument.
--
-- Not modelled: hazard pointers and the atomic exchange of a slot, the log lines (of which the
-- command meta consists), sockets and threads, the start-up code of the three programs, the writing
-- of files to disk. lib/osips_parser is a copy of another project's parser and lib/test one of
-- proxygen's test transport.
pub mod Base
pub mod Vendor
pub mod Batch
pub mod Text
pub mod Keyed
pub mod Dnc
pub mod TollFree
pub mod Youmail
pub mod Dno
pub mod Lerg
pub mod Geo
pub mod Ftc
pub mod F404
pub mod F606
pub mod PhoneMapping
pub mod PhoneNumber
pub mod Reverse
pub mod Target
pub mod Sip
pub mod Service
pub mod Acl
pub mod Control
pub mod Csv
pub mod Stir
mod Tests
pub mod AccessLog
