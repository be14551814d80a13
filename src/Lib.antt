-- ===== src/Lib.antt =====
-- Verification of tarion, a peer-to-peer chat with a directory server. The server (server/, the
-- program tariond) keeps accounts, knows who is online, introduces peers to each other, forwards
-- relay packets and holds sealed letters for users who are offline. The client (the repository's
-- root and internal/) talks to the server and to other clients, and keeps its files sealed on
-- disk.
--
-- Strings and byte slices are lists of bytes, Go maps are association lists, times are whole
-- numbers. What the outside world decides is an argument of the definition that meets it: whether
-- a file could be written, what a random draw gave, the time. Go's Unicode tables are the record
-- Text.Lower.Unicode. Operations of the source that hold a lock are one function here; an
-- operation that gives the lock up in between is one function for each part, and theorems about
-- it allow any change between the parts; the handlers of the server run both parts at once.
--
-- * Base and its children: numbers, tests, lists, results, sorting. Text and its children: Go's
--   strings (order, search, UTF-8, hex, lower case, trimming, splitting). Dict: Go's maps.
-- * Limiter (server/limiter.go): newLimiter, newByteLimiter, Allow, AllowN, sweep. Tokens are
--   counted in parts of 1 / scale, so that the refill of a nanosecond is a whole number; the
--   source uses floating point. Limiter.Level has the level that a key would have at a time,
--   which is the specification; Limiter.Budget adds it up over histories.
-- * Mailbox (server/mailbox.go): SetKey, Key, Remove, letters and Put stand in Mailbox; Fetch,
--   Count and Ack in Mailbox.Delivery; Expire in Mailbox.Expiry. A folder maps file names to
--   files; the field disk says which files cannot be read or removed at the moment, and a history
--   gives each call its own. The other children prove what the folders keep.
-- * Proto (internal/directory/proto.go): limits, error codes, usernames and their keys.
-- * Accounts (server/accounts.go): the user database; Accounts.Loading reads its file and the
--   older flat file. Passwords has what the database uses of the password hashes.
-- * Net has the addresses of datagrams and Go's net.SplitHostPort; IP parsing and name resolution
--   are arguments.
-- * Access and its children (server/access.go): Bans (banList, readBans, editBans), Invites
--   (Create, Consume, Restore), Deletions, PasswordRules (passwordProblem).
-- * Proto.Messages (internal/directory/proto.go): Request, Response, Push, ValidPublicAddr.
-- * Relay and its children (internal/relay/relay.go): Packets (Wrap, Unwrap, Probe, ParseID,
--   ParseAddr), Conn (ReadFrom, WriteTo, Allow).
-- * Server and its children (server/server.go): Server has the state, a session standing in the
--   table objects under its ID; Connections (admit, release, endSession), Login (register, login,
--   bind, updateMailbox), Directory (list, lookup, revokedKeys, sendProbe), Forwarding
--   (openRelay, ServeRelay, sweepRelays), Passwords (changePassword, deleteAccount,
--   processDeletions, kickBanned), Letters (the mailbox handlers), Handle (handle, and the loops
--   of Serve). What the world decides during a handler is the record World, what libraries do is
--   the record Env, and what the server sends besides responses is added to the list effects.
--   Moves and the modules named Moved say which call of the mailbox store a handler makes.
-- * Wire (internal/wire/wire.go): WriteFrame and ReadFrame.
-- * Vault and its children (internal/vault/vault.go): Seal, Open, SealLine, OpenLine, Load, Wrap,
--   Unlock. The ciphers, argon2 and DPAPI are the record Crypto.
-- * Storage (internal/storage): sealed.go stands in Storage and its children Lines, Reseal,
--   Resealed; peers.go in Storage.Peers, outbox.go in Storage.Outbox, dropped.go in
--   Storage.Dropped, storage.go in Storage.Config and Storage.History. Storage.Held has what a
--   JSON file holds.
-- * Network and its children (internal/network/quic.go): handleStream, Deliver, markSeen in
--   Network; SendMessage, conn, dropConn in Network.Sending. A stream that arrives, what other
--   goroutines do while it is handled, and what the world answers to a message that is sent, are
--   arguments; Network.Once has many streams that are handled at the same time.
-- * Identity (internal/identity/identity.go): PeerID, Short, Fingerprint, PubKeyFromCerts. Letter
--   and its children (internal/mailbox/mailbox.go): BoxKeys, SignBoxKey, Seal, Open; keys,
--   ciphers and the JSON of a letter are the record LetterCrypto.
-- * Client and its children (main.go and mailbox.go in the repository's root): the rules of a
--   running client in Client (acceptRule, retryable, useMailbox, configuredID), flushOutbox and
--   mailWhenOffline in Client.Flush, openLetter and fetchMail in Client.Fetch. What leaving a
--   message in a mailbox gives is an argument there. Client.Deliver, with Client.Routes, has
--   deliverMsg and its relay sessions, over SendMessage and the server's client as the record
--   World; its module Examples puts SendMessage of Network.Sending in their place. flushOutbox
--   takes the outcomes of its deliveries as an argument.
-- * Firewall (internal/firewall/firewall.go): Decide, portMatches, ApplyCommands. Portmap
--   (internal/portmap): Open, NotPublic, explainNATPMP.
-- * Samples, and the modules named Examples: the parameters and the theorems at concrete inputs.
--
-- Loops go over lists: the packets that arrive, the draws of invite codes, the addresses of a
-- contact. Two definitions have a number that runs down: format_uint has the 20 digits that a
-- 64-bit number has at most, and fetch_rounds the hundred rounds that fetchMail itself allows.
-- SendMessage makes at most two attempts, each of which is an argument. Not modelled: TLS and
-- QUIC, the encoding of JSON, logging, the system's folders, the two formats of password hashes,
-- and of the client what is neither a relay packet nor a message to the server (its directory
-- client, the commands and the windows), nor how the firewall's rules are read and how UPnP and
-- NAT-PMP speak to a router. JSON files are the values that they hold, or marked as unreadable;
-- that JSON keeps only texts in UTF-8 is a hypothesis where it counts.
pub mod Access
pub mod Accounts
pub mod Base
pub mod Client
pub mod Dict
pub mod Firewall
pub mod Identity
pub mod Letter
pub mod Limiter
pub mod Mailbox
pub mod Net
pub mod Network
pub mod Passwords
pub mod Portmap
pub mod Proto
pub mod Relay
pub mod Samples
pub mod Server
pub mod Storage
pub mod Text
pub mod Vault
pub mod Wire
