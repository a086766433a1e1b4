-- ===== src/Lib.antt =====
-- A model of the core of the user service of referendumServices, the Go program under user_service/:
-- a personal data server that keeps each actor's records in a repository, stores the repositories as
-- CAR shards, signs their commits, and streams the changes to subscribers.
--
-- Parts, with paths under user_service/internal/:
-- - Repo: repo/. Repo/Tid is tid.go, the keys of records; the clock is the list of its readings in
--   microseconds. Repo/ActorRepo is repo.go, a repository opened on a session of the CAR store. The
--   rest is manager.go: Repo/Manager the writes (CreateRecord, UpdateRecord, DeleteRecord, BatchWrite,
--   InitNewRepo) and GetRecord, with the events they send; Repo/Locks is lockActor as steps of
--   interleaved callers; Repo/Walk is walkTree; Repo/External is HandleExternalActorEvent, CheckRepoSig
--   and processOp, with the key manager's VerifyActorSignature. A write opens a session on the actor's head, changes the tree, signs a commit, and
--   closes the session with it. Repo/Actions has the actions on a state that may fail.
-- - Car: car/, the CAR store. Car/Diff is BlockDiff of store.go. Car/Shard is LdWrite and the header
--   (utils.go), the rows (models.go) and the file of writeNewShard. Car/Session is the cache of last
--   shards (last_shard_cache.go), DeltaSession (delta_session.go), PutShardAndRefs (meta.go), and the
--   operations of store.go that open and close sessions. Car/Import is ImportSlice and CalcDiff.
--   Car/View is actorView (user_view.go), the stored blocks under a session. Car/Compact is the plan of
--   CompactActorShards (store.go), which buckets of shards it merges. A session collects blocks over a
--   base; closing it writes one shard, which becomes the actor's head, on which the next session is
--   opened.
-- - KeyMgr: keymgr/, KeyManager (keymgr.go) over the caches of encrypted keys and signing keys
--   (repo_cache.go). A commit is signed with the cached key of its actor, which is made again from the
--   encrypted key, and that is read from the key store, when it is missing.
--   KeyMgr/Compact is the conversion of PLC signatures (rotation_cache.go).
-- - Events: events/. Events/Event is the event type with its wire format and Events/Manager the
--   broadcast to subscribers, both of events.go; Events/Persist is persist.go, the in-memory log;
--   Events/Subscribe is the crossover from the log to the live stream in Subscribe of events.go;
--   Events/Stream is the consumer of another server's stream, consumer.go. The manager hands an event
--   to the persister, which numbers it, stores it and calls back the broadcast.
-- - Prelude: Booleans, lists over native numbers, integers, maps, texts.
--
-- How code becomes definitions. A struct is a record, an error a value of a data type or `none`, a
-- panic `none` or a Boolean that the definition's comment names. A map is an association list, whose
-- order stands for the order of a `range`. What a mutex guards is one step. A select, a clock, a
-- database or a channel's reader enters as an argument: the choice, the readings, the answers. An int64
-- counter wraps (inc_int64); lengths and offsets of buffers in memory are natural numbers.
--
-- Parameters, with the laws that theorems assume of them: the CBOR encoders and decoders (`IsCodec`, a
-- decoder takes back what its encoder wrote), the block store and link scanner, the encoders of CIDs
-- and CAR headers, the database and the file store (`Backend`; `IsRowwise`, a
-- statement inserts 1 to 2000 rows as one after another),
-- the KMS and the key library (`Keys`). Of the repository (`Outside`): indigo's Merkle search tree
-- (`IsMap`, a successful change of a tree changes the map it stands for; `IsStored`, its root loads
-- again), the store of CBOR nodes on a session, of which it may change the blocks (`IsLoadable`, a
-- commit that was put is read back), and signing; of the database, that it numbers shards from 1
-- (`IsNumbered`) and that a row it returns for an actor, if it returns one, is that actor's (`IsOwn`). Of the view (`Source`): the queries, S3 objects and readers
-- (`IsMaker`, a block made for a CID has it). Of the plan of compaction: the quotient of floats.
--
-- Bounds and fuel. `walk` of BlockDiff takes rounds as fuel; a weight that decreases along links, which
-- blocks without cycles have, gives enough. `create_batches` takes the number of references, which is
-- enough for any batch size above 0. `s32_loop` takes more rounds than a number of 64 bits has digits.
-- walkTree takes fuel above the height of the root, where links lead to lower blocks. offsetBytes takes
-- rounds, and running out is the code reading on. `be_bytes` takes the number itself, which has fewer
-- bytes. `put_uvarint` takes the room of the buffer, 8 bytes, and running out is the panic of the code.
-- The other definitions recurse on lists.
--
-- Not modelled. In events.go and consumer.go: the rate limiters, the pong handlers, metrics and logs. In
-- car/: ReadActorCar, deleteShards, compactBucket and the S3 requests. In repo/: ImportNewRepo around
-- walkTree and processOp, the proofs of records, the diff of two roots, and the unused readers of CAR
-- files. In keymgr/: the setup. The indexer, the PLC client, the
-- app views, the PDS and its HTTP handlers. The SQL queries enter as answers.
-- Generated encoders, the lexicon generator, configuration, the commented-out crawler and the Python
-- data service are left aside.
pub mod Prelude
pub mod Repo
pub mod Car
pub mod KeyMgr
pub mod Events
