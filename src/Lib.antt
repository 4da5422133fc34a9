-- ===== src/Lib.antt =====
-- mcsm supervises Minecraft servers: an instance has slots, a slot mounts one server directory at a
-- time and drives its Java process, and instances that share directories exclude each other by an
-- owner record on disk.
--
-- How the parts interact: internal/slot starts a server by taking the lock of internal/lock in the
-- server's directory and spawning a process of internal/process; three goroutines then follow the
-- process (`watchExit`, `healthLoop`, and the goroutine of `Stop`), each by sections under the slot's
-- mutex.
--
-- Process.RingBuffer (internal/process/ringbuf.go): `RingBuffer` with `newRingBuffer`, `push`, `Tail`.
-- Process.Exit (internal/process/process.go): the classification of an exit in `waitAndPublish`, and the
--   exit channel with its one buffered value.
-- Lock.Owner (internal/lock/owner.go): `Owner`, `Read`, `IsStale`, `Classify`, `Remove`.
-- Lock.Acquire (internal/lock/acquire.go): `TryAcquire` as its reading and what follows it, `Refresh`,
--   `Release`, `writeOwnerAtomic`; the call of the operating system that fails is an argument.
-- Lock.Heartbeat (internal/lock/acquire.go): `Release` and `heartbeatLoop` as two goroutines.
-- Slot.State, Slot.Record (internal/slot/state.go, slot.go): the slot's struct and its readers.
-- Slot.Memory (slot.go): `parseXmxMB`, `checkAccepts`.
-- Slot.Mount (slot.go): `Start` and `failMount`; what discovery, the config reader and the spawn answer
--   is the record `Answers`.
-- Slot.Stop, Slot.Watch (slot.go): `Stop`, `AbortStop`, `Restart` and the goroutines, section by section.
-- Slot.Run (slot.go): one mount as a schedule of the steps of `watchExit`, `healthLoop`, `rconConnectLoop` and
--   any calls of `Stop` with their goroutines; no `Start` comes in between.
-- Gameplay.Lines, Gameplay.Toxicity (internal/gameplay/death.go, toxicity.go): `ChatMessage`, `FlyingKick`,
--   `ParseDeath`, and the checker for words; compiling and matching its patterns are parameters.
-- Slot.Gameplay (slot.go, discord_adapter.go): `detectGameplayEvents` on one entry, with its flags; what it
--   publishes and sends is a list of effects.
-- Slot.Manager (internal/slot/manager.go): `NewManager`, `Get`, `List`, `Snapshots`.
-- Audit.Logger, Audit.List (internal/audit/audit.go): `Append` with its ring, and the pages of `List`.
-- Audit.Files (audit.go): the log's files, what `New` reads back from them, and what `gc` removes; the
--   encoding of an entry is a parameter.
-- Slot.Players (discord_adapter.go, internal/api/handlers_server.go): the names in the answer to `list`.
-- ServerId.Properties (internal/serverid/properties.go, properties_writer.go): `ReadProperties` and
--   `PatchProperties` over the lines of a file, each short enough for the scanner's buffer, and in
--   ServerId.Properties.Text over its bytes.
-- Slp.VarInt, Slp.Reply (internal/slp/slp.go): `writeVarInt`, `readVarInt`, `byteReader.varInt`,
--   `writeString`, `buildPacket`, and `Probe` from the answer's first byte to the status text.
-- Rcon.Packet, Rcon.Client (internal/rcon/rcon.go): `writePacket`, `readPacket`, `nextID`, `Cmd`,
--   `authenticate`, `Dial`, `Close`; what the other side sends back is an argument.
-- Channels: Go's channels as a store of numbered channels; a send to or a close of a closed channel is a
--   panic.
-- Events.Bus (internal/events/bus.go): `Subscribe`, its cancel function, `Publish`, `Close`.
-- Logtail.Broadcaster (internal/logtail/broadcaster.go): the same of a tailer's subscribers, and `Count`.
-- Logtail.Parser (internal/logtail/parser.go): `Parse` with its two patterns, and `mergeTime`.
-- Logtail.Tailer (internal/logtail/tailer.go): `emit` and the history, `Recent`, `Since`,
--   `readUntilEOF`, `backfill`.
-- Backup.Paths: filepath.Clean and filepath.Join as internal/backup/backup.go uses them.
-- Backup.Names, Backup.Restore, Backup.Create (internal/backup/backup.go): `buildID`, `shouldExclude`,
--   `Restore`, and `Create` with the save control of internal/slot/slot.go; what the operating system and
--   the server's console answer is an argument.
-- Api.Auth (internal/api/auth.go, context.go): `authenticate`, `match`, `requireScope`, `HasScope`; Argon2's
--   comparison and strings.TrimSpace are arguments.
-- Api.Router (internal/api/router.go): the routes of `register` with their scopes.
-- Api.Backups (internal/api/handlers_backups.go): the conditions under which the handlers call the store,
--   over two readings of the slot of Slot.Record.
-- Api.Properties (internal/api/handlers_properties.go): `handleServerPropertiesPatch` over the file's bytes.
-- Api.Commands (internal/api/handlers_server.go): the handlers that send commands to the server's console,
--   as the commands that they send and the responses that they write; of a response its code or its names
--   are kept. What comes of a line on the connection, beyond the tests of `Cmd`, is an argument.
-- Config.Validate (internal/config/validate.go, types.go): `Validate`, with a problem for each of its
--   errors; what the parsers of addresses and URLs answer are fields.
-- Api.Updates (internal/api/handlers_update.go): `handleUpdateApply` with the launch jar, the previous one
--   and the staged one.
-- Update.Paper (internal/update/paper.go): `Latest` and `Download`; what the network answers and the digest
--   are arguments.
-- Metrics.Registry (internal/metrics/registry.go): the registry, its metrics and `WriteTo`; the numbers are
--   a parameter.
-- ServerId.Flavor (internal/serverid/flavor.go): `DetectFlavor` over the names in a directory.
-- ServerId.Launch (internal/serverid/launch.go): `PlanLaunch`, `findLaunchJar` and `latestMatching` over a
--   directory's entries.
-- Api.Federation (internal/api/handlers_federation.go): the merge of `handleFederationDiscovery` with
--   `decodeRemoteServer` and `remoteFresher`; the reports stand in the order in which their map is ranged over.
-- Peers.Pool (internal/peers/pool.go): `NewPool`, `pingOne`, `PingAll`, `Status`, `Get`; what a ping answers
--   is an argument.
-- Discovery.Scan (internal/discovery/discovery.go): `Scan`, `scanOne`, `FindByID`; what is read of a
--   directory is the record `Entry`, one time stands for all of a scan, and the sorting is an argument.
-- Discovery.Store (internal/discovery/store.go): `New`, `Snapshot`, and the rounds of `Refresh`.
-- Tests beside each part hold the theorems at concrete inputs.
--
-- Bounds: a time is its number of nanoseconds, without a bound; Go's `int` is an integer without a
-- bound but in `parseXmxMB`, which has 64 bits; the int32 and uint32 of the protocols keep their wrap.
-- The only fuel is that of `writeVarInt`, the five rounds that 32 bits take at seven bits a round.
--
-- Not modelled: the rest of the HTTP layer, the Discord session, the JSON and YAML encodings, the network
-- and file system calls themselves, and the free text of error messages, which are libraries' or carry no
-- state; the loops of the tailer that follow the file system's events; the listing and pruning of
-- backups.
mod Common
pub mod Peers
pub mod Process
pub mod Lock
pub mod Slot
pub mod ServerId
pub mod Slp
pub mod Rcon
pub mod Audit
pub mod Channels
pub mod Events
pub mod Logtail
pub mod Backup
pub mod Api
pub mod Config
pub mod Discovery
pub mod Metrics
pub mod Update
pub mod Gameplay
