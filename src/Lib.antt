-- ===== src/Lib.antt =====
-- The verification library of elo-service, a matchmaking server: players queue in redis, a worker
-- pairs them and starts a container for each match on a host with free slots and ports, the game
-- server reports the result, the ratings change, and after a grace window sweeps take the container
-- and its rows away.
--
-- The parts and their files. A record field or a constructor keeps the name of the source, in snake
-- case, and so does a function.
--   * Store: the rows of the SQL tables (src/models) and `Db`, the tables together. A query is a
--     function of `Db`, an update returns the new `Db`; a transaction that fails returns the old one.
--   * Hosts: src/models/machine_host.go. `allocate_ports`, `free_ports`, `find_available_host` and
--     the slot counts; the loop over the port range is structural on the number of ports left in it.
--   * Instances: src/models/server_instance.go, the rows of the containers and the conditional
--     updates by which a sweep claims a cooled one.
--   * Ledger: how the two tables fit together, the allocated ports of a host against the host ports
--     of its instances.
--   * Matches and Results: src/models/match.go and src/models/matchResult.go, phase A
--     (`match_ended`) and phase B (`finalize_match_teardown`) of a match's end and who sees what. A query
--     loads a row without its soft-deleted players (`load_match`, `load_result`); the row keeps them.
--   * Elo: src/models/elo.go, `ApplyClassicElo`. Float arithmetic is the parameter `FloatOps`.
--   * Lifecycle: src/api/matchResults/reportResults.go and the sweeps of
--     src/worker/matchmaking/garbageCollectMatches.go that end matches. Lifecycle/Claim runs any
--     number of workers on one instance as a step relation. Lifecycle/Timeout has `GarbageCollectMatches`.
--   * Queue: src/external/redis/redis.go, one queue with its liveness keys and join times, and
--     `CleanupExpiredPlayers` on it.
--   * Matchmaking: src/worker/matchmaking/pairPlayers.go, `StartMatch` with every error path and
--     `pairFIFO`. What the provider, the agent, the DNS service, the certificate store and the
--     generators answer is the value `StartEnv`; the error texts sent to players are the constructors
--     of `StartError`. Matchmaking/Join has `JoinQueue` and `LeaveQueue`; the SHA-256 of the metadata is
--     the parameter `fingerprint`.
--   * GameQueues: src/models/game_queue.go, the pools of a game and their configuration.
--   * Games: src/models/game.go, the games and their owners' operations. Games/Queues runs them and
--     those of the queues as steps, the reads and the write of `DeleteGameQueue` apart.
--   * WarmPool: src/worker/matchmaking/warmPool.go; each round of its loop is answered by a `WarmEnv`.
--   * Matchmaking/Rating and Matchmaking/Walk: `pairByRating` with its seed, window and group, and
--     `PairPlayers`, which walks over the sub-queues. sort.Slice is the interface `Sorting` of Prelude,
--     which leaves the order of equals open; an index out of range is the value `panicked`.
--   * Lobbies: src/external/redis/lobby.go and src/api/lobby: the records, the players and their
--     liveness keys (`Lobbies`), the tags (Lobbies/Tags), `HostLobby` and `JoinLobby` around their
--     session (Lobbies/Session), the messages of a client (Lobbies/Commands) and
--     `CleanupExpiredLobbies` (Lobbies/Sweep). bcrypt is `hash_password` and `is_hash_of`.
--   * PlayerData: src/models/player_game_entry.go, and src/api/playerData in PlayerData/Handlers.
--     The validity test of encoding/json is the parameter `is_json`; what the jsonb column keeps of a
--     text, or that it refuses it, is `to_jsonb`.
--   * Users: src/models/user.go. A deleted account keeps its row, which lookups hide.
--   * Auth: src/api/auth. The JWT library is the parameters `read_user`, `read_guest`, which
--     take the time, and `sign`.
--   * Artifacts: src/api/match/artifact.go and the artifacts of src/external/aws/aws.go; encoding/json
--     of an index is the parameters `marshal` and `unmarshal`.
--   * Pages: the paged listings of src/models. The interface `Scan` is the order in which a query without
--     ORDER BY finds its rows, which may be another one for each page.
--   * Text: what the handlers use of Go's strings and strconv.
--   * Examples: small stores, and runs of the components on them.
--
-- `pair_fifo` runs on fuel, one unit for each round of the loop: the source's loop has no bound of its
-- own, and out of fuel is the value `running`. `warm_loop` runs on fuel too; the cap of hosts and one
-- is enough of it, since each round that goes on adds a host. `pair_by_rating` and `pair_players` run on
-- fuel as `pair_fifo` does, and so does `garbage_collect_matches`, where one round more than there
-- are full pages of matches is enough.
--
-- Not modelled: the HTTP and websocket transport, gorm and redis themselves, the clients of
-- Hetzner, AWS and Cloudflare, the certificate manager, the host agent and the sidecar, which are I/O
-- or code of others. Slot counts and port numbers are natural numbers, as the configuration's are; a
-- read of the store that fails is modelled where `StartMatch` tests it, and else left out. So are the
-- errors of the object store, the select loops of the sessions and their keepalive; a record in redis
-- is a value, not the texts of a hash.
pub mod Prelude
pub mod Store
pub mod Hosts
pub mod Util
pub mod Elo
pub mod Matches
pub mod Results
pub mod Lifecycle
pub mod Matchmaking
pub mod Ledger
pub mod Instances
pub mod Queue
pub mod GameQueues
pub mod Games
pub mod Text
pub mod Lobbies
pub mod PlayerData
pub mod Pages
pub mod Users
pub mod Auth
pub mod Artifacts
pub mod WarmPool
pub mod Examples
