-- ===== src/Lib.antt =====
-- A verification library for oxidia, a game server for the Tibia 10.98 protocol.
--
-- The program is a Cargo workspace. `crates/protocol` turns packets into bytes and back,
-- `crates/net` frames them on a TCP stream, `crates/server` runs the sessions, `crates/world` holds
-- the game, one task that owns all state, and `crates/formats` reads the item and map files. A
-- packet of the world goes through the map encoders of `crates/protocol`, is encrypted and given a
-- checksum, framed, and sent; the reader undoes the steps in the other order.
--
-- The parts and the modules that model them:
--   Protocol/Message      crates/protocol/src/message.rs: MessageReader and MessageWriter
--   Protocol/Frame        crates/protocol/src/adler.rs and frame.rs: checksum, inner frame
--   Protocol/Xtea         crates/protocol/src/xtea.rs: cipher and padded message
--   Protocol/Net          crates/net/src/frame.rs: length-prefixed frames on a stream
--   Protocol/Session      crates/server/src/game_service.rs: send_encrypted, head of reader_loop
--   Protocol/MapDescription  crates/protocol/src/map_description.rs: the tile stream; the client's
--                         decoder is the one of that file's tests
--   Protocol/Walk         crates/protocol/src/walk.rs: auto-walk, step and floor-change packets
--   Protocol/MoveThing, TileItem, Container, CombatPackets  the files of crates/protocol/src of the
--                         same names in snake case: single packets
--   Protocol/EnterWorld, TileCreature, Outfits  packets of crates/protocol/src/enter_world.rs,
--                         tile_creature.rs, creature.rs and outfit.rs
--   Formats/Node, Props   crates/formats/src/node.rs and props.rs: the node tree and its cursor
--   Formats/FloorChange   crates/formats/src/items_xml.rs: the flags of stairs and holes
--   World/Position        crates/world/src/lib.rs: positions and directions
--   World/Pathfinding     crates/world/src/pathfinding.rs: the A* search
--   World/Map             crates/world/src/map.rs: chunk ids, the chunks around a place, ChunkManager;
--                         Tiles: what stands on a tile; Sight: lines and throws; Stairs: floor changes
--   World/Game            crates/world/src/game/mod.rs: the state of the game task; View: who sees
--                         whom; Session: packets to players and log-out, Looks: outfits (session.rs); Ground
--                         and Items: items on the ground and in slots (items.rs); Windows, Transfer
--                         and Light: containers, moves to and from them, light (containers.rs)
--   World/Combat          crates/world/src/combat.rs: block rolls and hit chance
--   World/Condition       crates/world/src/game/condition.rs: regeneration
--   Prelude               lists, Boolean tests, integers and bits over the native numbers
--   Tests                 the models run at concrete inputs, and the theorems applied there
--
-- State and operations. A method with `&mut self` is a function that returns its result with the
-- object that it leaves. An integer of w bits is a number with its wrap-around written out, an i32
-- of coordinates an integer. A buffer is a list of bytes. A set or a hash map is a list; no theorem
-- depends on the order that a hash map would give.
--
-- Parameters. The streams of tokio are the records `Reader` and `Writer` with the documented laws of
-- `read_exact`, `write_all` and `flush`; the generator of `rand` is the record `Rng` with the bounds
-- of `gen_range`; the map that the encoders ask is the record `TileSource`; how a client cuts one
-- thing off the tile stream is `get_thing`; whether a tile is walkable and what the test loads is
-- `is_walkable`; reading a chunk from disk is `load`. Whether the bounded channel of a session takes
-- a packet is `accepts`, a function of the packets sent so far, so that it may refuse at any time;
-- the type f32 of the lines of sight, with its operations, is the record `Floats`.
--
-- Fuel. The loop over floors has fuel 8: a view has at most eight floors. The parser of the node tree
-- takes one more than the bytes of its input. The loop of the search takes more than a weight that
-- falls with each turn, 9 to the power 28160 at the start: at most 512 nodes, each at most 55 dearer
-- than the one it was reached from, can be opened and reopened so often. The way back from a node
-- takes its cost plus one. A push, which may log out a player and so push again, takes one more than
-- the number of players, each of whom can be logged out once. Closing a window takes fuel above a rank
-- that falls from a window to those opened from it; where there is no such rank it may not end.
--
-- Not modelled: the handlers of movement, combat, monsters, chat, look and commands and the login in
-- crates/world/src/game, and of containers.rs the use of items, which runs scripts and timers; the
-- item and map readers above the node tree (crates/formats/src/otb.rs, otbm.rs, items_xml.rs) and
-- StaticMap, which they fill; the other packets of crates/protocol; RSA (a big-integer library),
-- persistence (SQL), scripts (Lua), and the start of the server.
pub mod Prelude
pub mod Protocol
pub mod Formats
pub mod World
pub mod Tests
