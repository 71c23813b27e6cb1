-- ===== src/World/Game/Looks.antt =====
-- A change of outfit, and the saving of all players (crates/world/src/game/session.rs).
use package.oxidia.Prelude.{ℕ, Bool, List, [], ◌∷◌, ◌++◌, none, some}
use mathlib.Core.Option
use package.oxidia.Prelude.Assoc.{nat_eq, lookup, adjust}
use package.oxidia.Protocol.Bytes.{Bytes}
use package.oxidia.Protocol.Outfits.{Outfit, creature_outfit}
use package.oxidia.World.Game.{Game, PlayerState, SaveRecord}
use package.oxidia.World.Game.View.{spectators}
use package.oxidia.World.Game.Session.{push, push_all, save_record}

unfoldable save_each : List (ℕ × PlayerState) → List SaveRecord
unfolding save_record
save_each [] = []
save_each ((id, p) ∷ rest) = save_record p ∷ save_each rest

-- Nobody leaves; the records go to the worker, if there is one.
unfoldable pub save_all : Game → Game
unfolding save_each
save_all g = record g { saved = Option.map (λ records. records ++ save_each g.players) g.saved }

abbrev wear : Outfit → PlayerState → PlayerState
wear o p = record p { outfit = o }

unfoldable pub do_change_outfit : (List (ℕ × Bytes) → ℕ → Bytes → Bool) → Game → ℕ → Outfit → Game
unfolding push push_all
do_change_outfit accepts g id outfit = elim (lookup id g.players) [
  | none ↦ g
  | some p ↦
      let pkt = creature_outfit id outfit in
      let told = push accepts (record g { players = adjust id (wear outfit) g.players }) id pkt in
      push_all accepts (spectators told p.position id) pkt told
]
