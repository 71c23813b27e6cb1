-- ===== src/Tests/Bags.antt =====
-- Bags at concrete inputs: closing them, and an item that is lost.
use oxidia.Prelude.{
  ℕ, zero, suc, ◌+◌, ◌≡◌, refl, sym, ◌∙◌, subst, inl, inr, true, false, List, [], ◌∷◌, Option, none,
  some, arith, set, replicate, ◌==◌, Bool-cases, some_injective,
}
use mathlib.Core.Option
use oxidia.Prelude.Assoc.{nat_eq, lookup}
use oxidia.World.Position.{Position}
use oxidia.World.Game.{Game, PlayerState, InvItem, ContainerSource, entry, admits}
use oxidia.World.Game.Ground.{remove_at}
use oxidia.World.Game.Goods.{contents, goods}
use oxidia.World.Game.Windows.{Windows}
use oxidia.World.Game.Windows.Handlers.{close_container_tree}
use oxidia.World.Game.Windows.Tree.{WindowsAreRanked, close_container_tree-Ends}
use oxidia.World.Game.Windows.Others.{OnlyPlayer}
use oxidia.World.Game.Windows.Cycle.{Looped, close_container_tree-Looped}
use oxidia.World.Game.Transfer.{slot_admits, container_to_slot}
use oxidia.World.Game.Transfer.Loss.{container_to_slot-loss}
use oxidia.World.Game.Items.{do_move_inventory}
use oxidia.World.Game.Items.Fitted.{FittedSlots}
use oxidia.World.Game.Items.Inventory.{do_move_inventory-Fitted}
use oxidia.Tests.Play.{
  whole, here, player, game, bags, bag, bag_item, sword, rank, rank_low, game-ranked, takes_all,
}

-- Closing the outer bag closes the inner one.
close_container_tree-Ends_example :
    (g' : Game) × (close_container_tree takes_all 2 (game bags) 1 0 ≡ some g')
    × WindowsAreRanked takes_all rank 1 g'
close_container_tree-Ends_example =
    close_container_tree-Ends takes_all rank 1 2 (game bags) 0 game-ranked (omega arith)

-- Two bags, each opened from the other.
abbrev knot : Windows
knot = some (bag (ContainerSource.nested 1 0) []) ∷ some (bag (ContainerSource.nested 0 0) []) ∷ []

knot-Looped : Looped takes_all (λ sent to b. refl) 1 0 1 (game knot)
unfolding lookup Option.bind
knot-Looped = (knot, refl, refl, refl)

close_container_tree-Looped_example : close_container_tree takes_all 1000 (game knot) 1 0 ≡ none
close_container_tree-Looped_example =
    close_container_tree-Looped takes_all (λ sent to b. refl) 1 1000 0 1 (game knot) knot-Looped

sword_unfit : slot_admits ((game bags).item_meta sword.server_id) 1 ≡ false
unfolding admits Option.bind
sword_unfit = refl

player_here : lookup 1 (game bags).players ≡ some (player here bags)
unfolding lookup
player_here = refl

opened : entry bags 0 ≡ some (bag (ContainerSource.slot 3) (sword ∷ bag_item ∷ []))
unfolding Option.bind
opened = refl

empty_slot : entry (player here bags).inventory 0 ≡ none
unfolding Option.bind
empty_slot = refl

-- The sword of the outer bag is moved to the slot of the head.
container_to_slot-loss_example :
    (g' : Game) × (container_to_slot takes_all 2 (game bags) 1 0 0 1 ≡ some g')
    × (goods g' 1
        ≡ some (record {
          slots = replicate 10 none;
          held = set (contents bags) 0 (some (remove_at (sword ∷ bag_item ∷ []) 0));
        }))
    × OnlyPlayer 1 (game bags) g'
container_to_slot-loss_example =
    container_to_slot-loss takes_all (λ sent to b. refl) (game bags) 1 (player here bags)
      player_here 0 0 (bag (ContainerSource.slot 3) (sword ∷ bag_item ∷ [])) sword opened refl rank
      2 1 rank_low game-ranked refl empty_slot sword_unfit

abbrev worn_sword : InvItem
worn_sword = record { server_id = 2376; client_id = 3264; count = none; animated = false }

-- A sword in the right hand.
abbrev armed_slots : List (Option InvItem)
armed_slots = none ∷ none ∷ none ∷ none ∷ some worn_sword ∷ none ∷ none ∷ none ∷ none ∷ none ∷ []

abbrev armed : PlayerState
armed = record (player here bags) { inventory = armed_slots }

abbrev armed_game : Game
armed_game = record (game bags) { players = (1, armed) ∷ [] }

armed-ranked : WindowsAreRanked takes_all rank 1 armed_game
unfolding lookup
armed-ranked ws e = game-ranked ws (unfold lookup in e)

entry-nones : (n i : ℕ) → entry {A = InvItem} (replicate n none) i ≡ none
unfolding Option.bind
entry-nones zero i = refl
entry-nones (suc n) zero = refl
entry-nones (suc n) (suc i) = entry-nones n i

sword_fits :
    (i : ℕ) (it : InvItem)
    → entry armed_slots i ≡ some it
    → slot_admits (armed_game.item_meta it.server_id) (i + 1) ≡ true
unfolding Option.bind admits
sword_fits (suc (suc (suc (suc zero)))) it e =
    subst (λ (x : InvItem). slot_admits (armed_game.item_meta x.server_id) 5 ≡ true)
      (some_injective e) refl
sword_fits zero it e = absurd (ground arith)
sword_fits (suc zero) it e = absurd (ground arith)
sword_fits (suc (suc zero)) it e = absurd (ground arith)
sword_fits (suc (suc (suc zero))) it e = absurd (ground arith)
sword_fits (suc (suc (suc (suc (suc i))))) it e =
    let no : none ≡ some it = sym (entry-nones 5 i) ∙ e in absurd (ground arith)

armed-fitted : FittedSlots armed_game
unfolding lookup
armed-fitted id inv e i it at = elim (Bool-cases (1 == id)) [
  | inl me ↦
      let worn : armed_slots ≡ inv = some_injective (rw me at e) in
      sword_fits i it (subst (λ l. entry l i ≡ some it) (sym worn) at)
  | inr nobody ↦ let no = rw nobody at e in absurd (ground arith)
]

abbrev slot_place : ℕ → Position
slot_place slot = record { x = 0xffff; y = slot; z = 0 }

-- The sword goes to the left hand.
do_move_inventory-Fitted_example :
    (g' : Game) × (do_move_inventory takes_all whole 2 armed_game 1
        (slot_place 5)
        0
        (slot_place 6)
        1
      ≡ some g')
    × FittedSlots g'
do_move_inventory-Fitted_example =
    do_move_inventory-Fitted takes_all whole rank 1 2 rank_low armed_game (slot_place 5)
      (slot_place 6) 0 1 armed-ranked armed-fitted
