-- ===== src/World/Game/Items/Fitted.antt =====
-- About the slots of the players: what is worn fits its slot, and the moves between slots and ground
-- (`do_move_inventory` of crates/world/src/game/items.rs) keep it so.
use package.oxidia.Prelude.{
  ℕ, zero, suc, ◌+◌, ◌-◌, ◌≡◌, refl, sym, ap, ◌∙◌, subst, ◌⊎◌, inl, inr, Bool, true, false, List,
  [], ◌∷◌, Option, none, some, arith, if◌then◌else◌, ◌==◌, set, Option-cases, Bool-cases,
  some_injective,
}
use mathlib.Core.Option
use package.oxidia.Prelude.Assoc.{nat_eq, lookup, lookup-adjust}
use package.oxidia.Protocol.Bytes.{Bytes}
use package.oxidia.World.Game.{Game, PlayerState, InvItem, entry}
use package.oxidia.World.Game.Frame.{push-Kept}
use package.oxidia.World.Game.Session.{
  push, push_cannot_move, push_status_message, push_inventory_slot,
}
use package.oxidia.World.Game.Light.{recalc_creature_light}
use package.oxidia.World.Game.Slots.{
  field_of, Keeps, Kept-Keeps, push_inventory_slot-Keeps, recalc_creature_light-Keeps,
}
use package.oxidia.World.Game.Transfer.{is_slot, slot_admits, set_slot, change_slot, put_in_slot}
use package.oxidia.World.Game.Items.{displaced_fits, swap_slots}

abbrev pub inventory_of : PlayerState → List (Option InvItem)
inventory_of p = p.inventory

-- Every item that a player wears is one that its slot admits.
abbrev pub FittedSlots : Game → Type 0
FittedSlots g =
    (id : ℕ) (inv : List (Option InvItem))
    → field_of inventory_of g id ≡ some inv
    → (i : ℕ) (it : InvItem) → entry inv i ≡ some it
    → slot_admits (g.item_meta it.server_id) (i + 1) ≡ true

pub Keeps-Fitted : (g h : Game) → Keeps inventory_of g h → FittedSlots g → FittedSlots h
Keeps-Fitted g h k r id inv e i it at = rw k.item_meta_same (r id inv (k.fields id inv e) i it at)

entry-set :
    (xs : List (Option InvItem)) (k i : ℕ) (v : Option InvItem) {it : InvItem}
    → entry (set xs k v) i ≡ some it
    → ((i ≡ k) × (v ≡ some it)) ⊎ (entry xs i ≡ some it)
unfolding Option.bind
entry-set [] k i v e = inr e
entry-set (x ∷ xs) zero zero v e = inl (refl, e)
entry-set (x ∷ xs) zero (suc i) v e = inr e
entry-set (x ∷ xs) (suc k) zero v e = inr e
entry-set (x ∷ xs) (suc k) (suc i) v e = elim (entry-set xs k i v e) [
  | inl (same, new) ↦ inl (ap suc same, new)
  | inr old ↦ inr old
]

changed :
    (o : Option PlayerState) (hit : Bool) (slot : ℕ) (it : Option InvItem)
    (inv : List (Option InvItem))
    → Option.map inventory_of (if hit then Option.map (set_slot slot it) o else o) ≡ some inv
    → (old : List (Option InvItem)) × (Option.map inventory_of o ≡ some old)
      × ((set old (slot - 1) it ≡ inv) ⊎ (old ≡ inv))
changed none true slot it inv e = absurd (ground arith)
changed none false slot it inv e = absurd (ground arith)
changed (some p) true slot it inv e = (p.inventory, refl, inl (some_injective e))
changed (some p) false slot it inv e = (p.inventory, refl, inr (some_injective e))

change_slot-Fitted :
    (g : Game) (id slot : ℕ) (it : Option InvItem)
    → is_slot slot ≡ true
    → ((x : InvItem) → it ≡ some x → slot_admits (g.item_meta x.server_id) slot ≡ true)
    → FittedSlots g
    → FittedSlots (change_slot id slot it g)
change_slot-Fitted g id slot it valid fits r j inv e i x at =
    let (old, was, how) =
      changed (lookup j g.players) (id == j) slot it inv (
        sym (ap (Option.map inventory_of) (lookup-adjust id j (set_slot slot it) g.players)) ∙ e) in
    elim how [
      | inr same ↦ r j old was i x (subst (λ l. entry l i ≡ some x) (sym same) at)
      | inl new ↦
          elim (entry-set old (slot - 1) i it (subst (λ l. entry l i ≡ some x) (sym new) at)) [
            | inr other ↦ r j old was i x other
            | inl (here, put) ↦
                let place : slot ≡ i + 1 = ground arith in
                subst (λ n. slot_admits (g.item_meta x.server_id) n ≡ true) place (fits x put)
          ]
    ]

module _ (accepts : List (ℕ × Bytes) → ℕ → Bytes → Bool) where
  push-Fitted : (g : Game) (id : ℕ) (b : Bytes) → FittedSlots g → FittedSlots (push accepts g id b)
  push-Fitted g id b r =
      Keeps-Fitted g _
        (Kept-Keeps inventory_of (λ p ks. refl) (λ p l. refl) accepts g _
          (push-Kept accepts g id b))
        r

  told-Fitted :
      (g : Game) (id slot : ℕ) → FittedSlots g → FittedSlots (push_inventory_slot accepts g id slot)
  told-Fitted g id slot r =
      Keeps-Fitted g _
        (push_inventory_slot-Keeps inventory_of (λ p ks. refl) (λ p l. refl) accepts g id slot) r

  lit-Fitted :
      (g : Game) (id : ℕ) → FittedSlots g → FittedSlots (recalc_creature_light accepts g id)
  lit-Fitted g id r =
      Keeps-Fitted g _
        (recalc_creature_light-Keeps inventory_of (λ p ks. refl) (λ p l. refl) accepts g id) r

  pub put_in_slot-Fitted :
      (g : Game) (id slot : ℕ) (it : Option InvItem)
      → is_slot slot ≡ true
      → ((x : InvItem) → it ≡ some x → slot_admits (g.item_meta x.server_id) slot ≡ true)
      → FittedSlots g
      → FittedSlots (put_in_slot accepts g id slot it)
  unfolding put_in_slot
  put_in_slot-Fitted g id slot it valid fits r =
      lit-Fitted _ id (told-Fitted _ id slot (change_slot-Fitted g id slot it valid fits r))

  pub refused_Fitted :
      (g : Game) (id : ℕ) (text : Bytes)
      → FittedSlots g
      → FittedSlots (push_cannot_move accepts g id text)
  unfolding push_status_message
  refused_Fitted g id text r = push-Fitted g id _ r

  pub swap_slots-Fitted :
      (g : Game) (id src dst : ℕ)
      → is_slot src ≡ true
      → is_slot dst ≡ true
      → FittedSlots g
      → FittedSlots (swap_slots accepts g id src dst)
  unfolding swap_slots displaced_fits
  swap_slots-Fitted g id src dst vs vd r = elim (Bool-cases (src == dst)) [
    | inl same ↦ rw same r
    | inr apart ↦ elim (Option-cases (lookup id g.players)) [
      | inl absent ↦ rw (apart, swap_slots, absent) r
      | inr (p, there) ↦ elim (Option-cases (entry p.inventory (src - 1))) [
        | inl empty ↦ rw (apart, swap_slots, there, empty) r
        | inr (moving, worn) ↦ elim (Bool-cases (slot_admits (g.item_meta moving.server_id) dst)) [
          | inr unfit ↦ rw (apart, swap_slots, there, worn, unfit) (refused_Fitted g id _ r)
          | inl fit ↦ elim (Bool-cases (displaced_fits g src (entry p.inventory (dst - 1)))) [
            | inr stuck ↦ rw (apart, swap_slots, there, worn, fit, stuck) (refused_Fitted g id _ r)
            | inl free ↦
                let g1 = change_slot id dst (some moving) g in
                let first =
                  change_slot-Fitted g id dst (some moving) vd
                    (λ x e.
                      subst (λ (y : InvItem). slot_admits (g.item_meta y.server_id) dst ≡ true)
                        (some_injective e) fit)
                    r in
                let second =
                  change_slot-Fitted g1 id src (entry p.inventory (dst - 1)) vs
                    (λ x e. rw e at free) first in
                rw (apart, swap_slots, there, worn, fit, free)
                  (lit-Fitted _ id (told-Fitted _ id dst (told-Fitted _ id src second)))
          ]
        ]
      ]
    ]
  ]
