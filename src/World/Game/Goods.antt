-- ===== src/World/Game/Goods.antt =====
-- What a player carries: the slots, and the items in each of his containers, open or not.
use package.oxidia.Prelude.{
  ℕ, zero, suc, ◌≡◌, refl, sym, ap, ◌∙◌, inl, inr, Bool, true, List, [], ◌∷◌, map, Option, none,
  some, arith, Option-cases, some_injective, bind-some, map-some,
}
use mathlib.Core.Option
use package.oxidia.Prelude.Assoc.{nat_eq, lookup, lookup-adjust, beq_self}
use package.oxidia.Protocol.Bytes.{Bytes}
use package.oxidia.Protocol.Container.{close_container}
use package.oxidia.World.Game.{
  Game, PlayerState, InvItem, ContainerItem, ContainerSource, OpenContainer,
}
use package.oxidia.World.Game.Session.{push}
use package.oxidia.World.Game.Windows.{
  Windows, alter, close_window, windows_of, change_windows, with_windows, with_source, lower_slot,
  orphan,
}
use package.oxidia.World.Game.Windows.Handlers.{
  close_each, close_container_tree, close_orphaned_nested_container,
}
use package.oxidia.World.Game.Windows.Cycle.{push-players}

abbrev pub Contents : Type 0
Contents = List (Option (List ContainerItem))

abbrev pub items_of : OpenContainer → List ContainerItem
items_of oc = oc.items

abbrev pub contents : Windows → Contents
contents ws = map (Option.map items_of) ws

pub record Goods : Type 0 where
  pub slots : List (Option InvItem)
  pub held : Contents

abbrev pub goods_of : PlayerState → Goods
goods_of p = record { slots = p.inventory; held = contents p.open_containers }

unfoldable pub goods : Game → ℕ → Option Goods
goods g id = Option.map goods_of (lookup id g.players)

-- A change of the windows changes what they hold, and nothing else.
pub goods-change :
    (g : Game) (id : ℕ) (f : Windows → Windows) (p : PlayerState)
    → lookup id g.players ≡ some p
    → goods (change_windows id f g) id
      ≡ some (record { slots = p.inventory; held = contents (f p.open_containers) })
unfolding goods
goods-change g id f p e = rw (lookup-adjust id id (with_windows f) g.players, beq_self id, e) refl

contents-close : (ws : Windows) (cid : ℕ) → contents (alter cid close_window ws) ≡ contents ws
unfolding alter
contents-close [] cid = refl
contents-close (none ∷ ws) zero = refl
contents-close (some oc ∷ ws) zero = refl
contents-close (o ∷ ws) (suc cid) = ap (λ c. Option.map items_of o ∷ c) (contents-close ws cid)

pub contents-source :
    (f : ContainerSource → ContainerSource) (ws : Windows)
    → contents (map (Option.map (with_source f)) ws) ≡ contents ws
contents-source f [] = refl
contents-source f (none ∷ ws) = ap (λ c. none ∷ c) (contents-source f ws)
contents-source f (some oc ∷ ws) = ap (λ c. some oc.items ∷ c) (contents-source f ws)

-- A change of the windows that leaves what they hold.
goods-kept :
    (g : Game) (id : ℕ) (f : Windows → Windows)
    → ((ws : Windows) → contents (f ws) ≡ contents ws)
    → goods (change_windows id f g) id ≡ goods g id
unfolding goods
goods-kept g id f same = elim (Option-cases (lookup id g.players)) [
  | inl absent ↦ rw (lookup-adjust id id (with_windows f) g.players, beq_self id, absent) refl
  | inr (p, there) ↦
      goods-change g id f p there
      ∙ rw there
          (ap (λ c. some (record { slots = p.inventory; held = c })) (same p.open_containers))
]

module _ (accepts : List (ℕ × Bytes) → ℕ → Bytes → Bool)
    (takes_all : (sent : List (ℕ × Bytes)) (to : ℕ) (b : Bytes) → accepts sent to b ≡ true)
    (id : ℕ) where
  pub push-goods : (g : Game) (to : ℕ) (b : Bytes) → goods (push accepts g to b) id ≡ goods g id
  unfolding goods
  push-goods g to b =
      ap (λ m. Option.map goods_of (lookup id m)) (push-players accepts takes_all id g to b)

  close_each-goods :
      (close : Game → ℕ → Option Game)
      → ((g : Game) (c : ℕ) (h : Game) → close g c ≡ some h → goods h id ≡ goods g id)
      → (cs : List ℕ) (g h : Game) → close_each close cs g ≡ some h
      → goods h id ≡ goods g id
  unfolding close_each
  close_each-goods close keeps [] g h e = ap (λ x. goods x id) (sym (some_injective e))
  close_each-goods close keeps (c ∷ cs) g h e =
      let (g1, first, rest) = bind-some (close g c) (close_each close cs) e in
      close_each-goods close keeps cs g1 h rest ∙ keeps g c g1 first

  -- Closing windows moves no item.
  tree-goods :
      (fuel : ℕ) (g : Game) (cid : ℕ) (h : Game)
      → close_container_tree accepts fuel g id cid ≡ some h
      → goods h id ≡ goods g id
  unfolding close_container_tree
  tree-goods zero g cid h e = absurd (ground arith)
  tree-goods (suc fuel) g cid h e = elim (Option-cases (windows_of g id)) [
    | inl absent ↦
        ap (λ x. goods x id) (sym (some_injective (rw (absent, close_container_tree) at e)))
    | inr (ws, there) ↦
        let (g1, below, last) = map-some _ _ (rw (there, close_container_tree) at e) in
        ap (λ x. goods x id) (sym last)
        ∙ push-goods (change_windows id (alter cid close_window) g1) id (close_container cid)
        ∙ goods-kept g1 id (alter cid close_window) (λ vs. contents-close vs cid)
        ∙ close_each-goods (λ k c. close_container_tree accepts fuel k id c)
            (λ k c m f. tree-goods fuel k c m f) _ g g1 below
  ]

  pub orphaned-goods :
      (fuel : ℕ) (g : Game) (parent removed : ℕ) (h : Game)
      → close_orphaned_nested_container accepts fuel g id parent removed ≡ some h
      → goods h id ≡ goods g id
  unfolding close_orphaned_nested_container
  orphaned-goods fuel g parent removed h e =
      let f = map (Option.map (with_source (lower_slot parent removed))) in
      let kept = goods-kept g id f (contents-source (lower_slot parent removed)) in
      elim (Option-cases (Option.bind (windows_of g id) (orphan parent removed 0))) [
        | inl nobody ↦
            ap (λ x. goods x id)
              (sym (some_injective (rw (nobody, close_orphaned_nested_container) at e)))
            ∙ kept
        | inr (c, there) ↦
            tree-goods fuel (change_windows id f g) c h
              (rw (there, close_orphaned_nested_container) at e)
            ∙ kept
      ]
