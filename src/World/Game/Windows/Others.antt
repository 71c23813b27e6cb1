-- ===== src/World/Game/Windows/Others.antt =====
-- What closing the windows of a player leaves of the rest of the game (crates/world/src/game), where
-- the sessions take all packets.
use package.oxidia.Prelude.{
  ℕ, zero, suc, ◌≡◌, refl, ap, ◌∙◌, subst, inl, inr, Bool, true, false, List, [], ◌∷◌, Option, some,
  arith, ◌==◌, map, Option-cases, some_injective, bind-some, map-some,
}
use mathlib.Core.Option
use package.oxidia.Prelude.Assoc.{nat_eq, lookup, lookup-adjust}
use package.oxidia.Protocol.Bytes.{Bytes}
use package.oxidia.Protocol.Container.{close_container}
use package.oxidia.World.Game.{Game}
use package.oxidia.World.Game.Session.{push, push_within}
use package.oxidia.World.Game.Windows.{
  Windows, windows_of, change_windows, with_windows, with_source, alter, close_window, orphan,
  lower_slot,
}
use package.oxidia.World.Game.Windows.Handlers.{
  close_each, close_container_tree, close_orphaned_nested_container,
}

-- Nothing differs but the player `id` and the packets: no tile, no creature, no other player, nothing
-- that is saved.
pub record OnlyPlayer (id : ℕ) (g g' : Game) : Type 0 where
  pub world : g' ≡ record g { players = g'.players; sent = g'.sent }
  pub others : (j : ℕ) → (id == j) ≡ false → lookup j g'.players ≡ lookup j g.players

module _ (accepts : List (ℕ × Bytes) → ℕ → Bytes → Bool)
    (takes_all : (sent : List (ℕ × Bytes)) (to : ℕ) (b : Bytes) → accepts sent to b ≡ true)
    (id : ℕ) where
  OnlyPlayer-refl : (g : Game) → OnlyPlayer id g g
  OnlyPlayer-refl g = record { world = refl; others = λ j other. refl }

  pub OnlyPlayer-trans : (f g h : Game) → OnlyPlayer id f g → OnlyPlayer id g h → OnlyPlayer id f h
  OnlyPlayer-trans f g h a b = record {
    world = b.world ∙ ap (λ (s : Game). record s { players = h.players; sent = h.sent }) a.world;
    others = λ j other. b.others j other ∙ a.others j other;
  }

  pub push-OnlyPlayer : (g : Game) (to : ℕ) (b : Bytes) → OnlyPlayer id g (push accepts g to b)
  unfolding push push_within
  push-OnlyPlayer g to b = elim (Option-cases (lookup to g.players)) [
    | inl absent ↦ rw (absent, push, push_within) (OnlyPlayer-refl g)
    | inr (p, there) ↦
        rw (there, push, push_within, takes_all g.sent to b)
          (record { world = refl; others = λ j other. refl })
  ]

  pub change_windows-OnlyPlayer :
      (g : Game) (f : Windows → Windows) → OnlyPlayer id g (change_windows id f g)
  change_windows-OnlyPlayer g f = record {
    world = refl;
    others = λ j other. lookup-adjust id j (with_windows f) g.players ∙ rw other refl;
  }

  close_each-OnlyPlayer :
      (close : Game → ℕ → Option Game)
      (keeps : (g : Game) (c : ℕ) (h : Game) → close g c ≡ some h → OnlyPlayer id g h) (cs : List ℕ)
      (g h : Game)
      → close_each close cs g ≡ some h
      → OnlyPlayer id g h
  unfolding close_each
  close_each-OnlyPlayer close keeps [] g h e =
      subst (OnlyPlayer id g) (some_injective e) (OnlyPlayer-refl g)
  close_each-OnlyPlayer close keeps (c ∷ cs) g h e =
      let (g1, first, rest) = bind-some (close g c) (close_each close cs) e in
      OnlyPlayer-trans g g1 h (keeps g c g1 first) (close_each-OnlyPlayer close keeps cs g1 h rest)

  close_container_tree-OnlyPlayer :
      (fuel : ℕ) (g : Game) (cid : ℕ) (h : Game)
      → close_container_tree accepts fuel g id cid ≡ some h
      → OnlyPlayer id g h
  unfolding close_container_tree
  close_container_tree-OnlyPlayer zero g cid h e = absurd (ground arith)
  close_container_tree-OnlyPlayer (suc fuel) g cid h e = elim (Option-cases (windows_of g id)) [
    | inl absent ↦
        subst (OnlyPlayer id g) (some_injective (rw (absent, close_container_tree) at e))
          (OnlyPlayer-refl g)
    | inr (ws, there) ↦
        let (g1, below, last) = map-some _ _ (rw (there, close_container_tree) at e) in
        let closed = change_windows id (alter cid close_window) g1 in
        OnlyPlayer-trans g g1 h
          (close_each-OnlyPlayer (λ k c. close_container_tree accepts fuel k id c)
            (λ k c l f. close_container_tree-OnlyPlayer fuel k c l f) _ g g1 below)
          (subst (OnlyPlayer id g1) last (
            OnlyPlayer-trans g1 closed _ (change_windows-OnlyPlayer g1 (alter cid close_window))
              (push-OnlyPlayer closed id (close_container cid))))
  ]

  pub orphaned-OnlyPlayer :
      (fuel : ℕ) (g : Game) (parent removed : ℕ) (h : Game)
      → close_orphaned_nested_container accepts fuel g id parent removed ≡ some h
      → OnlyPlayer id g h
  unfolding close_orphaned_nested_container
  orphaned-OnlyPlayer fuel g parent removed h e =
      let f = map (Option.map (with_source (lower_slot parent removed))) in
      elim (Option-cases (Option.bind (windows_of g id) (orphan parent removed 0))) [
        | inl nobody ↦
            subst (OnlyPlayer id g)
              (some_injective (rw (nobody, close_orphaned_nested_container) at e))
              (change_windows-OnlyPlayer g f)
        | inr (c, there) ↦
            OnlyPlayer-trans g (change_windows id f g) h (change_windows-OnlyPlayer g f) (
              close_container_tree-OnlyPlayer fuel (change_windows id f g) c h
                (rw (there, close_orphaned_nested_container) at e))
      ]
