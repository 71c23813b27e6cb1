-- ===== src/World/Game/Windows/Tree.antt =====
-- About closing a window with the windows opened from it
-- (crates/world/src/game/containers.rs): when it ends.
use package.oxidia.Prelude.{
  ℕ, zero, suc, ◌+◌, ◌<◌, ◌≡◌, refl, sym, ◌∙◌, subst, inl, inr, Bool, true, List, [], ◌∷◌, map,
  Option, none, some, arith, Option-cases, Bool-cases, ltb, ◌==◌, ◌&&◌, get_elem?, All, All-weaken,
  some_injective,
}
use mathlib.Core.Option
use package.oxidia.Prelude.Assoc.{nat_eq}
use package.oxidia.Protocol.Bytes.{Bytes}
use package.oxidia.Protocol.Container.{close_container}
use package.oxidia.World.Game.{Game, OpenContainer, ContainerSource, entry}
use package.oxidia.World.Game.Session.{push}
use package.oxidia.World.Game.Frame.{push-Kept}
use package.oxidia.World.Game.Windows.{
  Windows, filter_from, alter, close_window, windows_of, change_windows, has_parent, is_some_and,
  with_source, lower_slot, orphan,
}
use package.oxidia.World.Game.Windows.Handlers.{
  close_each, close_container_tree, close_orphaned_nested_container,
}
use package.oxidia.World.Game.Windows.Keeps.{
  Kept-windows, windows_of-change, entry-alter, entry-sources, filter_from-All,
}

module _ (accepts : List (ℕ × Bytes) → ℕ → Bytes → Bool) (rank : ℕ → ℕ) (id : ℕ) where
  -- A window has a lower rank than the window that it was opened from.
  abbrev pub Ranked : Windows → Type 0
  Ranked ws =
      (c parent : ℕ) (oc : OpenContainer)
      → entry ws c ≡ some oc
      → has_parent parent oc.source ≡ true
      → rank c < rank parent

  abbrev pub WindowsAreRanked : Game → Type 0
  WindowsAreRanked g = (ws : Windows) → windows_of g id ≡ some ws → Ranked ws

  pub push-Ranked :
      (g : Game) (b : Bytes) → WindowsAreRanked g → WindowsAreRanked (push accepts g id b)
  push-Ranked g b r ws e = r ws (Kept-windows g _ id ws (push-Kept accepts g id b) e)

  -- A change of the windows after which no window has a parent that it had not before.
  abbrev pub KeepsParents : (Windows → Windows) → Type 0
  KeepsParents f =
      (ws : Windows) (c parent : ℕ) (oc : OpenContainer)
      → entry (f ws) c ≡ some oc
      → has_parent parent oc.source ≡ true
      → (old : OpenContainer) × (entry ws c ≡ some old) × (has_parent parent old.source ≡ true)

  pub change-Ranked :
      (g : Game) (f : Windows → Windows)
      → KeepsParents f
      → WindowsAreRanked g
      → WindowsAreRanked (change_windows id f g)
  change-Ranked g f keeps r ws e c parent oc at below = elim (Option-cases (windows_of g id)) [
    | inl absent ↦
        let no : none ≡ some ws = rw absent at (sym (windows_of-change g id f) ∙ e) in
        absurd (ground arith)
    | inr (vs, there) ↦
        let changed : f vs ≡ ws =
          some_injective (rw there at (sym (windows_of-change g id f) ∙ e)) in
        let (old, was, under) =
          keeps vs c parent oc (subst (λ x. entry x c ≡ some oc) (sym changed) at) below in
        r vs there c parent old was under
  ]

  pub alter-KeepsParents :
      (cid : ℕ) (k : OpenContainer → OpenContainer)
      → ((o : OpenContainer) → (k o).source ≡ o.source)
      → KeepsParents (alter cid k)
  alter-KeepsParents cid k h ws c parent oc at below =
      let (old, was, same) = entry-alter k h ws cid c at in (old, was, rw same at below)

  pub sources-KeepsParents :
      (f : ContainerSource → ContainerSource)
      → ((parent : ℕ) (s : ContainerSource) → has_parent parent (f s) ≡ has_parent parent s)
      → KeepsParents (map (Option.map (with_source f)))
  sources-KeepsParents f h ws c parent oc at below =
      let (old, was, same) = entry-sources f ws c at in
      (old, was, sym (h parent old.source) ∙ rw same at below)

  -- The calls end, and leave the windows ranked.
  abbrev pub Ends : Option Game → Type 0
  Ends o = (g' : Game) × (o ≡ some g') × WindowsAreRanked g'

  pub close_each-Ends :
      (close : Game → ℕ → Option Game) (P : ℕ → Type 0)
      → ((g : Game) (c : ℕ) → WindowsAreRanked g → P c → Ends (close g c))
      → (cs : List ℕ) (g : Game) → WindowsAreRanked g
      → All P cs
      → Ends (close_each close cs g)
  unfolding close_each Option.bind
  close_each-Ends close P ends [] g r h = (g, refl, r)
  close_each-Ends close P ends (c ∷ cs) g r h =
      let (g1, e, r1) = ends g c r h.0 in rw e (close_each-Ends close P ends cs g1 r1 h.1)

  children_below :
      (ws : Windows) (cid : ℕ)
      → Ranked ws
      → All
          (λ c. rank c < rank cid)
          (filter_from (is_some_and (λ oc. has_parent cid oc.source)) 0 ws)
  unfolding Option.bind
  children_below ws cid r =
      filter_from-All (λ c. rank c < rank cid) (is_some_and (λ oc. has_parent cid oc.source)) 0 ws
        below
    where
      below :
          (k : ℕ) (o : Option OpenContainer)
          → get_elem? ws k ≡ some o
          → is_some_and (λ oc. has_parent cid oc.source) o ≡ true
          → rank (0 + k) < rank cid
      below k none e t = absurd (ground arith)
      below k (some oc) e t =
          let here : entry ws k ≡ some oc = rw e refl in
          subst (λ n. rank n < rank cid) (omega arith) (r k cid oc here t)

  -- If every window has a lower rank than the one it was opened from, fuel above the rank of a window
  -- is enough to close it with all windows opened from it.
  pub close_container_tree-Ends :
      (fuel : ℕ) (g : Game) (cid : ℕ)
      → WindowsAreRanked g
      → rank cid < fuel
      → (g' : Game) × (close_container_tree accepts fuel g id cid ≡ some g') × WindowsAreRanked g'
  unfolding close_container_tree
  close_container_tree-Ends zero g cid r h = absurd (omega arith)
  close_container_tree-Ends (suc fuel) g cid r h = elim (Option-cases (windows_of g id)) [
    | inl absent ↦ (g, rw (absent, close_container_tree) refl, r)
    | inr (ws, there) ↦
        let (g1, e, r1) =
          close_each-Ends (λ k c. close_container_tree accepts fuel k id c) (λ c. rank c < fuel)
            (λ k c rk low. close_container_tree-Ends fuel k c rk low)
            (filter_from (is_some_and (λ oc. has_parent cid oc.source)) 0 ws) g r
            (All-weaken (λ c. rank c < rank cid) (λ c. rank c < fuel) _ (λ c low. omega arith)
              (children_below ws cid (r ws there))) in
        (
          push accepts (change_windows id (alter cid close_window) g1) id (close_container cid),
          rw (there, close_container_tree, e) refl,
          push-Ranked _ (close_container cid) (
              change-Ranked g1 (alter cid close_window)
                (alter-KeepsParents cid close_window (λ o. refl)) r1),
        )
  ]

  lower_slot-has_parent :
      (p removed parent : ℕ) (s : ContainerSource)
      → has_parent parent (lower_slot p removed s) ≡ has_parent parent s
  unfolding lower_slot
  lower_slot-has_parent p removed parent (ContainerSource.slot i) = refl
  lower_slot-has_parent p removed parent (ContainerSource.on_ground at) = refl
  lower_slot-has_parent p removed parent (ContainerSource.nested pc ps) =
      elim (Bool-cases (pc == p && ltb removed ps)) [
        | inl behind ↦ rw (behind, lower_slot) refl
        | inr before ↦ rw (before, lower_slot) refl
      ]

  pub close_orphaned_nested_container-Ends :
      (fuel : ℕ) (g : Game) (parent removed : ℕ)
      → ((c : ℕ) → rank c < fuel)
      → WindowsAreRanked g
      → Ends (close_orphaned_nested_container accepts fuel g id parent removed)
  unfolding close_orphaned_nested_container
  close_orphaned_nested_container-Ends fuel g parent removed enough r =
      let f = lower_slot parent removed in
      let ranked =
        change-Ranked g (map (Option.map (with_source f)))
          (sources-KeepsParents f (lower_slot-has_parent parent removed)) r in
      elim (Option-cases (Option.bind (windows_of g id) (orphan parent removed 0))) [
        | inl nobody ↦ rw (nobody, close_orphaned_nested_container) (_, refl, ranked)
        | inr (c, there) ↦
            rw (there, close_orphaned_nested_container)
              (close_container_tree-Ends fuel _ c ranked (enough c))
      ]
