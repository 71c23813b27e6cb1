-- ===== src/World/Game/Windows/Cycle.antt =====
-- About closing windows of which two were each opened from the other
-- (crates/world/src/game/containers.rs).
use package.oxidia.Prelude.{
  ℕ, zero, suc, ◌+◌, ◌≡◌, refl, ap, ◌∙◌, subst, inl, inr, Bool, true, List, [], ◌∷◌, Option, none,
  some, arith, Option-cases, Bool-cases, some_injective, bind-some, map-some,
}
use mathlib.Core.Option
use mathlib.Core.List.{Memᴰ}
use mathlib.Core.List.Memᴰ
use package.oxidia.Prelude.Assoc.{nat_eq, lookup}
use package.oxidia.Protocol.Bytes.{Bytes}
use package.oxidia.Protocol.Container.{close_container}
use package.oxidia.World.Game.{Game, PlayerState, entry}
use package.oxidia.World.Game.Session.{push, push_within}
use package.oxidia.World.Game.Windows.{
  Windows, filter_from, alter, close_window, windows_of, change_windows, has_parent, is_some_and,
}
use package.oxidia.World.Game.Windows.Handlers.{close_each, close_container_tree}
use package.oxidia.World.Game.Windows.Keeps.{windows_of-change}

-- The entry `c` was opened from the window `parent`.
abbrev pub is_under : Windows → ℕ → ℕ → Bool
is_under ws c parent = is_some_and (λ oc. has_parent parent oc.source) (entry ws c)

is_under-close :
    (ws : Windows) (cid c parent : ℕ)
    → is_under (alter cid close_window ws) c parent ≡ is_under ws c parent
unfolding alter Option.bind
is_under-close [] cid c parent = refl
is_under-close (o ∷ ws) zero (suc c) parent = refl
is_under-close (none ∷ ws) zero zero parent = refl
is_under-close (some oc ∷ ws) zero zero parent = refl
is_under-close (o ∷ ws) (suc cid) zero parent = refl
is_under-close (o ∷ ws) (suc cid) (suc c) parent = is_under-close ws cid c parent

filter_from-member :
    (parent i k : ℕ) (ws : Windows)
    → is_under ws k parent ≡ true
    → Memᴰ (i + k) (filter_from (is_some_and (λ oc. has_parent parent oc.source)) i ws)
unfolding filter_from Option.bind
filter_from-member parent i k [] h = absurd (ground arith)
filter_from-member parent i zero (none ∷ ws) h = absurd (ground arith)
filter_from-member parent i zero (some oc ∷ ws) h = rw h (Memᴰ.head (omega arith))
filter_from-member parent i (suc k) (o ∷ ws) h =
    let later = Memᴰ.cast (omega arith) (filter_from-member parent (i + 1) k ws h) in
    elim (Bool-cases (is_some_and (λ oc. has_parent parent oc.source) o)) [
      | inl passes ↦ rw passes (Memᴰ.tail later)
      | inr fails ↦ rw fails later
    ]

module _ (accepts : List (ℕ × Bytes) → ℕ → Bytes → Bool)
    (takes_all : (sent : List (ℕ × Bytes)) (to : ℕ) (b : Bytes) → accepts sent to b ≡ true)
    (id : ℕ) where
  pub push-players : (g : Game) (to : ℕ) (b : Bytes) → (push accepts g to b).players ≡ g.players
  unfolding push push_within
  push-players g to b = elim (Option-cases (lookup to g.players)) [
    | inl absent ↦ rw (absent, push, push_within) refl
    | inr (p, there) ↦ rw (there, push, push_within, takes_all g.sent to b) refl
  ]

  -- The player has the windows `a` and `b`, each opened from the other.
  abbrev pub Looped : ℕ → ℕ → Game → Type 0
  Looped a b g =
      (ws : Windows) × (windows_of g id ≡ some ws)
      × (is_under ws a b ≡ true)
      × (is_under ws b a ≡ true)

  closed-Looped :
      (a b : ℕ) (g : Game) (cid : ℕ)
      → Looped a b g
      → Looped a b
          (push accepts (change_windows id (alter cid close_window) g) id (close_container cid))
  closed-Looped a b g cid (ws, e, ab, ba) = (
    alter cid close_window ws,
    ap (λ m. Option.map (λ (p : PlayerState). p.open_containers) (lookup id m))
          (push-players (change_windows id (alter cid close_window) g) id (close_container cid))
        ∙ windows_of-change g id (alter cid close_window)
        ∙ rw e refl,
    is_under-close ws cid a b ∙ ab,
    is_under-close ws cid b a ∙ ba,
  )

  close_each-Looped :
      (a b : ℕ) (close : Game → ℕ → Option Game)
      → ((g : Game) (c : ℕ) (h : Game) → close g c ≡ some h → Looped a b g → Looped a b h)
      → (cs : List ℕ) (g h : Game) → close_each close cs g ≡ some h
      → Looped a b g
      → Looped a b h
  unfolding close_each
  close_each-Looped a b close keeps [] g h e l = subst (Looped a b) (some_injective e) l
  close_each-Looped a b close keeps (c ∷ cs) g h e l =
      let (g1, first, rest) = bind-some (close g c) (close_each close cs) e in
      close_each-Looped a b close keeps cs g1 h rest (keeps g c g1 first l)

  tree-Looped :
      (a b fuel : ℕ) (g : Game) (cid : ℕ) (h : Game)
      → close_container_tree accepts fuel g id cid ≡ some h
      → Looped a b g
      → Looped a b h
  unfolding close_container_tree
  tree-Looped a b zero g cid h e l = absurd (ground arith)
  tree-Looped a b (suc fuel) g cid h e (ws, there, ab, ba) =
      let (g1, below, last) = map-some _ _ (rw (there, close_container_tree) at e) in
      subst (Looped a b) last (
        closed-Looped a b g1 cid (
          close_each-Looped a b (λ k c. close_container_tree accepts fuel k id c)
            (λ k c m f. tree-Looped a b fuel k c m f) _ g g1 below (ws, there, ab, ba)))

  close_each-stuck :
      (a b fuel : ℕ)
      → ((g : Game) → Looped a b g → close_container_tree accepts fuel g id b ≡ none)
      → (cs : List ℕ) (g : Game) → Memᴰ b cs
      → Looped a b g
      → close_each (λ k c. close_container_tree accepts fuel k id c) cs g ≡ none
  unfolding close_each Option.bind
  close_each-stuck a b fuel stuck [] g m l = absurd (Memᴰ.not-nil m)
  close_each-stuck a b fuel stuck (c ∷ cs) g m l =
      elim (Option-cases (close_container_tree accepts fuel g id c)) [
        | inl nothing ↦ rw nothing refl
        | inr (g1, e) ↦ elim (Memᴰ.cases_cons m) [
          | inl here ↦ let no = stuck g l in let no' = rw here at no in absurd (ground arith)
          | inr later ↦
              rw e (close_each-stuck a b fuel stuck cs g1 later (tree-Looped a b fuel g c g1 e l))
        ]
      ]

  -- No fuel is enough to close one of two windows that were each opened from the other, where the
  -- sessions take all packets: the calls of the source nest without end.
  pub close_container_tree-Looped :
      (fuel : ℕ) (a b : ℕ) (g : Game)
      → Looped a b g
      → close_container_tree accepts fuel g id a ≡ none
  unfolding close_container_tree
  close_container_tree-Looped zero a b g l = refl
  close_container_tree-Looped (suc fuel) a b g (ws, there, ab, ba) =
      let stuck =
        close_each-stuck a b fuel
          (λ h (vs, at, hab, hba). close_container_tree-Looped fuel b a h (vs, at, hba, hab))
          (filter_from (is_some_and (λ oc. has_parent a oc.source)) 0 ws) g
          (Memᴰ.cast (omega arith) (filter_from-member a 0 b ws ba)) (ws, there, ab, ba) in
      rw (there, close_container_tree, stuck) refl
