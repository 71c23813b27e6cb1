-- ===== src/World/Game/Windows/Keeps.antt =====
-- About the windows of a player when packets are sent and windows are closed.
use package.oxidia.Prelude.{
  ℕ, zero, suc, ◌+◌, ◌≡◌, refl, sym, ap, ◌∙◌, subst, inl, inr, Bool, true, [], ◌∷◌, map, Option,
  none, some, arith, Bool-cases, get_elem?, All, some_injective,
}
use mathlib.Core.Option
use package.oxidia.Prelude.Assoc.{nat_eq, lookup, lookup-adjust, beq_self}
use package.oxidia.World.Game.{Game, PlayerState, OpenContainer, ContainerSource, entry}
use package.oxidia.World.Game.Frame.{Kept, KeptPlayer}
use package.oxidia.World.Game.Windows.{
  Windows, filter_from, alter, windows_of, change_windows, with_windows, with_source,
}

KeptPlayer-windows :
    (o o' : Option PlayerState) (ws : Windows)
    → KeptPlayer o o'
    → Option.map (λ (p : PlayerState). p.open_containers) o' ≡ some ws
    → Option.map (λ (p : PlayerState). p.open_containers) o ≡ some ws
KeptPlayer-windows o none ws k e = absurd (ground arith)
KeptPlayer-windows none (some q) ws k e = elim k [ ]
KeptPlayer-windows (some p) (some q) ws (ks, same) e =
    ap some (sym (ap (λ (r : PlayerState). r.open_containers) same)) ∙ e

-- A player who is still there has the windows that he had.
pub Kept-windows :
    (g g' : Game) (id : ℕ) (ws : Windows)
    → Kept g g'
    → windows_of g' id ≡ some ws
    → windows_of g id ≡ some ws
Kept-windows g g' id ws k e =
    KeptPlayer-windows (lookup id g.players) (lookup id g'.players) ws (k.people id) e

pub windows_of-change :
    (g : Game) (id : ℕ) (f : Windows → Windows)
    → windows_of (change_windows id f g) id ≡ Option.map f (windows_of g id)
windows_of-change g id f =
    ap (Option.map (λ (p : PlayerState). p.open_containers))
      (lookup-adjust id id (with_windows f) g.players ∙ rw (beq_self id) refl)
    ∙ twice (lookup id g.players)
  where
    twice :
        (o : Option PlayerState)
        → Option.map (λ (p : PlayerState). p.open_containers) (Option.map (with_windows f) o)
          ≡ Option.map f (Option.map (λ (p : PlayerState). p.open_containers) o)
    twice none = refl
    twice (some p) = refl

-- A change of one container that keeps its source leaves what each entry is tracked by.
pub entry-alter :
    (k : OpenContainer → OpenContainer)
    → ((o : OpenContainer) → (k o).source ≡ o.source)
    → (ws : Windows) (cid c : ℕ) {oc : OpenContainer} → entry (alter cid k ws) c ≡ some oc
    → (old : OpenContainer) × (entry ws c ≡ some old) × (oc.source ≡ old.source)
unfolding alter Option.bind
entry-alter k h [] cid c e = absurd (ground arith)
entry-alter k h (o ∷ ws) zero (suc c) {oc} e = (oc, e, refl)
entry-alter k h (none ∷ ws) zero zero e = absurd (ground arith)
entry-alter k h (some old ∷ ws) zero zero {oc} e = (
  old,
  refl,
  sym (ap (λ (x : OpenContainer). x.source) (some_injective {a = k old} {b = oc} e)) ∙ h old,
)
entry-alter k h (o ∷ ws) (suc cid) zero {oc} e = (oc, e, refl)
entry-alter k h (o ∷ ws) (suc cid) (suc c) e = entry-alter k h ws cid c e

-- So does a change of all sources.
pub entry-sources :
    (f : ContainerSource → ContainerSource) (ws : Windows) (c : ℕ) {oc : OpenContainer}
    → entry (map (Option.map (with_source f)) ws) c ≡ some oc
    → (old : OpenContainer) × (entry ws c ≡ some old) × (oc.source ≡ f old.source)
unfolding Option.bind
entry-sources f [] c e = absurd (ground arith)
entry-sources f (none ∷ ws) zero e = absurd (ground arith)
entry-sources f (some old ∷ ws) zero {oc} e = (
  old,
  refl,
  sym (ap (λ (x : OpenContainer). x.source) (some_injective {a = with_source f old} {b = oc} e)),
)
entry-sources f (o ∷ ws) (suc c) e = entry-sources f ws c e

-- What holds of the entries that pass the test holds of the indices that the filter gives.
pub filter_from-All {ℓ} :
    (P : ℕ → Type ℓ) (test : Option OpenContainer → Bool) (i : ℕ) (ws : Windows)
    → ((k : ℕ) (o : Option OpenContainer) → get_elem? ws k ≡ some o → test o ≡ true → P (i + k))
    → All P (filter_from test i ws)
unfolding filter_from
filter_from-All P test i [] h = tt
filter_from-All P test i (o ∷ ws) h =
    let later =
      filter_from-All P test (i + 1) ws (λ k x e t. subst P (omega arith) (h (suc k) x e t)) in
    elim (Bool-cases (test o)) [
      | inl passes ↦ rw passes (subst P (omega arith) (h zero o refl passes), later)
      | inr fails ↦ rw fails later
    ]
