-- ===== src/World/Game/Frame.antt =====
-- What sending packets leaves alone: nothing of the game changes but the packets, the players who
-- were logged out because their session did not take one, and the creatures that others know.
use package.oxidia.Prelude.{
  ℕ, zero, suc, ◌≡◌, refl, sym, ap, ◌∙◌, subst, inl, inr, Bool, true, false, List, [], ◌∷◌, ◌++◌,
  Option, none, some, if◌then◌else◌, ◌==◌, length, Bool-cases, Option-cases,
}
use mathlib.Core.Option
use package.oxidia.Prelude.Assoc.{nat_eq, lookup, adjust, lookup-adjust, lookup-erase}
use package.oxidia.Protocol.Bytes.{Bytes}
use package.oxidia.World.Position.{Position}
use package.oxidia.World.Game.{Game, PlayerState}
use package.oxidia.World.Game.Session.{
  forget, forget_creature, tell_departure, logout_by, departed, push_within, push, push_all,
}
use package.oxidia.World.Game.View.{spectators}

-- A player stays but for what he knows, or goes.
abbrev pub KeptPlayer : Option PlayerState → Option PlayerState → Type 0
KeptPlayer old none = Unit
KeptPlayer none (some q) = ⊥
KeptPlayer (some p) (some q) = (ks : List ℕ) × (q ≡ record p { known = ks })

pub record Kept (g g' : Game) : Type 0 where
  pub world : g' ≡ record g { players = g'.players; sent = g'.sent; saved = g'.saved }
  pub people : (id : ℕ) → KeptPlayer (lookup id g.players) (lookup id g'.players)

KeptPlayer-refl : (o : Option PlayerState) → KeptPlayer o o
KeptPlayer-refl none = tt
KeptPlayer-refl (some p) = (p.known, refl)

KeptPlayer-trans : (a b c : Option PlayerState) → KeptPlayer a b → KeptPlayer b c → KeptPlayer a c
KeptPlayer-trans a b none h k = tt
KeptPlayer-trans a none (some r) h k = elim k [ ]
KeptPlayer-trans none (some q) (some r) h k = elim h [ ]
KeptPlayer-trans (some p) (some q) (some r) (ks, e) (ls, f) =
    (ls, f ∙ ap (λ (s : PlayerState). record s { known = ls }) e)

pub Kept-refl : (g : Game) → Kept g g
Kept-refl g = record { world = refl; people = λ id. KeptPlayer-refl (lookup id g.players) }

pub Kept-trans : (f g h : Game) → Kept f g → Kept g h → Kept f h
Kept-trans f g h a b = record {
  world =
      b.world
      ∙ ap (λ (s : Game). record s { players = h.players; sent = h.sent; saved = h.saved }) a.world;
  people = λ id.
      KeptPlayer-trans (lookup id f.players) (lookup id g.players) (lookup id h.players)
        (a.people id) (b.people id);
}

forget-Kept :
    (g : Game) (spec id : ℕ)
    → Kept g (record g { players = adjust spec (forget_creature id) g.players })
forget-Kept g spec id = record {
  world = refl;
  people = λ j.
      subst (KeptPlayer (lookup j g.players))
        (sym (lookup-adjust spec j (forget_creature id) g.players))
        (forgotten (lookup j g.players) (spec == j));
}
  where
    forgotten :
        (o : Option PlayerState) (same : Bool)
        → KeptPlayer o (if same then Option.map (forget_creature id) o else o)
    forgotten none true = tt
    forgotten none false = tt
    forgotten (some p) true = (forget id p.known, refl)
    forgotten (some p) false = (p.known, refl)

departed-Kept : (g : Game) (id : ℕ) (p : PlayerState) → Kept g (departed g id p)
unfolding departed
departed-Kept g id p = record {
  world = refl;
  people = λ j.
      subst (KeptPlayer (lookup j g.players)) (sym (lookup-erase id j g.players))
        (gone (lookup j g.players) (id == j));
}
  where
    gone : (o : Option PlayerState) (same : Bool) → KeptPlayer o (if same then none else o)
    gone o true = tt
    gone o false = KeptPlayer-refl o

sent_Kept : (h : Game) (sent : List (ℕ × Bytes)) → Kept h (record h { sent = sent })
sent_Kept h sent = record { world = refl; people = λ j. KeptPlayer-refl (lookup j h.players) }

module _ (send : Game → ℕ → Bytes → Game)
    (keeps : (g : Game) (id : ℕ) (b : Bytes) → Kept g (send g id b)) where
  tell_departure-Kept :
      (id : ℕ) (at : Position) (specs : List ℕ) (g : Game)
      → Kept g (tell_departure send id at specs g)
  unfolding tell_departure
  tell_departure-Kept id at [] g = Kept-refl g
  tell_departure-Kept id at (spec ∷ rest) g = Kept-trans _ _ _ (keeps g spec _) (
      Kept-trans _ _ _ (keeps _ spec _)
        (Kept-trans _ _ _ (forget-Kept _ spec id) (tell_departure-Kept id at rest _)))

  logout_by-Kept : (g : Game) (id : ℕ) → Kept g (logout_by send g id)
  unfolding logout_by
  logout_by-Kept g id = elim (Option-cases (lookup id g.players)) [
    | inl absent ↦ rw (absent, logout_by) (Kept-refl g)
    | inr (p, there) ↦
        rw (there, logout_by)
          (Kept-trans _ _ _ (departed-Kept g id p) (
            tell_departure-Kept id p.position (spectators (departed g id p) p.position id)
              (departed g id p)))
  ]

module _ (accepts : List (ℕ × Bytes) → ℕ → Bytes → Bool) where
  push_within-Kept :
      (fuel : ℕ) (g : Game) (id : ℕ) (payload : Bytes)
      → Kept g (push_within accepts fuel g id payload)
  unfolding push_within
  push_within-Kept zero g id payload = Kept-refl g
  push_within-Kept (suc fuel) g id payload =
      let reaped = logout_by-Kept (push_within accepts fuel) (push_within-Kept fuel) g id in
      elim (Option-cases (lookup id g.players)) [
        | inl absent ↦ rw (absent, push_within) (Kept-refl g)
        | inr (p, there) ↦ elim (Bool-cases (accepts g.sent id payload)) [
          | inl taken ↦
              rw (there, push_within, taken) (sent_Kept g (g.sent ++ ((id, payload) ∷ [])))
          | inr refused ↦ rw (there, push_within, refused) reaped
        ]
      ]

  -- A push, also one that logs players out, changes no tile, no other creature, and no player but in
  -- what he knows; a player may go.
  pub push-Kept : (g : Game) (id : ℕ) (payload : Bytes) → Kept g (push accepts g id payload)
  unfolding push
  push-Kept g id payload = push_within-Kept (suc (length g.players)) g id payload

  pub push_all-Kept :
      (ts : List ℕ) (payload : Bytes) (g : Game) → Kept g (push_all accepts ts payload g)
  unfolding push_all
  push_all-Kept [] payload g = Kept-refl g
  push_all-Kept (t ∷ ts) payload g =
      Kept-trans _ _ _ (push-Kept g t payload) (push_all-Kept ts payload (push accepts g t payload))
