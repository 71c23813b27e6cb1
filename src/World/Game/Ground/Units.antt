-- ===== src/World/Game/Ground/Units.antt =====
-- How many units of an item stand on a tile: the count of a stackable item, one for any other.
use package.oxidia.Prelude.{
  ℕ, zero, suc, ◌+◌, ◌≤◌, ◌≡◌, Bool, List, [], ◌∷◌, Option, none, some, if◌then◌else◌, ◌==◌, length,
  get_or, get_elem?, set, arith,
}
use package.oxidia.World.Map.Tiles.{TileStack}
use package.oxidia.World.Game.Ground.{remove_at, insert_at, count_of}

module _ (stackable : ℕ → Bool) where
  abbrev pub worth : ℕ → Option ℕ → ℕ
  worth sid c = if stackable sid then count_of c else 1

  abbrev pub worth_if : ℕ → ℕ → Option ℕ → ℕ
  worth_if t sid c = if sid == t then worth sid c else 0

  -- The units of `t` in parallel lists of ids and counts.
  unfoldable pub units_in : ℕ → List ℕ → List (Option ℕ) → ℕ
  units_in t [] cs = 0
  units_in t (s ∷ ss) [] = 0
  units_in t (s ∷ ss) (c ∷ cs) = worth_if t s c + units_in t ss cs

  abbrev pub units : ℕ → TileStack → ℕ
  units t st = units_in t st.server_ids st.counts

  pub units_in-remove_at :
      (t : ℕ) (ss : List ℕ) (cs : List (Option ℕ)) (i : ℕ) {s : ℕ}
      → length cs ≡ length ss
      → get_elem? ss i ≡ some s
      → units_in t (remove_at ss i) (remove_at cs i) + worth_if t s (get_or cs i none)
        ≡ units_in t ss cs
  unfolding units_in remove_at
  units_in-remove_at t [] cs i e h = absurd (ground arith)
  units_in-remove_at t (x ∷ ss) [] i e h = absurd (ground arith)
  units_in-remove_at t (x ∷ ss) (c ∷ cs) zero e h = ground arith
  units_in-remove_at t (x ∷ ss) (c ∷ cs) (suc i) e h =
      omega (arith, units_in-remove_at t ss cs i (omega arith) h)

  pub units_in-set :
      (t : ℕ) (ss : List ℕ) (cs : List (Option ℕ)) (i : ℕ) (c' : Option ℕ) {s : ℕ}
      → length cs ≡ length ss
      → get_elem? ss i ≡ some s
      → units_in t ss (set cs i c') + worth_if t s (get_or cs i none)
        ≡ units_in t ss cs + worth_if t s c'
  unfolding units_in
  units_in-set t [] cs i c' e h = absurd (ground arith)
  units_in-set t (x ∷ ss) [] i c' e h = absurd (ground arith)
  units_in-set t (x ∷ ss) (c ∷ cs) zero c' e h = ground arith
  units_in-set t (x ∷ ss) (c ∷ cs) (suc i) c' e h =
      omega (arith, units_in-set t ss cs i c' (omega arith) h)

  pub units_in-insert_at :
      (t : ℕ) (ss : List ℕ) (cs : List (Option ℕ)) (i s : ℕ) (c : Option ℕ)
      → length cs ≡ length ss
      → i ≤ length ss
      → units_in t (insert_at ss i s) (insert_at cs i c) ≡ units_in t ss cs + worth_if t s c
  unfolding units_in insert_at
  units_in-insert_at t ss cs zero s c e h = omega arith
  units_in-insert_at t [] cs (suc i) s c e h = absurd (omega arith)
  units_in-insert_at t (x ∷ ss) [] (suc i) s c e h = absurd (omega arith)
  units_in-insert_at t (x ∷ ss) (y ∷ cs) (suc i) s c e h =
      omega (arith, units_in-insert_at t ss cs i s c (omega arith) (omega arith))

  -- The lists of a stack are parallel, the creatures stand within it, and no pile has more than
  -- a hundred units.
  abbrev pub Piles : List ℕ → List (Option ℕ) → Type 0
  Piles [] cs = Unit
  Piles (s ∷ ss) [] = Unit
  Piles (s ∷ ss) (c ∷ cs) = (worth s c ≤ 100) × Piles ss cs

  pub record StackIsValid (st : TileStack) : Type 0 where
    pub items_parallel : length st.items ≡ length st.server_ids
    pub counts_parallel : length st.counts ≡ length st.server_ids
    pub within : st.pre_creature_len ≤ length st.server_ids
    pub piles : Piles st.server_ids st.counts

  pub pile_at :
      (ss : List ℕ) (cs : List (Option ℕ)) (i : ℕ) {s : ℕ}
      → Piles ss cs
      → length cs ≡ length ss
      → get_elem? ss i ≡ some s
      → worth s (get_or cs i none) ≤ 100
  pile_at [] cs i v e h = absurd (ground arith)
  pile_at (x ∷ ss) [] i v e h = absurd (ground arith)
  pile_at (x ∷ ss) (c ∷ cs) zero v e h = ground arith
  pile_at (x ∷ ss) (c ∷ cs) (suc i) v e h = pile_at ss cs i v.1 (omega arith) h
