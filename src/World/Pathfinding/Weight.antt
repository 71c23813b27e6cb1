-- ===== src/World/Pathfinding/Weight.antt =====
-- A measure for the turns of the search: an open node is to weigh more than all that its expansion
-- can open, since every child costs ten more at least and there are at most eight.
use Prim.Native.Nat.add
use package.oxidia.Prelude.{
  ℕ, zero, suc, ◌+◌, ◌-◌, ◌*◌, ◌≤◌, ◌<◌, ◌≡◌, List, [], ◌∷◌, ◌++◌, some, arith, if◌then◌else◌, ltb,
  get_elem?, set,
}
use package.oxidia.World.Pathfinding.{AStarNode, closed}

-- 9 to the power n
pub pow9 : ℕ → ℕ
pow9 zero = 1
pow9 (suc n) = 9 * pow9 n

pub pow9_pos : (n : ℕ) → 0 < pow9 n
unfolding pow9
pow9_pos zero = omega arith
pow9_pos (suc n) = omega (arith, pow9_pos n)

pub pow9_mono : (a k : ℕ) → pow9 a ≤ pow9 (k + a)
unfolding pow9
pow9_mono a zero = rw (add.zero a) (omega arith)
pow9_mono a (suc k) = rw (add.suc k a) (omega (arith, pow9_mono a k))

pub pow9-le : (a b : ℕ) → a ≤ b → pow9 a ≤ pow9 b
pow9-le a b h = let e : b - a + a ≡ b = omega arith in rw e at (pow9_mono a (b - a))

-- No cost reaches this many units.
abbrev pub dearest : ℕ
dearest = 28160

pub weight : AStarNode → ℕ
weight b = if ltb b.f closed then pow9 (dearest - b.g) else 0

unfoldable pub total_weight : List AStarNode → ℕ
total_weight [] = 0
total_weight (b ∷ bs) = weight b + total_weight bs

pub total_weight-append :
    (bs : List AStarNode) (b : AStarNode)
    → total_weight (bs ++ (b ∷ [])) ≡ total_weight bs + weight b
unfolding total_weight
total_weight-append [] b = omega arith
total_weight-append (c ∷ bs) b = omega (arith, total_weight-append bs b)

pub total_weight-set :
    (bs : List AStarNode) (i : ℕ) (old new : AStarNode)
    → get_elem? bs i ≡ some old
    → total_weight (set bs i new) + weight old ≡ total_weight bs + weight new
unfolding total_weight
total_weight-set [] i old new e = absurd (ground arith)
total_weight-set (c ∷ bs) zero old new e =
    let same : c ≡ old = ground arith in rw same (omega arith)
total_weight-set (c ∷ bs) (suc i) old new e = omega (arith, total_weight-set bs i old new e)

pub weight_le : (b : AStarNode) (g : ℕ) → g ≤ b.g → weight b ≤ pow9 (dearest - g)
unfolding weight
weight_le b g h = ground (arith, pow9-le (dearest - b.g) (dearest - g) (omega arith))

pub weight-closed : (b : AStarNode) → b.f ≡ closed → weight b ≡ 0
unfolding weight
weight-closed b e = rw e

pub weight_open : (b : AStarNode) → b.f < closed → weight b ≡ pow9 (dearest - b.g)
unfolding weight
weight_open b h = ground arith

-- Eight children weigh less than their parent.
pub eight_lighter : (g : ℕ) → g + 10 ≤ dearest → 8 * pow9 (dearest - (g + 10)) < pow9 (dearest - g)
eight_lighter g h =
    let step = pow9-le (suc (dearest - (g + 10))) (dearest - g) (omega arith) in
    unfold pow9 in omega (arith, pow9_pos (dearest - (g + 10)), step)
