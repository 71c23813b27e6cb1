-- ===== src/World/Game/Items/Moved.antt =====
-- About a move of an item from one tile to another: which stacks change, and by how much.
use package.oxidia.Prelude.{
  ℕ, ◌+◌, ◌≤◌, ◌≡◌, refl, sym, ◌∙◌, subst, inl, inr, Bool, true, false, List, some, arith,
  if◌then◌else◌, Bool-cases, max, get_elem?, some_injective,
}
use mathlib.Core.Option
use package.oxidia.Protocol.Bytes.{Bytes}
use package.oxidia.Protocol.MapDescription.{WireItem}
use package.oxidia.World.Position.{Position}
use package.oxidia.World.Map.Tiles.{TileStack, or_else}
use package.oxidia.World.Map.Sight.{Floats}
use package.oxidia.World.Game.{Game, ItemMeta, ContainerSource, same_position, same_position_iff}
use package.oxidia.World.Game.Ground.{take_units, add_units}
use package.oxidia.World.Game.Ground.Units.{units, StackIsValid, pile_at}
use package.oxidia.World.Game.Ground.Conserve.{moved_if, take_units-units, add_units-units}
use package.oxidia.World.Game.Ground.Valid.{take_units-StackIsValid, add_units-StackIsValid}
use package.oxidia.World.Game.Ground.Merged.{merged_stack, Placed, take_from_ground_lem}
use package.oxidia.World.Game.SameGround.{
  SameGround, SameGround-refl, SameGround-trans, SameGround-merged, place_on_ground_lem,
  broadcast_source-Kept, Kept-SameGround, auto_close-SameGround, windows_SameGround,
}
use package.oxidia.World.Game.Windows.{rekey, rekey_container_source}
use package.oxidia.World.Game.Windows.Handlers.{auto_close_ground_containers}
use package.oxidia.World.Game.Transfer.{is_stackable}
use package.oxidia.World.Game.Items.{carry}

-- Whether the items of a type pile up, as the game knows it.
abbrev pub stacks : Game → ℕ → Bool
stacks g sid = is_stackable (g.item_meta sid)

-- The units of an item on a tile, none where there is no stack.
abbrev pub units_at : (ℕ → Bool) → Game → Position → ℕ → ℕ
units_at stackable g at t = or_else (Option.map (units stackable t) (merged_stack g at)) 0

abbrev pub GroundIsValid : (ℕ → Bool) → Game → Type 0
GroundIsValid stackable g =
    (at : Position) (st : TileStack) → merged_stack g at ≡ some st → StackIsValid stackable st

-- The units on two tiles together are the same in both games, all stacks are valid, and no other
-- tile differs.
pub record Carried (g : Game) (from to : Position) (g' : Game) : Type 0 where
  pub total :
      (t : ℕ)
      → units_at (stacks g) g' from t + units_at (stacks g) g' to t
        ≡ units_at (stacks g) g from t + units_at (stacks g) g to t
  pub valid : GroundIsValid (stacks g) g'
  pub elsewhere :
      (q : Position)
      → same_position from q ≡ false
      → same_position to q ≡ false
      → merged_stack g' q ≡ merged_stack g q

pub Carried-refl :
    (g : Game) (from to : Position) → GroundIsValid (stacks g) g → Carried g from to g
Carried-refl g from to v = record { total = λ t. refl; valid = v; elsewhere = λ q a b. refl }

-- What leaves the ground alone keeps this.
pub Carried-SameGround :
    (g h h' : Game) (from to : Position)
    → SameGround h h'
    → Carried g from to h
    → Carried g from to h'
Carried-SameGround g h h' from to s c =
    let same = SameGround-merged h h' s in
    record {
      total = λ t. rw (same from, same to) (c.total t);
      valid = λ at st e. c.valid at st (sym (same at) ∙ e);
      elsewhere = λ q a b. same q ∙ c.elsewhere q a b;
    }

apart_sym : (p q : Position) → same_position p q ≡ false → same_position q p ≡ false
apart_sym p q h = ground arith

-- No more than a hundred units are taken, and one of what does not pile up.
at_most :
    (stackable : ℕ → Bool) (st : TileStack) (i want : ℕ) {s : ℕ}
    → StackIsValid stackable st
    → get_elem? st.server_ids i ≡ some s
    → (take_units st i want (stackable s)).0.moved ≤ 100
at_most stackable st i want {s} v e =
    let (_, _, stood) = take_units-units stackable s st i want v e in
    omega (arith, stood, pile_at stackable st.server_ids st.counts i v.piles v.counts_parallel e)

single_moved :
    (stackable : ℕ → Bool) (st : TileStack) (i want s : ℕ)
    → stackable s ≡ false
    → (take_units st i want (stackable s)).0.moved ≡ 1
unfolding take_units
single_moved stackable st i want s h = rw h refl

-- One stack gives up what another gets.
module _ (g h k : Game) (from to : Position) (a a' b b' : TileStack) (sid moved : ℕ)
    (apart : same_position from to ≡ false) (first : Placed g from a' h)
    (second : Placed h to b' k) where
  swapped_from : merged_stack k from ≡ some a'
  swapped_from = second.elsewhere from (apart_sym from to apart) ∙ first.here

  swapped_elsewhere :
      (q : Position)
      → same_position from q ≡ false
      → same_position to q ≡ false
      → merged_stack k q ≡ merged_stack g q
  swapped_elsewhere q nf nt = second.elsewhere q nt ∙ first.elsewhere q nf

  swapped_valid :
      StackIsValid (stacks g) a'
      → StackIsValid (stacks g) b'
      → GroundIsValid (stacks g) g
      → GroundIsValid (stacks g) k
  swapped_valid va vb v at st e = elim (Bool-cases (same_position from at)) [
    | inl f ↦
        let here = (same_position_iff from at).0 f in
        let found = subst (λ p. merged_stack k p ≡ some st) (sym here) e in
        subst (StackIsValid (stacks g)) (some_injective (sym swapped_from ∙ found)) va
    | inr nf ↦ elim (Bool-cases (same_position to at)) [
      | inl t ↦
          let here = (same_position_iff to at).0 t in
          let found = subst (λ p. merged_stack k p ≡ some st) (sym here) e in
          subst (StackIsValid (stacks g)) (some_injective (sym second.here ∙ found)) vb
      | inr nt ↦ v at st (sym (swapped_elsewhere at nf nt) ∙ e)
    ]
  ]

  swapped_total :
      merged_stack g from ≡ some a
      → merged_stack g to ≡ some b
      → ((t : ℕ) → units (stacks g) t a' + moved_if (stacks g) t sid moved ≡ units (stacks g) t a)
      → ((t : ℕ) → units (stacks g) t b' ≡ units (stacks g) t b + moved_if (stacks g) t sid moved)
      → (t : ℕ)
      → units_at (stacks g) k from t + units_at (stacks g) k to t
        ≡ units_at (stacks g) g from t + units_at (stacks g) g to t
  swapped_total ea eb out into t =
      rw (swapped_from, second.here, ea, eb) (omega (arith, out t, into t))

exchanged-Carried :
    (g h k : Game) (from to : Position) (a b : TileStack) (i want sid : ℕ) (item : WireItem)
    → same_position from to ≡ false
    → GroundIsValid (stacks g) g
    → merged_stack g from ≡ some a
    → get_elem? a.server_ids i ≡ some sid
    → merged_stack g to ≡ some b
    → Placed g from (take_units a i want (stacks g sid)).1 h
    → Placed h to
        (add_units b sid (take_units a i want (stacks g sid)).0.moved item (stacks g sid)).1
        k
    → Carried g from to k
exchanged-Carried g h k from to a b i want sid item apart v ea ei eb first second =
    let va = v from a ea in
    let vb = v to b eb in
    let stackable = stacks g in
    let moved = (take_units a i want (stackable sid)).0.moved in
    let few : moved ≤ 100 = at_most stackable a i want va ei in
    let (_, some_moved, _) = take_units-units stackable sid a i want va ei in
    record {
      total =
          swapped_total g h k from to a _ b _ sid moved apart first second ea eb
            (λ t. (take_units-units stackable t a i want va ei).0)
            (λ t.
              add_units-units stackable t b sid moved item vb some_moved (omega arith)
                (single_moved stackable a i want sid));
      valid =
          swapped_valid g h k from to a _ b _ sid moved apart first second
            (take_units-StackIsValid stackable a i want va ei)
            (add_units-StackIsValid stackable b sid moved item vb few) v;
      elsewhere = swapped_elsewhere g h k from to a _ b _ sid moved apart first second;
    }

module _ (accepts : List (ℕ × Bytes) → ℕ → Bytes → Bool) (fl : Floats) where
  -- After the item was placed only packets and windows follow.
  settled_lem :
      (fuel : ℕ) (g h g' : Game) (id : ℕ) (from to : Position) (moves : Bool)
      → (if moves
          then auto_close_ground_containers accepts fuel
              (rekey_container_source h id
                (ContainerSource.on_ground from)
                (ContainerSource.on_ground to))
              id
          else some h)
        ≡ some g'
      → SameGround h g'
  unfolding rekey_container_source
  settled_lem fuel g h g' id from to true e =
      SameGround-trans h _ g' (windows_SameGround h id (rekey _ _))
        (auto_close-SameGround accepts fuel _ id g' e)
  settled_lem fuel g h g' id from to false e =
      subst (SameGround h) (some_injective e) (SameGround-refl h)

  pub carry-Carried :
      (fuel : ℕ) (g g' : Game) (id : ℕ) (from : Position) (sp i sid : ℕ) (meta : ItemMeta)
      (to : Position) (count : ℕ) (a b : TileStack)
      → g.item_meta sid ≡ some meta
      → merged_stack g from ≡ some a
      → get_elem? a.server_ids i ≡ some sid
      → merged_stack g to ≡ some b
      → same_position from to ≡ false
      → GroundIsValid (stacks g) g
      → carry accepts fl fuel g id from sp i sid meta to count ≡ some g'
      → Carried g from to g'
  unfolding carry
  carry-Carried fuel g g' id from sp i sid meta to count a b em ea ei eb apart v e =
      let piles : stacks g sid ≡ meta.stackable = rw em refl in
      let want = if meta.stackable then max count 1 else 1 in
      let (h, taken, first) = take_from_ground_lem g from i want meta.stackable ea in
      let tk = (take_units a i want meta.stackable).0 in
      let item : WireItem = record {
        client_id = meta.client_id;
        subtype = tk.original_count;
        animated = meta.animated;
      } in
      let (k, l, placed, second, quiet) =
        place_on_ground_lem accepts h to sid tk.moved item meta.stackable
          (first.elsewhere to apart ∙ eb) in
      let first' = subst (λ s. Placed g from (take_units a i want s).1 h) (sym piles) first in
      let second' =
        subst (λ s. Placed h to (add_units b sid (take_units a i want s).0.moved item s).1 k)
          (sym piles) second in
      let carried =
        exchanged-Carried g h k from to a b i want sid item apart v ea ei eb first' second' in
      let told = Kept-SameGround l _ (broadcast_source-Kept accepts l from sp tk.removed_fully i) in
      let rest =
        settled_lem fuel g _ g' id from to meta.is_container (rw (taken, carry, placed) at e) in
      Carried-SameGround g k g' from to
        (SameGround-trans k l g' (Kept-SameGround k l quiet) (SameGround-trans l _ g' told rest))
        carried
