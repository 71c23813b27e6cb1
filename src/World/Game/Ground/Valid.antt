-- ===== src/World/Game/Ground/Valid.antt =====
-- About the form of a stack of items after taking from it and adding to it.
use package.oxidia.Prelude.{
  ℕ, zero, suc, ◌+◌, ◌-◌, ◌≤◌, ◌<◌, ◌≡◌, ap, ◌∙◌, inl, inr, Bool, true, false, ◌&&◌, List, [], ◌∷◌,
  Option, none, some, ltb, ◌==◌, length, get_or, get_elem?, set, min, max, arith, Bool-cases,
  length-set, ==_iff, get_elem?-get_or, get_elem?-lt,
}
use package.oxidia.Protocol.MapDescription.{WireItem}
use package.oxidia.World.Map.Tiles.{TileStack}
use package.oxidia.World.Game.Ground.{
  remove_at, insert_at, count_of, set_count, remove_entry, insert_entry, take_units, merge_units,
  add_units, blank, with_subtype,
}
use package.oxidia.World.Game.Ground.Units.{worth, Piles, StackIsValid, pile_at}

module _ {ℓ} {A : Type ℓ} where
  length-remove_at : (xs : List A) (i : ℕ) → i < length xs → length (remove_at xs i) + 1 ≡ length xs
  unfolding remove_at
  length-remove_at [] i h = elim h [ ]
  length-remove_at (x ∷ xs) zero h = omega arith
  length-remove_at (x ∷ xs) (suc i) h = omega (arith, length-remove_at xs i (omega arith))

  length-insert_at : (xs : List A) (i : ℕ) (a : A) → length (insert_at xs i a) ≡ length xs + 1
  unfolding insert_at
  length-insert_at xs zero a = omega arith
  length-insert_at [] (suc i) a = omega arith
  length-insert_at (x ∷ xs) (suc i) a = omega (arith, length-insert_at xs i a)

module _ (stackable : ℕ → Bool) where
  Piles-nil : (ss : List ℕ) → Piles stackable ss []
  Piles-nil [] = tt
  Piles-nil (s ∷ ss) = tt

  worth-some : (s n : ℕ) → n ≤ 100 → worth stackable s (some n) ≤ 100
  worth-some s n h = ground arith

  single_worth : (s : ℕ) (c : Option ℕ) → stackable s ≡ false → worth stackable s c ≤ 100
  single_worth s c h = ground arith

  Piles-remove_at :
      (ss : List ℕ) (cs : List (Option ℕ)) (i : ℕ)
      → Piles stackable ss cs
      → Piles stackable (remove_at ss i) (remove_at cs i)
  unfolding remove_at
  Piles-remove_at [] cs i v = tt
  Piles-remove_at (s ∷ ss) [] zero v = Piles-nil ss
  Piles-remove_at (s ∷ ss) [] (suc i) v = tt
  Piles-remove_at (s ∷ ss) (c ∷ cs) zero v = v.1
  Piles-remove_at (s ∷ ss) (c ∷ cs) (suc i) v = (v.0, Piles-remove_at ss cs i v.1)

  Piles-set :
      (ss : List ℕ) (cs : List (Option ℕ)) (i : ℕ) (c : Option ℕ) {s : ℕ}
      → get_elem? ss i ≡ some s
      → worth stackable s c ≤ 100
      → Piles stackable ss cs
      → Piles stackable ss (set cs i c)
  Piles-set [] cs i c e h v = tt
  Piles-set (s ∷ ss) [] i c e h v = tt
  Piles-set (s ∷ ss) (d ∷ cs) zero c e h v = (ground arith, v.1)
  Piles-set (s ∷ ss) (d ∷ cs) (suc i) c e h v = (v.0, Piles-set ss cs i c e h v.1)

  Piles-insert_at :
      (ss : List ℕ) (cs : List (Option ℕ)) (i s : ℕ) (c : Option ℕ)
      → length cs ≡ length ss
      → i ≤ length ss
      → worth stackable s c ≤ 100
      → Piles stackable ss cs
      → Piles stackable (insert_at ss i s) (insert_at cs i c)
  unfolding insert_at
  Piles-insert_at ss cs zero s c e k h v = (h, v)
  Piles-insert_at [] cs (suc i) s c e k h v = absurd (omega arith)
  Piles-insert_at (x ∷ ss) [] (suc i) s c e k h v = absurd (omega arith)
  Piles-insert_at (x ∷ ss) (d ∷ cs) (suc i) s c e k h v =
      (v.0, Piles-insert_at ss cs i s c (omega arith) (omega arith) h v.1)

  remove_entry-StackIsValid :
      (st : TileStack) (i : ℕ)
      → i < length st.server_ids
      → StackIsValid stackable st
      → StackIsValid stackable (remove_entry st i)
  unfolding remove_entry
  remove_entry-StackIsValid st i h v =
      let items = length-remove_at st.items i (omega (arith, v.items_parallel)) in
      let ids = length-remove_at st.server_ids i h in
      let counts = length-remove_at st.counts i (omega (arith, v.counts_parallel)) in
      record {
        items_parallel = omega (arith, v.items_parallel);
        counts_parallel = omega (arith, v.counts_parallel);
        within = ground (arith, v.within);
        piles = Piles-remove_at st.server_ids st.counts i v.piles;
      }

  insert_entry-StackIsValid :
      (st : TileStack) (item : WireItem) (sid : ℕ) (c : Option ℕ)
      → worth stackable sid c ≤ 100
      → StackIsValid stackable st
      → StackIsValid stackable (insert_entry st st.pre_creature_len item sid c)
  unfolding insert_entry
  insert_entry-StackIsValid st item sid c h v =
      let front = st.pre_creature_len in
      let items = length-insert_at st.items front item in
      let ids = length-insert_at st.server_ids front sid in
      let counts = length-insert_at st.counts front c in
      record {
        items_parallel = omega (arith, v.items_parallel);
        counts_parallel = omega (arith, v.counts_parallel);
        within = omega (arith, v.within);
        piles =
            Piles-insert_at st.server_ids st.counts front sid c v.counts_parallel v.within h
              v.piles;
      }

  set_count-StackIsValid :
      (st : TileStack) (i n : ℕ) (item : WireItem) {s : ℕ}
      → get_elem? st.server_ids i ≡ some s
      → n ≤ 100
      → StackIsValid stackable st
      → StackIsValid stackable (set_count st i item n)
  unfolding set_count
  set_count-StackIsValid st i n item {s} e h v =
      let items = length-set st.items i (with_subtype n (get_or st.items i item)) in
      let counts = length-set st.counts i (some n) in
      record {
        items_parallel = omega (arith, v.items_parallel);
        counts_parallel = omega (arith, v.counts_parallel);
        within = v.within;
        piles = Piles-set st.server_ids st.counts i (some n) e (worth-some s n h) v.piles;
      }

  -- Taking from a stack leaves it valid.
  pub take_units-StackIsValid :
      (st : TileStack) (i want : ℕ) {s : ℕ}
      → StackIsValid stackable st
      → get_elem? st.server_ids i ≡ some s
      → StackIsValid stackable (take_units st i want (stackable s)).1
  unfolding take_units
  take_units-StackIsValid st i want {s} v e =
      let whole = remove_entry-StackIsValid st i (get_elem?-lt st.server_ids i e) v in
      elim (Bool-cases (stackable s)) [
        | inl piled ↦
            let few = pile_at stackable st.server_ids st.counts i v.piles v.counts_parallel e in
            let cur = count_of (get_or st.counts i none) in
            let moved = min (max want 1) cur in
            elim (Bool-cases (ltb moved cur)) [
              | inl split ↦
                  rw (piled, split)
                    (set_count-StackIsValid st i (cur - moved) blank e (ground arith) v)
              | inr all ↦ rw (piled, all) whole
            ]
        | inr single ↦ rw single whole
      ]

  merge_units-StackIsValid :
      (st : TileStack) (sid moved : ℕ) (item : WireItem)
      → StackIsValid stackable st
      → get_elem? st.server_ids st.pre_creature_len ≡ some sid
      → stackable sid ≡ true
      → moved ≤ 100
      → StackIsValid stackable (merge_units st sid moved item).1
  unfolding merge_units set_count
  merge_units-StackIsValid st sid moved item v e piled high =
      let front = st.pre_creature_len in
      let total = count_of (get_or st.counts front none) + moved in
      let pile = pile_at stackable st.server_ids st.counts front v.piles v.counts_parallel e in
      let few : count_of (get_or st.counts front none) ≤ 100 = ground arith in
      let merged = set_count-StackIsValid st front (min total 100) item e (omega arith) v in
      elim (Bool-cases (ltb 100 total)) [
        | inl over ↦ rw over (
            insert_entry-StackIsValid (set_count st front item (min total 100))
              (with_subtype (min (total - 100) 255) item) sid (some (min (total - 100) 255))
              (worth-some sid (min (total - 100) 255) (omega arith)) merged)
        | inr fits ↦ rw fits merged
      ]

  -- Adding at most a hundred units to a stack leaves it valid.
  pub add_units-StackIsValid :
      (st : TileStack) (sid moved : ℕ) (item : WireItem)
      → StackIsValid stackable st
      → moved ≤ 100
      → StackIsValid stackable (add_units st sid moved item (stackable sid)).1
  unfolding add_units
  add_units-StackIsValid st sid moved item v high =
      let front = st.pre_creature_len in
      elim (Bool-cases (stackable sid)) [
        | inr alone ↦ rw alone (
            insert_entry-StackIsValid st item sid item.subtype (single_worth sid item.subtype alone)
              v)
        | inl piled ↦
            elim (Bool-cases
              (ltb front (length st.server_ids) && get_or st.server_ids front 0 == sid)) [
                | inl same ↦
                    let at_front : get_elem? st.server_ids front ≡ some sid =
                      get_elem?-get_or st.server_ids front 0 (ground arith)
                      ∙ ap some ((==_iff _ _).0 (ground arith)) in
                    rw (piled, same)
                      (merge_units-StackIsValid st sid moved item v at_front piled high)
                | inr other ↦
                    rw (piled, other)
                      (insert_entry-StackIsValid st (with_subtype moved item) sid (some moved)
                        (worth-some sid moved high) v)
              ]
      ]
