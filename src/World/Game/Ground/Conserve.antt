-- ===== src/World/Game/Ground/Conserve.antt =====
-- About the units that taking from a stack and adding to it move.
use package.oxidia.Prelude.{
  ℕ, ◌+◌, ◌-◌, ◌≤◌, ◌≡◌, ap, ◌∙◌, inl, inr, Bool, true, false, ◌&&◌, Option, none, some,
  if◌then◌else◌, ltb, ◌==◌, length, get_or, get_elem?, set, min, max, arith, Bool-cases, length-set,
  ==_iff, get_elem?-get_or,
}
use package.oxidia.Protocol.MapDescription.{WireItem}
use package.oxidia.World.Map.Tiles.{TileStack}
use package.oxidia.World.Game.Ground.{
  count_of, set_count, remove_entry, insert_entry, take_units, merge_units, add_units,
}
use package.oxidia.World.Game.Ground.Units.{
  worth, units, units_in-remove_at, units_in-set, units_in-insert_at, StackIsValid, pile_at,
}

module _ (stackable : ℕ → Bool) where
  -- What is taken of a pile of `s`, seen as units of `t`.
  abbrev pub moved_if : ℕ → ℕ → ℕ → ℕ
  moved_if t s moved = if s == t then moved else 0

  -- The units on the stack go down by what is taken, which is at least one and no more than stood
  -- there.
  pub take_units-units :
      (t : ℕ) (st : TileStack) (i want : ℕ) {s : ℕ}
      → StackIsValid stackable st
      → get_elem? st.server_ids i ≡ some s
      → (units stackable t (take_units st i want (stackable s)).1
            + moved_if t s (take_units st i want (stackable s)).0.moved
          ≡ units stackable t st)
        × (1 ≤ (take_units st i want (stackable s)).0.moved)
        × ((take_units st i want (stackable s)).0.moved
            ≤ worth stackable s (get_or st.counts i none))
  unfolding take_units set_count remove_entry
  take_units-units t st i want {s} v e =
      let gone = units_in-remove_at stackable t st.server_ids st.counts i v.counts_parallel e in
      elim (Bool-cases (stackable s)) [
        | inl piled ↦
            let cur = count_of (get_or st.counts i none) in
            let moved = min (max want 1) cur in
            elim (Bool-cases (ltb moved cur)) [
              | inl split ↦
                  let rest =
                    units_in-set stackable t st.server_ids st.counts i (some (cur - moved))
                      v.counts_parallel e in
                  rw (piled, split) (ground arith, ground arith, ground arith)
              | inr whole ↦ rw (piled, whole) (ground arith, ground arith, ground arith)
            ]
        | inr single ↦ rw single (ground arith, ground arith, ground arith)
      ]

  merge_units-units :
      (t : ℕ) (st : TileStack) (sid moved : ℕ) (item : WireItem)
      → StackIsValid stackable st
      → stackable sid ≡ true
      → get_elem? st.server_ids st.pre_creature_len ≡ some sid
      → moved ≤ 255
      → units stackable t (merge_units st sid moved item).1
        ≡ units stackable t st + moved_if t sid moved
  unfolding merge_units set_count insert_entry
  merge_units-units t st sid moved item v piled e h =
      let front = st.pre_creature_len in
      let ss = st.server_ids in
      let total = count_of (get_or st.counts front none) + moved in
      let few = pile_at stackable ss st.counts front v.piles v.counts_parallel e in
      let merged =
        units_in-set stackable t ss st.counts front (some (min total 100)) v.counts_parallel e in
      let same_length : length (set st.counts front (some (min total 100))) ≡ length ss =
        length-set st.counts front (some (min total 100)) ∙ v.counts_parallel in
      let spilled =
        units_in-insert_at stackable t ss (set st.counts front (some (min total 100))) front sid
          (some (min (total - 100) 255)) same_length v.within in
      elim (Bool-cases (ltb 100 total)) [
        | inl over ↦ rw over (ground arith)
        | inr fits ↦ rw fits (ground arith)
      ]

  -- The units on the stack go up by what is added.
  pub add_units-units :
      (t : ℕ) (st : TileStack) (sid moved : ℕ) (item : WireItem)
      → StackIsValid stackable st
      → 1 ≤ moved
      → moved ≤ 255
      → (stackable sid ≡ false → moved ≡ 1)
      → units stackable t (add_units st sid moved item (stackable sid)).1
        ≡ units stackable t st + moved_if t sid moved
  unfolding add_units insert_entry
  add_units-units t st sid moved item v low high single =
      let front = st.pre_creature_len in
      let plain = λ (c : Option ℕ).
        units_in-insert_at stackable t st.server_ids st.counts front sid c v.counts_parallel
          v.within in
      elim (Bool-cases (stackable sid)) [
        | inr alone ↦
            let one = single alone in let added = plain item.subtype in rw alone (ground arith)
        | inl piled ↦
            elim (Bool-cases
              (ltb front (length st.server_ids) && get_or st.server_ids front 0 == sid)) [
                | inl same ↦
                    let at_front : get_elem? st.server_ids front ≡ some sid =
                      get_elem?-get_or st.server_ids front 0 (ground arith)
                      ∙ ap some ((==_iff _ _).0 (ground arith)) in
                    rw (piled, same) (merge_units-units t st sid moved item v piled at_front high)
                | inr other ↦ let added = plain (some moved) in rw (piled, other) (ground arith)
              ]
      ]
