-- ===== src/World/Map/Loaded.antt =====
-- About the chunks in memory and on disk (crates/world/src/map.rs).
use package.oxidia.Prelude.{
  ◌≡◌, refl, sym, ◌∙◌, subst, inl, inr, List, [], ◌∷◌, Option, none, some, Bool, true, false, arith,
  ◌||◌, if◌then◌else◌, Bool-cases, Option-cases, ==_refl,
}
use mathlib.Core.List.{Memᴰ}
use mathlib.Core.List.Memᴰ
use package.oxidia.Prelude.Int.{ℤ, pos, negsuc, eq_ℤ}
use package.oxidia.World.Map.{
  ChunkId, same_id, contains, ChunkManager, new, get, is_loaded, insert_read, ensure_loaded, retain,
  sweep,
}

same_id_iff : (a b : ChunkId) → same_id a b ≡ true → a ≡ b
same_id_iff a b h = ground arith

eq_ℤ_refl : (a : ℤ) → eq_ℤ a a ≡ true
eq_ℤ_refl (pos n) = ground arith
eq_ℤ_refl (negsuc n) = ground arith

same_id_refl : (a : ChunkId) → same_id a a ≡ true
same_id_refl a = rw (eq_ℤ_refl a.cx, eq_ℤ_refl a.cy) (==_refl a.z)

module _ {Chunk : Type 0} where
  get-retain :
      (keep : ChunkId → Bool) (id : ChunkId) (cs : List (ChunkId × Chunk))
      → get id (retain keep cs) ≡ (if keep id then get id cs else none)
  unfolding get retain
  get-retain keep id [] = ground arith
  get-retain keep id ((a, c) ∷ cs) = elim (Bool-cases (same_id a id)) [
    | inl same ↦
        let here = same_id_iff a id same in
        elim (Bool-cases (keep a)) [
          | inl k ↦ let k' : keep id ≡ true = rw here at k in rw (k, k', same, get) refl
          | inr k ↦
              let k' : keep id ≡ false = rw here at k in
              rw (k, k') (get-retain keep id cs ∙ rw k' refl)
        ]
    | inr other ↦ elim (Bool-cases (keep a)) [
      | inl k ↦ rw k (rw other (get-retain keep id cs))
      | inr k ↦ rw k (rw other (get-retain keep id cs))
    ]
  ]

module _ {Chunk : Type 0} (load : ChunkId → Option Chunk) where
  -- Every chunk in memory is the one on disk, and every chunk noted as missing is not on disk.
  pub record Faithful (m : ChunkManager Chunk) : Type 0 where
    pub as_on_disk : (id : ChunkId) (c : Chunk) → get id m.chunks ≡ some c → load id ≡ some c
    pub not_on_disk : (id : ChunkId) → contains id m.missing ≡ true → load id ≡ none

  pub new-Faithful : Faithful (new Chunk)
  unfolding new get contains
  new-Faithful = record { as_on_disk = λ id c e. ground arith; not_on_disk = λ id e. ground arith }

  insert-Faithful :
      (id : ChunkId) (o : Option Chunk) (m : ChunkManager Chunk)
      → load id ≡ o
      → Faithful m
      → Faithful (insert_read id o m)
  unfolding get contains
  insert-Faithful id none m e v = record {
    as_on_disk = v.as_on_disk;
    not_on_disk = λ a h. elim (Bool-cases (same_id id a)) [
      | inl same ↦ rw (same_id_iff id a same) at e
      | inr other ↦ v.not_on_disk a (rw other at h)
    ];
  }
  insert-Faithful id (some c) m e v = record {
    as_on_disk = λ a d h. elim (Bool-cases (same_id id a)) [
      | inl same ↦ (rw (same_id_iff id a same) at e) ∙ (rw same at h)
      | inr other ↦ v.as_on_disk a d (rw other at h)
    ];
    not_on_disk = v.not_on_disk;
  }

  -- One round of the loop.
  round : ChunkId → ChunkManager Chunk → ChunkManager Chunk
  round id m =
      if is_loaded (get id m.chunks) || contains id m.missing then m else insert_read id (load id) m

  record Rounded (id : ChunkId) (m m' : ChunkManager Chunk) : Type 0 where
    faithful : Faithful m'
    kept : (a : ChunkId) (c : Chunk) → get a m.chunks ≡ some c → get a m'.chunks ≡ some c
    met : (c : Chunk) → load id ≡ some c → get id m'.chunks ≡ some c

  same_round :
      (id : ChunkId) (m : ChunkManager Chunk)
      → Faithful m
      → ((c : Chunk) → load id ≡ some c → get id m.chunks ≡ some c)
      → Rounded id m m
  same_round id m v h = record { faithful = v; kept = λ a c e. e; met = h }

  insert_round :
      (id : ChunkId) (o : Option Chunk) (m : ChunkManager Chunk)
      → load id ≡ o
      → get id m.chunks ≡ none
      → Faithful m
      → Rounded id m (insert_read id o m)
  unfolding get
  insert_round id none m e absent v = record {
    faithful = insert-Faithful id none m e v;
    kept = λ a c h. h;
    met = λ c h. absurd (ground arith);
  }
  insert_round id (some c) m e absent v = record {
    faithful = insert-Faithful id (some c) m e v;
    kept = λ a d h. elim (Bool-cases (same_id id a)) [
      | inl same ↦
          let gone : get a m.chunks ≡ none = rw (same_id_iff id a same) at absent in
          absurd (ground arith)
      | inr other ↦ rw other h
    ];
    met = λ d h. rw (same_id_refl id) (ground arith);
  }

  round_lem : (id : ChunkId) (m : ChunkManager Chunk) → Faithful m → Rounded id m (round id m)
  unfolding round
  round_lem id m v = elim (Option-cases (get id m.chunks)) [
    | inr (c, there) ↦
        rw there (same_round id m v (λ d e. there ∙ sym (v.as_on_disk id c there) ∙ e))
    | inl absent ↦ elim (Bool-cases (contains id m.missing)) [
      | inl missing ↦
          rw (absent, missing)
            (same_round id m v
              (λ d e. let gone = v.not_on_disk id missing in absurd (ground arith)))
      | inr unknown ↦ rw (absent, unknown) (insert_round id (load id) m refl absent v)
    ]
  ]

  all_rounds :
      (ids : List ChunkId) (m : ChunkManager Chunk)
      → Faithful m
      → Faithful (ensure_loaded load ids m)
        × ((a : ChunkId) (c : Chunk)
            → get a m.chunks ≡ some c
            → get a (ensure_loaded load ids m).chunks ≡ some c)
        × ((a : ChunkId) (c : Chunk)
            → Memᴰ a ids
            → load a ≡ some c
            → get a (ensure_loaded load ids m).chunks ≡ some c)
  unfolding ensure_loaded round
  all_rounds [] m v = (v, λ a c e. e, λ a c h e. absurd (Memᴰ.not-nil h))
  all_rounds (id ∷ ids) m v =
      let r = round_lem id m v in
      let (later, kept, met) = all_rounds ids (round id m) r.faithful in
      (
        later,
        λ a c e. kept a c (r.kept a c e),
        λ a c h e. elim (Memᴰ.cases_cons h) [
          | inl first ↦ kept a c (
              subst (λ b. get b (round id m).chunks ≡ some c) (sym first) (r.met c (rw first at e)))
          | inr more ↦ met a c more e
        ],
      )

  -- From chunks that are as on disk: a request leaves them so, and every chunk that was asked for is
  -- then in memory exactly if the disk has it, with what the disk has.
  pub ensure_loaded_lem :
      (ids : List ChunkId) (m : ChunkManager Chunk)
      → Faithful m
      → Faithful (ensure_loaded load ids m)
        × ((a : ChunkId) → Memᴰ a ids → get a (ensure_loaded load ids m).chunks ≡ load a)
  ensure_loaded_lem ids m v =
      let (after, _, met) = all_rounds ids m v in
      (
        after,
        λ a h. elim (Option-cases (load a)) [
          | inr (c, there) ↦ met a c h there ∙ sym there
          | inl absent ↦ elim (Option-cases (get a (ensure_loaded load ids m).chunks)) [
            | inl gone ↦ gone ∙ sym absent
            | inr (c, there) ↦ let e = after.as_on_disk a c there in absurd (ground arith)
          ]
        ],
      )

  -- A sweep keeps chunks as on disk, keeps what is required or pinned as it was, and drops the rest.
  pub sweep_lem :
      (required : List ChunkId) (m : ChunkManager Chunk)
      → Faithful m
      → Faithful (sweep required m)
        × ((a : ChunkId)
            → get a (sweep required m).chunks
              ≡ (if contains a required || contains a m.pinned then get a m.chunks else none))
  unfolding sweep
  sweep_lem required m v =
      let keep : ChunkId → Bool = λ id. contains id required || contains id m.pinned in
      let all = λ (a : ChunkId). get-retain keep a m.chunks in
      (
        record {
          as_on_disk = λ a c e. elim (Bool-cases (keep a)) [
            | inl k ↦ v.as_on_disk a c (rw k at (sym (all a) ∙ e))
            | inr k ↦ absurd (ground (arith, all a))
          ];
          not_on_disk = v.not_on_disk;
        },
        all,
      )
