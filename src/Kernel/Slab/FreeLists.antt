-- ===== src/Kernel/Slab/FreeLists.antt =====
-- Freeing an object along the lists of a cache: `free_partial` and `find_full`.
use aev_os.Common.{
  ℕ, ◌≤◌, ◌≡◌, refl, true, false, Option, none, some, List, [], ◌∷◌, arith, Bool-cases, inl, inr,
}
use aev_os.Kernel.Slab.{
  Slab, Cache, owns, slab_bytes, slab_behind, free_partial, owner_behind, find_full,
}
use aev_os.Kernel.Slab.Holders.{held, holders_list, cover_list, IsObject, IsObjectAmong}
use aev_os.Kernel.Slab.Object.{IsShape, IsSlab, page_of}
use aev_os.Kernel.Slab.CacheInv.{All, All-mono, IsPartial, IsFull, holders_list-le}
use aev_os.Kernel.Slab.Release.{
  Frees, no_owner, owner_covers, free_object-Frees, free_object-IsPartial, free_object-phys,
}

module _ (c : Cache) (sh : IsShape c) (ptr : ℕ) where
  -- `free_partial` on the slabs `ss`
  abbrev pub FreesPartial : List Slab → Option (List Slab) → Type 0
  FreesPartial ss none = holders_list c.obj_size ptr ss ≡ 0
  FreesPartial ss (some ss') =
      All (IsPartial c.obj_per_slab) ss'
      × ((p : ℕ) → cover_list c.pages_per_slab p ss' ≡ cover_list c.pages_per_slab p ss)
      × (1 ≤ cover_list c.pages_per_slab (page_of ptr) ss)
      × Frees (λ a. IsObjectAmong c.obj_size a ss) c.obj_size ptr
          (λ b. holders_list c.obj_size b ss) (λ b. holders_list c.obj_size b ss')

  -- No other slab of the list has the byte.
  rest_empty :
      (s : Slab) (ss : List Slab)
      → IsSlab c.obj_per_slab s
      → All (IsSlab c.obj_per_slab) ss
      → owns (slab_bytes c) ptr s ≡ true
      → cover_list c.pages_per_slab (page_of ptr) (s ∷ ss) ≤ 1
      → holders_list c.obj_size ptr ss ≡ 0
  unfolding cover_list
  rest_empty s ss v vs owned le =
      omega (arith, holders_list-le c ss ptr sh vs, owner_covers c sh ptr s v owned)

  slab_behind-FreesPartial :
      (s : Slab) (ss : List Slab) (r : Option (List Slab))
      → IsPartial c.obj_per_slab s
      → owns (slab_bytes c) ptr s ≡ false
      → FreesPartial ss r
      → FreesPartial (s ∷ ss) (slab_behind s r)
  unfolding slab_behind holders_list cover_list
  slab_behind-FreesPartial s ss none v away h = omega (arith, h, no_owner c sh ptr s v.0 away)
  slab_behind-FreesPartial s ss (some ss') v away (vs, same, one, fr) = (
    (v, vs),
    λ p. omega (arith, same p),
    omega (arith, one),
    record {
      start = fr.start;
      gone = fr.gone;
      real = λ g. inr (fr.real g);
      inside = fr.inside;
      object = λ b. omega (arith, fr.object b);
      nothing = omega (arith, fr.nothing, no_owner c sh ptr s v.0 away);
    },
  )

  pub free_partial-FreesPartial :
      (ss : List Slab)
      → All (IsPartial c.obj_per_slab) ss
      → cover_list c.pages_per_slab (page_of ptr) ss ≤ 1
      → FreesPartial ss (free_partial c ptr ss)
  unfolding free_partial holders_list cover_list
  free_partial-FreesPartial [] vs le = refl
  free_partial-FreesPartial (s ∷ ss) (v, vs) le = elim (Bool-cases (owns (slab_bytes c) ptr s)) [
    | inl owned ↦
        let fr = free_object-Frees c sh ptr s v.0 owned in
        let empty = rest_empty s ss v.0 (All-mono _ _ ss (λ t h. h.0) vs) owned le in
        rw owned (
          (free_object-IsPartial c sh ptr s v.0 owned v.1, vs),
          λ p. rw (free_object-phys c sh ptr s v.0 owned) refl,
          omega (arith, owner_covers c sh ptr s v.0 owned),
          record {
            start = fr.start;
            gone = fr.gone;
            real = λ g. inl (fr.real g);
            inside = fr.inside;
            object = λ b. omega (arith, fr.object b);
            nothing = omega (arith, fr.nothing, empty);
          },
        )
    | inr away ↦ rw away (
        slab_behind-FreesPartial s ss (free_partial c ptr ss) v away
          (free_partial-FreesPartial ss vs (omega (arith, le))))
  ]

  -- `find_full` on the slabs `ss`
  abbrev pub FindsFull : List Slab → Option (Slab × List Slab) → Type 0
  FindsFull ss none = holders_list c.obj_size ptr ss ≡ 0
  FindsFull ss (some (s, rest)) =
      IsFull c.obj_per_slab s
      × All (IsFull c.obj_per_slab) rest
      × (owns (slab_bytes c) ptr s ≡ true)
      × ((p : ℕ) → cover_list c.pages_per_slab p (s ∷ rest) ≡ cover_list c.pages_per_slab p ss)
      × ((a : ℕ) → IsObject c.obj_size a s → IsObjectAmong c.obj_size a ss)
      × ((b : ℕ) → holders_list c.obj_size b (s ∷ rest) ≡ holders_list c.obj_size b ss)
      × (holders_list c.obj_size ptr rest ≡ 0)

  owner_behind-FindsFull :
      (s : Slab) (ss : List Slab) (r : Option (Slab × List Slab))
      → IsFull c.obj_per_slab s
      → owns (slab_bytes c) ptr s ≡ false
      → FindsFull ss r
      → FindsFull (s ∷ ss) (owner_behind s r)
  unfolding owner_behind holders_list cover_list
  owner_behind-FindsFull s ss none v away h = omega (arith, h, no_owner c sh ptr s v.0 away)
  owner_behind-FindsFull s ss (some (o, rest)) v away (vo, vs, owned, cover, among, held, empty) = (
    vo,
    (v, vs),
    owned,
    λ p. omega (arith, cover p),
    λ a u. inr (among a u),
    λ b. omega (arith, held b),
    omega (arith, empty, no_owner c sh ptr s v.0 away),
  )

  pub find_full-FindsFull :
      (ss : List Slab)
      → All (IsFull c.obj_per_slab) ss
      → cover_list c.pages_per_slab (page_of ptr) ss ≤ 1
      → FindsFull ss (find_full (slab_bytes c) ptr ss)
  unfolding find_full holders_list cover_list
  find_full-FindsFull [] vs le = refl
  find_full-FindsFull (s ∷ ss) (v, vs) le = elim (Bool-cases (owns (slab_bytes c) ptr s)) [
    | inl owned ↦ rw owned (
      v,
      vs,
      owned,
      λ p. refl,
      λ a u. inl u,
      λ b. refl,
      rest_empty s ss v.0 (All-mono _ _ ss (λ t h. h.0) vs) owned le,
    )
    | inr away ↦ rw away (
        owner_behind-FindsFull s ss (find_full (slab_bytes c) ptr ss) v away
          (find_full-FindsFull ss vs (omega (arith, le))))
  ]
