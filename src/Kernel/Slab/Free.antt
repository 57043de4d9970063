-- ===== src/Kernel/Slab/Free.antt =====
-- `kfree`: the object with the pointer is in use no more, and the others stay as they were.
use aev_os.Common.{ℕ, ◌≤◌, ◌≡◌, ◌≢◌, refl, false, List, [], ◌∷◌, ◌==◌, arith, Bool-cases, inl, inr}
use aev_os.Kernel.Slab.{Cache}
use aev_os.Kernel.Slab.Object.{page_of}
use aev_os.Kernel.Slab.{cache_owns, free_owner, kfree, Heap}
use aev_os.Kernel.Slab.Holders.{holders_caches, holders, cover_caches, IsObjectOf}
use aev_os.Kernel.Slab.Malloc.{AllCaches, IsValid, holders_caches-le}
use aev_os.Kernel.Slab.Release.{Frees, false-not_gone}
use aev_os.Kernel.Slab.FreeCache.{cache_free-FreesIn, cache_owns-false, cache_owns-true}

-- What freeing does to the caches.
record FreesAmong (cs : List Cache) (ptr : ℕ) (cs' : List Cache) : Type 0 where
  size : ℕ
  valid : AllCaches cs'
  cover : (p : ℕ) → cover_caches p cs' ≡ cover_caches p cs
  frees :
      Frees
        (λ a. IsObjectOf size a cs)
        size
        ptr
        (λ b. holders_caches b cs)
        (λ b. holders_caches b cs')

free_owner-FreesAmong :
    (cs : List Cache) (ptr : ℕ)
    → AllCaches cs
    → cover_caches (page_of ptr) cs ≤ 1
    → FreesAmong cs ptr (free_owner ptr cs)
unfolding free_owner holders_caches cover_caches
free_owner-FreesAmong [] ptr vs le = record {
  size = 1;
  valid = tt;
  cover = λ p. refl;
  frees = record {
    start = ptr;
    gone = false;
    real = λ g. absurd (false-not_gone g);
    inside = ground arith;
    object = λ b. refl;
    nothing = refl;
  };
}
free_owner-FreesAmong (c ∷ cs) ptr (v, vs) le = elim (Bool-cases (cache_owns c ptr)) [
  | inl own ↦
      let f = cache_free-FreesIn c v ptr (omega (arith, le)) in
      let fr = f.frees in
      rw own (record {
        size = c.obj_size;
        valid = (f.valid, vs);
        cover = λ p. omega (arith, f.cover p);
        frees = record {
          start = fr.start;
          gone = fr.gone;
          real = λ g. inl (fr.real g);
          inside = fr.inside;
          object = λ b. omega (arith, fr.object b);
          nothing =
              omega
                (arith, fr.nothing, le, cache_owns-true c v ptr own, holders_caches-le cs ptr vs);
        };
      })
  | inr away ↦
      let f = free_owner-FreesAmong cs ptr vs (omega (arith, le)) in
      let fr = f.frees in
      rw away (record {
        size = f.size;
        valid = (v, f.valid);
        cover = λ p. omega (arith, f.cover p);
        frees = record {
          start = fr.start;
          gone = fr.gone;
          real = λ g. inr (fr.real g);
          inside = fr.inside;
          object = λ b. omega (arith, fr.object b);
          nothing = omega (arith, fr.nothing, cache_owns-false c v ptr away);
        };
      })
]

-- What `kfree` does: `slot` is the size of the object.
pub record FreesObject (h : Heap) (ptr : ℕ) (h' : Heap) : Type 0 where
  pub slot : ℕ
  pub valid : IsValid h'
  pub frees :
      Frees (λ a. IsObjectOf slot a h.caches) slot ptr (λ b. holders b h) (λ b. holders b h')

-- kfree of a pointer that is not null leaves a valid heap, in which no object in use has the byte
-- at the pointer. Where an object in use had it, each byte of that object, from its start on and as
-- many as the objects of its cache have, is held by one object less, and every other byte by as
-- many as before; where none had it, every byte is held by as many as before.
pub kfree-FreesObject : (h : Heap) (ptr : ℕ) → ptr ≢ 0 → IsValid h → FreesObject h ptr (kfree h ptr)
unfolding kfree holders
kfree-FreesObject h ptr ne v =
    let f = free_owner-FreesAmong h.caches ptr v.caches (ground (arith, v.apart (page_of ptr))) in
    let not_null : (ptr == 0) ≡ false = ground arith in
    rw not_null (record {
      slot = f.size;
      valid = record {
        caches = f.valid;
        pmm = v.pmm;
        apart = λ q. omega (arith, v.apart q, f.cover q);
      };
      frees = f.frees;
    })
