-- ===== src/Kernel/Slab/Tests.antt =====
-- The theorems on the heap at the machine of the tests of the page allocator.
use aev_os.Common.{ℕ, arith}
use aev_os.Kernel.Pmm.Tests.{booted, booted-IsValid}
use aev_os.Kernel.Slab.{Heap, slab_init, kmalloc, kfree}
use aev_os.Kernel.Slab.Malloc.{IsValid, Mallocs, kmalloc-Mallocs}
use aev_os.Kernel.Slab.Free.{FreesObject, kfree-FreesObject}
use aev_os.Kernel.Slab.Boot.{slab_init-IsValid}

abbrev started : Heap
started = slab_init booted

started-IsValid : IsValid started
started-IsValid = (slab_init-IsValid booted booted-IsValid).0

-- an object of 100 bytes, from the cache of 128
abbrev first : ℕ × Heap
first = kmalloc started 100

first-Mallocs : Mallocs 100 started first
first-Mallocs = kmalloc-Mallocs started 100 started-IsValid

kmalloc-Mallocs_example : Mallocs 200 first.1 (kmalloc first.1 200)
kmalloc-Mallocs_example = kmalloc-Mallocs first.1 200 first-Mallocs.valid

kfree-FreesObject_example :
    FreesObject first.1 0xFFFF_8000_0021_0000 (kfree first.1 0xFFFF_8000_0021_0000)
kfree-FreesObject_example =
    kfree-FreesObject first.1 0xFFFF_8000_0021_0000 (λ e. absurd (omega arith)) first-Mallocs.valid
