-- ===== src/Pmap/Boot/Alloc.antt =====
-- boot_alloc of kern/pmap.c: what it returns, where it panics, and where its sums wrap.
use lab3a.Base.{
  ℕ, ◌+◌, ◌*◌, ◌/◌, ◌%◌, ◌^◌, ◌≤◌, ◌<◌, ◌≡◌, ◌≢◌, refl, arith, ltb, leb, if◌then◌else◌, ==_ne, ◌∙◌,
  ap₂, le→ltb, lt→ltb,
}
use lab3a.Mmu.{u32, kernbase, pgsize, roundup}
use lab3a.Mmu.Address.{roundup_page}
use lab3a.Machine.{Kernel, Run, done, panicked, out_of_memory}
use lab3a.Machine.Runs.{Returns}
use lab3a.Pmap.Boot.{boot_alloc, start_nextfree}

-- The end of a request, rounded up to a page.
abbrev pub request_end : ℕ → ℕ
request_end a = (a + 4095) / 4096 * 4096

-- What boot_alloc promises from the next free address `s`.
abbrev pub boot_outcome : ℕ → ℕ → Kernel → Run ℕ
boot_outcome s n k =
    if leb (request_end (s + n)) (kernbase + k.npages * 4096)
    then done s (record k { nextfree = request_end (s + n) })
    else panicked out_of_memory (record k { nextfree = request_end (s + n) })

moved : ℕ → Kernel → Kernel
moved r k = record k { nextfree = r }

-- A request, by the end that ROUNDUP gives and the limit that the sum gives.
request : ℕ → ℕ → ℕ → Kernel → Run ℕ
unfolding moved
request s r limit k = if ltb limit r then panicked out_of_memory (moved r k) else done s (moved r k)

boot_alloc-request :
    (end n : ℕ) (k : Kernel)
    → 0 < n
    → boot_alloc end n k
      ≡ request
          (start_nextfree end k.nextfree)
          (roundup (u32 (start_nextfree end k.nextfree + n)) pgsize)
          (u32 (kernbase + u32 (k.npages * pgsize)))
          k
unfolding boot_alloc request moved
boot_alloc-request end n k pos = ground arith

end_of_request :
    (s n : ℕ) → s + n + 4095 < 2 ^ 32 → roundup (u32 (s + n)) pgsize ≡ request_end (s + n)
end_of_request s n h = let e : u32 (s + n) ≡ s + n = omega arith in rw e (roundup_page (s + n) h)

limit_of_memory : (n : ℕ) → n < 65536 → u32 (kernbase + u32 (n * pgsize)) ≡ kernbase + n * 4096
limit_of_memory n h = omega arith

-- With less than 256MB of memory, and where the request neither wraps nor is rounded past 2 ^ 32,
-- boot_alloc(n) for n above 0 returns the next free address and moves it past the request, to a page
-- boundary, when that end lies within physical memory, and panics otherwise. The next free address
-- is `end`, rounded up to a page, on the first call.
pub boot_alloc_lem :
    (end n : ℕ) (k : Kernel)
    → k.npages < 65536
    → 0 < n
    → start_nextfree end k.nextfree + n + 4095 < 2 ^ 32
    → boot_alloc end n k ≡ boot_outcome (start_nextfree end k.nextfree) n k
unfolding request moved
boot_alloc_lem end n k h pos small =
    let s = start_nextfree end k.nextfree in
    boot_alloc-request end n k pos
    ∙ ap₂ (λ (r l : ℕ). request s r l k) (end_of_request s n small) (limit_of_memory k.npages h)
    ∙ ground arith

-- boot_alloc(0) returns the next free address and allocates nothing.
pub boot_alloc-zero :
    (end : ℕ) (k : Kernel)
    → boot_alloc end 0 k
      ≡ done (start_nextfree end k.nextfree) (record k { nextfree = start_nextfree end k.nextfree })
unfolding boot_alloc
boot_alloc-zero end k = refl

-- With 256MB of memory KERNBASE + npages * PGSIZE is 0 on 32 bits: boot_alloc(n) panics for every n
-- above 0 whose end, rounded up, is not itself 0, whatever memory is free.
pub boot_alloc_at_256mb :
    (end n : ℕ) (k : Kernel)
    → k.npages ≡ 65536
    → 0 < n
    → start_nextfree end k.nextfree + n + 4095 < 2 ^ 32
    → boot_alloc end n k
      ≡ panicked out_of_memory
          (record k { nextfree = request_end (start_nextfree end k.nextfree + n) })
unfolding request moved
boot_alloc_at_256mb end n k h pos small =
    let s = start_nextfree end k.nextfree in
    let none_left : u32 (kernbase + u32 (k.npages * pgsize)) ≡ 0 = omega arith in
    boot_alloc-request end n k pos
    ∙ ap₂ (λ (r l : ℕ). request s r l k) (end_of_request s n small) none_left
    ∙ rw (lt→ltb 0 (request_end (s + n)) (omega arith))

roundup_back :
    (s n : ℕ)
    → s % 4096 ≡ 0
    → s < 2 ^ 32
    → n < 2 ^ 32
    → 2 ^ 32 ≤ s + n
    → roundup (u32 (s + n)) pgsize ≤ s
unfolding roundup
roundup_back s n aligned small small' wraps = omega arith

-- From a page-aligned next free address within physical memory, a request whose end wraps past
-- 2 ^ 32 is granted, and the next free address does not move up.
pub boot_alloc_wraps :
    (end n : ℕ) (k : Kernel)
    → k.npages < 65536
    → k.nextfree % 4096 ≡ 0
    → k.nextfree ≤ kernbase + k.npages * 4096
    → k.nextfree ≢ 0
    → n < 2 ^ 32
    → 2 ^ 32 ≤ k.nextfree + n
    → Returns (λ r k'. (r ≡ k.nextfree) × (k'.nextfree ≤ k.nextfree)) (boot_alloc end n k)
unfolding request moved
boot_alloc_wraps end n k h aligned inside ne small wraps =
    let back = roundup_back k.nextfree n aligned (omega arith) small wraps in
    rw (boot_alloc-request end n k (omega arith), ==_ne k.nextfree 0 ne, limit_of_memory k.npages h)
      (rw
        (le→ltb (kernbase + k.npages * 4096) (roundup (u32 (k.nextfree + n)) pgsize)
          (omega (arith, back)))
        (refl, back))
