-- ===== src/Mem/Tests.antt =====
-- Two contexts, the inner one with less left.
use toywasm.Base.{arith, true, ◌&&◌, [], ◌∷◌, All}
use toywasm.Mem.{MemContext, mem_alloc}
use toywasm.Mem.Limits.{IsLimited, has_left, Allocates, mem_alloc-Allocates}

abbrev two_contexts : MemContext
two_contexts = record { allocated = 10; limit = 100 } ∷ record { allocated = 40; limit = 120 } ∷ []

two_contexts-IsLimited : All IsLimited two_contexts
two_contexts-IsLimited = (omega arith, (omega arith, tt))

mem_alloc-Allocates_example :
    Allocates 64 two_contexts (mem_alloc true 64 two_contexts) (has_left 64 two_contexts && true)
mem_alloc-Allocates_example =
    mem_alloc-Allocates true 64 two_contexts two_contexts-IsLimited (omega arith)
