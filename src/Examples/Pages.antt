-- ===== src/Examples/Pages.antt =====
-- The pages and the fault handler at concrete kernels.
use demo_os.Base.{◌≡◌, some, refl}
use demo_os.Base.Int.{negsuc}
use demo_os.Kernel.{Algorithm, Kernel}
use demo_os.Memory.{page_address, get_free_page, find_free, mark_page}
use demo_os.Memory.Pages.{Allocated, get_free_page-Allocated}
use demo_os.Memory.Virtual.{do_mem_abort, do_mem_abort-fails}
use demo_os.Examples.States.{busy}

-- The pages 0 and 1 are in use.
abbrev two_used : Kernel
two_used = mark_page 0 1 (mark_page 1 1 (busy Algorithm.round_robin))

third_page : (get_free_page two_used).0 ≡ page_address 2
unfolding get_free_page find_free
third_page = refl

get_free_page-Allocated_example : Allocated two_used (get_free_page two_used)
get_free_page-Allocated_example = get_free_page-Allocated two_used

-- A translation fault of the third level.
do_mem_abort-fails_example :
    do_mem_abort 4096 7 (negsuc 0) two_used ≡ some (negsuc 0, negsuc 0, two_used)
do_mem_abort-fails_example = do_mem_abort-fails 4096 7 (negsuc 0) two_used
