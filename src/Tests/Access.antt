-- ===== src/Tests/Access.antt =====
-- The check of user memory at the small machine.
use lab3a.Pmap.Walk.Translate.{pdx-lt}
use lab3a.Base.{not, ◌&&◌, if◌then◌else◌, ◌≡◌, arith}
use lab3a.Mmu.{pgnum, pdx}
use lab3a.Machine.{done}
use lab3a.Machine.Convert.{kva}
use lab3a.Machine.Runs.{Returns}
use lab3a.Pmap.UserMem.{user_mem_check, fault_at}
use lab3a.Pmap.UserMem.Loop.{TablesInMemory, allowed}
use lab3a.Pmap.UserMem.Range.{Checked, user_mem_check-Checked}
use lab3a.Pmap.UserMem.Wraps.{user_mem_check_wraps, first_seen}
use lab3a.Tests.State.{small, small-Fits, only_slot}

pub small-TablesInMemory : TablesInMemory small (kva 400)
unfolding pgnum
small-TablesInMemory va h = rw (only_slot (pdx va) (pdx-lt va) h) (omega arith)

user_mem_check-Checked_example :
    Returns (Checked small (kva 400) 0x800010 5000 4) (user_mem_check 0 0x800010 5000 4 small)
user_mem_check-Checked_example =
    user_mem_check-Checked small 0 0x800010 5000 4 small-Fits small-TablesInMemory (omega arith)

-- From the user's page to the top and round again into that page, which is tested and refused for writing by
-- a user without a table; every other page is granted unseen.
user_mem_check_wraps_example : user_mem_check 0 0x1FFF 0xFFFFFFFF 4 small ≡ (
    if first_seen 0x1FFF 0xFFFFFFFF && not (allowed small (kva 400) 4 0x1000)
    then fault_at 0x1FFF 0x1000 small
    else done 0 small)
user_mem_check_wraps_example =
    user_mem_check_wraps small 0 0x1FFF 0xFFFFFFFF 4 small-Fits small-TablesInMemory (omega arith)
      (omega arith) (omega arith)

-- The whole kernel window is granted to the user, from KERNBASE to the end.
window_granted : user_mem_check 0 0xF0000000 0x10000000 4 small ≡ done 0 small
window_granted =
    user_mem_check_wraps small 0 0xF0000000 0x10000000 4 small-Fits small-TablesInMemory
      (omega arith) (omega arith) (omega arith)
