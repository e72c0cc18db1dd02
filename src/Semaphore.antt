-- ===== src/Semaphore.antt =====
-- `Semaphore` of src/util/semaphore.h. Each locked section is one step.
-- `wait` in a state with this count; `none` is a wait that goes on.
use my_bookstore.Base.{none, ◌-ℤ◌, some, ltb_ℤ, pos, if◌then◌else◌, ◌+ℤ◌, Option, wrap32, ℤ}

unfoldable pub wait : ℤ → Option ℤ
wait count = if ltb_ℤ (pos 0) count then some (wrap32 (count -ℤ pos 1)) else none

unfoldable pub post : ℤ → ℤ
post count = wrap32 (count +ℤ pos 1)
