-- ===== src/Process.antt =====
-- kern/arinc/process.c: the choice of the next thread. A `task_t *` is its address, with `all_tag`
-- `off` bytes behind it, as the compiler lays the structure out.
pub mod Rotate
pub mod Pids
pub mod Create
mod Tests
use atlos.Base.{◌+◌, ◌-◌, ◌==◌, if◌then◌else◌}
use atlos.Dlist.{Ptr, Run, pure, ◌>>=◌, ◌>>◌, list_push_back, list_pop_front}

abbrev pub all_tag : Ptr → Ptr → Ptr
all_tag off task = task + off

-- Of an element that is not NULL.
abbrev pub le2task : Ptr → Ptr → Ptr
le2task off le = le - off

-- `schedule` up to the switch: the task that runs next. The running one goes to the back of
-- `all_proc_set`, unless it is `init_proc`.
pub schedule : Ptr → Ptr → Ptr → Ptr → Run Ptr
schedule off all_proc_set init_proc cur = do
  if cur == init_proc then pure tt else list_push_back all_proc_set (all_tag off cur)
  nelem ← list_pop_front all_proc_set
  pure (le2task off nelem)
