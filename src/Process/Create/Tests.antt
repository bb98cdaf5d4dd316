-- ===== src/Process/Create/Tests.antt =====
-- A thread with its stack at 0xc0402000, where no other one waits. Its tag is 200 bytes behind.
use atlos.Base.{ℕ, ◌⊎◌, ◌<◌, ◌≡◌, ◌≢◌, refl, some, [], ◌∷◌, ◌++◌, map, arith, pos}
use atlos.Dlist.{Ptr, null}
use atlos.Dlist.Chain.{IsList}
use atlos.Bitmap.Update.{bit_at}
use atlos.Bitmap.Scan.Result.{First}
use atlos.Slab.{take_obj}
use atlos.Slab.Alloc.Stack.{before, after, kmalloc-run}
use atlos.Process.{all_tag}
use atlos.Process.Pids.{pid_map_init}
use atlos.Process.Pids.Fresh.{IsPidMap, pid_map_init-IsPidMap}
use atlos.Process.Create.{Kernel, Task, kernel_thread, empty_context, dormant, e_no_mem}
use atlos.Process.Create.Thread.{IsStarted, kernel_thread-IsStarted}

abbrev blank : Task
blank = record {
  tf = 0;
  ctxt = empty_context;
  kstack = 0;
  pid = pos 0;
  status = record {
    deadline_time = 0;
    current_priority = 0;
    process_state = dormant;
    attributes = record {
      period = 0;
      time_capacity = 0;
      entry_point = 0;
      arg = 0;
      stack_size = 0;
      base_priority = 0;
      deadline = 0;
      name = [];
    };
  };
  ticks = 0;
  mm = 0;
}

abbrev kernel : Kernel
kernel = record {
  slabs = before;
  pid_map = pid_map_init (λ p. 0xaa);
  tasks = λ p. blank;
  frames = λ p. record {
    reg_edi = 0;
    reg_esi = 0;
    reg_ebp = 0;
    reg_oesp = 0;
    reg_ebx = 0;
    reg_edx = 0;
    reg_ecx = 0;
    reg_eax = 0;
    tf_gs = 0;
    tf_fs = 0;
    tf_es = 0;
    tf_ds = 0;
    tf_trapno = 0;
    tf_err = 0;
    tf_eip = 0;
    tf_cs = 0;
    tf_eflags = 0;
    tf_esp = 0;
    tf_ss = 0;
  };
  ints = λ p. 0;
}

nothing_waits : IsList after.links 100 []
unfolding take_obj
nothing_waits = record {
  chain = (refl, refl, refl);
  distinct = (refl, (refl, tt));
  non_null = refl;
  count = refl;
  small = omega arith;
}

abbrev task : Ptr
task = 0xc0402000

kernel_thread-IsStarted_example :
    ((task ≡ null)
      × (kernel_thread 0 1000 100 200 0x1111 0x2222 2 600 0x3333 0x4444 kernel
          ≡ some (e_no_mem, record kernel { slabs = after })))
    ⊎ ((task ≢ null)
        × (pid : ℕ) × First kernel.pid_map 0 513 pid
        × (k' : Kernel) × (kernel_thread 0 1000 100 200 0x1111 0x2222 2 600 0x3333 0x4444 kernel
            ≡ some (0, k'))
        × IsStarted kernel k' 0x1111 0x2222 0xc0402000 0x3333 0x4444 pid
        × IsList k'.slabs.links 100 (map (all_tag 200) ([] ++ 0xc0402000 ∷ []))
        × IsPidMap k'.pid_map
        × (pid < 512 → bit_at k'.pid_map pid ≡ 1))
kernel_thread-IsStarted_example =
    kernel_thread-IsStarted 0 1000 100 200 0x1111 0x2222 2 600 kernel 0x3333 0x4444 0xc0402000 after
      [] kmalloc-run (pid_map_init-IsPidMap (λ p. 0xaa)) (omega arith) nothing_waits (ground arith)
      refl
