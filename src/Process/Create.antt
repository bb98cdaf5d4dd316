-- ===== src/Process/Create.antt =====
-- kern/arinc/process.c, kern/arinc/process.h and kern/arinc/arinc_proc.h: new threads, up to the
-- start of the processes. A `task_t` and a trap frame stand in a store of their own, by address.
pub mod Thread
mod Tests
use atlos.Base.{
  ℕ, zero, suc, ◌+◌, ◌-◌, ◌%◌, ◌^◌, Bool, Option, none, some, List, [], ◌∷◌, ◌==◌, if◌then◌else◌,
  update, bit_or, ℤ, pos, negsuc, is_neg,
}
use atlos.Dlist.{Ptr, null, list_init, list_push_back}
use atlos.Bitmap.{Bitmap, bitmap_set}
use atlos.Slab.{Slabs, on_links}
use atlos.Slab as Slab
use atlos.Slab.Alloc.{kmalloc, kfree}
use atlos.Process.{all_tag}
use atlos.Process.Pids.{alloc_pid, pid_map_init, bmap_buff_sz}

pub record Context : Type 0 where
  pub eip : ℕ
  pub esp : ℕ
  pub ebx : ℕ
  pub ecx : ℕ
  pub edx : ℕ
  pub esi : ℕ
  pub edi : ℕ
  pub ebp : ℕ

-- `struct trapframe`, with the registers of `struct pushregs`.
pub record Trapframe : Type 0 where
  pub reg_edi : ℕ
  pub reg_esi : ℕ
  pub reg_ebp : ℕ
  pub reg_oesp : ℕ
  pub reg_ebx : ℕ
  pub reg_edx : ℕ
  pub reg_ecx : ℕ
  pub reg_eax : ℕ
  pub tf_gs : ℕ
  pub tf_fs : ℕ
  pub tf_es : ℕ
  pub tf_ds : ℕ
  pub tf_trapno : ℕ
  pub tf_err : ℕ
  pub tf_eip : ℕ
  pub tf_cs : ℕ
  pub tf_eflags : ℕ
  pub tf_esp : ℕ
  pub tf_ss : ℕ

pub data ProcessState : Type 0 where
  dormant : ProcessState
  ready : ProcessState
  running : ProcessState
  waitting : ProcessState

pub record Attributes : Type 0 where
  pub period : ℕ
  pub time_capacity : ℕ
  pub entry_point : ℕ
  pub arg : ℕ
  pub stack_size : ℕ
  pub base_priority : ℕ
  pub deadline : ℕ
  pub name : List ℕ

pub record Status : Type 0 where
  pub deadline_time : ℕ
  pub current_priority : ℕ
  pub process_state : ProcessState
  pub attributes : Attributes

pub record Task : Type 0 where
  pub tf : Ptr
  pub ctxt : Context
  pub kstack : Ptr
  pub pid : ℤ
  pub status : Status
  pub ticks : ℕ
  pub mm : Ptr

-- The state: `ints` are the words that arguments of threads point to.
pub record Kernel : Type 0 where
  pub slabs : Slabs
  pub pid_map : Bitmap
  pub tasks : Ptr → Task
  pub frames : Ptr → Trapframe
  pub ints : Ptr → ℕ

-- `none` is a fault, a panic, or the end of the rounds of a loop.
abbrev pub Run : Type 0 → Type 0
Run A = Kernel → Option (A × Kernel)

abbrev pub pure : {A : Type 0} → A → Run A
pure value k = some (value, k)

module _ {A B : Type 0} where
  abbrev pub and_then : Option (A × Kernel) → (A → Run B) → Option (B × Kernel)
  and_then none k = none
  and_then (some (a, s)) k = k a s

  infixl 5 ◌>>=◌ ◌>>◌
  abbrev pub ◌>>=◌ : Run A → (A → Run B) → Run B
  m >>= k = λ s. and_then (m s) k

  abbrev pub ◌>>◌ : Run A → Run B → Run B
  m >> n = m >>= λ _. n

abbrev pub on_slabs : {A : Type 0} → Slab.Run A → Run A
on_slabs m k = elim (m k.slabs) [ none ↦ none | some (a, s) ↦ some (a, record k { slabs = s }) ]

abbrev pub e_no_mem : ℕ
e_no_mem = 4

abbrev pub e_no_free_proc : ℕ
e_no_free_proc = 5

abbrev pub kstacksize : ℕ
kstacksize = 8192

-- `KERNEL_CS` and `KERNEL_DS`: the segments 1 and 2.
abbrev pub kernel_cs : ℕ
kernel_cs = 8

abbrev pub kernel_ds : ℕ
kernel_ds = 16

abbrev pub fl_if : ℕ
fl_if = 0x200

-- The end of the stack of a task, and the trap frame of 76 bytes below it.
abbrev pub stack_end : Ptr → Ptr
stack_end task = (task + kstacksize) % 2 ^ 32

abbrev pub frame_of : Ptr → Ptr
frame_of task = (stack_end task + 2 ^ 32 - 76) % 2 ^ 32

abbrev pub empty_context : Context
empty_context = record { eip = 0; esp = 0; ebx = 0; ecx = 0; edx = 0; esi = 0; edi = 0; ebp = 0 }

-- The fields that `alloc_proc` writes, over what the memory held.
pub proc_setup : Ptr → Task → Task
proc_setup task t = record t {
  ctxt = empty_context;
  kstack = stack_end task;
  tf = frame_of task;
  pid = negsuc 0;
  mm = null;
  ticks = 5;
  status = record t.status {
    current_priority = 1;
    process_state = dormant;
    attributes = record t.status.attributes {
      period = 0;
      base_priority = 1;
      stack_size = kstacksize;
    };
  };
}

-- A write to a task, or to a trap frame.
abbrev pub set_task : Ptr → (Task → Task) → Run (Unit {0})
set_task task change k = some (tt, record k { tasks = update k.tasks task (change (k.tasks task)) })

abbrev pub set_frame : Ptr → (Trapframe → Trapframe) → Run (Unit {0})
set_frame tf change k = some (tt, record k { frames = update k.frames tf (change (k.frames tf)) })

-- A write to an int; through NULL it is a fault.
abbrev pub store_int : Ptr → ℕ → Run (Unit {0})
store_int p value k =
    if p == null then none else some (tt, record k { ints = update k.ints p value })

-- The parameters of the kernel: the place of `bd_page`, `mcached` and `all_proc_set`, the offset of
-- `all_tag`, the addresses of two routines in assembly, and the fuel of `kmalloc` and of `alloc_pid`.
module _
    (bd_page_off mcached all_proc_set off kernel_thread_entry_asm kthread_ret rounds pids : ℕ) where
  pub alloc_proc : Run Ptr
  unfolding proc_setup
  alloc_proc = do
    task ← on_slabs (kmalloc bd_page_off mcached rounds kstacksize)
    if task == null then pure null else (do set_task task (proc_setup task); pure task)

  -- `alloc_pid` on the map of the state.
  get_pid : Run ℤ
  get_pid k = elim (alloc_pid pids k.pid_map) [
    | none ↦ none
    | some (pid, map) ↦ some (pid, record k { pid_map = map })
  ]

  -- The trap frame of a new thread.
  abbrev pub frame_for : ℕ → ℕ → Trapframe → Trapframe
  frame_for func arg tf = record tf {
    tf_cs = kernel_cs;
    tf_ds = kernel_ds;
    tf_es = kernel_ds;
    tf_ss = kernel_ds;
    reg_ebx = func;
    reg_edx = arg;
    tf_eip = kernel_thread_entry_asm;
    reg_eax = 0;
    tf_eflags = bit_or tf.tf_eflags fl_if;
  }

  -- `kernel_thread` from the trap frame on.
  start_thread : ℕ → ℕ → Ptr → Run ℕ
  start_thread func arg task k =
      let tf = (k.tasks task).tf in
      (do
        set_frame tf (frame_for func arg)
        set_task task (λ t. record t { ctxt = record t.ctxt { eip = kthread_ret; esp = tf } })
        on_slabs (on_links (list_push_back all_proc_set (all_tag off task)))
        pure 0)
        k

  -- `kernel_thread`, with the result of `alloc_proc`.
  thread_with : ℕ → ℕ → Ptr → Run ℕ
  unfolding get_pid start_thread
  thread_with func arg task = if task == null then pure e_no_mem else (do
    pid ← get_pid
    set_task task (λ t. record t { pid = pid })
    if is_neg pid
        then (do on_slabs (kfree bd_page_off mcached task); pure e_no_free_proc)
        else start_thread func arg task)

  pub kernel_thread : ℕ → ℕ → Run ℕ
  unfolding alloc_proc thread_with
  kernel_thread func arg = alloc_proc >>= λ task. thread_with func arg task

  -- `DEFAULT_THREAD_ATTR(NULL, "init")`.
  abbrev pub default_attr : Attributes
  default_attr = record {
    period = 0;
    time_capacity = 5;
    entry_point = null;
    arg = null;
    stack_size = kstacksize;
    base_priority = 1;
    deadline = 0;
    name = 0x69 ∷ 0x6e ∷ 0x69 ∷ 0x74 ∷ [];
  }

  -- `make_init_thread`, where `task` is `current_thread`.
  pub make_init_thread : Ptr → Kernel → Kernel
  make_init_thread task k = record k {
    pid_map = (bitmap_set k.pid_map 0).1;
    tasks = update k.tasks task (record (k.tasks task) {
      pid = pos 0;
      mm = null;
      kstack = stack_end task;
      tf = frame_of task;
      ticks = default_attr.time_capacity % 256;
      status = record (k.tasks task).status {
        process_state = running;
        current_priority = default_attr.base_priority;
        attributes = default_attr;
      };
    });
  }

  -- `pid_map_init`: `kmalloc` gives the buffer, whose bytes `mem` gives.
  map_init : (Ptr → ℕ) → Run (Unit {0})
  map_init mem = do
    buff ← on_slabs (kmalloc bd_page_off mcached rounds bmap_buff_sz)
    λ k.
        if buff == null
        then none
        else some (tt, record k { pid_map = pid_map_init (λ i. mem (buff + i)) })

  -- `check_kernel_thread`, with the address of `thread_func`.
  pub check_kernel_thread : ℕ → Run (Unit {0})
  unfolding kernel_thread
  check_kernel_thread thread_func = do
    arg1 ← on_slabs (kmalloc bd_page_off mcached rounds 4)
    arg2 ← on_slabs (kmalloc bd_page_off mcached rounds 4)
    store_int arg1 1
    store_int arg2 2
    kernel_thread thread_func arg1
    kernel_thread thread_func arg2
    pure tt

  -- `process_init` after `check_bitmap`, without its message.
  pub process_init : (Ptr → ℕ) → ℕ → Ptr → Run (Unit {0})
  unfolding map_init make_init_thread check_kernel_thread
  process_init mem thread_func current = do
    on_slabs (on_links (list_init all_proc_set))
    map_init mem
    λ k. some (tt, make_init_thread current k)
    check_kernel_thread thread_func
