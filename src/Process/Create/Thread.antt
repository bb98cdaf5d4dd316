-- ===== src/Process/Create/Thread.antt =====
-- What `kernel_thread` does.
use atlos.Base.{
  ℕ, ℕ-eq_cases, inl, inr, ◌⊎◌, ◌≡◌, refl, ◌≢◌, false, some, List, [], ◌∷◌, ◌++◌, has, map,
  if◌then◌else◌, update, update_self, ==_refl, bit, bit-bit_or, bit-le, update_ne, ℤ, pos, is_neg,
  Option, ◌<◌, ap, ◌∙◌, ne→==, arith,
}
use atlos.Dlist.{Ptr, null, Heap, tail, list_push_back}
use atlos.Dlist.Chain.{IsList}
use atlos.Dlist.Ends.{push_back-IsList}
use atlos.Bitmap.{Bitmap}
use atlos.Bitmap.Update.{bit_at}
use atlos.Bitmap.Scan.Result.{First}
use atlos.Slab.{Slabs, on_links}
use atlos.Slab.Alloc.{kmalloc, kfree}
use atlos.Process.{all_tag}
use atlos.Process.Rotate.{map-snoc}
use atlos.Process.Pids.{alloc_pid}
use atlos.Process.Pids.Fresh.{IsPidMap, alloc_pid-smallest}
use atlos.Process.Create.{
  Kernel, Task, Trapframe, kstacksize, stack_end, frame_of, proc_setup, alloc_proc, frame_for,
  start_thread, thread_with, ◌>>=◌, pure, kernel_thread, get_pid, on_slabs, e_no_mem, empty_context,
  dormant, e_no_free_proc, kernel_cs, kernel_ds,
}

-- A thread that stands ready to start: its number, its stack, its context, which starts at `ret`
-- with the trap frame on the stack, and the frame, which calls `func` of `arg` at `entry` in the
-- kernel's segments, with interrupts on. All other tasks and frames are as before.
pub record IsStarted (k k' : Kernel) (entry ret : ℕ) (task : Ptr) (func arg pid : ℕ) : Type 0 where
  pub pid_is : (k'.tasks task).pid ≡ pos pid
  pub state_is : (k'.tasks task).status.process_state ≡ dormant
  pub stack_is : ((k'.tasks task).kstack ≡ stack_end task) × ((k'.tasks task).tf ≡ frame_of task)
  pub ctxt_is : (k'.tasks task).ctxt ≡ record empty_context { eip = ret; esp = frame_of task }
  pub calls :
      ((k'.frames (frame_of task)).tf_eip ≡ entry)
      × ((k'.frames (frame_of task)).reg_ebx ≡ func)
      × ((k'.frames (frame_of task)).reg_edx ≡ arg)
  pub segments :
      ((k'.frames (frame_of task)).tf_cs ≡ kernel_cs)
      × ((k'.frames (frame_of task)).tf_ds ≡ kernel_ds)
      × ((k'.frames (frame_of task)).tf_ss ≡ kernel_ds)
  pub interrupts : bit (k'.frames (frame_of task)).tf_eflags 9 ≡ 1
  pub other_tasks : (p : Ptr) → p ≢ task → k'.tasks p ≡ k.tasks p
  pub other_frames : (p : Ptr) → p ≢ frame_of task → k'.frames p ≡ k.frames p

module _ (bd_page_off mcached all_proc_set off kernel_thread_entry_asm kthread_ret rounds pids : ℕ)
    (k : Kernel) where
  abbrev thread : ℕ → ℕ → Kernel → Option (ℕ × Kernel)
  thread =
      kernel_thread bd_page_off mcached all_proc_set off kernel_thread_entry_asm kthread_ret rounds
        pids

  -- The state once the task has its first fields.
  abbrev fresh : Ptr → Slabs → Kernel
  fresh task s = record k {
    slabs = s;
    tasks = update k.tasks task (proc_setup task (k.tasks task));
  }

  alloc_proc-run :
      (task : Ptr) (s : Slabs)
      → kmalloc bd_page_off mcached rounds kstacksize k.slabs ≡ some (task, s)
      → task ≢ null
      → alloc_proc bd_page_off mcached all_proc_set off kernel_thread_entry_asm kthread_ret rounds
          pids k
        ≡ some (task, fresh task s)
  unfolding alloc_proc
  alloc_proc-run task s run ne = rw (on_slabs, run, ne→== task null ne) refl

  alloc_proc-null :
      (s : Slabs)
      → kmalloc bd_page_off mcached rounds kstacksize k.slabs ≡ some (null, s)
      → alloc_proc bd_page_off mcached all_proc_set off kernel_thread_entry_asm kthread_ret rounds
          pids k
        ≡ some (null, record k { slabs = s })
  unfolding alloc_proc
  alloc_proc-null s run = rw (on_slabs, run) refl

  no_memory :
      (func arg : ℕ) (s : Slabs)
      → kmalloc bd_page_off mcached rounds kstacksize k.slabs ≡ some (null, s)
      → thread func arg k ≡ some (e_no_mem, record k { slabs = s })
  unfolding kernel_thread thread_with
  no_memory func arg s run = rw (kernel_thread, alloc_proc-null s run, thread_with) refl

  abbrev numbered : Ptr → Slabs → ℤ → Bitmap → Kernel
  numbered task s pid pid_map =
      let tasks = (fresh task s).tasks in
      record (fresh task s) {
        pid_map = pid_map;
        tasks = update tasks task (record (tasks task) { pid = pid });
      }

  numbered-run :
      (func arg : ℕ) (task : Ptr) (s : Slabs) (pid : ℤ) (pid_map : Bitmap)
      → kmalloc bd_page_off mcached rounds kstacksize k.slabs ≡ some (task, s)
      → task ≢ null
      → alloc_pid pids k.pid_map ≡ some (pid, pid_map)
      → thread func arg k
        ≡ (if is_neg pid
              then (on_slabs (kfree bd_page_off mcached task) >>= λ _. pure e_no_free_proc)
              else start_thread bd_page_off mcached all_proc_set off kernel_thread_entry_asm
                  kthread_ret rounds pids func arg task)
            (numbered task s pid pid_map)
  unfolding kernel_thread thread_with get_pid
  numbered-run func arg task s pid pid_map run ne numbers =
      rw
        (
          kernel_thread,
          alloc_proc-run task s run ne,
          thread_with,
          ne→== task null ne,
          get_pid,
          numbers,
        )
        refl

  abbrev launched : ℕ → ℕ → Ptr → Slabs → ℤ → Bitmap → Heap → Kernel
  launched func arg task s pid pid_map g =
      let tasks = (numbered task s pid pid_map).tasks in
      let tf = (tasks task).tf in
      let ctxt = record (tasks task).ctxt { eip = kthread_ret; esp = tf } in
      record (numbered task s pid pid_map) {
        slabs = record s { links = g };
        tasks = update tasks task (record (tasks task) { ctxt = ctxt });
        frames = update k.frames tf (
            frame_for bd_page_off mcached all_proc_set off kernel_thread_entry_asm kthread_ret
              rounds pids func arg (k.frames tf));
      }

  launched-run :
      (func arg : ℕ) (task : Ptr) (s : Slabs) (pid : ℤ) (pid_map : Bitmap) (g : Heap)
      → list_push_back all_proc_set (all_tag off task) s.links ≡ some (tt, g)
      → start_thread bd_page_off mcached all_proc_set off kernel_thread_entry_asm kthread_ret rounds
          pids func arg task
          (numbered task s pid pid_map)
        ≡ some (0, launched func arg task s pid pid_map g)
  unfolding start_thread
  launched-run func arg task s pid pid_map g push = rw (on_slabs, on_links, push) refl

  module _ (func arg : ℕ) (task : Ptr) (s : Slabs) (pid : ℕ) (pid_map : Bitmap) (g : Heap) where
    abbrev k' : Kernel
    k' = launched func arg task s (pos pid) pid_map g

    numbered-task :
        (numbered task s (pos pid) pid_map).tasks task
        ≡ record (proc_setup task (k.tasks task)) { pid = pos pid }
    numbered-task =
        update_self (fresh task s).tasks task _
        ∙ ap (λ (t : Task). record t { pid = pos pid })
            (update_self k.tasks task (proc_setup task (k.tasks task)))

    launched-task : k'.tasks task ≡ record (proc_setup task (k.tasks task)) {
      pid = pos pid;
      ctxt = record empty_context { eip = kthread_ret; esp = frame_of task };
    }
    unfolding proc_setup
    launched-task =
        update_self (numbered task s (pos pid) pid_map).tasks task _ ∙ rw (numbered-task) refl

    launched-frame :
        k'.frames (frame_of task)
        ≡ frame_for bd_page_off mcached all_proc_set off kernel_thread_entry_asm kthread_ret rounds
            pids func arg
            (k.frames (frame_of task))
    unfolding proc_setup
    launched-frame = rw (numbered-task, update_self) refl

    launched-IsStarted : IsStarted k k' kernel_thread_entry_asm kthread_ret task func arg pid
    unfolding proc_setup
    launched-IsStarted = record {
      pid_is = ap (λ (t : Task). t.pid) launched-task;
      state_is = ap (λ (t : Task). t.status.process_state) launched-task;
      stack_is = (ap (λ (t : Task). t.kstack) launched-task, ap (λ (t : Task). t.tf) launched-task);
      ctxt_is = ap (λ (t : Task). t.ctxt) launched-task;
      calls = (
        ap (λ (t : Trapframe). t.tf_eip) launched-frame,
        ap (λ (t : Trapframe). t.reg_ebx) launched-frame,
        ap (λ (t : Trapframe). t.reg_edx) launched-frame,
      );
      segments = (
        ap (λ (t : Trapframe). t.tf_cs) launched-frame,
        ap (λ (t : Trapframe). t.tf_ds) launched-frame,
        ap (λ (t : Trapframe). t.tf_ss) launched-frame,
      );
      interrupts =
          ap (λ (t : Trapframe). bit t.tf_eflags 9) launched-frame
          ∙ omega (
            arith,
            bit-bit_or (k.frames (frame_of task)).tf_eflags 0x200 9,
            bit-le (k.frames (frame_of task)).tf_eflags 9,
          );
      other_tasks = λ p ne.
          update_ne (numbered task s (pos pid) pid_map).tasks task p _ ne
          ∙ update_ne (fresh task s).tasks task p _ ne
          ∙ update_ne k.tasks task p _ ne;
      other_frames = λ p ne. rw (numbered-task) (update_ne k.frames (frame_of task) p _ ne);
    }

  -- If no number from 512 on is marked, the rounds of the search are enough, and `all_proc_set` after
  -- `kmalloc` is a well-formed list without the new task, `kernel_thread` does not fail for want of a
  -- number. Without memory it returns E_NO_MEM, and what `kmalloc` did is all that it did. Else it
  -- returns 0: the thread gets the smallest free number, 512 at most, stands ready to start with the
  -- function and its argument, and is the last in `all_proc_set`; no other task changes.
  pub kernel_thread-IsStarted :
      (func arg : ℕ) (task : Ptr) (s : Slabs) (tasks : List Ptr)
      → kmalloc bd_page_off mcached rounds kstacksize k.slabs ≡ some (task, s)
      → IsPidMap k.pid_map
      → 512 < pids
      → IsList s.links all_proc_set (map (all_tag off) tasks)
      → all_tag off task ≢ null
      → has (all_tag off task) ((all_proc_set ∷ map (all_tag off) tasks) ++ tail all_proc_set ∷ [])
        ≡ false
      → ((task ≡ null) × (thread func arg k ≡ some (e_no_mem, record k { slabs = s })))
        ⊎ ((task ≢ null)
            × (pid : ℕ) × First k.pid_map 0 513 pid
            × (k' : Kernel) × (thread func arg k ≡ some (0, k'))
            × IsStarted k k' kernel_thread_entry_asm kthread_ret task func arg pid
            × IsList k'.slabs.links all_proc_set (map (all_tag off) (tasks ++ task ∷ []))
            × IsPidMap k'.pid_map
            × (pid < 512 → bit_at k'.pid_map pid ≡ 1))
  kernel_thread-IsStarted func arg task s tasks run is enough listed tag_ne out =
      elim (ℕ-eq_cases task null) [
        | inl e ↦ inl (e, no_memory func arg s (run ∙ ap (λ (t : Ptr). some (t, s)) e))
        | inr ne ↦
            let (pid, first, pid_map, number, is', marks, same) =
              alloc_pid-smallest k.pid_map is pids enough in
            let (g, push, joined) =
              push_back-IsList s.links all_proc_set (map (all_tag off) tasks) (all_tag off task)
                listed tag_ne out in
            inr (
              ne,
              pid,
              first,
              launched func arg task s (pos pid) pid_map g,
              numbered-run func arg task s (pos pid) pid_map run ne number
                  ∙ launched-run func arg task s (pos pid) pid_map g push,
              launched-IsStarted func arg task s pid pid_map g,
              rw (map-snoc off tasks task) joined,
              is',
              λ low. marks low pid ∙ rw (==_refl pid) refl,
            )
      ]
