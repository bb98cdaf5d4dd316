-- ===== src/Process/Rotate.antt =====
-- `schedule` takes turns.
use atlos.Base.{
  ◌+◌, ◌-◌, ◌≡◌, ◌≢◌, refl, false, some, List, [], ◌∷◌, ◌++◌, map, has, arith, if◌then◌else◌, ◌==◌,
  Bool-cases, inl, inr, ap, sym, ◌∙◌,
}
use atlos.Dlist.{Ptr, null, Heap, tail, ◌>>=◌, list_pop_front}
use atlos.Dlist.Chain.{IsList}
use atlos.Dlist.Ends.{push_back-IsList, pop_front-IsList}
use atlos.Process.{all_tag, le2task, schedule}

pub map-snoc :
    (off : Ptr) (xs : List Ptr) (x : Ptr)
    → map (all_tag off) (xs ++ x ∷ []) ≡ map (all_tag off) xs ++ all_tag off x ∷ []
map-snoc off [] x = refl
map-snoc off (y ∷ xs) x = ap (λ t. all_tag off y ∷ t) (map-snoc off xs x)

module _ (h : Heap) (off l init cur : Ptr) where
  -- The tasks that may run next, the one that has waited longest first.
  abbrev pub runnable : List Ptr → List Ptr
  runnable tasks = if cur == init then tasks else tasks ++ cur ∷ []

  then_pop :
      (g : Heap) (y : Ptr) (ys : List Ptr)
      → IsList g l (map (all_tag off) (y ∷ ys))
      → (g' : Heap) × ((list_pop_front l >>= λ e k. some (le2task off e, k)) g ≡ some (y, g'))
        × IsList g' l (map (all_tag off) ys)
  then_pop g y ys is =
      let (g', run, is') = pop_front-IsList g l (y + off) (map (all_tag off) ys) is in
      let back : y + off - off ≡ y = omega arith in (g', rw run (ap (λ t. some (t, g')) back), is')

  -- If the tasks in `all_proc_set` are well formed as a list, the running task is not among them and
  -- there is a task to run, `schedule` picks the one that has waited longest, where the running task
  -- joins at the end unless it is `init_proc`, and the others stay in their order.
  pub schedule-rotates :
      (tasks : List Ptr) (y : Ptr) (ys : List Ptr)
      → IsList h l (map (all_tag off) tasks)
      → all_tag off cur ≢ null
      → has (all_tag off cur) ((l ∷ map (all_tag off) tasks) ++ tail l ∷ []) ≡ false
      → runnable tasks ≡ y ∷ ys
      → (g : Heap) × (schedule off l init cur h ≡ some (y, g)) × IsList g l (map (all_tag off) ys)
  unfolding schedule
  schedule-rotates tasks y ys is ne out queue = elim (Bool-cases (cur == init)) [
    | inl e ↦
        let all : tasks ≡ y ∷ ys = rw e at queue in
        let (g, run, is') = then_pop h y ys (rw all at is) in (g, rw (schedule, e) run, is')
    | inr e ↦
        let all : tasks ++ cur ∷ [] ≡ y ∷ ys = rw e at queue in
        let (k, pushed, joined) =
          push_back-IsList h l (map (all_tag off) tasks) (all_tag off cur) is ne out in
        let all' : map (all_tag off) tasks ++ all_tag off cur ∷ [] ≡ map (all_tag off) (y ∷ ys) =
          sym (map-snoc off tasks cur) ∙ ap (map (all_tag off)) all in
        let (g, run, is') = then_pop k y ys (rw all' at joined) in
        (g, rw (schedule, e, pushed) run, is')
  ]
