-- ===== src/Process/Tests.antt =====
-- Two tasks wait, at 1200 and 1300, with their tags 100 bytes behind; a third one runs.
use atlos.Base.{◌≡◌, refl, some, [], ◌∷◌, map, arith, if◌then◌else◌, ◌==◌}
use atlos.Dlist.{Heap}
use atlos.Dlist.Chain.{IsList}
use atlos.Process.{all_tag, schedule}
use atlos.Process.Rotate.{schedule-rotates}

abbrev heap : Heap
heap = record {
  next = λ p. if p == 100 then 1300 else if p == 1300 then 1400 else if p == 1400 then 108 else 0;
  prev = λ p. if p == 1300 then 100 else if p == 1400 then 1300 else if p == 108 then 1400 else 0;
  len = λ p. if p == 100 then 2 else 0;
}

waiting-IsList : IsList heap 100 (map (all_tag 100) (1200 ∷ 1300 ∷ []))
waiting-IsList = record {
  chain = (refl, refl, (refl, refl, (refl, refl, refl)));
  distinct = (refl, (refl, (refl, (refl, tt))));
  non_null = refl;
  count = refl;
  small = omega arith;
}

schedule-rotates_example :
    (g : Heap) × (schedule 100 100 5000 2000 heap ≡ some (1200, g))
    × IsList g 100 (map (all_tag 100) (1300 ∷ 2000 ∷ []))
schedule-rotates_example =
    schedule-rotates heap 100 100 5000 2000 (1200 ∷ 1300 ∷ []) 1200 (1300 ∷ 2000 ∷ [])
      waiting-IsList (ground arith) refl refl
