-- ===== src/Pic/Tests.antt =====
-- Runs of the interrupt controllers: the timer, before and after `pic_init`.
use atlos.Base.{◌%◌, ◌/◌, ◌^◌, ◌≡◌, false, some, [], arith, bit}
use atlos.Pic.{Pic}
use atlos.Pic.Mask.{last_write, enable_first, init_first, enable-either_order}

-- The mask that the kernel starts with.
abbrev start : Pic
start = record { irq_mask = 0xfffb; did_init = false }

enable-either_order_example :
    (bit (enable_first 0 start []).0.irq_mask 0 ≡ 0)
    × (last_write 0x21 (enable_first 0 start []).1
        ≡ some ((enable_first 0 start []).0.irq_mask % 2 ^ 8))
    × (last_write 0xa1 (enable_first 0 start []).1
        ≡ some ((enable_first 0 start []).0.irq_mask / 2 ^ 8))
    × ((init_first 0 start []).0.irq_mask ≡ (enable_first 0 start []).0.irq_mask)
    × (last_write 0x21 (init_first 0 start []).1 ≡ last_write 0x21 (enable_first 0 start []).1)
    × (last_write 0xa1 (init_first 0 start []).1 ≡ last_write 0xa1 (enable_first 0 start []).1)
enable-either_order_example = enable-either_order 0 start [] 0 (omega arith) (omega arith)
