-- ===== src/Devices/Pic.antt =====
-- arch/x86/pic.c: the two interrupt controllers. What is written to which port, in order.
use lbos.Base.{ℕ}
use lbos.Kernel.{Kernel, outb}

abbrev pub pic1_port_a : ℕ
pic1_port_a = 0x20

abbrev pub pic1_port_b : ℕ
pic1_port_b = 0x21

abbrev pub pic2_port_a : ℕ
pic2_port_a = 0xa0

abbrev pub pic2_port_b : ℕ
pic2_port_b = 0xa1

abbrev pub pic1_icw1 : ℕ
pic1_icw1 = 0x11

abbrev pub pic1_icw2 : ℕ
pic1_icw2 = 0x20

abbrev pub pic2_icw1 : ℕ
pic2_icw1 = pic1_icw2

abbrev pub pic2_icw2 : ℕ
pic2_icw2 = 0x28

abbrev pub pic1_icw3 : ℕ
pic1_icw3 = 0x04

abbrev pub pic2_icw3 : ℕ
pic2_icw3 = 0x02

abbrev pub pic1_icw4 : ℕ
pic1_icw4 = 0x05

abbrev pub pic2_icw4 : ℕ
pic2_icw4 = 0x01

abbrev pub pic_eoi : ℕ
pic_eoi = 0x20

unfoldable pub pic_mask : ℕ → ℕ → Kernel → Kernel
pic_mask mask1 mask2 k = outb pic2_port_b mask2 (outb pic1_port_b mask1 k)

unfoldable pub pic_init : Kernel → Kernel
unfolding pic_mask
pic_init k =
    let icw1 = outb pic2_port_a pic2_icw1 (outb pic1_port_a pic1_icw1 k) in
    let icw2 = outb pic2_port_b pic2_icw2 (outb pic1_port_b pic1_icw2 icw1) in
    let icw3 = outb pic2_port_b pic2_icw3 (outb pic1_port_b pic1_icw3 icw2) in
    let icw4 = outb pic2_port_b pic2_icw4 (outb pic1_port_b pic1_icw4 icw3) in
    pic_mask 0xec 0xff icw4

unfoldable pub pic_acknowledge : Kernel → Kernel
pic_acknowledge k = outb pic2_port_a pic_eoi (outb pic1_port_a pic_eoi k)
