-- ===== src/Device/Serial.antt =====
-- The serial port: mayfly_emu/device/serial.c. Its two pipes are the model's inputs and outputs: the
-- byte that `read` finds in the one, if any, and the byte given to `write` for the other.
use mayfly_emu.Prelude.{ℕ, ◌+◌, ◌-◌, ◌%◌, ◌^◌, bit_and, bit_or, not, ◌&&◌}
use mayfly_emu.Prelude.{ltb, ◌==◌, if◌then◌else◌, Option, none, some}
use mayfly_emu.Word.{field, set_field}

pub record Serial : Type 0 where
  pub rx_fifo : ℕ
  pub tx_fifo : ℕ
  pub stat_reg : ℕ

-- The bits of `stat_reg`.
abbrev pub stat : ℕ → Serial → ℕ
stat lo s = field lo 1 s.stat_reg

abbrev pub set_stat : ℕ → ℕ → Serial → Serial
set_stat lo v s = record s { stat_reg = set_field lo 1 v s.stat_reg }

abbrev pub rx_fifo_valid : ℕ
rx_fifo_valid = 0

abbrev pub rx_fifo_full : ℕ
rx_fifo_full = 1

abbrev pub tx_fifo_empty : ℕ
tx_fifo_empty = 2

abbrev pub tx_fifo_full : ℕ
tx_fifo_full = 3

abbrev pub intr_enable : ℕ
intr_enable = 4

unfoldable pub serail_read : ℕ → Serial → ℕ × Serial
serail_read offset s =
    if offset == 0x0
    then (s.rx_fifo, set_stat rx_fifo_valid 0 (set_stat rx_fifo_full 0 s))
    else if offset == 0x8
    then (s.stat_reg, s)
    else (0, s)

-- What the control register does: bits 0 and 1 clear the buffers, bit 4 enables the interrupt.
abbrev pub write_ctrl : ℕ → Serial → Serial
write_ctrl wdata s0 =
    let s1 = if bit_and wdata 0x01 == 0 then s0 else record s0 { tx_fifo = 0 } in
    let s2 = if bit_and wdata 0x02 == 0 then s1 else record s1 { rx_fifo = 0 } in
    set_stat intr_enable (if bit_and wdata 0x10 == 0 then 0 else 1) s2

unfoldable pub serail_write : ℕ → ℕ → Serial → Serial
serail_write offset wdata s =
    if offset == 0x4
    then set_stat tx_fifo_full 0 (set_stat tx_fifo_empty 0 (record s { tx_fifo = wdata % 2 ^ 32 }))
    else if offset == 0xc
    then write_ctrl wdata s
    else s

-- `rx_fifo.val = r_temp[0]`: the `char` is signed where the emulator is built.
abbrev pub of_char : ℕ → ℕ
of_char b = if ltb b 128 then b else b + (2 ^ 32 - 256)

pub record Update : Type 0 where
  pub serial : Serial
  pub exteranl_irq : ℕ
  pub sent : Option ℕ

-- The transmitting half, with `exteranl_irq2`.
unfoldable pub transmit : Serial → Update
transmit s =
    if stat tx_fifo_empty s == 0
    then record {
      serial = set_stat tx_fifo_full 0 (set_stat tx_fifo_empty 1 s);
      exteranl_irq = 0x2;
      sent = some (s.tx_fifo % 256);
    }
    else record { serial = s; exteranl_irq = 0x0; sent = none }

-- The receiving half: a byte other than 0 fills the buffer if it is free. A byte that is 0 is
-- taken from the pipe and dropped.
unfoldable pub receive : Option ℕ → Serial → Serial
receive none s = s
receive (some b) s =
    if stat rx_fifo_valid s == 0 && not (b == 0)
    then (let s' = set_stat rx_fifo_valid 1 (set_stat rx_fifo_full 0 s) in
        record s' { rx_fifo = of_char b })
    else s

unfoldable pub serail_update : Option ℕ → Serial → Update
unfolding transmit receive
serail_update input s0 =
    let u = transmit s0 in
    let s = receive input u.serial in
    let irq = if bit_and (stat intr_enable s) (stat rx_fifo_valid s) == 0 then 0x0 else 0x2 in
    record u { serial = s; exteranl_irq = bit_or irq u.exteranl_irq }
