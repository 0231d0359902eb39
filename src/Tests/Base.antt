-- ===== src/Tests/Base.antt =====
-- A concrete hart and machine, as `restart` of mayfly_emu/main.c leaves them over cleared memory.
use mayfly_emu.Prelude.{◌-◌, ◌^◌, false, []}
use mayfly_emu.Cpu.{Cpu, restart}
use mayfly_emu.Machine.{Machine, running}

-- Zeroes before the reset.
abbrev pub cleared : Cpu
cleared = record {
  gpr = λ _. 0;
  pc = 0;
  pre_pc = 0;
  mode = 0;
  csr = λ _. 0;
  m_s_tval = 0;
  m_s_cause = 0;
  amo = false;
  is_irq = false;
  is_except = false;
  is_mmio = false;
  is_diff_skip = false;
}

abbrev pub hart : Cpu
hart = restart cleared

-- The same hart in U.
abbrev pub user_hart : Cpu
user_hart = record hart { mode = 0 }

abbrev pub machine : Machine
machine = record {
  cpu = hart;
  emu = record { state = running; halt_pc = 0; halt_ret = 0 };
  pmem = λ _. 0;
  flash_mem = λ _. 0;
  aclint = record { mtimecmp = 2 ^ 64 - 1; mtime = 0; time_count = 0 };
  plic = record {
    source_priority = λ _. 1;
    source_pending = 0;
    target_enables = 0;
    target_threshold = 0;
    target_claim = 0;
  };
  serial = record { rx_fifo = 0; tx_fifo = 0; stat_reg = 4 };
  exteranl_irq = 0;
  sent = [];
  reserve_addr = 0;
  reserve_flag = 0;
  iringbuf_pc = λ _. 0;
  iringbuf_inst = λ _. 0;
  iringbuf_counter = 0;
}
