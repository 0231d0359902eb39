-- ===== src/Cpu/Ex.antt =====
-- The exception numbers of mayfly_emu/cpu/mayfly_isa.h that the code raises or tests.
use mayfly_emu.Prelude.{ℕ}

abbrev pub iaf : ℕ
iaf = 1

abbrev pub ii : ℕ
ii = 2

abbrev pub lam : ℕ
lam = 4

abbrev pub laf : ℕ
laf = 5

abbrev pub sam : ℕ
sam = 6

abbrev pub saf : ℕ
saf = 7

abbrev pub ecu : ℕ
ecu = 8

abbrev pub ecs : ℕ
ecs = 9

abbrev pub ecm : ℕ
ecm = 11

abbrev pub ipf : ℕ
ipf = 12

abbrev pub lpf : ℕ
lpf = 13

abbrev pub spf : ℕ
spf = 15
