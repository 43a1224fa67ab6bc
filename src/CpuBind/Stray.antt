-- ===== src/CpuBind/Stray.antt =====
-- cpu_bind.c: processors of no group, which cpu_bind_claim takes and cpu_bind_free does not check for.
