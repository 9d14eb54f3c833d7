-- ===== src/Runtime/Tests.antt =====
-- Signed divisions by runtime/divsi3.c.
use linux_0_11_symcc_on_turi.Base.{ℕ, ◌-◌, ◌^◌, ◌≡◌, inl, arith}
use linux_0_11_symcc_on_turi.Base.Int.{negsuc}
use linux_0_11_symcc_on_turi.Runtime.Divide.{divsi3, modsi3, signed, divsi3_lem, modsi3_lem}

-- -7 as a pattern.
abbrev minus_7 : ℕ
minus_7 = 2 ^ 32 - 7

divsi3_lem_example : signed (divsi3 minus_7 2) ≡ negsuc 2
divsi3_lem_example =
    divsi3_lem minus_7 2 (omega arith) (omega arith) (omega arith) (inl (omega arith))

modsi3_lem_example : signed (modsi3 minus_7 2) ≡ negsuc 0
modsi3_lem_example = modsi3_lem minus_7 2 (omega arith) (omega arith) (omega arith)
