-- ===== src/Rma/Tests/Fortran.antt =====
-- The one-sided calls of Fortran at concrete inputs.
use parcoach.Base.{ℕ, ◌≡◌, ◌+◌, [], arith}
use parcoach.Rma.Interval.{DebugInfo, access_of_memory, rma_read}
use parcoach.Rma.Interval.Bytes.{Covers}
use parcoach.Rma.Calls.{Buffer, put, get, accumulate}
use parcoach.Rma.Fortran.{fort_put, fort_get, fort_accumulate, fort_origin}
use parcoach.Rma.Fortran.Sizes.{fort_put-put, fort_origin-large}

abbrev dbg : DebugInfo
dbg = record { line = 3; filename = "main.f90" }

abbrev reals : Buffer
reals = record { at = 64; count = 4; type_size = 8 }

abbrev huge : Buffer
huge = record { at = 5000000000; count = 300000000; type_size = 8 }

abbrev handle : ℕ → ℕ
handle w = w + 40

fort_put-put_example :
    (fort_put handle handle reals reals dbg 1 5 [] ≡ put reals reals dbg 1 45 [])
    × (fort_get handle handle reals reals dbg 1 5 [] ≡ get reals reals dbg 1 45 [])
    × (fort_accumulate handle handle reals reals dbg 1 5 [] ≡ accumulate reals reals dbg 1 45 [])
fort_put-put_example =
    fort_put-put handle handle reals reals dbg 1 5 [] (record { bytes = omega arith })
      (record { bytes = omega arith }) (omega arith)

fort_origin-large_example :
    ¬ Covers (access_of_memory (fort_origin huge) rma_read dbg).itv 5000000000
fort_origin-large_example =
    fort_origin-large huge rma_read dbg 5000000000 (omega arith) (omega arith) (omega arith)
      (omega arith)
