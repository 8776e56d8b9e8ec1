-- ===== src/Rma/Fortran/Sizes.antt =====
-- The one-sided calls of Fortran beside those of C: the sizes of the accesses that they record.
use parcoach.Base.{◌%◌, ◌-◌, ℕ, ◌+◌, ◌*◌, ◌≤◌, ◌<◌, ◌^◌, ◌≡◌, ap, ◌∙◌, arith}
use parcoach.Rma.Interval.{AccessType, DebugInfo, access_of_memory, rma_read, rma_write, u64_mod}
use parcoach.Rma.Interval.Bytes.{Covers}
use parcoach.Rma.Windows.{States, update_on_comm_send}
use parcoach.Rma.Calls.{Buffer, memory_of, put, get, accumulate}
use parcoach.Rma.Fortran.{
  fort_put, fort_get, fort_accumulate, fort_origin, fort_target, sign_extend, int_mod,
}

pub record IsSmall (b : Buffer) : Type 0 where
  pub bytes : b.type_size * b.count < 2 ^ 31

small_origin : (b : Buffer) → IsSmall b → fort_origin b ≡ memory_of b
unfolding fort_origin sign_extend
small_origin b small = ap (λ n. record { addr = b.at; size = n }) (ground (arith, small.bytes))

small_target : (b : Buffer) → IsSmall b → b.at < 2 ^ 31 → fort_target b ≡ memory_of b
unfolding fort_target sign_extend
small_target b small at =
    let bytes = small.bytes in
    let as_is : sign_extend b.at ≡ b.at = ground arith in
    let size : sign_extend (b.type_size * b.count % int_mod) ≡ b.type_size * b.count % u64_mod =
      ground arith in
    ap (λ n. record { addr = n; size = sign_extend (b.type_size * b.count % int_mod) }) as_is
    ∙ ap (λ n. record { addr = b.at; size = n }) size

module _ (win_f2c comm_f2c : ℕ → ℕ) where
  -- Where both transfers are shorter than 2 ^ 31 bytes and the displacement is not negative, the
  -- one-sided calls of Fortran do what those of C do on the converted handle.
  pub fort_put-put :
      (origin target : Buffer) (dbg : DebugInfo) (rank win : ℕ) (states : States)
      → IsSmall origin
      → IsSmall target
      → target.at < 2 ^ 31
      → (fort_put win_f2c comm_f2c origin target dbg rank win states
          ≡ put origin target dbg rank (win_f2c win) states)
        × (fort_get win_f2c comm_f2c origin target dbg rank win states
            ≡ get origin target dbg rank (win_f2c win) states)
        × (fort_accumulate win_f2c comm_f2c origin target dbg rank win states
            ≡ accumulate origin target dbg rank (win_f2c win) states)
  unfolding fort_put fort_get fort_accumulate put get accumulate
  fort_put-put origin target dbg rank win states so st at =
      (same rma_read rma_write, same rma_write rma_read, same rma_read rma_write)
    where
      same :
          (t u : AccessType)
          → update_on_comm_send
              (access_of_memory (fort_origin origin) t dbg)
              (access_of_memory (fort_target target) u dbg)
              rank
              (win_f2c win)
              states
            ≡ update_on_comm_send
                (access_of_memory (memory_of origin) t dbg)
                (access_of_memory (memory_of target) u dbg)
                rank
                (win_f2c win)
                states
      same t u =
          ap
            (λ m.
              update_on_comm_send (access_of_memory m t dbg)
                (access_of_memory (fort_target target) u dbg) rank (win_f2c win) states)
            (small_origin origin so)
          ∙ ap
              (λ m.
                update_on_comm_send (access_of_memory (memory_of origin) t dbg)
                  (access_of_memory m u dbg) rank (win_f2c win) states)
              (small_target target st at)

-- The access that Fortran records for the buffer of a transfer of 2 ^ 31 up to 2 ^ 32 bytes, at an
-- address of 2 ^ 32 or more, covers no address at all.
pub fort_origin-large :
    (b : Buffer) (t : AccessType) (dbg : DebugInfo) (x : ℕ)
    → 2 ^ 31 ≤ b.type_size * b.count
    → b.type_size * b.count < int_mod
    → int_mod ≤ b.at
    → b.at < u64_mod
    → ¬ Covers (access_of_memory (fort_origin b) t dbg).itv x
unfolding fort_origin sign_extend access_of_memory
fort_origin-large b t dbg x lo hi above word c =
    let size : sign_extend (b.type_size * b.count % int_mod)
        ≡ b.type_size * b.count + (u64_mod - int_mod) =
      ground arith in
    ground arith
