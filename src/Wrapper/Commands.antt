-- ===== src/Wrapper/Commands.antt =====
-- The command line that emits the IR, where the original one names one output file or none.
use parcoach.Base.{
  ◌≡◌, inl, inr, refl, sym, ap, ◌∙◌, Bool-cases, Option-cases, true, false, Option, none, some, [],
  ◌∷◌, ◌++◌, All, arith, if◌then◌else◌,
}
use parcoach.Static.Collectives.{Text, text_eq}
use parcoach.Wrapper.{
  Args, output_flag, emit_ir_args, is_prevent_link_flag, keep_args, build_emit_ir_command_line,
}

-- The arguments that are no flag for the kind of the output.
abbrev pub compile_args : Args → Args
compile_args [] = []
compile_args (a ∷ args) =
    let rest = compile_args args in if is_prevent_link_flag a then rest else a ∷ rest

abbrev pub HasNoOutput : Args → Type 0
HasNoOutput args = All (λ a. text_eq a output_flag ≡ false) args

cons_kept : Text → Option Args → Option Args
cons_kept a none = none
cons_kept a (some kept) = some (a ∷ kept)

keep_args-flag :
    (a : Text) (args : Args) → is_prevent_link_flag a ≡ true → keep_args (a ∷ args) ≡ keep_args args
unfolding keep_args
keep_args-flag a [] e = ground arith
keep_args-flag a (b ∷ args) e = ground arith

keep_args-plain :
    (a : Text) (args : Args)
    → is_prevent_link_flag a ≡ false
    → text_eq a output_flag ≡ false
    → keep_args (a ∷ args) ≡ cons_kept a (keep_args args)
unfolding keep_args cons_kept
keep_args-plain a [] e f = ground arith
keep_args-plain a (b ∷ args) e f = elim (Option-cases (keep_args (b ∷ args))) [
  | inl stuck ↦ ground arith
  | inr (kept, done) ↦ ground arith
]

keep_args-append :
    (pre args : Args)
    → HasNoOutput pre
    → ((kept : Args)
        → keep_args args ≡ some kept
        → keep_args (pre ++ args) ≡ some (compile_args pre ++ kept))
      × (keep_args args ≡ none → keep_args (pre ++ args) ≡ none)
unfolding cons_kept
keep_args-append [] args h = (λ kept e. e, λ e. e)
keep_args-append (a ∷ pre) args (h, hs) = elim (Bool-cases (is_prevent_link_flag a)) [
  | inl flag ↦ (
    λ kept e.
        keep_args-flag a (pre ++ args) flag
        ∙ (keep_args-append pre args hs).0 kept e
        ∙ rw flag refl,
    λ e. keep_args-flag a (pre ++ args) flag ∙ (keep_args-append pre args hs).1 e,
  )
  | inr plain ↦ (
    λ kept e.
        keep_args-plain a (pre ++ args) plain h
        ∙ ap (cons_kept a) ((keep_args-append pre args hs).0 kept e)
        ∙ rw plain refl,
    λ e.
        keep_args-plain a (pre ++ args) plain h
        ∙ ap (cons_kept a) ((keep_args-append pre args hs).1 e),
  )
]

append_nil : (args : Args) → args ++ [] ≡ args
append_nil [] = refl
append_nil (a ∷ args) = ap (◌∷◌ a) (append_nil args)

keep_args-plain_all : (args : Args) → HasNoOutput args → keep_args args ≡ some (compile_args args)
keep_args-plain_all args h =
    ap keep_args (sym (append_nil args))
    ∙ (keep_args-append args [] h).0 [] (unfold keep_args in refl)
    ∙ ap some (append_nil (compile_args args))

keep_args-output :
    (out : Text) (args : Args) → keep_args (output_flag ∷ out ∷ args) ≡ keep_args args
unfolding keep_args is_prevent_link_flag text_eq
keep_args-output out args = refl

keep_args-stuck : keep_args (output_flag ∷ []) ≡ none
unfolding keep_args is_prevent_link_flag text_eq
keep_args-stuck = refl

-- The command line that emits the IR is the original one with its output file and the flags "-c", "-S"
-- and "-E" left out, wherever the output file stands, followed by the flags that ask for IR and by the
-- IR file; without an output file nothing but the flags is left out.
pub build_emit_ir_command_line_lem :
    (program : Text) (pre post : Args) (out ir_file : Text)
    → HasNoOutput pre
    → HasNoOutput post
    → (build_emit_ir_command_line program (pre ++ output_flag ∷ out ∷ post) ir_file
        ≡ some (program ∷ (compile_args pre ++ compile_args post) ++ emit_ir_args ++ ir_file ∷ []))
      × (build_emit_ir_command_line program pre ir_file
          ≡ some (program ∷ compile_args pre ++ emit_ir_args ++ ir_file ∷ []))
unfolding build_emit_ir_command_line
build_emit_ir_command_line_lem program pre post out ir_file h h' = (
  built (pre ++ output_flag ∷ out ∷ post) (compile_args pre ++ compile_args post) (
      (keep_args-append pre (output_flag ∷ out ∷ post) h).0 (compile_args post)
        (keep_args-output out post ∙ keep_args-plain_all post h')),
  built pre (compile_args pre) (keep_args-plain_all pre h),
)
  where
    built :
        (args kept : Args)
        → keep_args args ≡ some kept
        → build_emit_ir_command_line program args ir_file
          ≡ some (program ∷ kept ++ emit_ir_args ++ ir_file ∷ [])
    built args kept e = ground arith

-- If "-o" is the last argument and the only "-o", the loop that copies the command line goes past its
-- end.
pub build_emit_ir_command_line_past_end :
    (program : Text) (pre : Args) (ir_file : Text)
    → HasNoOutput pre
    → build_emit_ir_command_line program (pre ++ output_flag ∷ []) ir_file ≡ none
unfolding build_emit_ir_command_line
build_emit_ir_command_line_past_end program pre ir_file h =
    let e = (keep_args-append pre (output_flag ∷ []) h).1 keep_args-stuck in ground arith
