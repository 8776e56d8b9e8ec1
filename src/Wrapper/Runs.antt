-- ===== src/Wrapper/Runs.antt =====
-- Which commands the wrapper runs, and what it returns.
use parcoach.Base.{◌↔◌, ◌≡◌, ◌≢◌, List, ◌⊎◌, false, none, some, [], ◌∷◌}
use parcoach.Static.Collectives.{Text}
use parcoach.Wrapper.{
  Args, System, FoundProgram, Run, build_original_command_line, build_emit_ir_command_line, any_of,
  is_prevent_link_flag,
}

-- Behind the original command line comes the one for the IR of the program.
pub record IsEmitted (sys : System) (found : FoundProgram) (later rest : List Args) (emit : Args)
    : Type 0 where
  pub ir_file : Text
  pub made : sys.ir_file ≡ some ir_file
  pub built : build_emit_ir_command_line found.program found.behind ir_file ≡ some emit
  pub second : later ≡ emit ∷ rest

-- The IR has been emitted, and parcoach runs behind it unless the file for its output is missing.
abbrev pub Analyses : System → FoundProgram → List Args → Type 0
Analyses sys found later =
    (emit : Args) × (rest : List Args) × IsEmitted sys found later rest emit
    × (sys.execute 1 emit ≡ 0)
    × ((sys.output_file ≡ none)
        ⊎ ((parcoach : Args) × (more : List Args) × (rest ≡ parcoach ∷ more)))

-- The original command line has been run first, and alone if it fails or links, or if there is no
-- file for the IR. What the wrapper returns is its result, with nothing else run or with the analysis
-- behind it, or that of the command for the IR if this has failed, and was the last one.
pub record IsTransparent (sys : System) (found : FoundProgram) (r : Run) : Type 0 where
  pub later : List Args
  pub first : r.commands ≡ build_original_command_line found ∷ later
  pub returns :
      ((r.exit_code ≡ sys.execute 0 (build_original_command_line found))
        × ((later ≡ []) ⊎ Analyses sys found later))
      ⊎ ((emit : Args) × IsEmitted sys found later [] emit
          × (sys.execute 1 emit ≢ 0)
          × (r.exit_code ≡ sys.execute 1 emit))
  pub alone : (later ≡ []) ↔ (
      (sys.execute 0 (build_original_command_line found) ≢ 0)
      ⊎ (any_of is_prevent_link_flag (build_original_command_line found) ≡ false)
      ⊎ (sys.ir_file ≡ none))

module _ (sys : System) (argv : Args) (bin : Text) (found : FoundProgram) where
  abbrev original : Args
  original = found.program ∷ found.behind

  stopped : Run
  stopped = record { exit_code = sys.execute 0 original; commands = original ∷ [] }
