-- ===== src/Wrapper.antt =====
-- src/tools/wrapper/CommandLineUtils.cpp and Wrapper.cpp: the compiler wrapper. It runs a compiler's
-- command line as it is, has the same compiler emit LLVM IR, and runs parcoach on that. What the
-- system does (looking for programs, making files, running commands) is an argument. An int is a
-- number, of which the code asks only whether it is 0.
pub mod Commands
pub mod Runs
mod Tests
use parcoach.Base.{
  ℕ, Bool, true, false, not, Option, none, some, List, [], ◌∷◌, ◌++◌, ◌||◌, ◌&&◌, ◌==◌,
  if◌then◌else◌, reverse, map,
}
use parcoach.Static.Collectives.{Text, text_eq, starts_with}

-- ArgList
abbrev pub Args : Type 0
Args = List Text

-- ARGS_ARG, "--args"
abbrev pub args_arg : Text
args_arg = 45 ∷ 45 ∷ 97 ∷ 114 ∷ 103 ∷ 115 ∷ []

-- "-o"
abbrev pub output_flag : Text
output_flag = 45 ∷ 111 ∷ []

-- EmitIRArgs: "-g", "-S", "-emit-llvm", "-o"
abbrev pub emit_ir_args : Args
emit_ir_args =
    (45 ∷ 103 ∷ [])
    ∷ (45 ∷ 83 ∷ [])
    ∷ (45 ∷ 101 ∷ 109 ∷ 105 ∷ 116 ∷ 45 ∷ 108 ∷ 108 ∷ 118 ∷ 109 ∷ [])
    ∷ output_flag
    ∷ []

-- "-c", "-S" or "-E"
unfoldable pub is_prevent_link_flag : Text → Bool
unfolding text_eq
is_prevent_link_flag arg =
    text_eq arg (45 ∷ 99 ∷ []) || (text_eq arg (45 ∷ 83 ∷ []) || text_eq arg (45 ∷ 69 ∷ []))

-- The arguments before and behind the first "--args".
unfoldable pub split_args : Args → Option (Args × Args)
unfolding text_eq
split_args [] = none
split_args (a ∷ argv) =
    if text_eq a args_arg
    then some ([], argv)
    else elim (split_args argv) [ none ↦ none | some (before, behind) ↦ some (a ∷ before, behind) ]

unfoldable pub build_parcoach_args : Args → Text → Text → Option Text → Args
unfolding split_args
build_parcoach_args argv parcoach_bin ir_file output_file =
    let before : Args = elim (split_args argv) [ none ↦ [] | some (before, behind) ↦ before ] in
    let output : Args = elim output_file [ none ↦ [] | some file ↦ output_flag ∷ file ∷ [] ] in
    parcoach_bin ∷ before ++ ir_file ∷ output

-- FoundProgramResult: the program, and the arguments behind its position.
pub record FoundProgram : Type 0 where
  pub program : Text
  pub behind : Args

-- What the system answers. `execute` is given how many commands have run before.
pub record System : Type 0 where
  pub parcoach_bin : Option Text
  pub program_by_name : Text → Option Text
  pub ir_file : Option Text
  pub output_file : Option Text
  pub execute : ℕ → Args → ℕ

unfoldable pub find_program : System → Args → Option FoundProgram
unfolding split_args
find_program sys argv =
    let from : Args = elim (split_args argv) [ none ↦ argv | some (before, behind) ↦ behind ] in
    elim from [
      | [] ↦ none
      | name ∷ behind ↦ elim (sys.program_by_name name) [
        | none ↦ none
        | some program ↦ some (record { program = program; behind = behind })
      ]
    ]

unfoldable pub build_original_command_line : FoundProgram → Args
build_original_command_line found = found.program ∷ found.behind

-- The loop of BuildEmitIRCommandLine. Where "-o" comes last it goes past the end: none.
unfoldable pub keep_args : Args → Option Args
unfolding is_prevent_link_flag text_eq
keep_args [] = some []
keep_args (a ∷ []) = elim (is_prevent_link_flag a) [
  | true ↦ some []
  | false ↦ elim (text_eq a output_flag) [ true ↦ none | false ↦ some (a ∷ []) ]
]
keep_args (a ∷ b ∷ args) = elim (is_prevent_link_flag a) [
  | true ↦ keep_args (b ∷ args)
  | false ↦ elim (text_eq a output_flag) [
    | true ↦ keep_args args
    | false ↦ elim (keep_args (b ∷ args)) [ none ↦ none | some kept ↦ some (a ∷ kept) ]
  ]
]

unfoldable pub build_emit_ir_command_line : Text → Args → Text → Option Args
unfolding keep_args
build_emit_ir_command_line program args ir_file = elim (keep_args args) [
  | none ↦ none
  | some kept ↦ some (program ∷ kept ++ emit_ir_args ++ ir_file ∷ [])
]

-- std::string::endswith
abbrev ends_with : Text → Text → Bool
ends_with suffix arg = starts_with (reverse suffix) (reverse arg)

-- isSourceFile: ".c", ".cpp", ".f90"
unfoldable pub is_source_file : Text → Bool
unfolding starts_with
is_source_file arg =
    ends_with (46 ∷ 99 ∷ []) arg
    || (ends_with (46 ∷ 99 ∷ 112 ∷ 112 ∷ []) arg || ends_with (46 ∷ 102 ∷ 57 ∷ 48 ∷ []) arg)

unfoldable pub any_of : (Text → Bool) → Args → Bool
any_of test [] = false
any_of test (a ∷ args) = test a || any_of test args

-- "-check=rma" or "-instrum-inter"
abbrev pub is_instrument_flag : Text → Bool
is_instrument_flag arg =
    text_eq arg (45 ∷ 99 ∷ 104 ∷ 101 ∷ 99 ∷ 107 ∷ 61 ∷ 114 ∷ 109 ∷ 97 ∷ [])
    || text_eq arg
        (45 ∷ 105 ∷ 110 ∷ 115 ∷ 116 ∷ 114 ∷ 117 ∷ 109 ∷ 45 ∷ 105 ∷ 110 ∷ 116 ∷ 101 ∷ 114 ∷ [])

-- What main returns, and the commands that it has run, in order.
pub record Run : Type 0 where
  pub exit_code : ℕ
  pub commands : List Args

-- The end of main, once the IR is there.
unfoldable pub run_parcoach : System → Args → Text → Text → FoundProgram → Args → ℕ → Args → Run
unfolding any_of build_parcoach_args build_original_command_line is_source_file text_eq
run_parcoach sys argv bin ir_file found original result emit =
    let parcoach = build_parcoach_args argv bin ir_file in
    if any_of is_instrument_flag argv
    then elim sys.output_file [
      | none ↦ record { exit_code = result; commands = original ∷ emit ∷ [] }
      | some output ↦
          let instrumented =
            map (λ a. if is_source_file a then output else a) (build_original_command_line found) in
          record {
            exit_code = result;
            commands = original ∷ emit ∷ parcoach (some output) ∷ instrumented ∷ [];
          }
    ]
    else record { exit_code = result; commands = original ∷ emit ∷ parcoach none ∷ [] }

-- main, from the command that was found on. none: BuildEmitIRCommandLine goes past the end.
unfoldable pub run_found : System → Args → Text → FoundProgram → Option Run
unfolding build_original_command_line any_of is_prevent_link_flag build_emit_ir_command_line
    run_parcoach
run_found sys argv bin found =
    let original = build_original_command_line found in
    let result = sys.execute 0 original in
    let stopped = some (record { exit_code = result; commands = original ∷ [] }) in
    if not (result == 0) || not (any_of is_prevent_link_flag original)
    then stopped
    else elim sys.ir_file [
      | none ↦ stopped
      | some ir_file ↦ elim (build_emit_ir_command_line found.program found.behind ir_file) [
        | none ↦ none
        | some emit ↦
            let emitted = sys.execute 1 emit in
            if not (emitted == 0)
            then some (record { exit_code = emitted; commands = original ∷ emit ∷ [] })
            else some (run_parcoach sys argv bin ir_file found original result emit)
      ]
    ]

-- main
unfoldable pub run_main : System → Args → Option Run
unfolding find_program run_found
run_main sys [] = some (record { exit_code = 1; commands = [] })
run_main sys (a ∷ argv) = elim sys.parcoach_bin [
  | none ↦ some (record { exit_code = 1; commands = [] })
  | some bin ↦ elim (find_program sys (a ∷ argv)) [
    | none ↦ some (record { exit_code = 1; commands = [] })
    | some found ↦ run_found sys (a ∷ argv) bin found
  ]
]
