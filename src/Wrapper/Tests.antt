-- ===== src/Wrapper/Tests.antt =====
-- The wrapper at concrete inputs.
use parcoach.Base.{some, [], ◌∷◌, ◌++◌}
use parcoach.Static.Collectives.{Text}
use parcoach.Wrapper.{System, FoundProgram, Run, emit_ir_args}

-- "cc", "-c", "a", "b", "p" and "t"
abbrev cc_name : Text
cc_name = 99 ∷ 99 ∷ []

abbrev compile_flag : Text
compile_flag = 45 ∷ 99 ∷ []

abbrev source : Text
source = 97 ∷ []

abbrev object : Text
object = 98 ∷ []

abbrev parcoach_name : Text
parcoach_name = 112 ∷ []

abbrev temp : Text
temp = 116 ∷ []

abbrev system : System
system = record {
  parcoach_bin = some parcoach_name;
  program_by_name = λ name. some name;
  ir_file = some temp;
  output_file = some temp;
  execute = λ n command. 0;
}

abbrev found : FoundProgram
found = record { program = cc_name; behind = compile_flag ∷ source ∷ [] }

-- The original command, the one for the IR, and parcoach.
abbrev run : Run
run = record {
  exit_code = 0;
  commands =
      (cc_name ∷ compile_flag ∷ source ∷ [])
      ∷ (cc_name ∷ source ∷ emit_ir_args ++ temp ∷ [])
      ∷ (parcoach_name ∷ temp ∷ [])
      ∷ [];
}
