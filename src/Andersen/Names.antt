-- ===== src/Andersen/Names.antt =====
-- src/aSSA/andersen/ExternalLibrary.cpp: the tables of the names of known functions, and the search
-- in them.
use text.Mathlib.Text.{◌==◌ as str_eq}
use Prim.Native.String.{String}
use parcoach.Base.{Bool, false, List, [], ◌∷◌, ◌||◌}

-- noopFuncs
abbrev pub noop_funcs : List String
noop_funcs =
    "log" ∷ "log10" ∷ "exp" ∷ "exp2" ∷ "exp10" ∷ "strcmp" ∷ "strncmp" ∷ "strlen" ∷ "atoi" ∷ "atof"
    ∷ "atol" ∷ "atoll" ∷ "remove" ∷ "unlink" ∷ "rename" ∷ "memcmp" ∷ "free" ∷ "execl" ∷ "execlp"
    ∷ "execle" ∷ "execv" ∷ "execvp" ∷ "chmod" ∷ "puts" ∷ "write" ∷ "open" ∷ "create" ∷ "truncate"
    ∷ "chdir" ∷ "mkdir" ∷ "rmdir" ∷ "read" ∷ "pipe" ∷ "wait" ∷ "time" ∷ "stat" ∷ "fstat" ∷ "lstat"
    ∷ "strtod" ∷ "strtof" ∷ "strtold" ∷ "fopen" ∷ "fdopen" ∷ "fflush" ∷ "feof" ∷ "fileno"
    ∷ "clearerr" ∷ "rewind" ∷ "ftell" ∷ "ferror" ∷ "fgetc" ∷ "fgetc" ∷ "_IO_getc" ∷ "fwrite"
    ∷ "fread" ∷ "fgets" ∷ "ungetc" ∷ "fputc" ∷ "fputs" ∷ "putc" ∷ "ftell" ∷ "rewind" ∷ "_IO_putc"
    ∷ "fseek" ∷ "fgetpos" ∷ "fsetpos" ∷ "printf" ∷ "fprintf" ∷ "sprintf" ∷ "vprintf" ∷ "vfprintf"
    ∷ "vsprintf" ∷ "scanf" ∷ "fscanf" ∷ "sscanf" ∷ "__assert_fail" ∷ "modf" ∷ "putchar" ∷ "isalnum"
    ∷ "isalpha" ∷ "isascii" ∷ "isatty" ∷ "isblank" ∷ "iscntrl" ∷ "isdigit" ∷ "isgraph" ∷ "islower"
    ∷ "isprint" ∷ "ispunct" ∷ "isspace" ∷ "isupper" ∷ "iswalnum" ∷ "iswalpha" ∷ "iswctype"
    ∷ "iswdigit" ∷ "iswlower" ∷ "iswspace" ∷ "iswprint" ∷ "iswupper" ∷ "sin" ∷ "cos" ∷ "sinf"
    ∷ "cosf" ∷ "asin" ∷ "acos" ∷ "tan" ∷ "atan" ∷ "fabs" ∷ "pow" ∷ "floor" ∷ "ceil" ∷ "sqrt"
    ∷ "sqrtf" ∷ "hypot" ∷ "random" ∷ "tolower" ∷ "toupper" ∷ "towlower" ∷ "towupper" ∷ "system"
    ∷ "clock" ∷ "exit" ∷ "abort" ∷ "gettimeofday" ∷ "settimeofday" ∷ "sleep" ∷ "ctime" ∷ "strspn"
    ∷ "strcspn" ∷ "localtime" ∷ "strftime" ∷ "qsort" ∷ "popen" ∷ "pclose" ∷ "rand" ∷ "rand_r"
    ∷ "srand" ∷ "seed48" ∷ "drand48" ∷ "lrand48" ∷ "srand48" ∷ "__isoc99_sscanf" ∷ "__isoc99_fscanf"
    ∷ "fclose" ∷ "close" ∷ "perror" ∷ "strerror" ∷ "__errno_location" ∷ "__ctype_b_loc" ∷ "abs"
    ∷ "difftime" ∷ "setbuf" ∷ "_ZdlPv" ∷ "_ZdaPv" ∷ "fesetround" ∷ "fegetround" ∷ "fetestexcept"
    ∷ "feraiseexcept" ∷ "feclearexcept" ∷ "llvm.bswap.i16" ∷ "llvm.bswap.i32" ∷ "llvm.ctlz.i64"
    ∷ "llvm.lifetime.start" ∷ "llvm.lifetime.end" ∷ "llvm.stackrestore" ∷ "memset"
    ∷ "llvm.memset.i32" ∷ "llvm.memset.p0i8.i32" ∷ "llvm.memset.i64" ∷ "llvm.memset.p0i8.i64"
    ∷ "llvm.va_end" ∷ "setrlimit" ∷ "getrlimit" ∷ []

-- mallocFuncs
abbrev pub malloc_funcs : List String
malloc_funcs =
    "malloc" ∷ "valloc" ∷ "calloc" ∷ "_Znwj" ∷ "_ZnwjRKSt9nothrow_t" ∷ "_Znwm"
    ∷ "_ZnwmRKSt9nothrow_t" ∷ "_Znaj" ∷ "_ZnajRKSt9nothrow_t" ∷ "_Znam" ∷ "_ZnamRKSt9nothrow_t"
    ∷ "strdup" ∷ "strndup" ∷ "getenv" ∷ "memalign" ∷ "posix_memalign" ∷ []

-- reallocFuncs
abbrev pub realloc_funcs : List String
realloc_funcs = "realloc" ∷ "strtok" ∷ "strtok_r" ∷ []

-- retArg0Funcs
abbrev pub ret_arg0_funcs : List String
ret_arg0_funcs =
    "fgets" ∷ "gets" ∷ "stpcpy" ∷ "strcat" ∷ "strchr" ∷ "strcpy" ∷ "strerror_r" ∷ "strncat"
    ∷ "strncpy" ∷ "strpbrk" ∷ "strptime" ∷ "strrchr" ∷ "strstr" ∷ "getcwd" ∷ []

-- retArg1Funcs
abbrev pub ret_arg1_funcs : List String
ret_arg1_funcs = "signal" ∷ []

-- retArg2Funcs
abbrev pub ret_arg2_funcs : List String
ret_arg2_funcs = "freopen" ∷ []

-- memcpyFuncs
abbrev pub memcpy_funcs : List String
memcpy_funcs =
    "llvm.memcpy.i32" ∷ "llvm.memcpy.p0i8.p0i8.i32" ∷ "llvm.memcpy.i64"
    ∷ "llvm.memcpy.p0i8.p0i8.i64" ∷ "llvm.memmove.i32" ∷ "llvm.memmove.p0i8.p0i8.i32"
    ∷ "llvm.memmove.i64" ∷ "llvm.memmove.p0i8.p0i8.i64" ∷ "memccpy" ∷ "memmove" ∷ "bcopy" ∷ []

-- convertFuncs
abbrev pub convert_funcs : List String
convert_funcs = "strtod" ∷ "strtof" ∷ "strtol" ∷ "strtold" ∷ "strtoll" ∷ "strtoul" ∷ []

-- lookupName
unfoldable pub lookup_name : List String → String → Bool
lookup_name [] name = false
lookup_name (n ∷ ns) name = str_eq n name || lookup_name ns name
