-- ===== src/Concurrency/Maps.antt =====
-- The accesses of a block as a map: what is found behind an insertion or an assignment, and maps in
-- which no value has two entries.
use parcoach.Base.{◌≡◌, refl, if◌then◌else◌, ℕ, none, some, [], ◌∷◌, ◌==◌, arith}
use parcoach.Concurrency.{Instruction, AccessMap, find_access, insert_access, assign}

abbrev pub HasUniqueKeys : AccessMap → Type 0
unfolding find_access
HasUniqueKeys [] = Unit
HasUniqueKeys ((key, i) ∷ rest) = (find_access key rest ≡ none) × HasUniqueKeys rest

pub find_access-insert_access :
    (y x : ℕ) (i : Instruction) (m : AccessMap)
    → find_access x m ≡ none
    → find_access y (insert_access x i m) ≡ (if x == y then some i else find_access y m)
unfolding find_access insert_access
find_access-insert_access y x i [] e = ground arith
find_access-insert_access y x i ((key, j) ∷ m) e = ground (arith, find_access-insert_access y x i m)

pub find_access-assign :
    (y x : ℕ) (i j : Instruction) (m : AccessMap)
    → find_access x m ≡ some j
    → find_access y (assign x i m) ≡ (if x == y then some i else find_access y m)
unfolding find_access assign
find_access-assign y x i j [] e = ground arith
find_access-assign y x i j ((key, k) ∷ m) e = ground (arith, find_access-assign y x i j m)

pub insert_access-HasUniqueKeys :
    (x : ℕ) (i : Instruction) (m : AccessMap)
    → find_access x m ≡ none
    → HasUniqueKeys m
    → HasUniqueKeys (insert_access x i m)
unfolding find_access insert_access
insert_access-HasUniqueKeys x i [] e u = (refl, tt)
insert_access-HasUniqueKeys x i ((key, j) ∷ m) e u =
    ground (arith, find_access-insert_access key x i m, insert_access-HasUniqueKeys x i m)

pub assign-HasUniqueKeys :
    (x : ℕ) (i j : Instruction) (m : AccessMap)
    → find_access x m ≡ some j
    → HasUniqueKeys m
    → HasUniqueKeys (assign x i m)
unfolding find_access assign
assign-HasUniqueKeys x i j [] e u = tt
assign-HasUniqueKeys x i j ((key, k) ∷ m) e u =
    ground (arith, find_access-assign key x i j m, assign-HasUniqueKeys x i j m)
