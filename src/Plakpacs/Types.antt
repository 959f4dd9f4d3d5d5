-- ===== src/Plakpacs/Types.antt =====
-- The C++ types that plakpacs serializes, as codes, and the values of each.
use re_bacs_env.Prelude.{
  ℕ, Bool, true, false, ◌&&◌, not, Option, none, List, [], ◌∷◌, String, ltb, leb, ◌==◌, length,
  replicate,
}

-- std::less, std::greater and so on, as template arguments.
pub data Comparison : Type 0 where
  less greater less_equal greater_equal equal_to not_equal_to : Comparison

abbrev pub compares : Comparison → ℕ → ℕ → Bool
compares less a b = ltb a b
compares greater a b = ltb b a
compares less_equal a b = leb a b
compares greater_equal a b = leb b a
compares equal_to a b = a == b
compares not_equal_to a b = not (a == b)

pub data Constraint : Type 0 where
  container_size_constraint : ℕ → Comparison → Constraint
  container_size_limit : ℕ → ℕ → Comparison → Comparison → Constraint

abbrev pub min_container_size : ℕ → Constraint
min_container_size n = container_size_constraint n greater_equal

abbrev pub max_container_size : ℕ → Constraint
max_container_size n = container_size_constraint n less_equal

abbrev pub exact_container_size : ℕ → Constraint
exact_container_size n = container_size_constraint n equal_to

-- `check`, on the container's size.
unfoldable pub check : Constraint → ℕ → Bool
check (container_size_constraint n c) size = compares c size n
check (container_size_limit lo hi cmin cmax) size = compares cmin size lo && compares cmax size hi

-- The fold `(Cs::check(obj) && ...)`.
unfoldable pub check_all : List Constraint → ℕ → Bool
unfolding check
check_all [] size = true
check_all (c ∷ cs) size = check c size && check_all cs size

-- `scalar w` is a trivially copyable type of `w` bytes other than `char` and `bool`, `empty` a class
-- with no data, `vector` a std::vector or std::list, and `object` a class that bpacs reflects.
mutual
  pub data Ty : Type 0 where
    scalar : ℕ → Ty
    character boolean empty c_string string sp_string : Ty
    array sp_array : ℕ → Ty → Ty
    vector sp_vector optional : Ty → Ty
    constrained : Ty → List Constraint → Ty
    object : String → Fields → Ty

  pub data Fields : Type 0 where
    no_fields : Fields
    field : String → Ty → Fields → Fields

abbrev mutual
  pub El : Ty → Type 0
  El (scalar w) = ℕ
  El character = ℕ
  El boolean = Bool
  El empty = Unit {0}
  El c_string = List ℕ
  El string = List ℕ
  El sp_string = List ℕ
  El (array n t) = List (El t)
  El (sp_array n t) = List (El t)
  El (vector t) = List (El t)
  El (sp_vector t) = List (El t)
  El (optional t) = Option (El t)
  El (constrained t cs) = El t
  El (object holder fs) = Els fs

  pub Els : Fields → Type 0
  Els no_fields = Unit {0}
  Els (field name t fs) = El t × Els fs

-- A value that a declaration `T value;` leaves behind. That of a scalar is not initialized, and
-- stands for itself as 0: every read of a scalar overwrites it.
unfoldable mutual
  pub initial : (t : Ty) → El t
  initial (scalar w) = 0
  initial character = 0
  initial boolean = false
  initial empty = tt
  initial c_string = []
  initial string = []
  initial sp_string = []
  initial (array n t) = replicate n (initial t)
  initial (sp_array n t) = replicate n (initial t)
  initial (vector t) = []
  initial (sp_vector t) = []
  initial (optional t) = none
  initial (constrained t cs) = initial t
  initial (object holder fs) = initials fs

  pub initials : (fs : Fields) → Els fs
  initials no_fields = tt
  initials (field name t fs) = (initial t, initials fs)

-- `std::size`. It is not defined on the other types: a size constraint on them does not compile.
unfoldable pub container_size : (t : Ty) → El t → ℕ
container_size string s = length s
container_size sp_string s = length s
container_size (array n t) xs = n
container_size (sp_array n t) xs = n
container_size (vector t) xs = length xs
container_size (sp_vector t) xs = length xs
container_size (constrained t cs) v = container_size t v
container_size _ v = 0

-- A type with its constraints.
unfoldable pub check_pp_constraints : (t : Ty) → List Constraint → El t → Bool
unfolding container_size check_all
check_pp_constraints t cs v = check_all cs (container_size t v)
