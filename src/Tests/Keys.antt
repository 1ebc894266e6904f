-- ===== src/Tests/Keys.antt =====
-- Keys of an index over two short attributes: their order, their bounds and their encoding.
use oxford_sigmod.Base.{true, false, some, [], ◌∷◌, ◌≡◌, refl, arith, Ordering, length, flip, is_gt}
use oxford_sigmod.Types.{k_short, k_varchar}
use oxford_sigmod.Util.{keycmp, keycmp_loop, attcmp, compare_ints, le_value, check_bounds, Bounds}
use oxford_sigmod.Util.Order.{Chains}
use oxford_sigmod.Util.Lexicographic.{keycmp-order}
use oxford_sigmod.Util.Ranges.{check_bounds-Describes, Describes}
use oxford_sigmod.Structure.{new_structure, get_bdb_key, get_key, attribute_size}
use oxford_sigmod.Structure.Encoding.{get_key-get_bdb_key, get_bdb_key-get_key, length-get_bdb_key}
use oxford_sigmod.Structure.Wildcards.{wildcard_least, wildcard_varchar_high, wild}
use oxford_sigmod.Tests.{short, pair, row, kinds}

keycmp_second : keycmp (pair 1 2) (pair 1 3) ≡ some Ordering.lt
unfolding keycmp keycmp_loop attcmp compare_ints le_value
keycmp_second = refl

keycmp-order_example :
    (o : Ordering) × (p : Ordering) × (r : Ordering) × (keycmp (pair 1 2) (pair 1 3) ≡ some o)
    × (keycmp (pair 1 3) (pair 2 0) ≡ some p)
    × (keycmp (pair 1 2) (pair 2 0) ≡ some r)
    × (keycmp (pair 1 3) (pair 1 2) ≡ some (flip o))
    × Chains o p r
keycmp-order_example =
    keycmp-order kinds (pair 1 2) (pair 1 3) (pair 2 0) (refl, (refl, tt)) (refl, (refl, tt))
      (refl, (refl, tt))

check_bounds-Describes_example :
    (r : Bounds) × (check_bounds (pair 1 9) (pair 2 4) ≡ some r)
    × Describes 0 (pair 1 9) (pair 2 4) r
check_bounds-Describes_example = check_bounds-Describes (pair 1 9) (pair 2 4) refl

length-get_bdb_key_example : length (get_bdb_key kinds (pair 1 9) true) ≡ (new_structure kinds).size
length-get_bdb_key_example = length-get_bdb_key kinds (pair 1 9) true refl

get_key-get_bdb_key_example : get_key kinds (get_bdb_key kinds (pair 1 9) false) ≡ pair 1 9
unfolding attribute_size
get_key-get_bdb_key_example =
    get_key-get_bdb_key kinds (pair 1 9) false (refl, refl, (refl, refl, tt))

get_bdb_key-get_key_example : get_bdb_key kinds (get_key kinds (row 1 9).key) true ≡ (row 1 9).key
unfolding attribute_size
get_bdb_key-get_key_example = get_bdb_key-get_key kinds (row 1 9).key true refl

wildcard_least_example : is_gt (attcmp (wild k_short false) (short 3)) ≡ false
wildcard_least_example = wildcard_least k_short (short 3) (λ e. cc e)

wildcard_varchar_high_example :
    attcmp (record { type = k_varchar; bytes = 65 ∷ 0 ∷ [] }) (wild k_varchar false) ≡ Ordering.lt
wildcard_varchar_high_example = wildcard_varchar_high false 65 (0 ∷ []) (omega arith)
