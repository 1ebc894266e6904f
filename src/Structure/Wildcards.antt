-- ===== src/Structure/Wildcards.antt =====
-- What a NULL attribute stands for once it is encoded (example/Index.cc).
use oxford_sigmod.Base.{
  ℕ, ◌<◌, ◌^◌, Bool, false, Ordering, ◌≡◌, ◌≢◌, refl, List, ◌∷◌, arith, is_gt, take,
}
use oxford_sigmod.Base.Int.{signed32, signed64}
use oxford_sigmod.Types.{AttributeType, Attribute, k_short, k_int, k_varchar}
use oxford_sigmod.Util.{attcmp, le_value, compare_ints, strcmp}
use oxford_sigmod.Structure.{wildcard}

abbrev pub wild : AttributeType → Bool → Attribute
wild t max = record { type = t; bytes = wildcard t max }

le_value-short_min : le_value (take 4 (wildcard k_short false)) ≡ 2 ^ 31
unfolding le_value wildcard
le_value-short_min = refl

le_value-int_min : le_value (take 8 (wildcard k_int false)) ≡ 2 ^ 63
unfolding le_value wildcard
le_value-int_min = refl

short_min_least : (v : ℕ) → is_gt (compare_ints (signed32 (2 ^ 31)) (signed32 v)) ≡ false
unfolding compare_ints
short_min_least v = ground arith

int_min_least : (v : ℕ) → is_gt (compare_ints (signed64 (2 ^ 63)) (signed64 v)) ≡ false
unfolding compare_ints
int_min_least v = ground arith

-- The minimum that a NULL of either integer type is encoded as is not greater than any attribute
-- of that type.
pub wildcard_least :
    (t : AttributeType) (a : Attribute) → t ≢ k_varchar → is_gt (attcmp (wild t false) a) ≡ false
unfolding attcmp
wildcard_least k_short a h = rw le_value-short_min (short_min_least (le_value (take 4 a.bytes)))
wildcard_least k_int a h = rw le_value-int_min (int_min_least (le_value (take 8 a.bytes)))
wildcard_least k_varchar a h = absurd (h refl)

-- A varchar that begins with a byte below 127 comes before what a NULL varchar is encoded as,
-- whether a minimum or a maximum is asked for.
pub wildcard_varchar_high :
    (max : Bool) (c : ℕ) (rest : List ℕ)
    → c < 127
    → attcmp (record { type = k_varchar; bytes = c ∷ rest }) (wild k_varchar max) ≡ Ordering.lt
unfolding attcmp wildcard strcmp
wildcard_varchar_high max c rest h = ground arith
