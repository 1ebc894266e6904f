-- ===== src/Index/Find.antt =====
-- Where `Update` and `Delete` put their cursor, for a match by key and for a match by key and payload
-- (example/Index.cc).
use oxford_sigmod.Base.{
  ℕ, Bool, true, false, not, ◌&&◌, List, [], ◌∷◌, ◌++◌, ◌≡◌, refl, arith, sym, ◌∙◌, All,
  if◌then◌else◌, Bool-cases, inl, inr, append-nil,
}
use mathlib.Core.Path.{subst}
use oxford_sigmod.Types.{AttributeType, Record}
use oxford_sigmod.Util.Lexicographic.{keycmp-lex}
use oxford_sigmod.Bdb.{Bdb, Dbt, Row, success, not_found, db_set_range, db_get_both}
use oxford_sigmod.Bdb.Laws.{Scan, Cursors, start, contents, same_key, same_bytes}
use oxford_sigmod.Structure.{get_bdb_key, get_key, below}
use oxford_sigmod.Structure.Encoding.{IsExact, IsExact-HasTypes}
use oxford_sigmod.World.{World, returned}
use oxford_sigmod.Index.Modify.{find_first, ignore_payload}
use oxford_sigmod.Index.Scan.{push, seek-first, seek-none, unwind-push}
use oxford_sigmod.Index.Lookup.{find_first-by_key}
use oxford_sigmod.Index.Match.{has_key, matches, same_key-has_key, has_key-eq, All-lower}
use oxford_sigmod.Iterator.Range.{get_key-HasTypes}
use oxford_sigmod.Iterator.Rows.{IsSorted, IsSorted-split, split_below, All-member}

module _ {B : Bdb} (types : List AttributeType) (L : Cursors B (below types)) (db c : ℕ)
    (r : Record) (exact : IsExact types r.key) where
  open L use {On, gets}

  abbrev encoded : Dbt
  encoded = get_bdb_key types r.key false

  -- The payload that is looked for.
  abbrev wanted : ℕ → Dbt
  wanted flags = if ignore_payload flags then [] else r.payload

  -- The test of DB_GET_BOTH.
  abbrev both : Row → Bool
  both x = same_key (below types) x.key encoded && same_bytes x.value r.payload

  both-matches :
      (flags : ℕ) (x : Row) → ignore_payload flags ≡ false → both x ≡ matches types r flags x
  both-matches flags x by_payload = ground (arith, by_payload, same_key-has_key types r.key exact x)

  All-both-false :
      (flags : ℕ) (rows : List Row)
      → ignore_payload flags ≡ false
      → All (λ y. matches types r flags y ≡ false) rows
      → All (λ y. both y ≡ false) rows
  All-both-false flags [] by_payload h = tt
  All-both-false flags (y ∷ rows) by_payload h =
      (both-matches flags y by_payload ∙ h.0, All-both-false flags rows by_payload h.1)

  All-has_key-false :
      (flags : ℕ) (rows : List Row)
      → ignore_payload flags ≡ true
      → All (λ y. matches types r flags y ≡ false) rows
      → All (λ y. has_key types r.key y ≡ false) rows
  All-has_key-false flags [] by_key h = tt
  All-has_key-false flags (y ∷ rows) by_key h =
      (ground (arith, by_key, h.0), All-has_key-false flags rows by_key h.1)

  -- The cursor stands at the row `x`, which was found.
  abbrev Finds : ℕ → World B → List Row → Row → List Row → Type 0
  Finds flags w before x after =
      (e' : B.Env) × (find_first types r.key (ignore_payload flags) c encoded (wanted flags) w
        ≡ (returned (success, x), record w { env = e' }))
      × On db c (record { passed = x ∷ push before []; at_key = x.key; ahead = after }) e'

  find_by_payload :
      (flags : ℕ) (before : List Row) (x : Row) (after : List Row) (w : World B)
      → ignore_payload flags ≡ false
      → All (λ y. matches types r flags y ≡ false) before
      → matches types r flags x ≡ true
      → On db c (start (before ++ x ∷ after)) w.env
      → Finds flags w before x after
  unfolding find_first
  find_by_payload flags before x after w by_payload others hit on =
      let found =
        seek-first both before x after [] (All-both-false flags before by_payload others)
          (both-matches flags x by_payload ∙ hit) in
      let (e', got, on') = gets db_get_both encoded r.payload on in
      (e', ground (arith, got, found, by_payload), rw found at on')

  find_by_key :
      (flags : ℕ) (before : List Row) (x : Row) (after : List Row) (w : World B)
      → ignore_payload flags ≡ true
      → IsSorted types (before ++ x ∷ after)
      → All (λ y. matches types r flags y ≡ false) before
      → matches types r flags x ≡ true
      → On db c (start (before ++ x ∷ after)) w.env
      → Finds flags w before x after
  find_by_key flags before x after w by_key sorted others hit on =
      let has : has_key types r.key x ≡ true = ground (arith, hit) in
      let lower =
        All-lower types r.key exact before x (IsSorted-split types before x after sorted).0
          (All-has_key-false flags before by_key others) has in
      let (e', found, on') =
        find_first-by_key types L db c r.key exact before x after w lower
          (has_key-eq types r.key exact x has) on in
      (e', ground (arith, by_key, found), on')

  -- If a row matches, the cursor goes to the first that does.
  pub find_first-Finds :
      (flags : ℕ) (before : List Row) (x : Row) (after : List Row) (w : World B)
      → IsSorted types (before ++ x ∷ after)
      → All (λ y. matches types r flags y ≡ false) before
      → matches types r flags x ≡ true
      → On db c (start (before ++ x ∷ after)) w.env
      → Finds flags w before x after
  find_first-Finds flags before x after w sorted others hit on =
      elim (Bool-cases (ignore_payload flags)) [
        | inl by_key ↦ find_by_key flags before x after w by_key sorted others hit on
        | inr by_payload ↦ find_by_payload flags before x after w by_payload others hit on
      ]

  -- Nothing was found, and the cursor is somewhere in the same rows.
  abbrev Misses : ℕ → World B → List Row → Type 0
  Misses flags w rows =
      (e' : B.Env) × (row : Row) × (z : Scan) × (find_first types r.key (ignore_payload flags) c
          encoded (wanted flags) w
        ≡ (returned (not_found, row), record w { env = e' }))
      × On db c z e'
      × (contents z ≡ rows)

  miss_by_payload :
      (flags : ℕ) (rows : List Row) (w : World B)
      → ignore_payload flags ≡ false
      → All (λ y. matches types r flags y ≡ false) rows
      → On db c (start rows) w.env
      → Misses flags w rows
  unfolding find_first
  miss_by_payload flags rows w by_payload others on =
      let missed = seek-none both rows [] (All-both-false flags rows by_payload others) in
      let (e', got, on') = gets db_get_both encoded r.payload on in
      (
        e',
        record { key = encoded; value = r.payload },
        start rows,
        ground (arith, got, missed, by_payload),
        rw missed at on',
        refl,
      )

  -- No row is at or behind the key.
  miss_at_end :
      (flags : ℕ) (rows : List Row) (w : World B)
      → ignore_payload flags ≡ true
      → All (λ x. not (below types x.key encoded) ≡ false) rows
      → On db c (start rows) w.env
      → Misses flags w rows
  unfolding find_first
  miss_at_end flags rows w by_key low on =
      let missed = seek-none (λ x. not (below types x.key encoded)) rows [] low in
      let (e', got, on') = gets db_set_range encoded [] on in
      let hk = IsExact-HasTypes types r.key exact in
      (
        e',
        record { key = encoded; value = [] },
        start rows,
        ground (
          arith,
          got,
          missed,
          by_key,
          keycmp-lex types (get_key types encoded) r.key (get_key-HasTypes types encoded) hk,
        ),
        rw missed at on',
        refl,
      )

  -- The first row at or behind the key has another one.
  miss_at_other :
      (flags : ℕ) (lower : List Row) (x : Row) (rest : List Row) (w : World B)
      → ignore_payload flags ≡ true
      → All (λ y. not (below types y.key encoded) ≡ false) lower
      → not (below types x.key encoded) ≡ true
      → has_key types r.key x ≡ false
      → On db c (start (lower ++ x ∷ rest)) w.env
      → Misses flags w (lower ++ x ∷ rest)
  unfolding find_first
  miss_at_other flags lower x rest w by_key low high other on =
      let hit = seek-first (λ y. not (below types y.key encoded)) lower x rest [] low high in
      let (e', got, on') = gets db_set_range encoded [] on in
      let hk = IsExact-HasTypes types r.key exact in
      (
        e',
        x,
        record { passed = x ∷ push lower []; at_key = x.key; ahead = rest },
        ground (
          arith,
          got,
          hit,
          by_key,
          other,
          keycmp-lex types (get_key types x.key) r.key (get_key-HasTypes types x.key) hk,
        ),
        rw hit at on',
        unwind-push lower [] (x ∷ rest),
      )

  miss_by_key :
      (flags : ℕ) (lower ahead : List Row) (w : World B)
      → ignore_payload flags ≡ true
      → All (λ x. not (below types x.key encoded) ≡ false) lower
      → All (λ x. not (below types x.key encoded) ≡ true) ahead
      → All (λ y. has_key types r.key y ≡ false) (lower ++ ahead)
      → On db c (start (lower ++ ahead)) w.env
      → Misses flags w (lower ++ ahead)
  miss_by_key flags lower [] w by_key low high others on =
      miss_at_end flags (lower ++ []) w by_key (rw (append-nil lower) low) on
  miss_by_key flags lower (x ∷ rest) w by_key low high others on =
      miss_at_other flags lower x rest w by_key low high.0
        (All-member types (λ y. has_key types r.key y ≡ false) lower x rest others) on

  -- If no row matches, nothing is found.
  pub find_first-Misses :
      (flags : ℕ) (rows : List Row) (w : World B)
      → IsSorted types rows
      → All (λ y. matches types r flags y ≡ false) rows
      → On db c (start rows) w.env
      → Misses flags w rows
  find_first-Misses flags rows w sorted others on = elim (Bool-cases (ignore_payload flags)) [
    | inl by_key ↦
        let (lower, ahead, same, low, high, _) = split_below types encoded rows sorted in
        subst (Misses flags w) (sym same) (
          miss_by_key flags lower ahead w by_key low high
            (subst (All (λ y. has_key types r.key y ≡ false)) same
              (All-has_key-false flags rows by_key others))
            (subst (λ all_rows. On db c (start all_rows) w.env) same on))
    | inr by_payload ↦ miss_by_payload flags rows w by_payload others on
  ]
