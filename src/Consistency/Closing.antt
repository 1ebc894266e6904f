-- ===== src/Consistency/Closing.antt =====
-- Closing a handle (example/Index.cc).
use oxford_sigmod.Base.{ℕ, true, false, none, some, ◌≡◌, refl, arith, Bool-cases, inl, inr, ◌==◌}
use oxford_sigmod.Base.Sets.{member-erase}
use oxford_sigmod.Bdb.{Bdb}
use oxford_sigmod.Structure.{IndexStructure, unregister_handle}
use oxford_sigmod.World.{
  World, Index, M, ◌>>=◌, ◌>>◌, pure, bdb, structure_at, set_structure, set_object, update,
}
use oxford_sigmod.Manager.{close, close_db, unregister}
use oxford_sigmod.Consistency.Invariant.{Consistent, Ensures}
use oxford_sigmod.Consistency.Rules.{
  Ensures-bind, Ensures-bdb, Ensures-object_at, Ensures-structure_at, Ensures-cond, Ensures-option,
  Ensures-map,
}
use oxford_sigmod.Consistency.Heap.{Replaces, IsConsistent-replace}
use oxford_sigmod.Consistency.Handles.{
  Consistent-set_closed, NotOpen, Shrinks, Shrinks-refl, Shrinks-set_closed, Shrinks-trans,
  closed_now,
}

module _ {B : Bdb} where
  -- `w'` is `w` after the handle `h` was closed further.
  abbrev pub Closing : ℕ → World B → World B → Type 0
  Closing h w w' = NotOpen h w' × Shrinks w w'

  unregistered :
      (h p : ℕ) (s : IndexStructure) (w : World B)
      → w.structures p ≡ some s
      → Shrinks w (record w { structures = update w.structures p (some (unregister_handle h s)) })
  unfolding unregister_handle
  unregistered h p s w found = record {
    still_closed = λ g n. n;
    fewer_handles = λ q s' at. elim (Bool-cases (p == q)) [
      | inl same ↦ (
        s,
        ground (arith, same, found),
        λ g m. ground (arith, same, at, m, member-erase g h s.handles),
      )
      | inr other ↦ (s', ground (arith, other, at), λ g m. m)
    ];
    same_names = refl;
  }

  Replaces-unregister :
      (h p : ℕ) (s : IndexStructure) (w : World B)
      → w.structures p ≡ some s
      → Consistent w
      → NotOpen h w
      → Replaces w.objects p s (unregister_handle h s)
  unfolding unregister_handle
  Replaces-unregister h p s w found c not_open = record {
    still_safe = c.safe p s found;
    still_listed = λ g i at open_handle of_handle m. elim (Bool-cases (h == g)) [
      | inl same ↦ absurd (ground (arith, not_open i (ground (arith, same, at)), open_handle))
      | inr other ↦ ground (arith, other, m, member-erase g h s.handles)
    ];
  }

  unregister-Ensures :
      (h : ℕ) (i : Index) (w : World B)
      → Consistent w
      → NotOpen h w
      → Ensures (λ _ w'. Closing h w w') (unregister h i w)
  unfolding unregister
  unregister-Ensures h i w c not_open =
      Ensures-option (λ _ w'. Closing h w w') i.structure (pure tt)
        (λ p. do s ← structure_at p; set_structure p (some (unregister_handle h s))) w
        (λ _. (c, (not_open, Shrinks-refl w)))
        λ p _.
          Ensures-structure_at (λ _ w'. Closing h w w') p
            (λ s. set_structure p (some (unregister_handle h s))) w c
            λ s found. (
              IsConsistent-replace c p s (unregister_handle h s) found
                  (Replaces-unregister h p s w found c not_open),
              (not_open, unregistered h p s w found),
            )

  db_closed : (w u v : World B) (h : ℕ) → Closing h w u → Closing h u v → Closing h w v
  db_closed w u v h first second = (second.0, Shrinks-trans w u v first.1 second.1)

  close_db-Ensures :
      (h : ℕ) (i : Index) (w : World B)
      → Consistent w
      → NotOpen h w
      → i.closed ≡ true
      → Ensures (λ j w'. Closing h w w' × (j.closed ≡ true)) (close_db h i w)
  unfolding close_db
  close_db-Ensures h i w c not_open closed =
      let i' : Index = record i { db = none } in
      let finish : M B Index = set_object h (some i') >> pure i' in
      Ensures-option (λ j w'. Closing h w w' × (j.closed ≡ true)) i.db (pure i)
        (λ db. bdb (B.db_close db) >> finish) w (λ _. (c, ((not_open, Shrinks-refl w), closed)))
        λ db _.
          Ensures-bind (λ _ w'. Closing h w w') (λ j w'. Closing h w w' × (j.closed ≡ true))
            (bdb (B.db_close db)) (λ _. finish) w
            (Ensures-bdb (λ _ w'. Closing h w w') (B.db_close db) w c
              (λ a e. (not_open, Shrinks-refl w)))
            λ a u cu q.
              let v : World B = record u { objects = update u.objects h (some i') } in
              (
                Consistent-set_closed u h i' cu closed,
                (
                  db_closed w u v h q (closed_now u h i' closed, Shrinks-set_closed u h i' closed),
                  closed,
                ),
              )

  abbrev close_rest : ℕ → Index → M B (Unit {0})
  close_rest h i = do j ← close_db h i; unregister h j

  close_rest-Ensures :
      (h : ℕ) (i : Index) (w : World B)
      → Consistent w
      → NotOpen h w
      → i.closed ≡ true
      → Ensures (λ _ w'. Closing h w w') (close_rest h i w)
  close_rest-Ensures h i w c not_open closed =
      Ensures-bind (λ j w'. Closing h w w' × (j.closed ≡ true)) (λ _ w'. Closing h w w')
        (close_db h i) (unregister h) w (close_db-Ensures h i w c not_open closed)
        λ j u cu q.
          Ensures-map (λ _ v. Closing h u v) (λ _ v. Closing h w v) (unregister h j u)
            (unregister-Ensures h j u cu q.0.0) (λ _ v r. db_closed w u v h q.0 r)

  close_open-Ensures :
      (h : ℕ) (i : Index) (w : World B)
      → Consistent w
      → Ensures
          (λ _ w'. Closing h w w')
          ((set_object h (some (record i { closed = true }))
              >> close_rest h (record i { closed = true }))
            w)
  close_open-Ensures h i w c =
      let i' : Index = record i { closed = true } in
      let u : World B = record w { objects = update w.objects h (some i') } in
      let first : Closing h w u = (closed_now w h i' refl, Shrinks-set_closed w h i' refl) in
      Ensures-map (λ _ v. Closing h u v) (λ _ v. Closing h w v) (close_rest h i' u)
        (close_rest-Ensures h i' u (Consistent-set_closed w h i' c refl) first.0 refl)
        (λ _ v r. db_closed w u v h first r)

  pub close-Ensures :
      (h : ℕ) (w : World B) → Consistent w → Ensures (λ _ w'. Closing h w w') (close h w)
  unfolding close
  close-Ensures h w c =
      Ensures-object_at (λ _ w'. Closing h w w') h
        (λ i. elim i.closed [
          | true ↦ pure tt
          | false ↦
              set_object h (some (record i { closed = true }))
              >> close_rest h (record i { closed = true })
        ])
        w c
        λ i at.
          Ensures-cond (λ _ w'. Closing h w w') i.closed (pure tt)
            (set_object h (some (record i { closed = true }))
              >> close_rest h (record i { closed = true }))
            w (λ closed. (c, ((λ j at'. ground (arith, at, at', closed)), Shrinks-refl w)))
            (λ _. close_open-Ensures h i w c)
