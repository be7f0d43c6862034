-- ===== src/Checkpoint/Prune.antt =====
-- `prune` of checkpoint/sqlite.py.
use milky_frog_lite.Domain.Run.{FilePath}
use milky_frog_lite.Prelude.{
  ℕ, Bool, List, [], ◌∷◌, some, ◌≡◌, Option, String, ltb, true, length, false, filter, Bool-cases,
  ◌⊎◌, not, str_eq, inl, ◌≤◌, inr, eq_of_some-eq, arith, suc, ltb→ge, ap, ◌∙◌, refl, sym,
}
use milky_frog_lite.Snapshot.{Codec}
use milky_frog_lite.Checkpoint.{
  Row, find_row, is_stale, prune, ltb, String, Option, length, FilePath, true, false, filter,
  is_active, not, str_eq, suc,
}

module _ (codec : Codec) where
  kept_if_none :
      (p : Row codec → Bool) (rows : List (Row codec))
      → ltb 0 (length (filter p rows)) ≡ false
      → filter (λ r. not (p r)) rows ≡ rows
  kept_if_none p [] h = refl
  kept_if_none p (r ∷ rs) h = elim (Bool-cases (p r)) [
    | inl e ↦
        let h' : ltb 0 (suc (length (filter p rs))) ≡ false = rw e at h in
        absurd (omega (arith, ltb→ge _ _ h'))
    | inr e ↦ rw e (ap (λ l. r ∷ l) (kept_if_none p rs (rw e at h)))
  ]

  -- Pruning deletes exactly the stale rows, keeps the order of the others, and returns how many it
  -- deleted; a dry run returns the same number and deletes nothing.
  prune_lem :
      (rows : List (Row codec)) (before : ℕ) (workspace : Option FilePath)
      → (prune codec rows before workspace false ≡ (
        filter (λ r. not (is_stale codec before workspace r)) rows,
        length (filter (is_stale codec before workspace) rows),
      ))
        × (prune codec rows before workspace true
            ≡ (rows, length (filter (is_stale codec before workspace) rows)))
  unfolding prune
  prune_lem rows before workspace = (
    elim (Bool-cases (ltb 0 (length (filter (is_stale codec before workspace) rows)))) [
      | inl e ↦ rw e
      | inr e ↦ rw e (
          ap (λ l. (l, length (filter (is_stale codec before workspace) rows)))
            (sym (kept_if_none (is_stale codec before workspace) rows e)))
    ],
    refl,
  )

  find_row-filter :
      (p : Row codec → Bool) (rows : List (Row codec)) (id : String) (r : Row codec)
      → find_row codec rows id ≡ some r
      → p r ≡ true
      → find_row codec (filter p rows) id ≡ some r
  unfolding find_row
  find_row-filter p [] id r found h = cc
  find_row-filter p (x ∷ rs) id r found h = elim (Bool-cases (str_eq x.stored.run_id id)) [
    | inl e ↦
        let same : x ≡ r = eq_of_some-eq (rw e at found) in
        let px : p x ≡ true = ap p same ∙ h in rw (px, e) (ap some same)
    | inr e ↦ elim (Bool-cases (p x)) [
      | inl px ↦ rw (px, e) (find_row-filter p rs id r (rw e at found) h)
      | inr px ↦ rw px (find_row-filter p rs id r (rw e at found) h)
    ]
  ]

  active_not_stale :
      (before : ℕ) (workspace : Option FilePath) (r : Row codec)
      → (is_active r.stored.status ≡ true) ⊎ (before ≤ r.stored.updated_at)
      → not (is_stale codec before workspace r) ≡ true
  unfolding is_stale
  active_not_stale before workspace r h = ground arith

  -- A Run that is active, or was written at the limit or after it, survives with its row unchanged,
  -- whatever the Workspace and whether or not the run is dry.
  pub find_row-prune :
      (rows : List (Row codec)) (before : ℕ) (workspace : Option FilePath) (dry : Bool)
      → (id : String) (r : Row codec) → find_row codec rows id ≡ some r
      → (is_active r.stored.status ≡ true) ⊎ (before ≤ r.stored.updated_at)
      → find_row codec (prune codec rows before workspace dry).0 id ≡ some r
  find_row-prune rows before workspace true id r found h =
      rw ((prune_lem rows before workspace).1) found
  find_row-prune rows before workspace false id r found h =
      rw ((prune_lem rows before workspace).0) (
        find_row-filter (λ x. not (is_stale codec before workspace x)) rows id r found
          (active_not_stale before workspace r h))
