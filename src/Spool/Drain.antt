-- ===== src/Spool/Drain.antt =====
-- What a drain of the spool does with its files (drain of worker/internal/pipeline/spool.go).
use rogi_collector.Prelude.{
  ℕ, suc, ◌+◌, ◌≤◌, ◌≡◌, refl, ap, ◌∙◌, ◌⊎◌, inl, inr, not, Option, none, some, List, [], ◌∷◌,
  arith, ◌==◌, select, exists?, take, ok, Bool-cases, Result-cases,
}
use rogi_collector.Journal.Model.{Donation}
use rogi_collector.Spool.Model.{
  SpoolRecord, Codec, DonationJournal, File, Spool, SpoolError, Io, load, remove_file, drain_loop,
  list_files, drain,
}

-- The files whose names are not among those of `gone`.
abbrev pub left_over : List File → List File → List File
left_over gone fs = select (λ f. not (exists? (λ g. f.name == g.name) gone)) fs

module _ {J : Type 0} (k : Codec) (jr : DonationJournal J) (io : Io) where
  -- The record of each file, in order, was accepted by the journal.
  abbrev pub Handed : List File → J → J → Type 0
  Handed [] j j' = j' ≡ j
  Handed (f ∷ fs) j j' =
      (r : SpoolRecord) × (d : Donation) × (m : J) × (load k (io.clock f.name) f ≡ ok r)
      × (jr.append (io.clock f.name) r.grant r.donation r.accepted_at j ≡ ok (d, m))
      × Handed fs m j'

  abbrev pub Drained : List File → Spool J → Option SpoolError → Spool J → Type 0
  Drained fs s e s' =
      (n m : ℕ) × Handed (take n fs) s.journal s'.journal
      × (s'.files ≡ left_over (take m fs) s.files)
      × (m ≤ n)
      × (n ≤ m + 1)
      × ((e ≡ none) × (take m fs ≡ fs) ⊎ ((x : SpoolError) × (e ≡ some x)))

  left_over-nil : (fs : List File) → fs ≡ left_over [] fs
  unfolding select exists?
  left_over-nil [] = refl
  left_over-nil (f ∷ fs) = ap (◌∷◌ f) (left_over-nil fs)

  left_over-remove :
      (f : File) (gone fs : List File)
      → left_over gone (remove_file f.name fs) ≡ left_over (f ∷ gone) fs
  unfolding select exists?
  left_over-remove f gone [] = refl
  left_over-remove f gone (g ∷ gs) = ground (arith, left_over-remove f gone gs)

  stopped : (fs : List File) (s : Spool J) (x : SpoolError) → Drained fs s (some x) s
  stopped fs s x = (0, 0, refl, left_over-nil s.files, omega arith, omega arith, inr (x, refl))

  not_removed :
      (f : File) (fs : List File) (s : Spool J) (r : SpoolRecord) (d : Donation) (j : J)
      (x : SpoolError)
      → load k (io.clock f.name) f ≡ ok r
      → jr.append (io.clock f.name) r.grant r.donation r.accepted_at s.journal ≡ ok (d, j)
      → Drained (f ∷ fs) s (some x) (record s { journal = j })
  not_removed f fs s r d j x loaded taken = (
    1,
    0,
    (r, d, j, loaded, taken, refl),
    left_over-nil s.files,
    omega arith,
    omega arith,
    inr (x, refl),
  )

  removed :
      (f : File) (fs : List File) (s : Spool J) (r : SpoolRecord) (d : Donation) (j : J)
      {e : Option SpoolError} {s' : Spool J}
      → load k (io.clock f.name) f ≡ ok r
      → jr.append (io.clock f.name) r.grant r.donation r.accepted_at s.journal ≡ ok (d, j)
      → Drained fs (record { files = remove_file f.name s.files; journal = j }) e s'
      → Drained (f ∷ fs) s e s'
  removed f fs s r d j loaded taken (n, m, handed, is, low, high, end) = (
    suc n,
    suc m,
    (r, d, j, loaded, taken, handed),
    is ∙ left_over-remove f (take m fs) s.files,
    omega arith,
    omega arith,
    last end,
  )
    where
      last :
          {e : Option SpoolError}
          → (e ≡ none) × (take m fs ≡ fs) ⊎ ((x : SpoolError) × (e ≡ some x))
          → (e ≡ none) × (f ∷ take m fs ≡ f ∷ fs) ⊎ ((x : SpoolError) × (e ≡ some x))
      last (inl (fine, all)) = inl (fine, ap (◌∷◌ f) all)
      last (inr x) = inr x

  drain_loop-Drained :
      (fs : List File) (s : Spool J) → (let r = drain_loop k jr io fs s in Drained fs s r.0 r.1)
  unfolding drain_loop
  drain_loop-Drained [] s =
      (0, 0, refl, left_over-nil s.files, omega arith, omega arith, inl (refl, refl))
  drain_loop-Drained (f ∷ fs) s =
      let again = λ (j : J).
        drain_loop-Drained fs (record { files = remove_file f.name s.files; journal = j }) in
      elim (Bool-cases (io.is_cancelled f.name)) [
        | inl over ↦ rw (drain_loop, over) (stopped (f ∷ fs) s _)
        | inr on ↦ elim (Bool-cases (io.reads f.name)) [
          | inr unread ↦ rw (drain_loop, on, unread) (stopped (f ∷ fs) s _)
          | inl readable ↦ elim (Result-cases (load k (io.clock f.name) f)) [
            | inl (x, bad) ↦ rw (drain_loop, on, readable, bad) (stopped (f ∷ fs) s x)
            | inr (r, loaded) ↦
                elim (Result-cases
                  (jr.append (io.clock f.name) r.grant r.donation r.accepted_at s.journal)) [
                    | inl (x, denied) ↦
                        rw (drain_loop, on, readable, loaded, denied) (stopped (f ∷ fs) s _)
                    | inr ((d, j), taken) ↦ elim (Bool-cases (io.removes f.name)) [
                      | inr stuck ↦
                          rw (drain_loop, on, readable, loaded, taken, stuck)
                            (not_removed f fs s r d j _ loaded taken)
                      | inl gone ↦ elim (Bool-cases (io.syncs_removal f.name)) [
                        | inr unsynced ↦
                            rw (drain_loop, on, readable, loaded, taken, gone, unsynced)
                              (removed f fs s r d j loaded taken (stopped fs _ _))
                        | inl synced ↦
                            rw (drain_loop, on, readable, loaded, taken, gone, synced)
                              (removed f fs s r d j loaded taken (again j))
                      ]
                    ]
                  ]
          ]
        ]
      ]

  -- A drain whose listing succeeds hands the records of a prefix of the files, in the order of
  -- their names, to the journal, which accepts each of them. It removes exactly the files of that
  -- prefix, or all of them but the last; it reports no error only if it removed all of them.
  pub drain-Drained :
      (s : Spool J) (fs : List File) (size : ℕ)
      → list_files io s.files ≡ ok (fs, size)
      → (let r = drain k jr io s in Drained fs s r.0 r.1)
  unfolding drain
  drain-Drained s fs size h = rw (drain, h) (drain_loop-Drained fs s)
