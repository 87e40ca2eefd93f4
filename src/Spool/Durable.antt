-- ===== src/Spool/Durable.antt =====
-- A donation that Save (worker/internal/pipeline/spool.go) accepted is not lost.
use Prim.Native.String.{◌++◌}
use rogi_collector.Prelude.{
  ℕ, zero, suc, ◌≤◌, ◌≡◌, refl, sym, ap, subst, ◌∙◌, ◌⊎◌, inl, inr, String, Bool, true, false, ◌&&◌,
  not, none, some, List, [], ◌∷◌, arith, ltb, ◌==◌, select, exists?, find?, take, ok, Bool-cases,
  Result-cases, eq_iff, All, All-take, find?-head,
}
use rogi_collector.Journal.Model.{Donation, validate}
use rogi_collector.Journal.Grants.{OwnerGrant}
use rogi_collector.Spool.Model.{
  SpoolRecord, Codec, DonationJournal, File, Spool, Io, load, remove_file, named, scan, insert_name,
  sort_names, list_files, drain, name_leb,
}
use rogi_collector.Spool.Save.{Limits, Clock, base_name, envelope, encode, prepare, commit, save}
use rogi_collector.Spool.Drain.{Handed, drain-Drained, left_over}

-- The decoders undo the encoders at this record and its envelope.
pub record IsFaithful (k : Codec) (r : SpoolRecord) : Type 0 where
  pub record_back : k.decode_record (k.encode_record r) ≡ some r
  pub envelope_back : k.decode_envelope (encode k r) ≡ some (envelope k r)

module _ (n body : String) where
  -- A file of this name has this body.
  abbrev Holds : File → Type 0
  Holds g = (named n g ≡ true) → g.body ≡ body

  Holds-other : (fs : List File) → All Holds (remove_file n fs)
  unfolding select
  Holds-other [] = tt
  Holds-other (f ∷ fs) = elim (Bool-cases (named n f)) [
    | inl same ↦ rw same (Holds-other fs)
    | inr different ↦ rw different ((λ h. absurd (ground arith)), Holds-other fs)
  ]

  Holds-scan :
      (fs gs : List File) (size : ℕ) → scan fs ≡ ok (gs, size) → All Holds fs → All Holds gs
  unfolding scan
  Holds-scan [] gs size h all =
      let empty : gs ≡ [] = ground arith in subst (All Holds) (sym empty) tt
  Holds-scan (f ∷ fs) gs size h all = elim (Result-cases (scan fs)) [
    | inl (bad, no_scan) ↦ absurd (ground arith)
    | inr ((hs, sum), scanned) ↦ elim (Bool-cases (f.name == ".writer.lock")) [
      | inl lock ↦ Holds-scan fs gs size (ground arith) all.1
      | inr other ↦
          let is : gs ≡ f ∷ hs = ground arith in
          subst (All Holds) (sym is) (all.0, Holds-scan fs hs sum scanned all.1)
    ]
  ]

  Holds-insert : (f : File) (fs : List File) → Holds f → All Holds fs → All Holds (insert_name f fs)
  unfolding insert_name
  Holds-insert f [] h all = (h, tt)
  Holds-insert f (g ∷ gs) h all = elim (Bool-cases (name_leb f.name g.name)) [
    | inl before ↦ rw before (h, all)
    | inr after ↦ rw after (all.0, Holds-insert f gs h all.1)
  ]

  Holds-sort : (fs : List File) → All Holds fs → All Holds (sort_names fs)
  unfolding sort_names
  Holds-sort [] all = tt
  Holds-sort (f ∷ fs) all = Holds-insert f (sort_names fs) all.0 (Holds-sort fs all.1)

  Holds-list :
      (io : Io) (fs gs : List File) (size : ℕ)
      → list_files io fs ≡ ok (gs, size)
      → All Holds fs
      → All Holds gs
  unfolding list_files
  Holds-list io fs gs size h all = elim (Result-cases (scan fs)) [
    | inl (bad, no_scan) ↦ absurd (ground arith)
    | inr ((hs, sum), scanned) ↦
        let is : gs ≡ sort_names hs = ground arith in
        subst (All Holds) (sym is) (Holds-sort hs (Holds-scan fs hs sum scanned all))
  ]

exists?-take :
    (p : File → Bool) (m n : ℕ) (fs : List File)
    → m ≤ n
    → exists? p (take m fs) ≡ true
    → exists? p (take n fs) ≡ true
unfolding exists?
exists?-take p zero n fs low h = absurd (ground arith)
exists?-take p (suc m) zero fs low h = absurd (omega arith)
exists?-take p (suc m) (suc n) [] low h = h
exists?-take p (suc m) (suc n) (f ∷ fs) low h = elim (Bool-cases (p f)) [
  | inl yes_f ↦ rw yes_f refl
  | inr no_f ↦ rw no_f (exists?-take p m n fs (omega arith) (ground arith))
]

load_encoded :
    (k : Codec) (now : ℕ) (f : File) (r q : SpoolRecord)
    → IsFaithful k r
    → f.body ≡ encode k r
    → load k now f ≡ ok q
    → q ≡ r
unfolding load encode envelope
load_encoded k now f r q faithful is h =
    let opened = ap k.decode_envelope is ∙ faithful.envelope_back in
    let decoded = faithful.record_back in ground (arith, opened, decoded)

abbrev pub file_name : ℕ → Donation → String
file_name accepted d = base_name accepted d ++ ".json"

-- A record's file is in the directory, or the journal keeps the record.
module _ {J : Type 0} (k : Codec) (Kept : SpoolRecord → J → Type 0) where
  abbrev pub Safe : String → SpoolRecord → Spool J → Type 0
  Safe n r s =
      (find? (named n) s.files ≡ some (record { name = n; regular = true; body = encode k r }))
      ⊎ Kept r s.journal

-- A journal keeps the records that it accepts, and keeps them while it accepts others.
module _ {J : Type 0} (k : Codec) (jr : DonationJournal J) (io : Io)
    (Kept : SpoolRecord → J → Type 0)
    (takes : (now : ℕ) (r : SpoolRecord) (x : Donation) (i j : J)
      → jr.append now r.grant r.donation r.accepted_at i ≡ ok (x, j)
      → Kept r j)
    (stays : (now : ℕ) (r q : SpoolRecord) (x : Donation) (i j : J)
      → jr.append now q.grant q.donation q.accepted_at i ≡ ok (x, j)
      → Kept r i
      → Kept r j) where
  Handed-Keeps :
      (r : SpoolRecord) (gs : List File) (j j' : J) → Handed k jr io gs j j' → Kept r j → Kept r j'
  Handed-Keeps r [] j j' same kept = subst (Kept r) (sym same) kept
  Handed-Keeps r (g ∷ gs) j j' (q, x, i, loaded, taken, rest) kept =
      Handed-Keeps r gs i j' rest (stays (io.clock g.name) r q x j i taken kept)

  Handed-Kept :
      (n : String) (r : SpoolRecord) (gs : List File) (j j' : J)
      → IsFaithful k r
      → Handed k jr io gs j j'
      → exists? (λ g. n == g.name) gs ≡ true
      → All (Holds n (encode k r)) gs
      → Kept r j'
  unfolding exists?
  Handed-Kept n r [] j j' faithful handed h all = absurd (ground arith)
  Handed-Kept n r (g ∷ gs) j j' faithful (q, x, i, loaded, taken, rest) h all =
      elim (Bool-cases (n == g.name)) [
        | inr different ↦ Handed-Kept n r gs i j' faithful rest (ground arith) all.1
        | inl same ↦
            let mine = (eq_iff g.name n).1 (sym ((eq_iff n g.name).0 same)) in
            let is : q ≡ r = load_encoded k (io.clock g.name) g r q faithful (all.0 mine) loaded in
            Handed-Keeps r gs i j' rest (
              takes (io.clock g.name) r x j i (
                subst
                  (λ (w : SpoolRecord).
                    jr.append (io.clock g.name) w.grant w.donation w.accepted_at j ≡ ok (x, i))
                  is taken))
      ]

  left_over-find :
      (n : String) (f : File) (gone fs : List File)
      → named n f ≡ true
      → exists? (λ g. n == g.name) gone ≡ false
      → find? (named n) (left_over gone (f ∷ fs)) ≡ some f
  unfolding select
  left_over-find n f gone fs mine here_still =
      let stays : not (exists? (λ g. f.name == g.name) gone) ≡ true =
        subst (λ (m : String). not (exists? (λ g. m == g.name) gone) ≡ true)
          (sym ((eq_iff f.name n).0 mine)) (ap not here_still) in
      rw stays (find?-head (named n) f _ mine)

  drain-Safe :
      (n : String) (r : SpoolRecord) (fs : List File) (j : J)
      → IsFaithful k r
      → All (Holds n (encode k r)) fs
      → Safe k Kept n r
          (drain k jr io (record {
            files = record { name = n; regular = true; body = encode k r } ∷ fs;
            journal = j;
          })).1
  unfolding drain
  drain-Safe n r fs j faithful all =
      let f : File = record { name = n; regular = true; body = encode k r } in
      let s : Spool J = record { files = f ∷ fs; journal = j } in
      let mine : named n f ≡ true = (eq_iff n n).1 refl in
      elim (Result-cases (list_files io (f ∷ fs))) [
        | inl (x, bad) ↦ rw (drain, bad) (inl (find?-head (named n) f fs mine))
        | inr ((gs, size), listed) ↦
            let (a, b, handed, is, low, high, end) = drain-Drained k jr io s gs size listed in
            elim (Bool-cases (exists? (λ g. n == g.name) (take b gs))) [
              | inl done ↦ inr (
                  Handed-Kept n r (take a gs) j _ faithful handed (exists?-take _ b a gs low done) (
                    All-take (Holds n (encode k r)) a gs
                      (Holds-list n (encode k r) io (f ∷ fs) gs size listed ((λ h. refl), all))))
              | inr waits ↦
                  inl (ap (find? (named n)) is ∙ left_over-find n f (take b gs) fs mine waits)
            ]
      ]

  prepared :
      (l : Limits) (t : Clock) (g : OwnerGrant) (d : Donation) (deadline : ℕ) (fs : List File)
      (body : String)
      → prepare k io l t g d deadline fs ≡ ok body
      → body ≡ encode k (record { grant = g; donation = d; accepted_at = t.accepted })
  unfolding prepare
  prepared l t g d deadline fs body h = elim (Result-cases (validate d)) [
    | inl (x, bad) ↦ absurd (ground arith)
    | inr (_, valid) ↦ elim (Result-cases (list_files io fs)) [
      | inl (x, bad) ↦ absurd (ground arith)
      | inr ((gs, size), listed) ↦ ground arith
    ]
  ]

  commit-Safe :
      (t : Clock) (deadline : ℕ) (name : String) (r : SpoolRecord) (s : Spool J)
      → IsFaithful k r
      → (commit k jr io t deadline name (encode k r) s).0 ≡ none
      → Safe k Kept (name ++ ".json") r (commit k jr io t deadline name (encode k r) s).1
  unfolding commit
  commit-Safe t deadline name r s faithful h =
      elim (Bool-cases (io.opens (name ++ ".pending") && io.writes (name ++ ".pending"))) [
        | inr unwritten ↦ absurd (ground arith)
        | inl written ↦ elim (Bool-cases (ltb t.written deadline)) [
          | inr late ↦ absurd (ground arith)
          | inl soon ↦ elim (Bool-cases (io.renames (name ++ ".pending"))) [
            | inr kept ↦ absurd (ground arith)
            | inl renamed ↦ elim (Bool-cases (io.syncs (name ++ ".json"))) [
              | inr unsynced ↦ absurd (ground arith)
              | inl synced ↦
                  rw (commit, written, soon, renamed, synced)
                    (drain-Safe (name ++ ".json") r (remove_file (name ++ ".json") _) s.journal
                      faithful (Holds-other (name ++ ".json") (encode k r) _))
            ]
          ]
        ]
      ]

  -- A donation for which Save returned no error is kept: when Save has returned, its record's file
  -- is in the directory, or the journal, as Save's drain left it, keeps the record (with its grant,
  -- donation and time of acceptance), whatever the file system and the clock do. The decoders undo
  -- the encoders at this record, and the journal keeps what it accepts and does not lose it by
  -- accepting other records.
  pub save-Safe :
      (l : Limits) (t : Clock) (g : OwnerGrant) (d : Donation) (deadline : ℕ) (s : Spool J)
      → IsFaithful k (record { grant = g; donation = d; accepted_at = t.accepted })
      → (save k jr io l t g d deadline s).0 ≡ none
      → Safe k Kept
          (file_name t.accepted d)
          (record { grant = g; donation = d; accepted_at = t.accepted })
          (save k jr io l t g d deadline s).1
  unfolding save
  save-Safe l t g d deadline s faithful h =
      elim (Result-cases (prepare k io l t g d deadline s.files)) [
        | inl (x, bad) ↦ absurd (ground arith)
        | inr (body, ready) ↦
            let is = prepared l t g d deadline s.files body ready in
            let ready_so = ready ∙ ap ok is in
            rw (save, ready_so)
              (commit-Safe t deadline (base_name t.accepted d) _ s faithful
                (rw (save, ready_so) at h))
      ]
