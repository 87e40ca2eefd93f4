-- ===== src/Manager/Bounds.antt =====
-- The number of connections (worker/internal/manager.go).
use rogi_collector.Prelude.{
  exists?-select, ℕ, ◌+◌, ◌≤◌, ◌<◌, ◌≡◌, refl, sym, ap, subst, ◌∙◌, String, Bool, false, ◌&&◌, ◌||◌,
  not, Option, some, List, [], ◌∷◌, ◌++◌, length, leb, ltb, arith, select, exists?, ◌==◌, if-cases,
  if-holds,
}
use rogi_collector.Manager.Model.{
  Attempt, has_key, same, Manager, Begun, begun, begin_connect, register, end_connect, disconnect,
  disconnect_all, tear_down, remove_entry,
}

-- The manager with the calls of Connect that dial, and those that have still to return.
pub record Process : Type 0 where
  pub manager : Manager
  pub dialers : List Attempt
  pub enders : List Attempt

abbrev pub idle : ℕ → Process
idle max_conn = record {
  manager = record { max_conn = max_conn; conns = []; connecting = []; dialing = 0; live = [] };
  dialers = [];
  enders = [];
}

-- One critical section: a Connect begins, its dial fails, it registers its connector or it returns,
-- a channel or all of them are disconnected, or a connector's error is handled in two parts.
pub data Step (s : Process) : Process → Type 0 where
  begins :
      (a : Attempt)
      → (begin_connect a.key s.manager).0 ≡ begun
      → Step s (record s { manager = (begin_connect a.key s.manager).1; dialers = a ∷ s.dialers })
  gives_up :
      (xs ys : List Attempt) (a : Attempt)
      → s.dialers ≡ xs ++ a ∷ ys
      → Step s (record s { dialers = xs ++ ys; enders = a ∷ s.enders })
  registers :
      (xs ys : List Attempt) (a : Attempt)
      → s.dialers ≡ xs ++ a ∷ ys
      → Step s (record s {
        manager = (register a s.manager).1;
        dialers = xs ++ ys;
        enders = a ∷ s.enders;
      })
  returns :
      (xs ys : List Attempt) (a : Attempt)
      → s.enders ≡ xs ++ a ∷ ys
      → Step s (record s { manager = end_connect a.key s.manager; enders = xs ++ ys })
  disconnects :
      (key : String) (m : Manager)
      → disconnect key s.manager ≡ some m
      → Step s (record s { manager = m })
  disconnects_all : Step s (record s { manager = disconnect_all s.manager })
  tears_down : (a : Attempt) → Step s (record s { manager = tear_down a s.manager })
  removes : (a : Attempt) → Step s (record s { manager = remove_entry a s.manager })

pub data Run (s : Process) : Process → Type 0 where
  start : Run s s
  then_step : {t u : Process} → Run s t → Step t u → Run s u

-- No two connections have the same key.
abbrev pub IsKeyed : List Attempt → Type 0
IsKeyed [] = Unit
IsKeyed (a ∷ bs) = (exists? (has_key a.key) bs ≡ false) × IsKeyed bs

-- The counter is that of the calls, and the connections and the calls that dial are within the
-- limit, if there is one.
pub record IsBounded (s : Process) : Type 0 where
  pub counted : s.manager.dialing ≡ length s.dialers + length s.enders
  pub within :
      0 < s.manager.max_conn → length s.manager.conns + length s.dialers ≤ s.manager.max_conn
  pub keyed : IsKeyed s.manager.conns

length-select_le : {A : Type 0} (p : A → Bool) (xs : List A) → length (select p xs) ≤ length xs
unfolding select
length-select_le p [] = omega arith
length-select_le p (x ∷ xs) = ground (arith, length-select_le p xs)

select-IsKeyed : (q : Attempt → Bool) (bs : List Attempt) → IsKeyed bs → IsKeyed (select q bs)
unfolding select
select-IsKeyed q [] k = tt
select-IsKeyed q (a ∷ bs) k =
    if-holds IsKeyed (q a) _ _ (exists?-select (has_key a.key) q bs k.0, select-IsKeyed q bs k.1)
      (select-IsKeyed q bs k.1)

length-middle : (xs ys : List Attempt) (a : Attempt) → length (xs ++ a ∷ ys) ≡ length (xs ++ ys) + 1
length-middle [] ys a = omega arith
length-middle (x ∷ xs) ys a = ground (arith, length-middle xs ys a)

-- Fewer connections.
fewer-IsBounded :
    (q : Attempt → Bool) (live : List Attempt) (s : Process)
    → IsBounded s
    → IsBounded
        (record s { manager = record s.manager { conns = select q s.manager.conns; live = live } })
fewer-IsBounded q live s h = record {
  counted = h.counted;
  within =
      λ limited. let w = h.within limited in omega (arith, w, length-select_le q s.manager.conns);
  keyed = select-IsKeyed q s.manager.conns h.keyed;
}

abbrev begun_manager : String → Manager → Manager
begun_manager key m = record m { connecting = key ∷ m.connecting; dialing = m.dialing + 1 }

-- A Connect begins below the limit.
abbrev IsRoomy : String → Manager → Begun × Manager → Type 0
IsRoomy key m r =
    r.0 ≡ begun
    → (r.1 ≡ begun_manager key m) × (0 < m.max_conn → length m.conns + m.dialing < m.max_conn)

begin_connect-IsRoomy : (key : String) (m : Manager) → IsRoomy key m (begin_connect key m)
unfolding begin_connect
begin_connect-IsRoomy key m =
    if-holds (IsRoomy key m) (exists? (has_key key) m.conns || exists? (λ k. k == key) m.connecting)
      _ _ (λ e. cc)
      (if-cases (IsRoomy key m) (ltb 0 m.max_conn && leb m.max_conn (length m.conns + m.dialing)) _
        _ (λ full e. cc) (λ room e. (refl, λ limited. ground (arith, room, limited))))

begins-IsBounded :
    (a : Attempt) (s : Process)
    → (begin_connect a.key s.manager).0 ≡ begun
    → IsBounded s
    → IsBounded (record s { manager = (begin_connect a.key s.manager).1; dialers = a ∷ s.dialers })
begins-IsBounded a s goes h =
    let (is, room) = begin_connect-IsRoomy a.key s.manager goes in
    subst (λ m. IsBounded (record s { manager = m; dialers = a ∷ s.dialers })) (sym is)
      (record {
        counted = ap (λ n. n + 1) h.counted ∙ omega arith;
        within = λ limited. let r = room limited in let c = h.counted in omega (arith, r, c);
        keyed = h.keyed;
      })

-- A call that dials goes on to its end.
ending-IsBounded :
    (xs ys : List Attempt) (a : Attempt) (s : Process)
    → s.dialers ≡ xs ++ a ∷ ys
    → IsBounded s
    → (length s.dialers ≡ length (xs ++ ys) + 1)
      × IsBounded (record s { dialers = xs ++ ys; enders = a ∷ s.enders })
ending-IsBounded xs ys a s splits h =
    let fewer : length s.dialers ≡ length (xs ++ ys) + 1 =
      ap length splits ∙ length-middle xs ys a in
    let c = h.counted in
    (
      fewer,
      record {
        counted = omega (arith, c, fewer);
        within = λ limited. let w = h.within limited in omega (arith, w, fewer);
        keyed = h.keyed;
      },
    )

-- What a disconnection leaves.
abbrev IsLess : Process → Option Manager → Type 0
IsLess s r = (m : Manager) → r ≡ some m → IsBounded (record s { manager = m })

disconnect-IsLess : (key : String) (s : Process) → IsBounded s → IsLess s (disconnect key s.manager)
unfolding disconnect
disconnect-IsLess key s h =
    if-holds (IsLess s) (exists? (has_key key) s.manager.conns) _ _
      (λ m e.
        subst (λ n. IsBounded (record s { manager = n })) (cc)
          (fewer-IsBounded (λ b. not (has_key key b))
            (select (λ a. not (exists? (λ c. has_key key c && same c a) s.manager.conns))
              s.manager.live)
            s h))
      (λ m e. cc)

Step-IsBounded : {s t : Process} → Step s t → IsBounded s → IsBounded t
unfolding register end_connect disconnect disconnect_all tear_down remove_entry
Step-IsBounded {s} (begins a goes) h = begins-IsBounded a s goes h
Step-IsBounded {s} (gives_up xs ys a splits) h = (ending-IsBounded xs ys a s splits h).1
Step-IsBounded {s} (registers xs ys a splits) h =
    let (fewer, ended) = ending-IsBounded xs ys a s splits h in
    if-cases
      (λ (r : Bool × Manager).
        IsBounded (record s { manager = r.1; dialers = xs ++ ys; enders = a ∷ s.enders }))
      (exists? (has_key a.key) s.manager.conns) _ _ (λ duplicate. ended)
      (λ new. record {
        counted = ended.counted;
        within = λ limited. let w = h.within limited in omega (arith, w, fewer);
        keyed = (new, h.keyed);
      })
Step-IsBounded {s} (returns xs ys a splits) h =
    let fewer : length s.enders ≡ length (xs ++ ys) + 1 =
      ap length splits ∙ length-middle xs ys a in
    let c = h.counted in
    record { counted = omega (arith, c, fewer); within = h.within; keyed = h.keyed }
Step-IsBounded {s} (disconnects key m goes) h = disconnect-IsLess key s h m goes
Step-IsBounded {s} disconnects_all h = record {
  counted = h.counted;
  within = λ limited. let w = h.within limited in omega (arith, w);
  keyed = tt;
}
Step-IsBounded {s} (tears_down a) h = record {
  counted = h.counted;
  within = h.within;
  keyed = h.keyed;
}
Step-IsBounded {s} (removes a) h = fewer-IsBounded (λ b. not (has_key a.key b)) s.manager.live s h

Run-keeps_IsBounded : {s t : Process} → Run s t → IsBounded s → IsBounded t
Run-keeps_IsBounded start h = h
Run-keeps_IsBounded (then_step r st) h = Step-IsBounded st (Run-keeps_IsBounded r h)

-- Whatever calls of Connect run at once, in whatever order their critical sections come between
-- those of the disconnections and of the connectors' errors: the counter of dialing calls is their
-- number, the connections and the calls that dial are together within the limit if there is one,
-- and no two connections have the same key.
pub Run-IsBounded : (max_conn : ℕ) (s : Process) → Run (idle max_conn) s → IsBounded s
Run-IsBounded max_conn s r =
    Run-keeps_IsBounded r
      (record { counted = refl; within = λ limited. omega (arith, limited); keyed = tt })
